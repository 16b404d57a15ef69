-- ===== src/ByteArray/Zigzag.antt =====
-- The zigzag coding of signed integers.
use native.Mathlib.Nat.{mod_self, mul-add-mod_self_left, pow-suc, one-le-pow, mod-eq_of_lt}
use cczoecpp.Common.{
  ℕ, zero, suc, ◌+◌, ◌-◌, ◌*◌, ◌/◌, ◌%◌, ◌^◌, ◌≤◌, ◌<◌, ◌≡◌, ◌⊎◌, inl, inr, ap, ap₂, ◌∙◌, bit_and,
  bit_xor, some, none, arith,
}
use cczoecpp.Common.Bits.{bit_and_mask, bit_xor_ones, bit_xor-zero}
use cczoecpp.ByteArray.Varint.{encode_zigzag, decode_zigzag}

-- The integers of `w` bits whose double fits as well, as patterns: from -2 ^ (w - 1) + 1 to
-- 2 ^ (w - 2) - 1.
abbrev pub IsEncodable : ℕ → ℕ → Type 0
IsEncodable w v = (v < 2 ^ (w - 2)) ⊎ ((2 ^ (w - 1) < v) × (v < 2 ^ w))

decode_even : (w n : ℕ) → decode_zigzag w (n * 2) ≡ n
unfolding decode_zigzag
decode_even w n = ap₂ bit_xor half (ap (λ t. (2 ^ w - t) % 2 ^ w) low ∙ none_left) ∙ bit_xor-zero n
  where
    half : n * 2 / 2 ≡ n
    half = omega arith

    low : bit_and (n * 2) 1 ≡ 0
    low = bit_and_mask 1 (n * 2) ∙ omega arith

    whole : 2 ^ w - 0 ≡ 2 ^ w
    whole = omega arith

    none_left : (2 ^ w - 0) % 2 ^ w ≡ 0
    none_left = ap (λ t. t % 2 ^ w) whole ∙ mod_self (2 ^ w)

decode_odd : (w n : ℕ) → n < 2 ^ w → decode_zigzag w (n * 2 + 1) ≡ 2 ^ w - 1 - n
unfolding decode_zigzag
decode_odd w n h =
    ap₂ bit_xor half (ap (λ t. (2 ^ w - t) % 2 ^ w) low ∙ all_ones) ∙ bit_xor_ones w n h
  where
    half : (n * 2 + 1) / 2 ≡ n
    half = omega arith

    low : bit_and (n * 2 + 1) 1 ≡ 1
    low = bit_and_mask 1 (n * 2 + 1) ∙ omega arith

    all_ones : (2 ^ w - 1) % 2 ^ w ≡ 2 ^ w - 1
    all_ones = mod-eq_of_lt (omega (arith, one-le-pow w 2 (omega arith)))

double_pow : (k : ℕ) → 1 ≤ k → 2 ^ k ≡ 2 * 2 ^ (k - 1)
double_pow zero h = absurd (omega arith)
double_pow (suc k) h = let e : suc k - 1 ≡ k = omega arith in rw e (omega (arith, pow-suc 2 k))

module _ (w v : ℕ) (wide : 2 ≤ w) where
  powers : (2 ^ w ≡ 2 * 2 ^ (w - 1)) × (2 ^ (w - 1) ≡ 2 * 2 ^ (w - 2))
  powers =
      (double_pow w (omega arith), double_pow (w - 1) (omega arith) ∙ ap (λ t. 2 * 2 ^ t) two_less)
    where
      two_less : w - 1 - 1 ≡ w - 2
      two_less = omega arith

  positive : v < 2 ^ (w - 2) → encode_zigzag w v ≡ some (v * 2)
  unfolding encode_zigzag
  positive h = ground (arith, powers)

  negative : 2 ^ (w - 1) < v → v < 2 ^ w → encode_zigzag w v ≡ some ((2 ^ w - v - 1) * 2 + 1)
  unfolding encode_zigzag
  negative h k = ground (arith, powers, coded)
    where
      doubled : (2 ^ w - v) * 2 % 2 ^ w ≡ (2 ^ w - v) * 2
      doubled = mod-eq_of_lt (omega (arith, powers))

      wrapped : (2 ^ w - v) * 2 + 2 ^ w - 1 ≡ 2 ^ w * 1 + ((2 ^ w - v - 1) * 2 + 1)
      wrapped = omega arith

      coded : ((2 ^ w - v) * 2 % 2 ^ w + 2 ^ w - 1) % 2 ^ w ≡ (2 ^ w - v - 1) * 2 + 1
      coded =
          ap (λ t. (t + 2 ^ w - 1) % 2 ^ w) doubled
          ∙ ap (λ t. t % 2 ^ w) wrapped
          ∙ mul-add-mod_self_left (2 ^ w) 1 ((2 ^ w - v - 1) * 2 + 1)
          ∙ mod-eq_of_lt (omega (arith, powers))

  -- For a width of two bits or more, the coding of an integer whose double fits the width is a number
  -- of that width, and decoding gives the integer back.
  pub decode-encode :
      IsEncodable w v
      → (u : ℕ) × (encode_zigzag w v ≡ some u) × (u < 2 ^ w) × (decode_zigzag w u ≡ v)
  decode-encode (inl h) = (v * 2, positive h, omega (arith, powers), decode_even w v)
  decode-encode (inr (h, k)) = (
    (2 ^ w - v - 1) * 2 + 1,
    negative h k,
    omega (arith, powers),
    decode_odd w (2 ^ w - v - 1) (omega arith) ∙ omega arith,
  )

  -- On every other integer it overflows the signed type.
  pub encode_overflow : 2 ^ (w - 2) ≤ v → v ≤ 2 ^ (w - 1) → encode_zigzag w v ≡ none
  unfolding encode_zigzag
  encode_overflow h k = ground (arith, powers)

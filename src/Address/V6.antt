-- ===== src/Address/V6.antt =====
-- The network computations of an IPv6 address, as arithmetic on the number that its bytes write.
use cczoecpp.Common.{
  ℕ, zero, suc, ◌+◌, ◌-◌, ◌*◌, ◌%◌, ◌^◌, ◌≤◌, ◌<◌, ◌≡◌, refl, ap, ◌∙◌, bit_and, lt→ltb, le→ltb,
  arith, List, [], ◌∷◌, length, All, ◌⊎◌, inl, inr,
}
use cczoecpp.Common.Bits.{bit_and_mask}
use cczoecpp.Common.Masks.{bit_and_high, ones_shifted, low_bits_high, low_bits_across, pow_two_add}
use cczoecpp.Address.{IPv6Address, address, network_loop, network_address_v6}
use native.Mathlib.Nat.{mod-le, mod-eq_of_lt}

abbrev pub AreBytes : List ℕ → Type 0
AreBytes = All (λ b. b < 2 ^ 8)

-- The number that bytes write, the first byte first.
abbrev pub value : List ℕ → ℕ
value [] = 0
value (b ∷ bytes) = b * 2 ^ (8 * length bytes) + value bytes

pub bits_suc : (n : ℕ) → 8 * suc n ≡ 8 + 8 * n
bits_suc n = omega arith

pub value_bound : (bytes : List ℕ) → AreBytes bytes → value bytes < 2 ^ (8 * length bytes)
value_bound [] h = omega arith
value_bound (b ∷ bytes) (h, k) = omega (
  arith,
  below b 256 (2 ^ (8 * length bytes)) (value bytes) h (value_bound bytes k),
  ap (λ n. 2 ^ n) (bits_suc (length bytes)),
  pow_two_add 8 (8 * length bytes),
)
  where
    below : (r x y v : ℕ) → r < x → v < y → r * y + v < x * y
    below r zero y v l m = absurd (omega arith)
    below zero (suc x) y v l m = omega arith
    below (suc r) (suc x) y v l m = omega (arith, below r x y v (omega (arith, l)) m)

le_total : (a b : ℕ) → (a ≤ b) ⊎ (b < a)
le_total zero b = inl (omega arith)
le_total (suc a) zero = inr (omega arith)
le_total (suc a) (suc b) = elim (le_total a b) [
  | inl h ↦ inl (omega (arith, h))
  | inr h ↦ inr (omega (arith, h))
]

module _ (b : ℕ) (bytes : List ℕ) (p : ℕ) where
  network_loop_behind :
      8 < p → network_loop p (b ∷ bytes) ≡ bit_and b 255 ∷ network_loop (p - 8) bytes
  unfolding network_loop
  network_loop_behind h = rw (lt→ltb 8 p h, network_loop)

  network_loop_within :
      p ≤ 8
      → network_loop p (b ∷ bytes) ≡ bit_and b (255 * 2 ^ (8 - p) % 2 ^ 8) ∷ network_loop 0 bytes
  unfolding network_loop
  network_loop_within h = rw (le→ltb 8 p h, network_loop)

length-network_loop : (p : ℕ) (bytes : List ℕ) → length (network_loop p bytes) ≡ length bytes
unfolding network_loop
length-network_loop p [] = refl
length-network_loop p (b ∷ bytes) = elim (le_total p 8) [
  | inl h ↦ ap length (network_loop_within b bytes p h) ∙ ap suc (length-network_loop 0 bytes)
  | inr h ↦ ap length (network_loop_behind b bytes p h) ∙ ap suc (length-network_loop (p - 8) bytes)
]

-- The bits of the host, below a boundary at or behind the first byte.
module _ (b : ℕ) (bytes : List ℕ) (h : AreBytes bytes) where
  host_behind :
      (p : ℕ)
      → 8 < p
      → value (b ∷ bytes) % 2 ^ (8 * suc (length bytes) - p)
        ≡ value bytes % 2 ^ (8 * length bytes - (p - 8))
  host_behind p k =
      let e : 8 * suc (length bytes) - p ≡ 8 * length bytes - (p - 8) = omega (arith, k) in
      rw e (
        low_bits_high b (8 * length bytes - (p - 8)) (8 * length bytes) (value bytes) (omega arith))

  pub host_within :
      (p : ℕ)
      → p ≤ 8
      → value (b ∷ bytes) % 2 ^ (8 * suc (length bytes) - p)
        ≡ b % 2 ^ (8 - p) * 2 ^ (8 * length bytes) + value bytes
  host_within p k =
      let e : 8 * suc (length bytes) - p ≡ 8 - p + 8 * length bytes = omega (arith, k) in
      rw e (low_bits_across b (8 - p) (8 * length bytes) (value bytes) (value_bound bytes h))

byte_within : (b p : ℕ) → b < 2 ^ 8 → bit_and b (255 * 2 ^ (8 - p) % 2 ^ 8) ≡ b - b % 2 ^ (8 - p)
byte_within b p h =
    ap (bit_and b) (ones_shifted (8 - p) 8 (omega arith)) ∙ bit_and_high (8 - p) 8 b (omega arith) h

pub sub_mul : (r b m : ℕ) → r ≤ b → (b - r) * m + r * m ≡ b * m
sub_mul zero b m h = let e : b - 0 ≡ b = omega arith in rw e (omega arith)
sub_mul (suc r) zero m h = absurd (omega arith)
sub_mul (suc r) (suc b) m h =
    let e : suc b - suc r ≡ b - r = omega arith in
    rw e (omega (arith, sub_mul r b m (omega (arith, h))))

value-network_loop :
    (p : ℕ) (bytes : List ℕ)
    → AreBytes bytes
    → value (network_loop p bytes) ≡ value bytes - value bytes % 2 ^ (8 * length bytes - p)
unfolding network_loop
value-network_loop p [] h = omega arith
value-network_loop p (b ∷ bytes) (l, h) = elim (le_total p 8) [
  | inl k ↦ omega (
    arith,
    ap value (network_loop_within b bytes p k),
    ap (λ n. bit_and b (255 * 2 ^ (8 - p) % 2 ^ 8) * 2 ^ (8 * n)) (length-network_loop 0 bytes),
    ap (λ n. n * 2 ^ (8 * length bytes)) (byte_within b p l),
    host_within b bytes h p k,
    value-network_loop 0 bytes h,
    ap (λ n. value bytes % 2 ^ n) {x = 8 * length bytes - 0} {y = 8 * length bytes} (omega arith),
    mod-eq_of_lt (value_bound bytes h),
    sub_mul (b % 2 ^ (8 - p)) b (2 ^ (8 * length bytes)) (mod-le b (2 ^ (8 - p))),
  )
  | inr k ↦ omega (
    arith,
    ap value (network_loop_behind b bytes p k),
    ap (λ n. bit_and b 255 * 2 ^ (8 * n)) (length-network_loop (p - 8) bytes),
    ap (λ n. n * 2 ^ (8 * length bytes)) (bit_and_mask 8 b ∙ mod-eq_of_lt l),
    host_behind b bytes h p k,
    value-network_loop (p - 8) bytes h,
    mod-le (value bytes) (2 ^ (8 * length bytes - (p - 8))),
  )
]

-- For a prefix of 0 to 128 bits, `networkAddress` clears exactly the bits behind the prefix, in the
-- number that the sixteen bytes write.
pub network_address_v6_lem :
    (p : ℕ) (a : IPv6Address)
    → p ≤ 128
    → AreBytes a.bytes
    → length a.bytes ≡ 16
    → (bytes : List ℕ) × (network_address_v6 p a ≡ address (record a { bytes = bytes }))
      × (length bytes ≡ 16)
      × (value bytes ≡ value a.bytes - value a.bytes % 2 ^ (128 - p))
unfolding network_address_v6
network_address_v6_lem p a h k l = (
  network_loop p a.bytes,
  rw (le→ltb 128 p h),
  length-network_loop p a.bytes ∙ l,
  value-network_loop p a.bytes k ∙ ap (λ n. value a.bytes - value a.bytes % 2 ^ (8 * n - p)) l,
)

-- ===== src/Address/Broadcast.antt =====
-- `broadcastAddress` of an IPv6 address, as arithmetic on the number that its bytes write.
use cczoecpp.Common.{
  ℕ, zero, suc, ◌+◌, ◌-◌, ◌*◌, ◌/◌, ◌%◌, ◌^◌, ◌≤◌, ◌<◌, ◌≡◌, refl, ap, ◌∙◌, bit_or, some, none,
  le→ltb, subst, arith, List, [], ◌∷◌, length, replicate, length-replicate,
}
use cczoecpp.Common.Masks.{bit_or_low, low_bits_high, pow_two_add}
use cczoecpp.Address.{
  IPv4Address, network_address_v4, broadcast_address_v4, subnet_mask_v4, prefix_mask, IPv6Address,
  undefined, address, fill_from, broadcast_address_v6,
}
use native.Mathlib.Nat.{mod-le, mod-lt, one-le-pow}
use cczoecpp.Address.V6.{AreBytes, value, bits_suc, host_within, sub_mul}

-- The loop of `broadcastAddress` over the bytes behind the first one that it changes.
length-ones : (n : ℕ) → length {A = ℕ} (replicate n 255) ≡ n
length-ones n = length-replicate n 255

value-ones : (n : ℕ) → value (replicate n 255) ≡ 2 ^ (8 * n) - 1
value-ones zero = refl
value-ones (suc n) = omega (
  arith,
  ap (λ m. 255 * 2 ^ (8 * m)) (length-ones n),
  value-ones n,
  ap (λ m. 2 ^ m) (bits_suc n),
  pow_two_add 8 (8 * n),
  one-le-pow (8 * n) 2,
)

-- The mask of the byte with the boundary.
byte_ones : (r : ℕ) → r < 8 → 255 / 2 ^ r ≡ 2 ^ (8 - r) - 1
byte_ones zero h = refl
byte_ones (suc zero) h = refl
byte_ones (suc (suc zero)) h = refl
byte_ones (suc (suc (suc zero))) h = refl
byte_ones (suc (suc (suc (suc zero)))) h = refl
byte_ones (suc (suc (suc (suc (suc zero))))) h = refl
byte_ones (suc (suc (suc (suc (suc (suc zero)))))) h = refl
byte_ones (suc (suc (suc (suc (suc (suc (suc zero))))))) h = refl
byte_ones (suc (suc (suc (suc (suc (suc (suc (suc r)))))))) h = absurd (omega arith)

abbrev Filled : ℕ → List ℕ → List ℕ → Type 0
Filled c bytes out =
    (length out ≡ length bytes) × (value out ≡ value bytes - value bytes % 2 ^ c + (2 ^ c - 1))

Filled-here :
    (r b : ℕ) (bytes : List ℕ)
    → r < 8
    → AreBytes (b ∷ bytes)
    → Filled
        (8 * suc (length bytes) - (8 * 0 + r))
        (b ∷ bytes)
        (bit_or b (255 / 2 ^ r) ∷ replicate (length bytes) 255)
Filled-here r b bytes l (k, h) =
    let e : 8 * suc (length bytes) - (8 * 0 + r) ≡ 8 * suc (length bytes) - r = omega arith in
    rw e (
      ap suc (length-ones (length bytes)),
      omega (
        arith,
        ap (λ n. bit_or b (255 / 2 ^ r) * 2 ^ (8 * n)) (length-ones (length bytes)),
        ap (λ n. n * 2 ^ (8 * length bytes)) (ap (bit_or b) (byte_ones r l) ∙ bit_or_low (8 - r) b),
        value-ones (length bytes),
        host_within b bytes h r (omega arith),
        ap (λ n. 2 ^ n) {x = 8 * suc (length bytes) - r} {y = 8 - r + 8 * length bytes}
            (omega arith),
        pow_two_add (8 - r) (8 * length bytes),
        regroup b (b % 2 ^ (8 - r)) (2 ^ (8 - r)) (2 ^ (8 * length bytes)) (mod-le b (2 ^ (8 - r)))
            (one-le-pow (8 - r) 2 (omega arith)),
        one-le-pow (8 * length bytes) 2,
      ),
    )
  where
    regroup : (x q y m : ℕ) → q ≤ x → 0 < y → (x - q + (y - 1)) * m + q * m + m ≡ x * m + y * m
    regroup x q zero m f g = absurd (omega arith)
    regroup x q (suc y) m f g = omega (arith, sub_mul q x m f, e)
      where
        e : (x - q + (suc y - 1)) * m ≡ (x - q) * m + y * m
        e = let d : suc y - 1 ≡ y = omega arith in rw d (omega arith)

fill_from_lem :
    (i r : ℕ) (bytes : List ℕ)
    → r < 8
    → i < length bytes
    → AreBytes bytes
    → (out : List ℕ) × (fill_from i (255 / 2 ^ r) bytes ≡ some out)
      × Filled (8 * length bytes - (8 * i + r)) bytes out
unfolding fill_from
fill_from_lem i r [] l k h = absurd (omega arith)
fill_from_lem zero r (b ∷ bytes) l k h =
    (bit_or b (255 / 2 ^ r) ∷ replicate (length bytes) 255, refl, Filled-here r b bytes l h)
fill_from_lem (suc i) r (b ∷ bytes) l k (f, h) =
    let (out, e, (m, v)) = fill_from_lem i r bytes l (omega (arith, k)) h in
    let c : 8 * suc (length bytes) - (8 * suc i + r) ≡ 8 * length bytes - (8 * i + r) =
      omega arith in
    (
      b ∷ out,
      rw (e, fill_from),
      (
        ap suc m,
        rw c (
            omega (
              arith,
              v,
              ap (λ n. b * 2 ^ (8 * n)) m,
              low_bits_high b (8 * length bytes - (8 * i + r)) (8 * length bytes) (value bytes)
                  (omega arith),
              mod-le (value bytes) (2 ^ (8 * length bytes - (8 * i + r))),
            )),
      ),
    )

fill_from-behind : (i mask : ℕ) (bytes : List ℕ) → length bytes ≡ i → fill_from i mask bytes ≡ none
unfolding fill_from
fill_from-behind i mask [] e = refl
fill_from-behind zero mask (b ∷ bytes) e = absurd (omega arith)
fill_from-behind (suc i) mask (b ∷ bytes) e =
    rw (fill_from-behind i mask bytes (omega (arith, e)), fill_from)

-- For a prefix below 128 bits, `broadcastAddress` keeps the prefix and sets every bit behind it, in
-- the number that the sixteen bytes write.
pub broadcast_address_v6_lem :
    (p : ℕ) (a : IPv6Address)
    → p < 128
    → AreBytes a.bytes
    → length a.bytes ≡ 16
    → (bytes : List ℕ) × (broadcast_address_v6 p a ≡ address (record a { bytes = bytes }))
      × (length bytes ≡ 16)
      × (value bytes ≡ value a.bytes - value a.bytes % 2 ^ (128 - p) + (2 ^ (128 - p) - 1))
unfolding broadcast_address_v6
broadcast_address_v6_lem p a k h l =
    let (out, e, (m, v)) =
      fill_from_lem (p / 8) (p % 8) a.bytes (mod-lt p {m = 8} (omega arith)) (omega (arith, l, k))
        h in
    let c : 8 * length a.bytes - (8 * (p / 8) + p % 8) ≡ 128 - p = omega (arith, l) in
    (
      out,
      rw (le→ltb 128 p (omega (arith, k)), e, broadcast_address_v6),
      m ∙ l,
      subst (λ n. value out ≡ value a.bytes - value a.bytes % 2 ^ n + (2 ^ n - 1)) c v,
    )

-- At the ends of the range of prefixes: the prefix of no bits shifts a word of IPv4 by its whole
-- width, and the broadcast address of IPv6 for 128 bits writes the byte behind the array. Both are
-- undefined.
pub boundary_undefined :
    (a : IPv4Address) (b : IPv6Address)
    → length b.bytes ≡ 16
    → (network_address_v4 0 a ≡ undefined)
      × (broadcast_address_v4 0 a ≡ undefined)
      × (subnet_mask_v4 0 a ≡ undefined)
      × (broadcast_address_v6 128 b ≡ undefined)
unfolding network_address_v4 broadcast_address_v4 subnet_mask_v4 prefix_mask broadcast_address_v6
boundary_undefined a b l =
    (refl, refl, refl, rw (fill_from-behind 16 255 b.bytes l, broadcast_address_v6))

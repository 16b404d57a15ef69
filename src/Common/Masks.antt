-- ===== src/Common/Masks.antt =====
-- Masks of high and of low bits as arithmetic, and the number of ones in a word.
use Prim.Native.Nat.{◌*◌, ℕ, zero, suc, ◌+◌, ◌-◌, ◌/◌, ◌%◌, ◌^◌, ◌≤◌, ◌<◌, bit_and, bit_or}
use mathlib.Core.Path.{sym, ap₂, ◌∙◌, ◌≡◌, refl, ap}
use native.Mathlib.Nat.{
  div-add-mod, mul-add-mod_self_left, pow-suc, one-le-pow, mod-eq_of_lt, mod-one, mod-lt,
  pow-le-pow_right,
}
use native.Mathlib.Omega.{arith}
use cczoecpp.Common.Bits.{bit_or_digit, bit_and_digit, bit_and_mask, mod-two-pow}

module _ (k : ℕ) where
  low_half : (2 ^ suc k - 1) / 2 ≡ 2 ^ k - 1
  low_half = omega (arith, pow-suc 2 k, one-le-pow k 2)

  low_digit : (2 ^ suc k - 1) % 2 ≡ 1
  low_digit = omega (arith, pow-suc 2 k, one-le-pow k 2)

  module _ (n : ℕ) where
    high_half : (2 ^ suc n - 2 ^ suc k) / 2 ≡ 2 ^ n - 2 ^ k
    high_half = omega (arith, pow-suc 2 k, pow-suc 2 n)

    high_digit : (2 ^ suc n - 2 ^ suc k) % 2 ≡ 0
    high_digit = omega (arith, pow-suc 2 k, pow-suc 2 n)

-- `|` with `k` ones fills the low bits.
pub bit_or_low : (k a : ℕ) → bit_or a (2 ^ k - 1) ≡ a - a % 2 ^ k + (2 ^ k - 1)
bit_or_low zero zero = refl
bit_or_low zero (suc a) = omega (arith, mod-one (suc a), bit_or_zero (suc a))
  where
    bit_or_zero_fuel : (n b : ℕ) → b ≤ n → bit_or b 0 ≡ b
    bit_or_zero_fuel n zero h = refl
    bit_or_zero_fuel zero (suc b) h = absurd (omega arith)
    bit_or_zero_fuel (suc n) (suc b) h =
        omega (arith, bit_or_digit (suc b) 0, bit_or_zero_fuel n (suc b / 2) (omega arith))

    bit_or_zero : (b : ℕ) → bit_or b 0 ≡ b
    bit_or_zero b = bit_or_zero_fuel b b (omega arith)
bit_or_low (suc k) a = omega (
  arith,
  bit_or_digit a (2 ^ suc k - 1),
  ap (bit_or (a / 2)) (low_half k),
  low_digit k,
  bit_or_low k (a / 2),
  mod-two-pow k a,
  pow-suc 2 k,
  one-le-pow k 2,
  mod-lt (a / 2) {m = 2 ^ k} (one-le-pow k 2 (omega arith)),
)

-- `&` with the high ones of a word of `n` bits clears the `k` low bits.
pub bit_and_high : (k n a : ℕ) → k ≤ n → a < 2 ^ n → bit_and a (2 ^ n - 2 ^ k) ≡ a - a % 2 ^ k
bit_and_high zero n a h l = omega (arith, mod-one a, bit_and_mask n a, mod-eq_of_lt l)
bit_and_high (suc k) zero a h l = absurd (omega arith)
bit_and_high (suc k) (suc n) a h l = omega (
  arith,
  bit_and_digit a (2 ^ suc n - 2 ^ suc k),
  ap (bit_and (a / 2)) (high_half k n),
  high_digit k n,
  bit_and_high k n (a / 2) (omega (arith, h)) (omega (arith, l, pow-suc 2 n)),
  mod-two-pow k a,
)

-- `|` with these ones sets all but the low bits.
pub bit_or_high :
    (k n a : ℕ) → k ≤ n → a < 2 ^ n → bit_or a (2 ^ n - 2 ^ k) ≡ 2 ^ n - 2 ^ k + a % 2 ^ k
bit_or_high zero n a h l = omega (arith, mod-one a, bit_or_low n a, mod-eq_of_lt l, one-le-pow n 2)
bit_or_high (suc k) zero a h l = absurd (omega arith)
bit_or_high (suc k) (suc n) a h l = omega (
  arith,
  bit_or_digit a (2 ^ suc n - 2 ^ suc k),
  ap (bit_or (a / 2)) (high_half k n),
  high_digit k n,
  bit_or_high k n (a / 2) (omega (arith, h)) (omega (arith, l, pow-suc 2 n)),
  mod-two-pow k a,
  pow-suc 2 k,
  pow-suc 2 n,
  pow-le-pow_right {n = 2} (omega arith) {i = k} {j = n} (omega (arith, h)),
)

-- `std::popcount` of a word of `n` bits.
abbrev pub popcount : ℕ → ℕ → ℕ
popcount zero a = 0
popcount (suc n) a = a % 2 + popcount n (a / 2)

popcount-zero : (n : ℕ) → popcount n 0 ≡ 0
popcount-zero zero = refl
popcount-zero (suc n) = omega (arith, popcount-zero n)

pub popcount-high : (k n : ℕ) → k ≤ n → popcount n (2 ^ n - 2 ^ k) ≡ n - k
popcount-high zero zero h = refl
popcount-high zero (suc n) h =
    omega (arith, low_digit n, ap (popcount n) (low_half n), popcount-high zero n (omega arith))
popcount-high (suc k) zero h = absurd (omega arith)
popcount-high (suc k) (suc n) h =
    omega
      (arith, high_digit k n, ap (popcount n) (high_half k n), popcount-high k n (omega (arith, h)))

ones_regroup : (a b : ℕ) → b ≤ a → a * suc b ≡ suc a * b + (a - b)
ones_regroup a b h = omega arith

ones_shift : (a b : ℕ) → 0 < b → b ≤ a → (a - 1) * b % a ≡ a - b
ones_shift a zero h k = absurd (omega arith)
ones_shift zero (suc b) h k = absurd (omega arith)
ones_shift (suc a) (suc b) h k =
    ap (λ n. n % suc a) e
    ∙ mul-add-mod_self_left (suc a) b (a - b)
    ∙ mod-eq_of_lt (omega arith)
    ∙ omega arith
  where
    e : (suc a - 1) * suc b ≡ suc a * b + (a - b)
    e = ap (λ n. n * suc b) (omega arith) ∙ ones_regroup a b (omega (arith, k))

-- A word of ones shifted to the left keeps its high ones.
pub ones_shifted : (k n : ℕ) → k ≤ n → (2 ^ n - 1) * 2 ^ k % 2 ^ n ≡ 2 ^ n - 2 ^ k
ones_shifted k n h =
    ones_shift (2 ^ n) (2 ^ k) (one-le-pow k 2 (omega arith))
      (pow-le-pow_right {n = 2} (omega arith) {i = k} {j = n} h)

pub pow_two_add : (m n : ℕ) → 2 ^ (m + n) ≡ 2 ^ m * 2 ^ n
pow_two_add zero n = ap (λ k. 2 ^ k) {y = n} (omega arith) ∙ omega arith
pow_two_add (suc m) n =
    ap (λ k. 2 ^ k) {y = suc (m + n)} (omega arith)
    ∙ pow-suc 2 (m + n)
    ∙ ap (λ k. k * 2) (pow_two_add m n)
    ∙ regroup (2 ^ m) (2 ^ n)
    ∙ ap (λ k. k * 2 ^ n) (sym (pow-suc 2 m))
  where
    regroup : (a b : ℕ) → a * b * 2 ≡ a * 2 * b
    regroup a b = omega arith

-- The low bits of a word do not depend on what stands above them.
pub low_bits_high : (a j m v : ℕ) → j ≤ m → (a * 2 ^ m + v) % 2 ^ j ≡ v % 2 ^ j
low_bits_high a j m v h = ap (λ n. n % 2 ^ j) e ∙ mul-add-mod_self_left (2 ^ j) (a * 2 ^ (m - j)) v
  where
    regroup : (x y z : ℕ) → x * (y * z) + v ≡ y * (x * z) + v
    regroup x y z = omega arith

    e : a * 2 ^ m + v ≡ 2 ^ j * (a * 2 ^ (m - j)) + v
    e =
        ap (λ n. a * n + v)
          (ap (λ k. 2 ^ k) {y = j + (m - j)} (omega (arith, h)) ∙ pow_two_add j (m - j))
        ∙ regroup a (2 ^ j) (2 ^ (m - j))

-- Bits that reach above the boundary at `m` are those of the upper part and all of the lower.
pub low_bits_across :
    (a k m v : ℕ) → v < 2 ^ m → (a * 2 ^ m + v) % 2 ^ (k + m) ≡ a % 2 ^ k * 2 ^ m + v
low_bits_across a k m v h =
    ap₂ (λ x y. x % y) (ap (λ n. n * 2 ^ m + v) (sym (div-add-mod a (2 ^ k))) ∙ split)
      (pow_two_add k m)
    ∙ mul-add-mod_self_left (2 ^ k * 2 ^ m) (a / 2 ^ k) (a % 2 ^ k * 2 ^ m + v)
    ∙ mod-eq_of_lt (below (2 ^ k) (a % 2 ^ k) (mod-lt a {m = 2 ^ k} (one-le-pow k 2 (omega arith))))
  where
    split_at : (x q r y : ℕ) → (x * q + r) * y + v ≡ x * y * q + (r * y + v)
    split_at x q r y = omega arith

    split :
        (2 ^ k * (a / 2 ^ k) + a % 2 ^ k) * 2 ^ m + v
        ≡ 2 ^ k * 2 ^ m * (a / 2 ^ k) + (a % 2 ^ k * 2 ^ m + v)
    split = split_at (2 ^ k) (a / 2 ^ k) (a % 2 ^ k) (2 ^ m)

    below : (x r : ℕ) → r < x → r * 2 ^ m + v < x * 2 ^ m
    below zero r l = absurd (omega arith)
    below (suc x) zero l = omega (arith, h)
    below (suc x) (suc r) l = omega (arith, below x r (omega (arith, l)))

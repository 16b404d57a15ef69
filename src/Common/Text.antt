-- ===== src/Common/Text.antt =====
-- Strings as their bytes: equality, lexicographic order and lower case.
use Prim.Native.Nat.{◌/◌, ◌%◌, ℕ, zero, suc, ◌+◌, ◌≤◌, min, compare, Ordering}
use Prim.Native.String.{String}
use Prim.Native.Char.{code}
use mathlib.Core.Path.{◌≡◌, refl, ap₂}
use mathlib.Core.Logic.{inl, inr}
use mathlib.Core.Bool.{Bool, true, false, ◌&&◌}
use mathlib.Core.List.{◌++◌, List, [], ◌∷◌, map}
use native.Mathlib.Omega.{arith}
use cczoecpp.Common.Tests.{ltb, leb, ◌==◌, if◌then◌else◌, Bool-cases}
use cczoecpp.Common.Lists.{length, take}

-- The bytes of an ASCII text.
abbrev pub bytes_of : String → List ℕ
bytes_of String.[] = []
bytes_of (String.◌∷◌ c s) = code c ∷ bytes_of s

-- A number in decimal digits; `fuel` of one more than the number is enough.
abbrev pub digits : ℕ → ℕ → List ℕ
digits zero n = []
digits (suc fuel) n =
    if ltb n 10 then (48 + n) ∷ [] else digits fuel (n / 10) ++ ((48 + n % 10) ∷ [])

unfoldable pub decimal : ℕ → List ℕ
decimal n = digits (suc n) n

-- `std::string` equality.
abbrev pub same_bytes : List ℕ → List ℕ → Bool
same_bytes [] [] = true
same_bytes [] (y ∷ ys) = false
same_bytes (x ∷ xs) [] = false
same_bytes (x ∷ xs) (y ∷ ys) = (x == y) && same_bytes xs ys

-- `tolower` in the C locale.
abbrev pub to_lower : ℕ → ℕ
to_lower c = if leb 65 c then (if leb c 90 then c + 32 else c) else c

abbrev pub lower : List ℕ → List ℕ
lower key = map to_lower key

abbrev pub compare_bytes : List ℕ → List ℕ → Ordering
compare_bytes [] [] = Ordering.eq
compare_bytes [] (y ∷ ys) = Ordering.lt
compare_bytes (x ∷ xs) [] = Ordering.gt
compare_bytes (x ∷ xs) (y ∷ ys) = elim (compare x y) [
  | Ordering.lt ↦ Ordering.lt
  | Ordering.eq ↦ compare_bytes xs ys
  | Ordering.gt ↦ Ordering.gt
]

pub same_bytes_lem : (xs ys : List ℕ) → same_bytes xs ys ≡ true → xs ≡ ys
same_bytes_lem [] [] h = refl
same_bytes_lem [] (y ∷ ys) h = ground arith
same_bytes_lem (x ∷ xs) [] h = ground arith
same_bytes_lem (x ∷ xs) (y ∷ ys) h = elim (Bool-cases (x == y)) [
  | inl k ↦ ap₂ (λ (a : ℕ) rest. a ∷ rest) (ground arith) (same_bytes_lem xs ys (ground arith))
  | inr k ↦ ground arith
]

pub same_bytes_self : (xs : List ℕ) → same_bytes xs xs ≡ true
same_bytes_self [] = refl
same_bytes_self (x ∷ xs) = ground (arith, same_bytes_self xs)

pub compare_bytes_self : (xs : List ℕ) → compare_bytes xs xs ≡ Ordering.eq
compare_bytes_self [] = refl
compare_bytes_self (x ∷ xs) = ground (arith, compare_bytes_self xs)

pub compare_bytes_eq : (xs ys : List ℕ) → compare_bytes xs ys ≡ Ordering.eq → xs ≡ ys
compare_bytes_eq [] [] h = refl
compare_bytes_eq [] (y ∷ ys) h = ground arith
compare_bytes_eq (x ∷ xs) [] h = ground arith
compare_bytes_eq (x ∷ xs) (y ∷ ys) h =
    ap₂ (λ (a : ℕ) rest. a ∷ rest) (ground arith) (compare_bytes_eq xs ys (ground arith))

-- The order that does not hold one way holds the other way.
abbrev pub flip : Ordering → Ordering
flip Ordering.lt = Ordering.gt
flip Ordering.eq = Ordering.eq
flip Ordering.gt = Ordering.lt

pub compare_bytes-flip : (xs ys : List ℕ) → compare_bytes ys xs ≡ flip (compare_bytes xs ys)
compare_bytes-flip [] [] = refl
compare_bytes-flip [] (y ∷ ys) = refl
compare_bytes-flip (x ∷ xs) [] = refl
compare_bytes-flip (x ∷ xs) (y ∷ ys) = ground (arith, compare_bytes-flip xs ys)

pub compare_bytes_trans :
    (xs ys zs : List ℕ)
    → compare_bytes xs ys ≡ Ordering.lt
    → compare_bytes ys zs ≡ Ordering.lt
    → compare_bytes xs zs ≡ Ordering.lt
compare_bytes_trans [] [] zs h k = ground arith
compare_bytes_trans [] (y ∷ ys) [] h k = ground arith
compare_bytes_trans [] (y ∷ ys) (z ∷ zs) h k = refl
compare_bytes_trans (x ∷ xs) [] zs h k = ground arith
compare_bytes_trans (x ∷ xs) (y ∷ ys) [] h k = ground arith
compare_bytes_trans (x ∷ xs) (y ∷ ys) (z ∷ zs) h k = ground (arith, compare_bytes_trans xs ys zs)

-- Comparing what both have, and then the lengths, is comparing the whole.
abbrev pub or_else : Ordering → Ordering → Ordering
or_else Ordering.lt o = Ordering.lt
or_else Ordering.eq o = o
or_else Ordering.gt o = Ordering.gt

pub compare_bytes_prefix :
    (n m : ℕ) (xs ys : List ℕ)
    → n ≤ length xs
    → m ≤ length ys
    → compare_bytes (take n xs) (take m ys)
      ≡ or_else (compare_bytes (take (min n m) xs) (take (min n m) ys)) (compare n m)
compare_bytes_prefix zero zero xs ys h k = refl
compare_bytes_prefix zero (suc m) xs [] h k = absurd (omega arith)
compare_bytes_prefix zero (suc m) xs (y ∷ ys) h k = ground arith
compare_bytes_prefix (suc n) m [] ys h k = absurd (omega arith)
compare_bytes_prefix (suc n) zero (x ∷ xs) ys h k = ground arith
compare_bytes_prefix (suc n) (suc m) (x ∷ xs) [] h k = absurd (omega arith)
compare_bytes_prefix (suc n) (suc m) (x ∷ xs) (y ∷ ys) h k =
    ground (arith, compare_bytes_prefix n m xs ys (omega (arith, h)) (omega (arith, k)))

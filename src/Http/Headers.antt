-- ===== src/Http/Headers.antt =====
-- The maps of cczoecpp/Net/Http/http.h: `std::map` with `CaseInsensitiveLess`, as the list of its
-- entries in order. A key is its bytes, none of which is 0.
use cczoecpp.Common.Text.{compare_bytes, lower, compare_bytes_self, compare_bytes_eq}
use Prim.Native.Nat.{Ordering}
use cczoecpp.Common.{ℕ, ◌≡◌, ◌≢◌, refl, sym, ap, ◌∙◌, List, [], ◌∷◌, Option, none, some, arith}

-- `strcasecmp`
unfoldable pub compare_case : List ℕ → List ℕ → Ordering
compare_case a b = compare_bytes (lower a) (lower b)

abbrev pub MapType : Type 0
MapType = List (List ℕ × List ℕ)

-- `count` and `at`: `none` where `count` is 0.
unfoldable pub find : MapType → List ℕ → Option (List ℕ)
find [] key = none
find ((k, v) ∷ entries) key = elim (compare_case key k) [
  | Ordering.lt ↦ find entries key
  | Ordering.eq ↦ some v
  | Ordering.gt ↦ find entries key
]

-- `map[key] = value`: the key of an entry that is there stays as it is.
unfoldable pub assign : List ℕ → List ℕ → MapType → MapType
assign key value [] = (key, value) ∷ []
assign key value ((k, v) ∷ entries) = elim (compare_case key k) [
  | Ordering.lt ↦ (key, value) ∷ (k, v) ∷ entries
  | Ordering.eq ↦ (k, value) ∷ entries
  | Ordering.gt ↦ (k, v) ∷ assign key value entries
]

unfoldable pub erase : List ℕ → MapType → MapType
erase key [] = []
erase key ((k, v) ∷ entries) = elim (compare_case key k) [
  | Ordering.lt ↦ (k, v) ∷ erase key entries
  | Ordering.eq ↦ erase key entries
  | Ordering.gt ↦ (k, v) ∷ erase key entries
]

-- Two keys are one entry if they differ in case only.
pub compare_case_lem : (a b : List ℕ) → lower a ≡ lower b → compare_case a b ≡ Ordering.eq
unfolding compare_case
compare_case_lem a b h = ap (compare_bytes (lower a)) (sym h) ∙ compare_bytes_self (lower a)

pub compare_case_eq : (a b : List ℕ) → compare_case a b ≡ Ordering.eq → lower a ≡ lower b
unfolding compare_case
compare_case_eq a b h = compare_bytes_eq (lower a) (lower b) h

find_same : (entries : MapType) (a b : List ℕ) → lower a ≡ lower b → find entries a ≡ find entries b
unfolding find compare_case
find_same [] a b h = refl
find_same ((k, v) ∷ entries) a b h = ground (arith, h, find_same entries a b h)

find-assign_self :
    (entries : MapType) (key value : List ℕ) → find (assign key value entries) key ≡ some value
unfolding find assign
find-assign_self [] key value = ground (arith, compare_case_lem key key refl)
find-assign_self ((k, v) ∷ entries) key value =
    ground (arith, compare_case_lem key key refl, find-assign_self entries key value)

find-assign_other :
    (entries : MapType) (key value other : List ℕ)
    → lower other ≢ lower key
    → find (assign key value entries) other ≡ find entries other
unfolding find assign
find-assign_other [] key value other h =
    let apart : compare_case other key ≢ Ordering.eq = λ e. h (compare_case_eq other key e) in
    ground (arith, apart)
find-assign_other ((k, v) ∷ entries) key value other h =
    let apart : compare_case other key ≢ Ordering.eq = λ e. h (compare_case_eq other key e) in
    let apart' : compare_case key k ≡ Ordering.eq → compare_case other k ≢ Ordering.eq =
      λ e e'. h (compare_case_eq other k e' ∙ sym (compare_case_eq key k e)) in
    ground (arith, apart, apart', find-assign_other entries key value other h)

find-erase_other :
    (entries : MapType) (key other : List ℕ)
    → lower other ≢ lower key
    → find (erase key entries) other ≡ find entries other
unfolding find erase
find-erase_other [] key other h = refl
find-erase_other ((k, v) ∷ entries) key other h =
    let apart : compare_case key k ≡ Ordering.eq → compare_case other k ≢ Ordering.eq =
      λ e e'. h (compare_case_eq other k e' ∙ sym (compare_case_eq key k e)) in
    ground (arith, apart, find-erase_other entries key other h)

find-erase_self : (entries : MapType) (key : List ℕ) → find (erase key entries) key ≡ none
unfolding find erase
find-erase_self [] key = refl
find-erase_self ((k, v) ∷ entries) key = ground (arith, find-erase_self entries key)

-- After `map[key] = value` the key, in any case of its letters, has the value, and every other key
-- has the value it had before.
pub find-assign :
    (entries : MapType) (key value : List ℕ)
    → ((other : List ℕ)
        → lower other ≡ lower key
        → find (assign key value entries) other ≡ some value)
      × ((other : List ℕ)
          → lower other ≢ lower key
          → find (assign key value entries) other ≡ find entries other)
find-assign entries key value = (
  λ other h. find_same (assign key value entries) other key h ∙ find-assign_self entries key value,
  λ other h. find-assign_other entries key value other h,
)

-- After `erase(key)` no case of the key has a value, and every other key has the value it had.
pub find-erase :
    (entries : MapType) (key : List ℕ)
    → ((other : List ℕ) → lower other ≡ lower key → find (erase key entries) other ≡ none)
      × ((other : List ℕ)
          → lower other ≢ lower key
          → find (erase key entries) other ≡ find entries other)
find-erase entries key = (
  λ other h. find_same (erase key entries) other key h ∙ find-erase_self entries key,
  λ other h. find-erase_other entries key other h,
)

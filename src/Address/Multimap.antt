-- ===== src/Address/Multimap.antt =====
-- The multimap of GetNICAddresses: it stays in order, and what is put in comes last of its key.
use Prim.Native.Nat.{Ordering}
use cczoecpp.Common.{
  ℕ, ◌≡◌, ◌≢◌, refl, ap, sym, ◌∙◌, List, [], ◌∷◌, ◌++◌, All, Bool, true, false, if◌then◌else◌,
  Bool-cases, ◌⊎◌, inl, inr, arith, append-nil,
}
use cczoecpp.Common.Text.{
  compare_bytes_trans, compare_bytes_self, same_bytes_lem, compare_bytes, same_bytes,
}
use cczoecpp.Address.Lookup.{NicInfo, emplace, equal_range}

-- The entries of a multimap stand in the order of their keys.
abbrev pub IsSorted : List (List ℕ × NicInfo) → Type 0
IsSorted [] = Unit
IsSorted ((k, v) ∷ entries) =
    All (λ e. compare_bytes e.0 k ≢ Ordering.lt) entries × IsSorted entries

above :
    (key k : List ℕ) (entries : List (List ℕ × NicInfo))
    → compare_bytes key k ≡ Ordering.lt
    → All (λ e. compare_bytes e.0 k ≢ Ordering.lt) entries
    → All (λ e. compare_bytes e.0 key ≢ Ordering.lt) entries
above key k [] h all = tt
above key k ((x, v) ∷ entries) h (n, all) =
    (λ l. n (compare_bytes_trans x key k l h), above key k entries h all)

module _ (key : List ℕ) (info : NicInfo) (x : List ℕ) (v : NicInfo)
    (entries : List (List ℕ × NicInfo)) where
  emplace_before :
      compare_bytes key x ≡ Ordering.lt
      → emplace key info ((x, v) ∷ entries) ≡ (key, info) ∷ (x, v) ∷ entries
  unfolding emplace
  emplace_before h = rw (h, emplace)

  emplace_behind :
      compare_bytes key x ≢ Ordering.lt
      → emplace key info ((x, v) ∷ entries) ≡ (x, v) ∷ emplace key info entries
  unfolding emplace
  emplace_behind h = go (compare_bytes key x) refl
    where
      go :
          (o : Ordering)
          → compare_bytes key x ≡ o
          → emplace key info ((x, v) ∷ entries) ≡ (x, v) ∷ emplace key info entries
      go Ordering.lt e = absurd (h e)
      go Ordering.eq e = rw (e, emplace)
      go Ordering.gt e = rw (e, emplace)

is_less? : (o : Ordering) → (o ≡ Ordering.lt) ⊎ (o ≢ Ordering.lt)
is_less? Ordering.lt = inl refl
is_less? Ordering.eq = inr (λ h. ground (arith, h))
is_less? Ordering.gt = inr (λ h. ground (arith, h))

emplace-All :
    (k key : List ℕ) (info : NicInfo) (entries : List (List ℕ × NicInfo))
    → compare_bytes key k ≢ Ordering.lt
    → All (λ e. compare_bytes e.0 k ≢ Ordering.lt) entries
    → All (λ e. compare_bytes e.0 k ≢ Ordering.lt) (emplace key info entries)
unfolding emplace
emplace-All k key info [] h all = (h, tt)
emplace-All k key info ((x, v) ∷ entries) h (n, all) = elim (is_less? (compare_bytes key x)) [
  | inl e ↦ rw (emplace_before key info x v entries e) (h, (n, all))
  | inr e ↦ rw (emplace_behind key info x v entries e) (n, emplace-All k key info entries h all)
]

pub emplace-IsSorted :
    (key : List ℕ) (info : NicInfo) (entries : List (List ℕ × NicInfo))
    → IsSorted entries
    → IsSorted (emplace key info entries)
unfolding emplace
emplace-IsSorted key info [] h = (tt, tt)
emplace-IsSorted key info ((x, v) ∷ entries) (n, h) = elim (is_less? (compare_bytes key x)) [
  | inl e ↦
      rw (emplace_before key info x v entries e) ((not_below e, above key x entries e n), (n, h))
  | inr e ↦
      rw (emplace_behind key info x v entries e)
        (emplace-All x key info entries e n, emplace-IsSorted key info entries h)
]
  where
    not_below : compare_bytes key x ≡ Ordering.lt → compare_bytes x key ≢ Ordering.lt
    not_below e l = ground (arith, compare_bytes_trans key x key e l, compare_bytes_self key)

-- An entry with the key stands behind no greater key.
different : (key x : List ℕ) → compare_bytes key x ≢ Ordering.eq → same_bytes key x ≡ false
different key x h = elim (Bool-cases (same_bytes key x)) [
  | inl e ↦
      absurd (h (ap (compare_bytes key) (sym (same_bytes_lem key x e)) ∙ compare_bytes_self key))
  | inr e ↦ e
]

equal_range_above :
    (key k : List ℕ) (entries : List (List ℕ × NicInfo))
    → compare_bytes key k ≡ Ordering.lt
    → All (λ e. compare_bytes e.0 k ≢ Ordering.lt) entries
    → equal_range key entries ≡ []
unfolding equal_range
equal_range_above key k [] e h = refl
equal_range_above key k ((x, v) ∷ entries) e (n, h) = elim (Bool-cases (same_bytes key x)) [
  | inl same ↦ absurd (n (ap (λ y. compare_bytes y k) (sym (same_bytes_lem key x same)) ∙ e))
  | inr other ↦ rw (other, equal_range) (equal_range_above key k entries e h)
]

abbrev pub entry : Bool → NicInfo → List NicInfo
entry b info = if b then info ∷ [] else []

put_first :
    (b : Bool) (info : NicInfo) (rest : List NicInfo)
    → (b ≡ true → rest ≡ [])
    → (if b then info ∷ rest else rest) ≡ rest ++ entry b info
put_first true info rest h = rw (h refl)
put_first false info rest h = sym (append-nil rest)

put_behind :
    (b : Bool) (v : NicInfo) (old new more : List NicInfo)
    → new ≡ old ++ more
    → (if b then v ∷ new else new) ≡ (if b then v ∷ old else old) ++ more
put_behind true v old new more h = ap (◌∷◌ v) h
put_behind false v old new more h = h

pub equal_range-emplace :
    (q key : List ℕ) (info : NicInfo) (entries : List (List ℕ × NicInfo))
    → IsSorted entries
    → equal_range q (emplace key info entries)
      ≡ equal_range q entries ++ entry (same_bytes q key) info
unfolding emplace equal_range
equal_range-emplace q key info [] h = refl
equal_range-emplace q key info ((x, v) ∷ entries) (n, h) = elim (is_less? (compare_bytes key x)) [
  | inl e ↦ rw (emplace_before key info x v entries e) (
      put_first (same_bytes q key) info (equal_range q ((x, v) ∷ entries)) λ same.
        ap (λ y. equal_range y ((x, v) ∷ entries)) (same_bytes_lem q key same)
        ∙ equal_range_above key x ((x, v) ∷ entries) e (self, n))
  | inr e ↦ rw (emplace_behind key info x v entries e) (
      put_behind (same_bytes q x) v (equal_range q entries)
        (equal_range q (emplace key info entries)) (entry (same_bytes q key) info)
        (equal_range-emplace q key info entries h))
]
  where
    self : compare_bytes x x ≢ Ordering.lt
    self l = ground (arith, compare_bytes_self x)

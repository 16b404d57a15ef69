-- ===== src/Config/Trips.antt =====
-- Containers that are written and read back.
use Prim.Native.Nat.{Ordering}
use cczoecpp.Common.Text.{compare_bytes, compare_bytes_self}
use cczoecpp.Common.{
  ◌≢◌, subst, arith, ℕ, ◌≡◌, refl, ap, sym, ◌∙◌, List, [], ◌∷◌, ◌++◌, All, Bool, true, false,
  Option, some, append-nil, append_assoc,
}
use cczoecpp.Config.Cast.{
  Yaml, load_all, from_container, read_items, to_container, load_values, from_map, read_entries,
  to_map, push_back, insert_ordered,
}

-- The keys of a list of entries.
abbrev pub keys : {B : Type 0} → List (List ℕ × B) → List (List ℕ)
keys [] = []
keys (e ∷ es) = e.0 ∷ keys es

abbrev pub AreDistinct : List (List ℕ) → Type 0
AreDistinct [] = Unit
AreDistinct (x ∷ xs) = All (λ y. y ≢ x) xs × AreDistinct xs

-- The order of `std::map` on entries whose keys are strings.
abbrev pub key_less : {B : Type 0} → List ℕ × B → List ℕ × B → Bool
key_less a b = elim (compare_bytes a.0 b.0) [
  | Ordering.lt ↦ true
  | Ordering.eq ↦ false
  | Ordering.gt ↦ false
]

-- YAML reads back the sequences that it writes, and the mappings in which no key stands twice.
pub record ReadsBack {N : Type 0} (yaml : Yaml N) : Type 0 where
  pub load_sequence :
      (ns : List N)
      → (n : N) × (yaml.load (yaml.emit (yaml.sequence ns)) ≡ some n) × (yaml.items n ≡ ns)
  pub load_mapping :
      (ns : List (List ℕ × N))
      → AreDistinct (keys ns)
      → (n : N) × (yaml.load (yaml.emit (yaml.mapping ns)) ≡ some n) × (yaml.entries n ≡ ns)

-- What is put in one after another comes out in the same order.
abbrev pub KeepsOrder {ℓ} : {A : Type ℓ} → (A → List A → List A) → List A → List A → Type ℓ
KeepsOrder put before [] = Unit
KeepsOrder put before (x ∷ xs) =
    (put x before ≡ before ++ x ∷ []) × KeepsOrder put (before ++ x ∷ []) xs

module _ {N T : Type 0} (yaml : Yaml N) (to_string : T → Option (List ℕ))
    (from_string : List ℕ → Option T) where
  -- The element's text is a YAML node, and what YAML writes of it is read as the element.
  abbrev pub IsFaithful : T → Type 0
  IsFaithful x =
      (text : List ℕ) × (n : N) × (to_string x ≡ some text)
      × (yaml.load text ≡ some n)
      × (from_string (yaml.emit n) ≡ some x)

  Reads : (T → List T → List T) → List T → List T → Type 0
  Reads put before xs =
      (ns : List N) × (load_all yaml to_string xs ≡ some ns)
      × (read_items yaml from_string put ns before ≡ some (before ++ xs))

  items_lem :
      (put : T → List T → List T) (before xs : List T)
      → All IsFaithful xs
      → KeepsOrder put before xs
      → Reads put before xs
  unfolding Reads read_items
  items_lem put before [] h k = ([], refl, ap some (sym (append-nil before)))
  items_lem put before (x ∷ xs) ((text, n, e, f, g), h) (k, l) =
      let (ns, a, b) = items_lem put (before ++ x ∷ []) xs h l in
      (
        n ∷ ns,
        rw (e, f, a, load_all),
        rw (g, k, read_items) (b ∙ ap some (append_assoc before (x ∷ []) xs)),
      )

  container_lem :
      (put : T → List T → List T) (xs : List T)
      → ReadsBack yaml
      → All IsFaithful xs
      → KeepsOrder put [] xs
      → (text : List ℕ) × (from_container yaml to_string xs ≡ some text)
        × (to_container yaml from_string put text ≡ some xs)
  unfolding from_container to_container Reads
  container_lem put xs back h k =
      let (ns, a, b) = items_lem put [] xs h k in
      let (node, c, d) = back.load_sequence ns in
      (yaml.emit (yaml.sequence ns), rw (a, from_container), rw (c, to_container) (rw d b))

  -- The same for the values of a map.
  FaithfulValue : List ℕ × T → Type 0
  FaithfulValue e = IsFaithful e.1

  ReadsMap :
      (List ℕ × T → List (List ℕ × T) → List (List ℕ × T))
      → List (List ℕ × T)
      → List (List ℕ × T)
      → Type 0
  ReadsMap put before xs =
      (ns : List (List ℕ × N)) × (load_values yaml to_string xs ≡ some ns)
      × (read_entries yaml from_string put ns before ≡ some (before ++ xs))
      × (keys ns ≡ keys xs)

  entries_lem :
      (put : List ℕ × T → List (List ℕ × T) → List (List ℕ × T)) (before xs : List (List ℕ × T))
      → All (λ e. IsFaithful e.1) xs
      → KeepsOrder put before xs
      → ReadsMap put before xs
  unfolding ReadsMap read_entries
  entries_lem put before [] h k = ([], refl, ap some (sym (append-nil before)), refl)
  entries_lem put before ((key, x) ∷ xs) ((text, n, e, f, g), h) (k, l) =
      let (ns, a, b, same) = entries_lem put (before ++ (key, x) ∷ []) xs h l in
      (
        (key, n) ∷ ns,
        rw (e, f, a, load_values),
        rw (g, k, read_entries) (b ∙ ap some (append_assoc before ((key, x) ∷ []) xs)),
        ap (λ rest. key ∷ rest) same,
      )

  map_lem :
      (put : List ℕ × T → List (List ℕ × T) → List (List ℕ × T)) (xs : List (List ℕ × T))
      → ReadsBack yaml
      → All (λ e. IsFaithful e.1) xs
      → KeepsOrder put [] xs
      → AreDistinct (keys xs)
      → (text : List ℕ) × (from_map yaml to_string xs ≡ some text)
        × (to_map yaml from_string put text ≡ some xs)
  unfolding from_map to_map ReadsMap
  map_lem put xs back h k once =
      let (ns, a, b, same) = entries_lem put [] xs h k in
      let (node, c, d) = back.load_mapping ns (subst AreDistinct (sym same) once) in
      (yaml.emit (yaml.mapping ns), rw (a, from_map), rw (c, to_map) (rw d b))

module _ {ℓ} {A : Type ℓ} where
  push_back-append : (x : A) (before : List A) → push_back x before ≡ before ++ x ∷ []
  push_back-append x [] = refl
  push_back-append x (y ∷ before) = ap (◌∷◌ y) (push_back-append x before)

  push_back-KeepsOrder : (before xs : List A) → KeepsOrder push_back before xs
  push_back-KeepsOrder before [] = tt
  push_back-KeepsOrder before (x ∷ xs) =
      (push_back-append x before, push_back-KeepsOrder (before ++ x ∷ []) xs)

  module _ (less : A → A → Bool) where
    -- What stands before x is less than it.
    abbrev pub IsBefore : A → A → Type 0
    IsBefore x y = (less y x ≡ true) × (less x y ≡ false)

    abbrev pub IsAscending : List A → Type 0
    IsAscending [] = Unit
    IsAscending (x ∷ xs) = All (λ y. IsBefore y x) xs × IsAscending xs

    insert-append :
        (x : A) (before : List A)
        → All (IsBefore x) before
        → insert_ordered less x before ≡ before ++ x ∷ []
    unfolding insert_ordered
    insert-append x [] h = refl
    insert-append x (y ∷ before) ((e, f), h) =
        rw (f, e, insert_ordered) (ap (◌∷◌ y) (insert-append x before h))

    All-append :
        (z : A) (before : List A) (x : A)
        → All (IsBefore z) before
        → IsBefore z x
        → All (IsBefore z) (before ++ x ∷ [])
    All-append z [] x h k = (k, tt)
    All-append z (y ∷ before) x (l, h) k = (l, All-append z before x h k)

    Above : List A → List A → Type 0
    Above before xs = All (λ z. All (IsBefore z) before) xs

    Above-more :
        (before : List A) (x : A) (xs : List A)
        → Above before xs
        → All (λ y. IsBefore y x) xs
        → Above (before ++ x ∷ []) xs
    unfolding Above
    Above-more before x [] h k = tt
    Above-more before x (z ∷ xs) (a, h) (b, k) =
        (All-append z before x a b, Above-more before x xs h k)

    insert-KeepsOrder :
        (before xs : List A)
        → IsAscending xs
        → Above before xs
        → KeepsOrder (insert_ordered less) before xs
    unfolding Above
    insert-KeepsOrder before [] h k = tt
    insert-KeepsOrder before (x ∷ xs) (a, h) (b, k) = (
      insert-append x before b,
      insert-KeepsOrder (before ++ x ∷ []) xs h (Above-more before x xs k a),
    )

    nothing_before : (xs : List A) → Above [] xs
    unfolding Above
    nothing_before [] = tt
    nothing_before (x ∷ xs) = (tt, nothing_before xs)

module _ {N T : Type 0} (yaml : Yaml N) (to_string : T → Option (List ℕ))
    (from_string : List ℕ → Option T) where
  -- A vector or list whose elements are read from what YAML writes of them is written as text that is
  -- read back as the same vector or list.
  pub vector_round_trip :
      (xs : List T)
      → ReadsBack yaml
      → All (IsFaithful yaml to_string from_string) xs
      → (text : List ℕ) × (from_container yaml to_string xs ≡ some text)
        × (to_container yaml from_string push_back text ≡ some xs)
  vector_round_trip xs back h =
      container_lem yaml to_string from_string push_back xs back h (push_back-KeepsOrder [] xs)

  -- A set, which is in ascending order, is written as text from which the elements, inserted one by one,
  -- are read back as the same set.
  pub set_round_trip :
      (less : T → T → Bool) (xs : List T)
      → ReadsBack yaml
      → All (IsFaithful yaml to_string from_string) xs
      → IsAscending less xs
      → (text : List ℕ) × (from_container yaml to_string xs ≡ some text)
        × (to_container yaml from_string (insert_ordered less) text ≡ some xs)
  set_round_trip less xs back h k =
      container_lem yaml to_string from_string (insert_ordered less) xs back h
        (insert-KeepsOrder less [] xs k (nothing_before less xs))

  ascending_keys :
      (x : List ℕ × T) (xs : List (List ℕ × T))
      → All (λ y. IsBefore key_less y x) xs
      → All (λ y. y ≢ x.0) (keys xs)
  ascending_keys x [] h = tt
  ascending_keys x (y ∷ xs) ((below, above), h) = (
    λ e. ground (arith, rw (e, compare_bytes_self x.0, key_less) at below),
    ascending_keys x xs h,
  )

  ascending-AreDistinct : (xs : List (List ℕ × T)) → IsAscending key_less xs → AreDistinct (keys xs)
  ascending-AreDistinct [] h = tt
  ascending-AreDistinct (x ∷ xs) (h, k) = (ascending_keys x xs h, ascending-AreDistinct xs k)

  -- Over a YAML that reads back the sequences that it writes, and the mappings in which no key stands twice,
  -- a map with its entries in the order of their keys, whose values are read from what YAML writes of
  -- them, is written as text that is read back as the same map.
  pub map_round_trip :
      (xs : List (List ℕ × T))
      → ReadsBack yaml
      → All (λ e. IsFaithful yaml to_string from_string e.1) xs
      → IsAscending key_less xs
      → (text : List ℕ) × (from_map yaml to_string xs ≡ some text)
        × (to_map yaml from_string (insert_ordered key_less) text ≡ some xs)
  map_round_trip xs back h k =
      map_lem yaml to_string from_string (insert_ordered key_less) xs back h
        (insert-KeepsOrder key_less [] xs k (nothing_before key_less xs))
        (ascending-AreDistinct xs k)

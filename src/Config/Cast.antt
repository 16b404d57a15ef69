-- ===== src/Config/Cast.antt =====
-- cczoecpp/Config/LexicalCast.h: containers as YAML text.
--
-- yaml-cpp is a record of parameters, over its nodes `N`; a conversion that throws is `none`. The
-- conversion of an element is a parameter of that of a container, as it is in the templates. A set is
-- the list of its elements in the order of iteration, a map that of its entries.
use cczoecpp.Common.{ℕ, List, [], ◌∷◌, Bool, true, false, Option, none, some}

pub record Yaml (N : Type 0) : Type 0 where
  pub load : List ℕ → Option N
  pub emit : N → List ℕ
  pub sequence : List N → N
  pub items : N → List N
  pub mapping : List (List ℕ × N) → N
  pub entries : N → List (List ℕ × N)

module _ {N T : Type 0} (yaml : Yaml N) where
  abbrev pub load_all : (T → Option (List ℕ)) → List T → Option (List N)
  load_all to_string [] = some []
  load_all to_string (x ∷ xs) = elim (to_string x) [
    | none ↦ none
    | some text ↦ elim (yaml.load text) [
      | none ↦ none
      | some n ↦ elim (load_all to_string xs) [ none ↦ none | some ns ↦ some (n ∷ ns) ]
    ]
  ]

  -- `vector`, `list`, `set` and `unordered_set` to string.
  unfoldable pub from_container : (T → Option (List ℕ)) → List T → Option (List ℕ)
  from_container to_string xs = elim (load_all to_string xs) [
    | none ↦ none
    | some ns ↦ some (yaml.emit (yaml.sequence ns))
  ]

  -- The loop over the items, with what it does with each element: `push_back` or `insert`.
  unfoldable pub read_items :
      (List ℕ → Option T) → (T → List T → List T) → List N → List T → Option (List T)
  read_items from_string put [] res = some res
  read_items from_string put (n ∷ ns) res = elim (from_string (yaml.emit n)) [
    | none ↦ none
    | some x ↦ read_items from_string put ns (put x res)
  ]

  unfoldable pub to_container :
      (List ℕ → Option T) → (T → List T → List T) → List ℕ → Option (List T)
  to_container from_string put text = elim (yaml.load text) [
    | none ↦ none
    | some node ↦ read_items from_string put (yaml.items node) []
  ]

  abbrev pub load_values : (T → Option (List ℕ)) → List (List ℕ × T) → Option (List (List ℕ × N))
  load_values to_string [] = some []
  load_values to_string ((k, x) ∷ xs) = elim (to_string x) [
    | none ↦ none
    | some text ↦ elim (yaml.load text) [
      | none ↦ none
      | some n ↦ elim (load_values to_string xs) [ none ↦ none | some ns ↦ some ((k, n) ∷ ns) ]
    ]
  ]

  -- `map` and `unordered_map` to string.
  unfoldable pub from_map : (T → Option (List ℕ)) → List (List ℕ × T) → Option (List ℕ)
  from_map to_string xs = elim (load_values to_string xs) [
    | none ↦ none
    | some ns ↦ some (yaml.emit (yaml.mapping ns))
  ]

  unfoldable pub read_entries :
      (List ℕ → Option T)
      → (List ℕ × T → List (List ℕ × T) → List (List ℕ × T))
      → List (List ℕ × N)
      → List (List ℕ × T)
      → Option (List (List ℕ × T))
  read_entries from_string put [] res = some res
  read_entries from_string put ((k, n) ∷ ns) res = elim (from_string (yaml.emit n)) [
    | none ↦ none
    | some x ↦ read_entries from_string put ns (put (k, x) res)
  ]

  unfoldable pub to_map :
      (List ℕ → Option T)
      → (List ℕ × T → List (List ℕ × T) → List (List ℕ × T))
      → List ℕ
      → Option (List (List ℕ × T))
  to_map from_string put text = elim (yaml.load text) [
    | none ↦ none
    | some node ↦ read_entries from_string put (yaml.entries node) []
  ]

-- `push_back`.
abbrev pub push_back {ℓ} : {A : Type ℓ} → A → List A → List A
push_back x [] = x ∷ []
push_back x (y ∷ ys) = y ∷ push_back x ys

-- `insert` into a `std::set` or `std::map`, ordered by the test: what is there stays.
unfoldable pub insert_ordered {ℓ} : {A : Type ℓ} → (A → A → Bool) → A → List A → List A
insert_ordered less x [] = x ∷ []
insert_ordered less x (y ∷ ys) = elim (less x y) [
  | true ↦ x ∷ y ∷ ys
  | false ↦ elim (less y x) [ true ↦ y ∷ insert_ordered less x ys | false ↦ y ∷ ys ]
]

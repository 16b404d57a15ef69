-- ===== src/Config/Vars.antt =====
-- cczoecpp/Config/Config.{h,cpp}: the variables, their listeners, and what a YAML file does to them.
--
-- A variable has a type, a number for `typeid(T)`, and a value of the type `V` of all values. The
-- conversions by type, `==`, and what YAML writes of a node are parameters; a conversion that throws
-- gives none. A listener is a number; its calls are recorded with the old and the new value. The
-- table `s_datas` is the list of its entries, and a variable is known by its place in `vars`.
use Prim.Native.Nat.{compare, Ordering}
use cczoecpp.Common.{
  ℕ, List, [], ◌∷◌, ◌++◌, length, get_elem?, set, Option, none, some, Bool, true, false, ◌==◌,
  if◌then◌else◌,
}
use cczoecpp.Common.Text.{same_bytes, lower}

pub record ConfigVar (V : Type 0) : Type 0 where
  pub name : List ℕ
  pub type : ℕ
  pub val : V
  pub callbacks : List (ℕ × ℕ)

-- A call of a listener.
pub record Notice (V : Type 0) : Type 0 where
  pub listener : ℕ
  pub old_value : V
  pub new_value : V

pub record Config (V : Type 0) : Type 0 where
  pub vars : List (ConfigVar V)
  pub datas : List (List ℕ × ℕ)
  pub notices : List (Notice V)

-- A YAML node.
mutual
  pub data Node : Type 0 where
    scalar : List ℕ → Node
    sequence : List ℕ → Node
    mapping : Entries → Node

  pub data Entries : Type 0 where
    nil : Entries
    entry : List ℕ → Node → Entries → Entries

-- `prefix.empty() ? key : prefix + "." + key`
abbrev pub path : List ℕ → List ℕ → List ℕ
path [] key = key
path (c ∷ prefix) key = (c ∷ prefix) ++ 46 ∷ key

-- What a node that is no map is as text; `sequence` has what YAML writes of it.
unfoldable mutual
  pub parse_nodes : List ℕ → Node → List (List ℕ × List ℕ)
  parse_nodes prefix (scalar text) = (prefix, text) ∷ []
  parse_nodes prefix (sequence text) = (prefix, text) ∷ []
  parse_nodes prefix (mapping entries) = parse_entries prefix entries

  pub parse_entries : List ℕ → Entries → List (List ℕ × List ℕ)
  parse_entries prefix nil = []
  parse_entries prefix (entry key node entries) =
      parse_nodes (path prefix key) node ++ parse_entries prefix entries

abbrev pub find : List ℕ → List (List ℕ × ℕ) → Option ℕ
find name [] = none
find name ((k, x) ∷ datas) = if same_bytes name k then some x else find name datas

-- `std::map` with the listeners by their keys.
abbrev pub set_listener : ℕ → ℕ → List (ℕ × ℕ) → List (ℕ × ℕ)
set_listener key cb [] = (key, cb) ∷ []
set_listener key cb ((k, c) ∷ rest) = elim (compare key k) [
  | Ordering.lt ↦ (key, cb) ∷ (k, c) ∷ rest
  | Ordering.eq ↦ (k, cb) ∷ rest
  | Ordering.gt ↦ (k, c) ∷ set_listener key cb rest
]

abbrev pub erase_listener : ℕ → List (ℕ × ℕ) → List (ℕ × ℕ)
erase_listener key [] = []
erase_listener key ((k, c) ∷ rest) =
    if key == k then erase_listener key rest else (k, c) ∷ erase_listener key rest

abbrev pub get_listener : ℕ → List (ℕ × ℕ) → Option ℕ
get_listener key [] = none
get_listener key ((k, c) ∷ rest) = if key == k then some c else get_listener key rest

-- The type of `std::string`.
abbrev pub string_type : ℕ
string_type = 0

module _ {V : Type 0} where
  abbrev pub add_listener : ℕ → ℕ → ConfigVar V → ConfigVar V
  add_listener key cb v = record v { callbacks = set_listener key cb v.callbacks }

  abbrev pub del_listener : ℕ → ConfigVar V → ConfigVar V
  del_listener key v = record v { callbacks = erase_listener key v.callbacks }

  abbrev pub clear_listener : ConfigVar V → ConfigVar V
  clear_listener v = record v { callbacks = [] }

  -- The calls of the listeners, in the order of their keys.
  abbrev pub notify : V → V → List (ℕ × ℕ) → List (Notice V)
  notify old new [] = []
  notify old new ((key, cb) ∷ rest) =
      record { listener = cb; old_value = old; new_value = new } ∷ notify old new rest

  unfoldable pub lookup_base : List ℕ → Config V → Option ℕ
  lookup_base name c = find name c.datas

  -- `dynamic_pointer_cast`: a variable of another type is a null pointer.
  abbrev pub of_type : ℕ → ℕ → Option (ConfigVar V) → Option ℕ
  of_type type x none = none
  of_type type x (some v) = if type == v.type then some x else none

  unfoldable pub lookup_var : ℕ → List ℕ → Config V → Option ℕ
  lookup_var type name c = elim (find name c.datas) [
    | none ↦ none
    | some x ↦ of_type type x (get_elem? c.vars x)
  ]

  unfoldable pub create_var : ℕ → List ℕ → V → Config V → Config V
  create_var type name value c = record c {
    vars = c.vars ++ record { name = name; type = type; val = value; callbacks = [] } ∷ [];
    datas = c.datas ++ (name, length c.vars) ∷ [];
  }

  unfoldable pub lookup : ℕ → List ℕ → V → Config V → Option ℕ × Config V
  lookup type name value c = elim (find name c.datas) [
    | some x ↦ (of_type type x (get_elem? c.vars x), c)
    | none ↦ (some (length c.vars), create_var type name value c)
  ]

  module _ (same : ℕ → V → V → Bool) where
    -- Setting the value of a variable, with the notices that it gives.
    unfoldable pub set_value : V → ConfigVar V → ConfigVar V × List (Notice V)
    set_value new v =
        if same v.type v.val new
        then (v, [])
        else (record v { val = new }, notify v.val new v.callbacks)

  module _ (same : ℕ → V → V → Bool) (convert : ℕ → List ℕ → Option V) where
    unfoldable pub from_string : List ℕ → ConfigVar V → Bool × ConfigVar V × List (Notice V)
    from_string text v = elim (convert v.type text) [
      | none ↦ (false, v, [])
      | some new ↦ let (u, notices) = set_value same new v in (true, u, notices)
    ]

    -- `var->fromString` of the variable at a place.
    unfoldable pub update_at : ℕ → List ℕ → Config V → Config V
    update_at x text c = elim (get_elem? c.vars x) [
      | none ↦ c
      | some v ↦
          let (ok, u, notices) = from_string text v in
          record c { vars = set c.vars x u; notices = c.notices ++ notices }
    ]

  module _ (same : ℕ → V → V → Bool) (convert : ℕ → List ℕ → Option V)
      (text_value : List ℕ → V) where
    -- The body of the loop of `LoadFromYaml`.
    unfoldable pub load_node : List ℕ × List ℕ → Config V → Config V
    load_node (key, text) c = elim (lookup_base (lower key) c) [
      | some x ↦ update_at same convert x text c
      | none ↦ (lookup string_type (lower key) (text_value text) c).1
    ]

    unfoldable pub load_nodes : List (List ℕ × List ℕ) → Config V → Config V
    load_nodes [] c = c
    load_nodes (node ∷ nodes) c = load_nodes nodes (load_node node c)

    unfoldable pub load_from_yaml : Node → Config V → Config V
    load_from_yaml root c = load_nodes (parse_nodes [] root) c

-- ===== src/Config/Load.antt =====
-- What looking a variable up, setting it and loading a YAML file do to the variables.
use cczoecpp.Common.{
  ℕ, zero, suc, ◌<◌, ◌≡◌, ◌≢◌, refl, subst, ap, ap₂, sym, ◌∙◌, List, [], ◌∷◌, ◌++◌, All, length,
  length-append, get_elem?, set, Option, none, some, Bool, true, false, ◌==◌, ==_self,
  if◌then◌else◌, arith, Bool-cases, Option-cases, inl, inr,
}
use cczoecpp.Common.Text.{same_bytes, same_bytes_self, same_bytes_lem, to_lower, lower}
use cczoecpp.Config.Vars.{
  ConfigVar, Config, Node, find, lookup, lookup_base, create_var, set_value, from_string, update_at,
  load_node, load_nodes, load_from_yaml, parse_nodes, string_type, notify,
}

find-append :
    (name other : List ℕ) (x : ℕ) (datas : List (List ℕ × ℕ))
    → find name datas ≢ none
    → find name (datas ++ (other, x) ∷ []) ≢ none
find-append name other x [] h e = h refl
find-append name other x ((k, y) ∷ datas) h e = ground (arith, h, e, find-append name other x datas)

find-new :
    (name : List ℕ) (x : ℕ) (datas : List (List ℕ × ℕ))
    → find name datas ≡ none
    → find name (datas ++ (name, x) ∷ []) ≡ some x
find-new name x [] h = rw (same_bytes_self name)
find-new name x ((k, y) ∷ datas) h = elim (Bool-cases (same_bytes name k)) [
  | inl e ↦ ground (arith, h, e)
  | inr e ↦ rw e (find-new name x datas (rw (e, find) at h))
]

get_elem-new : {A : Type 0} (xs : List A) (x : A) → get_elem? (xs ++ x ∷ []) (length xs) ≡ some x
get_elem-new [] x = refl
get_elem-new (y ∷ xs) x = get_elem-new xs x

get_elem-append :
    {A : Type 0} (xs : List A) (x : A) (i : ℕ)
    → i < length xs
    → get_elem? (xs ++ x ∷ []) i ≡ get_elem? xs i
get_elem-append [] x i h = absurd (omega arith)
get_elem-append (y ∷ xs) x zero h = refl
get_elem-append (y ∷ xs) x (suc i) h = get_elem-append xs x i (omega (arith, h))

get_elem-set_other :
    {A : Type 0} (xs : List A) (i j : ℕ) (x : A) → i ≢ j → get_elem? (set xs j x) i ≡ get_elem? xs i
get_elem-set_other [] i j x h = refl
get_elem-set_other (y ∷ xs) zero zero x h = absurd (h refl)
get_elem-set_other (y ∷ xs) (suc i) zero x h = refl
get_elem-set_other (y ∷ xs) zero (suc j) x h = refl
get_elem-set_other (y ∷ xs) (suc i) (suc j) x h = get_elem-set_other xs i j x (λ e. h (ap suc e))

length-set : {A : Type 0} (xs : List A) (i : ℕ) (x : A) → length (set xs i x) ≡ length xs
length-set [] i x = refl
length-set (y ∷ xs) zero x = refl
length-set (y ∷ xs) (suc i) x = ap suc (length-set xs i x)

to_lower_twice : (c : ℕ) → to_lower (to_lower c) ≡ to_lower c
to_lower_twice c = ground arith

lower_twice : (key : List ℕ) → lower (lower key) ≡ lower key
lower_twice [] = refl
lower_twice (c ∷ key) = ap₂ (λ (a : ℕ) rest. a ∷ rest) (to_lower_twice c) (lower_twice key)

-- The variable at a place has only names with an upper-case letter.
abbrev pub IsUpper : ℕ → List (List ℕ × ℕ) → Type 0
IsUpper x = All (λ e. (e.1 ≡ x → lower e.0 ≢ e.0))

find-IsUpper :
    (x y : ℕ) (key : List ℕ) (datas : List (List ℕ × ℕ))
    → IsUpper x datas
    → find (lower key) datas ≡ some y
    → y ≢ x
find-IsUpper x y key [] h e k = ground (arith, e)
find-IsUpper x y key ((name, z) ∷ datas) (n, h) e k =
    elim (Bool-cases (same_bytes (lower key) name)) [
      | inl same ↦
          let is : lower key ≡ name = same_bytes_lem (lower key) name same in
          n (ground (arith, rw (same, find) at e, k)) (ap lower (sym is) ∙ lower_twice key ∙ is)
      | inr other ↦ find-IsUpper x y key datas h (rw (other, find) at e) k
    ]

IsUpper-append :
    (x y : ℕ) (name : List ℕ) (datas : List (List ℕ × ℕ))
    → IsUpper x datas
    → y ≢ x
    → IsUpper x (datas ++ (name, y) ∷ [])
IsUpper-append x y name [] h n = (λ e. absurd (n e), tt)
IsUpper-append x y name (d ∷ datas) (k, h) n = (k, IsUpper-append x y name datas h n)

module _ {V : Type 0} where
  lookup_new :
      (type : ℕ) (name : List ℕ) (value : V) (c : Config V)
      → find name c.datas ≡ none
      → lookup type name value c ≡ (some (length c.vars), create_var type name value c)
  unfolding lookup
  lookup_new type name value c h = simp (h, lookup)

  lookup_again :
      (type other : ℕ) (name : List ℕ) (value second : V) (c : Config V)
      → find name c.datas ≡ none
      → lookup other name second (create_var type name value c)
        ≡ (if other == type then some (length c.vars) else none, create_var type name value c)
  unfolding lookup create_var
  lookup_again type other name value second c h = rw (
    find-new name (length c.vars) c.datas h,
    get_elem-new c.vars (record { name = name; type = type; val = value; callbacks = [] }),
    lookup,
  )

  -- `Lookup` with a default makes a variable for a name that has none. The next `Lookup` of the name with
  -- that type gives the same variable, whatever its default, and with another type a null pointer;
  -- neither changes anything.
  pub lookup_lem :
      (type other : ℕ) (name : List ℕ) (value second : V) (c : Config V)
      → find name c.datas ≡ none
      → (other == type) ≡ false
      → (lookup type name second (lookup type name value c).1
          ≡ (some (length c.vars), (lookup type name value c).1))
        × (lookup other name second (lookup type name value c).1
            ≡ (none, (lookup type name value c).1))
  unfolding lookup create_var
  lookup_lem type other name value second c h n = rw (lookup_new type name value c h) (
    lookup_again type type name value second c h
        ∙ ap (λ b. (if b then some (length c.vars) else none, create_var type name value c))
            (==_self type),
    lookup_again type other name value second c h
        ∙ ap (λ b. (if b then some (length c.vars) else none, create_var type name value c)) n,
  )

  module _ (same : ℕ → V → V → Bool) (convert : ℕ → List ℕ → Option V)
      (text_value : List ℕ → V) where
    -- Setting a variable to a value that `==` takes for equal to itself gives each listener one notice,
    -- with the old and the new value, unless they are equal; setting it again gives none and changes
    -- nothing.
    pub set_value_again :
        (new : V) (v : ConfigVar V)
        → same v.type new new ≡ true
        → (same v.type v.val new ≡ false)
        → ((set_value same new v).1 ≡ notify v.val new v.callbacks)
          × (set_value same new (set_value same new v).0 ≡ ((set_value same new v).0, []))
    unfolding set_value
    set_value_again new v h k = (simp (k, set_value), simp (k, h, set_value))

    update_at-datas :
        (x : ℕ) (text : List ℕ) (c : Config V) → (update_at same convert x text c).datas ≡ c.datas
    unfolding update_at
    update_at-datas x text c = ground arith

    -- A name that has a variable keeps it.
    load_node-keeps :
        (name : List ℕ) (node : List ℕ × List ℕ) (c : Config V)
        → find name c.datas ≢ none
        → find name (load_node same convert text_value node c).datas ≢ none
    unfolding load_node lookup_base create_var
    load_node-keeps name (key, text) c h = elim (Option-cases (find (lower key) c.datas)) [
      | inr (x, e) ↦
          λ k. h (ap (find name) (sym (update_at-datas x text c)) ∙ (rw (e, load_node) at k))
      | inl e ↦ λ k. find-append name (lower key) (length c.vars) c.datas h (
          ap (λ (r : Option ℕ × Config V). find name r.1.datas)
            (sym (lookup_new string_type (lower key) (text_value text) c e))
          ∙ (rw (e, load_node) at k))
    ]

    load_nodes-keeps :
        (name : List ℕ) (nodes : List (List ℕ × List ℕ)) (c : Config V)
        → find name c.datas ≢ none
        → find name (load_nodes same convert text_value nodes c).datas ≢ none
    unfolding load_nodes
    load_nodes-keeps name [] c h = h
    load_nodes-keeps name (node ∷ nodes) c h =
        load_nodes-keeps name nodes (load_node same convert text_value node c)
          (load_node-keeps name node c h)

    load_node-has :
        (node : List ℕ × List ℕ) (c : Config V)
        → find (lower node.0) (load_node same convert text_value node c).datas ≢ none
    unfolding load_node lookup_base create_var
    load_node-has (key, text) c = elim (Option-cases (find (lower key) c.datas)) [
      | inr (x, e) ↦ λ k. ground (
        arith,
        ap (find (lower key)) (sym (update_at-datas x text c)) ∙ (rw (e, load_node) at k),
        e,
      )
      | inl e ↦ λ k. ground (
        arith,
        ap (λ (r : Option ℕ × Config V). find (lower key) r.1.datas)
              (sym (lookup_new string_type (lower key) (text_value text) c e))
            ∙ (rw (e, load_node) at k),
        find-new (lower key) (length c.vars) c.datas e,
      )
    ]

    -- The variable at x is as it was, and so are its names.
    abbrev Stays : ℕ → Config V → Config V → Type 0
    Stays x c d =
        (get_elem? d.vars x ≡ get_elem? c.vars x) × (x < length d.vars) × IsUpper x d.datas

    update_at-Stays :
        (x y : ℕ) (text : List ℕ) (c : Config V)
        → x < length c.vars
        → IsUpper x c.datas
        → y ≢ x
        → Stays x c (update_at same convert y text c)
    unfolding update_at
    update_at-Stays x y text c l h n = elim (Option-cases (get_elem? c.vars y)) [
      | inl e ↦
          subst (Stays x c) {x = c} {y = update_at same convert y text c} (simp (e, update_at))
            (refl, l, h)
      | inr (v, e) ↦
          let u = (from_string same convert text v).1 in
          subst (Stays x c)
            {x = record c {
              vars = set c.vars y u;
              notices = c.notices ++ (from_string same convert text v).2;
            }}
            {y = update_at same convert y text c} (simp (e, update_at))
            (
              get_elem-set_other c.vars x y u (λ k. n (sym k)),
              omega (arith, l, length-set c.vars y u),
              h,
            )
    ]

    create_var-Stays :
        (x type : ℕ) (name : List ℕ) (value : V) (c : Config V)
        → x < length c.vars
        → IsUpper x c.datas
        → Stays x c (create_var type name value c)
    unfolding create_var
    create_var-Stays x type name value c l h = (
      get_elem-append c.vars _ x l,
      omega (
        arith,
        l,
        length-append c.vars
            (record { name = name; type = type; val = value; callbacks = [] } ∷ []),
      ),
      IsUpper-append x (length c.vars) name c.datas h (λ e. ground (arith, l, e)),
    )

    load_node-misses :
        (x : ℕ) (node : List ℕ × List ℕ) (c : Config V)
        → x < length c.vars
        → IsUpper x c.datas
        → Stays x c (load_node same convert text_value node c)
    unfolding load_node lookup_base
    load_node-misses x (key, text) c l h = elim (Option-cases (find (lower key) c.datas)) [
      | inr (y, e) ↦
          subst (Stays x c) {x = update_at same convert y text c}
            {y = load_node same convert text_value (key, text) c} (simp (e, load_node))
            (update_at-Stays x y text c l h (find-IsUpper x y key c.datas h e))
      | inl e ↦
          subst (Stays x c) {x = create_var string_type (lower key) (text_value text) c}
            {y = load_node same convert text_value (key, text) c}
            (ap (λ (r : Option ℕ × Config V). r.1)
                (sym (lookup_new string_type (lower key) (text_value text) c e))
              ∙ simp (e, load_node))
            (create_var-Stays x string_type (lower key) (text_value text) c l h)
    ]

    load_nodes-misses :
        (x : ℕ) (nodes : List (List ℕ × List ℕ)) (c : Config V)
        → x < length c.vars
        → IsUpper x c.datas
        → get_elem? (load_nodes same convert text_value nodes c).vars x ≡ get_elem? c.vars x
    unfolding load_nodes
    load_nodes-misses x [] c l h = refl
    load_nodes-misses x (node ∷ nodes) c l h =
        let (e, m, k) = load_node-misses x node c l h in
        load_nodes-misses x nodes (load_node same convert text_value node c) m k ∙ e

    -- A variable whose name has an upper-case letter is never set by `LoadFromYaml`, whatever the file
    -- has: the path is put in lower case, and the name that `Lookup` was given is not.
    pub upper_case_missed :
        (root : Node) (x : ℕ) (c : Config V)
        → x < length c.vars
        → IsUpper x c.datas
        → get_elem? (load_from_yaml same convert text_value root c).vars x ≡ get_elem? c.vars x
    unfolding load_from_yaml
    upper_case_missed root x c l h = load_nodes-misses x (parse_nodes [] root) c l h

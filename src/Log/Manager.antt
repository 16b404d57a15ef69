-- ===== src/Log/Manager.antt =====
-- The table of loggers of the manager.
use cczoecpp.Common.{
  ==_self, ◌⊎◌, ℕ, suc, ◌<◌, ◌≡◌, refl, ap, sym, ◌∙◌, List, [], ◌∷◌, ◌==◌, if◌then◌else◌, Option,
  none, some, false, arith, Bool-cases, Option-cases, inl, inr,
}
use cczoecpp.Common.Text.{same_bytes, same_bytes_self, same_bytes_lem}
use cczoecpp.Common.Outcome.{done, ◌>>=◌}
use cczoecpp.Log.Output.{HasIts, IsValid}
use cczoecpp.Log.Formatter.{
  debug, FormatItem, init, items, init_loop, directive, simple_item, date_item, until_brace,
  until_percent,
}
use cczoecpp.Log.Logger.{
  World, put, make_logger, find_logger, assign_logger, get_logger, default_pattern,
}

-- The pattern of a new logger has no text at its end, so it is parsed.
default_items : (made : List FormatItem) × (init default_pattern ≡ items made)
unfolding init init_loop directive simple_item date_item until_brace until_percent
default_items = (_, refl)

find_logger-assign :
    (name : List ℕ) (x : ℕ) (table : List (List ℕ × ℕ))
    → find_logger name (assign_logger name x table) ≡ some x
find_logger-assign name x [] = rw (same_bytes_self name)
find_logger-assign name x ((k, y) ∷ table) = ground (arith, find_logger-assign name x table)

find_logger-other :
    (name other : List ℕ) (x : ℕ) (table : List (List ℕ × ℕ))
    → same_bytes other name ≡ false
    → find_logger other (assign_logger name x table) ≡ find_logger other table
find_logger-other name other x [] h = rw h
find_logger-other name other x ((k, y) ∷ table) h = elim (Bool-cases (same_bytes name k)) [
  | inl e ↦
      let f : same_bytes other k ≡ false =
        ap (same_bytes other) (sym (same_bytes_lem name k e)) ∙ h in
      rw (e, f, find_logger, assign_logger)
  | inr e ↦
      rw (e, assign_logger)
        (ap (λ found. if same_bytes other k then some y else found)
          (find_logger-other name other x table h))
]

abbrev with_logger : List ℕ → Option ℕ → World → World
with_logger name root w = record w {
  loggers =
      put w.next
        (record {
          name = name;
          level = debug;
          appenders = [];
          formatter = some default_items.0;
          root = root;
        })
        w.loggers;
  next = suc w.next;
}

-- A new logger has the next number, and stands beside the others.
make_logger_lem :
    (name : List ℕ) (root : Option ℕ) (w : World)
    → make_logger name root w ≡ done w.next (with_logger name root w)
unfolding make_logger
make_logger_lem name root w = rw (default_items.1, make_logger)

abbrev registered : List ℕ → World → World
registered name w = record (with_logger name (some w.manager_root) w) {
  table = assign_logger name w.next w.table;
}

get_logger_new :
    (name : List ℕ) (w : World)
    → find_logger name w.table ≡ none
    → get_logger name w ≡ done w.next (registered name w)
unfolding get_logger
get_logger_new name w e = rw (e, make_logger_lem name (some w.manager_root) w, get_logger, ◌>>=◌)

-- `getLogger` returns, and what it returns it returns again: the call after it gives the same logger
-- and changes nothing, and every other name is found as before.
pub get_logger_lem :
    (name other : List ℕ) (w : World)
    → same_bytes other name ≡ false
    → (x : ℕ) × (v : World) × (get_logger name w ≡ done x v)
      × (get_logger name v ≡ done x v)
      × (find_logger other v.table ≡ find_logger other w.table)
unfolding get_logger
get_logger_lem name other w h = elim (Option-cases (find_logger name w.table)) [
  | inr (x, e) ↦ (x, w, rw (e, get_logger), rw (e, get_logger), refl)
  | inl e ↦ (
    w.next,
    registered name w,
    get_logger_new name w e,
    rw (find_logger-assign name w.next w.table, get_logger),
    find_logger-other name other w.next w.table h,
  )
]

-- Every root is the manager's, which has none.
abbrev pub IsManaged : World → Type 0
IsManaged w =
    ((x r : ℕ) → (w.loggers x).root ≡ some r → r ≡ w.manager_root)
    × ((w.loggers w.manager_root).root ≡ none)
    × (w.manager_root < w.next)
    × ((a : ℕ) → HasIts (w.appenders a))

-- Where every root is the manager's, `log` meets its condition.
pub IsManaged-IsValid : (w : World) → IsManaged w → IsValid w
IsManaged-IsValid w (roots, none_above, old, its) =
    (its, λ x r e. ap (λ y. (w.loggers y).root) (roots x r e) ∙ none_above)

-- Where every root is the manager's, `getLogger` keeps that so and gives the logger that the table has of
-- the name, or a new one of that name, below the manager's root and with no appenders of its own, which the
-- table has from then on.
pub get_logger-IsManaged :
    (name : List ℕ) (w : World)
    → IsManaged w
    → (x : ℕ) × (v : World) × (get_logger name w ≡ done x v)
      × IsManaged v
      × (find_logger name v.table ≡ some x)
      × (((find_logger name w.table ≡ some x) × (v ≡ w))
          ⊎ ((x ≡ w.next)
              × ((v.loggers x).root ≡ some w.manager_root)
              × ((v.loggers x).name ≡ name)
              × ((v.loggers x).appenders ≡ [])))
unfolding get_logger
get_logger-IsManaged name w (roots, none_above, old, its) =
    elim (Option-cases (find_logger name w.table)) [
      | inr (x, e) ↦ (x, w, rw (e, get_logger), (roots, none_above, old, its), e, inl (e, refl))
      | inl e ↦ (
        w.next,
        registered name w,
        get_logger_new name w e,
        (
          λ x r f. elim (Bool-cases (x == w.next)) [
            | inl k ↦ ground (arith, rw (k, put) at f)
            | inr k ↦ roots x r (rw (k, put) at f)
          ],
          rw (not_next, put) none_above,
          omega (arith, old),
          its,
        ),
        find_logger-assign name w.next w.table,
        inr (refl, rw (==_self w.next) refl, rw (==_self w.next) refl, rw (==_self w.next) refl),
      )
    ]
  where
    not_next : (w.manager_root == w.next) ≡ false
    not_next = ground (arith, old)

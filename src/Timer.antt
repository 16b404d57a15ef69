-- ===== src/Timer.antt =====
-- cczoecpp/Timer/timer.{h,cpp} and timerManager.{h,cpp}: timers in a set that is ordered by their
-- next time, then by their address.
--
-- A timer is its address in `store`, a callback is a number. The time that `getCurrentMs` returns
-- is an argument, as is the address of a new object. `locked` is the write lock of `m_mutex`, and
-- `notified` counts the calls of `onTimerInsertedAtFront`.
pub mod Order
pub mod Expired
pub mod Handle
mod Runs
use cczoecpp.Common.{
  ℕ, zero, suc, ◌+◌, ◌-◌, ◌%◌, ◌^◌, Option, none, some, List, [], ◌∷◌, Bool, true, false, ltb, leb,
  ◌==◌, if◌then◌else◌, map, ◌++◌,
}
use cczoecpp.Common.Outcome.{Outcome, done, fault, ◌>>=◌, ◌>>◌, pure}

pub record Timer : Type 0 where
  pub recurring : Bool
  pub ms : ℕ
  pub next : ℕ
  pub cb : Option ℕ

pub record Manager : Type 0 where
  pub store : ℕ → Timer
  pub timers : List ℕ
  pub locked : Bool
  pub notified : ℕ

abbrev pub M : Type 0 → Type 0
M A = Manager → Outcome Manager A

-- `Timer::Comparator`, on pointers that are not null.
abbrev pub less : (ℕ → Timer) → ℕ → ℕ → Bool
less store x y =
    if ltb (store x).next (store y).next
    then true
    else if ltb (store y).next (store x).next
    then false
    else ltb x y

abbrev pub put : ℕ → Timer → (ℕ → Timer) → ℕ → Timer
put x t store y = if y == x then t else store y

-- `std::set::insert`
unfoldable pub insert : (ℕ → Timer) → ℕ → List ℕ → List ℕ
insert store x [] = x ∷ []
insert store x (y ∷ l) =
    let rest = insert store x l in
    if less store x y then x ∷ y ∷ l else if less store y x then y ∷ rest else y ∷ l

-- Whether that inserts, and in front of all others.
abbrev pub in_front : (ℕ → Timer) → ℕ → List ℕ → Bool
in_front store x [] = true
in_front store x (y ∷ l) = less store x y

-- `std::set::find` and `erase`; `none` is `end()`.
unfoldable pub erase : (ℕ → Timer) → ℕ → List ℕ → Option (List ℕ)
erase store x [] = none
erase store x (y ∷ l) =
    let rest = erase store x l in
    if less store y x
    then (elim rest [ none ↦ none | some r ↦ some (y ∷ r) ])
    else if less store x y
    then none
    else some l

-- A lock that the caller holds already is undefined behaviour.
abbrev pub wrlock : M (Unit {0})
wrlock s = elim s.locked [ true ↦ fault | false ↦ done tt (record s { locked = true }) ]

abbrev pub unlock : M (Unit {0})
unlock s = done tt (record s { locked = false })

unfoldable pub new_timer : ℕ → ℕ → Option ℕ → Bool → Timer
new_timer now ms cb recurring = record {
  recurring = recurring;
  ms = ms;
  next = (now + ms) % 2 ^ 64;
  cb = cb;
}

-- `Timer(uint64_t now)`
abbrev pub probe_timer : ℕ → Timer
probe_timer now = record { recurring = false; ms = 0; next = now; cb = none }

-- `addTimer(timer, mutex)`
unfoldable pub insert_timer : ℕ → M (Unit {0})
insert_timer x s = elim s.locked [
  | true ↦ fault
  | false ↦ done tt (record s {
    timers = insert s.store x s.timers;
    notified = if in_front s.store x s.timers then suc s.notified else s.notified;
  })
]

unfoldable pub add_timer : ℕ → ℕ → ℕ → Option ℕ → Bool → M ℕ
add_timer address now ms cb recurring s =
    (insert_timer address >>= λ _. pure address)
      (record s { store = put address (new_timer now ms cb recurring) s.store })

unfoldable pub get_next_timer : ℕ → M ℕ
get_next_timer now s = elim s.locked [
  | true ↦ fault
  | false ↦ elim s.timers [
    | [] ↦ done (2 ^ 64 - 1) s
    | x ∷ l ↦ done (if leb (s.store x).next now then 0 else (s.store x).next - now) s
  ]
]

-- What lies before `lower_bound`, and what comes after.
unfoldable pub split_at_bound : (ℕ → Timer) → ℕ → List ℕ → List ℕ × List ℕ
split_at_bound store x [] = ([], [])
split_at_bound store x (y ∷ l) =
    let (before, after) = split_at_bound store x l in
    if less store y x then (y ∷ before, after) else ([], y ∷ l)

-- The `while` loop of `getExpiredCb`.
unfoldable pub split_equal : (ℕ → Timer) → ℕ → List ℕ → List ℕ × List ℕ
split_equal store now [] = ([], [])
split_equal store now (y ∷ l) =
    let (before, after) = split_equal store now l in
    if (store y).next == now then (y ∷ before, after) else ([], y ∷ l)

-- One round of its `for` loop.
unfoldable pub fire_one : ℕ → ℕ → Manager → Manager
fire_one now x s =
    let t = s.store x in
    let again = put x (record t { next = (now + t.ms) % 2 ^ 64 }) s.store in
    elim t.recurring [
      | true ↦ record s { store = again; timers = insert again x s.timers }
      | false ↦ record s { store = put x (record t { cb = none }) s.store }
    ]

unfoldable pub fire : ℕ → List ℕ → Manager → List (Option ℕ) × Manager
fire now [] s = ([], s)
fire now (x ∷ l) s = let (cbs, t) = fire now l (fire_one now x s) in ((s.store x).cb ∷ cbs, t)

unfoldable pub expired_and_later : (ℕ → Timer) → ℕ → ℕ → List ℕ → List ℕ × List ℕ
expired_and_later store now probe timers =
    let (before, after) = split_at_bound (put probe (probe_timer now) store) probe timers in
    let (equal, later) = split_equal store now after in (before ++ equal, later)

-- `probe` is the address of the timer that is only compared with.
unfoldable pub get_expired_cb : ℕ → ℕ → M (List (Option ℕ))
get_expired_cb now probe s = elim s.locked [
  | true ↦ fault
  | false ↦ elim s.timers [
    | [] ↦ done [] s
    | x ∷ l ↦
        let (expired, later) = expired_and_later s.store now probe (x ∷ l) in
        let (cbs, t) = fire now expired (record s { timers = later }) in done cbs t
  ]
]

unfoldable pub empty : M Bool
empty s = elim s.locked [
  | true ↦ fault
  | false ↦ done (elim s.timers [ [] ↦ true | x ∷ l ↦ false ]) s
]

-- `erase(it)` where `it` is `end()` is undefined behaviour.
unfoldable pub cancel : ℕ → M Bool
cancel x s = elim s.locked [
  | true ↦ fault
  | false ↦ elim (s.store x).cb [
    | none ↦ done false s
    | some cb ↦ elim (erase s.store x s.timers) [
      | none ↦ fault
      | some left ↦
          done true
            (record s { store = put x (record (s.store x) { cb = none }) s.store; timers = left })
    ]
  ]
]

-- `reset` calls `addTimer` while it holds the lock.
unfoldable pub reset : ℕ → ℕ → ℕ → Bool → M Bool
reset x now ms from_now s = elim s.locked [
  | true ↦ fault
  | false ↦ elim (s.store x).cb [
    | none ↦ done false s
    | some cb ↦ elim (erase s.store x s.timers) [
      | none ↦ done false s
      | some left ↦ (insert_timer x >> (unlock >> pure true)) (record s {
        store =
            put x
              (record (s.store x) {
                ms = ms;
                next = if from_now then (now + ms) % 2 ^ 64 else (s.store x).next;
              })
              s.store;
        timers = left;
        locked = true;
      })
    ]
  ]
]

unfoldable pub refresh : ℕ → ℕ → M Bool
refresh x now s = elim s.locked [
  | true ↦ fault
  | false ↦ elim (s.store x).cb [
    | none ↦ done false s
    | some cb ↦
        let t = record (s.store x) { cb = none } in
        let again = put x (record t { next = (now + t.ms) % 2 ^ 64 }) s.store in
        elim (erase s.store x s.timers) [
          | none ↦ done false (record s { store = put x t s.store })
          | some left ↦ done true (record s { store = again; timers = insert again x left })
        ]
  ]
]

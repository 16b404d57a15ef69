-- ===== src/Fiber/Run.antt =====
-- The states of the fibers of a thread, over every sequence of steps.
use cczoecpp.Common.{
  ℕ, ◌<◌, ◌≡◌, ◌≢◌, refl, ◌∙◌, none, some, true, false, if◌then◌else◌, arith, ◌⊎◌, ltb, List, [],
  ◌∷◌,
}
use cczoecpp.Common.Outcome.{Outcome, done, fault, ◌>>=◌}
use cczoecpp.Fiber.{
  initial, running, term, ready, Fiber, Thread, new_main, put, set_state, new_fiber, reset, yield,
  resume, finish, yield_to_ready, get_this, same_fiber,
}

-- `m` is the main fiber: it is never left in another state, and besides it the current fiber is the
-- only one that runs.
pub record IsValid (m : ℕ) (s : Thread) : Type 0 where
  pub main : s.main ≡ some m
  pub main_runs : (s.fibers m).state ≡ running
  pub no_stack : (s.fibers m).has_stack ≡ false
  pub current : ℕ
  pub is_current : s.current ≡ some current
  pub current_runs : (s.fibers current).state ≡ running
  pub only : (x : ℕ) → x ≢ m → (s.fibers x).state ≡ running → x ≡ current
  pub fresh : m < s.next_id
  pub current_fresh : current < s.next_id

-- What the program does. Only the current fiber yields, and `mainFunc` runs on another stack than
-- the main fiber's. A fiber that was not made is a dangling pointer.
pub data Action : Type 0 where
  make : ℕ → Action
  restart : ℕ → ℕ → Action
  switch_to : ℕ → Action
  give_up : Action
  end : Action

pub perform : Action → Thread → Outcome Thread (Unit {0})
perform (make cb) s = (new_fiber cb >>= λ x t. done tt t) s
perform (restart x callback) s = reset x callback s
perform (switch_to x) s = if ltb x s.next_id then resume x s else fault
perform give_up s = yield_to_ready s
perform end s = if same_fiber s.current s.main then done tt s else finish s

-- A failed assertion, or a valid state.
abbrev pub Kept : ℕ → Outcome Thread (Unit {0}) → Type 0
Kept m o = (o ≡ fault) ⊎ ((t : Thread) × (o ≡ done tt t) × IsValid m t)

-- A switch between the main fiber and another one.
switched :
    (m c : ℕ) (s t : Thread)
    → IsValid m s
    → t.main ≡ s.main
    → s.next_id ≡ t.next_id
    → t.current ≡ some c
    → c < t.next_id
    → (t.fibers m).state ≡ running
    → (t.fibers m).has_stack ≡ false
    → (t.fibers c).state ≡ running
    → ((x : ℕ) → x ≢ m → (t.fibers x).state ≡ running → x ≡ c)
    → IsValid m t
switched m c s t v same ids now small runs flat c_runs only = record {
  main = same ∙ v.main;
  main_runs = runs;
  no_stack = flat;
  current = c;
  is_current = now;
  current_runs = c_runs;
  only = only;
  fresh = omega (arith, v.fresh, ids);
  current_fresh = small;
}

-- The main fiber is the current one.
at_main :
    (m : ℕ) (s : Thread) → IsValid m s → same_fiber s.current s.main ≡ true → s.current ≡ some m
at_main m s v h = ground (arith, v.main, v.is_current)

others_rest :
    (m x : ℕ) (s : Thread) → IsValid m s → s.current ≡ some m → x ≢ m → (s.fibers x).state ≢ running
others_rest m x s v h n r = n (v.only x n r ∙ ground (arith, v.is_current, h))

resumed :
    (m x : ℕ) (s : Thread)
    → IsValid m s
    → same_fiber s.current s.main ≡ true
    → x < s.next_id
    → (s.fibers x).state ≢ running
    → IsValid m (record (set_state x running s) { current = some x })
resumed m x s v h small rests = record {
  main = v.main;
  main_runs = ground (arith, v.main_runs);
  no_stack = ground (arith, v.no_stack);
  current = x;
  is_current = refl;
  current_runs = ground arith;
  only = λ y n r. ground (arith, others_rest m y s v (at_main m s v h) n);
  fresh = v.fresh;
  current_fresh = small;
}

-- `resume`, by the main fiber, of a fiber that is initial or ready makes it the one that runs, and
-- no other fiber changes.
pub resume_lem :
    (m x : ℕ) (s : Thread)
    → IsValid m s
    → s.current ≡ some m
    → x < s.next_id
    → ((s.fibers x).state ≡ initial) ⊎ ((s.fibers x).state ≡ ready)
    → (t : Thread) × (resume x s ≡ done tt t)
      × IsValid m t
      × (t.current ≡ some x)
      × ((t.fibers x).state ≡ running)
      × ((y : ℕ) → y ≢ x → t.fibers y ≡ s.fibers y)
unfolding resume
resume_lem m x s v at small rests = (
  record (set_state x running s) { current = some x },
  ground (arith, rests, v.main, at),
  resumed m x s v (ground (arith, v.main, at)) small (ground (arith, rests)),
  refl,
  ground arith,
  λ y n. ground arith,
)

x_runs : (m x : ℕ) (s : Thread) → IsValid m s → s.current ≡ some x → (s.fibers x).state ≡ running
x_runs m x s v at = ground (arith, v.current_runs, v.is_current)

left_lem :
    (m x : ℕ) (f : Fiber) (s : Thread)
    → IsValid m s
    → s.current ≡ some x
    → x ≢ m
    → f.state ≢ running
    → IsValid m (record s { fibers = put x f s.fibers; current = s.main })
left_lem m x f s v at n rests = record {
  main = v.main;
  main_runs = ground (arith, v.main_runs, n);
  no_stack = ground (arith, v.no_stack, n);
  current = m;
  is_current = v.main;
  current_runs = ground (arith, v.main_runs, n);
  only = λ y k r. ground (arith, v.only y k, v.is_current, at, rests);
  fresh = v.fresh;
  current_fresh = v.fresh;
}

-- `yield` of the fiber that runs makes it ready, and the main fiber runs on.
pub yield_lem :
    (m x : ℕ) (s : Thread)
    → IsValid m s
    → s.current ≡ some x
    → x ≢ m
    → (t : Thread) × (yield_to_ready s ≡ done tt t)
      × IsValid m t
      × (t.current ≡ some m)
      × ((t.fibers x).state ≡ ready)
      × ((y : ℕ) → y ≢ x → t.fibers y ≡ s.fibers y)
unfolding yield_to_ready get_this yield
yield_lem m x s v at n = (
  record (set_state x ready s) { current = s.main },
  ground (arith, v.main, at, n, x_runs m x s v at),
  left_lem m x (record (s.fibers x) { state = ready }) s v at n (ground arith),
  v.main,
  ground arith,
  λ y k. ground arith,
)

-- When the callback of a fiber other than the main one returns, the fiber has ended and has no
-- callback, the main fiber runs on, and no other fiber changes.
pub finish_lem :
    (m x : ℕ) (s : Thread)
    → IsValid m s
    → s.current ≡ some x
    → x ≢ m
    → (t : Thread) × (finish s ≡ done tt t)
      × IsValid m t
      × (t.current ≡ some m)
      × ((t.fibers x).state ≡ term)
      × ((t.fibers x).cb ≡ none)
      × ((y : ℕ) → y ≢ x → t.fibers y ≡ s.fibers y)
unfolding finish get_this yield
finish_lem m x s v at n = (
  record s {
    fibers = put x (record (s.fibers x) { cb = none; state = term }) s.fibers;
    current = s.main;
  },
  ground (arith, v.main, at, n, x_runs m x s v at),
  left_lem m x (record (s.fibers x) { cb = none; state = term }) s v at n (ground arith),
  v.main,
  ground arith,
  ground arith,
  λ y k. ground arith,
)

pub perform_all : List Action → Thread → Outcome Thread (Unit {0})
perform_all [] s = done tt s
perform_all (a ∷ more) s = (perform a >>= λ _. perform_all more) s

-- A thread that has made its main fiber.
pub new_main-IsValid :
    (s : Thread) → ((x : ℕ) → (s.fibers x).state ≢ running) → IsValid s.next_id (new_main s)
new_main-IsValid s idle = record {
  main = refl;
  main_runs = ground arith;
  no_stack = ground arith;
  current = s.next_id;
  is_current = refl;
  current_runs = ground arith;
  only = λ x n r. ground (arith, idle x);
  fresh = omega arith;
  current_fresh = omega arith;
}

-- ===== src/Fiber.antt =====
-- cczoecpp/Fiber/Fiber.{h,cpp}: the fibers of one thread and the one that runs.
--
-- A fiber is its id. A call of `swapcontext` passes control, so `yield` and `resume` are modelled up
-- to it; the code that runs next is another step. Memory, `getcontext` and `makecontext` are left
-- out, since they do not fail; a failed assertion is `fault`.
pub mod Run
mod Runs
use cczoecpp.Common.{ℕ, suc, ◌+◌, ◌-◌, Option, none, some, Bool, true, false, ◌==◌, if◌then◌else◌}
use cczoecpp.Common.Outcome.{Outcome, done, fault, ◌>>=◌, pure}

pub data State : Type 0 where
  initial running term ready : State

pub record Fiber : Type 0 where
  pub state : State
  pub has_stack : Bool
  pub cb : Option ℕ

-- `current` is `t_fiber`, `main` is `t_threadFiber`, `next_id` is `s_fiber_id`.
pub record Thread : Type 0 where
  pub fibers : ℕ → Fiber
  pub current : Option ℕ
  pub main : Option ℕ
  pub next_id : ℕ
  pub count : ℕ

abbrev pub M : Type 0 → Type 0
M A = Thread → Outcome Thread A

abbrev pub put : ℕ → Fiber → (ℕ → Fiber) → ℕ → Fiber
put x f fibers y = if y == x then f else fibers y

abbrev pub set_state : ℕ → State → Thread → Thread
set_state x state s = record s { fibers = put x (record (s.fibers x) { state = state }) s.fibers }

-- The constructor of the main fiber, with what `GetThis` and `initMainFiber` do behind it.
abbrev pub new_main : Thread → Thread
new_main s = record s {
  fibers = put s.next_id (record { state = running; has_stack = false; cb = none }) s.fibers;
  current = some s.next_id;
  main = some s.next_id;
  next_id = suc s.next_id;
  count = suc s.count;
}

unfoldable pub get_this : M ℕ
get_this s = elim s.current [ some x ↦ done x s | none ↦ done s.next_id (new_main s) ]

unfoldable pub init_main_fiber : Thread → Thread
init_main_fiber s = elim s.current [ some x ↦ s | none ↦ new_main s ]

-- The constructor of a fiber with a stack.
unfoldable pub new_fiber : ℕ → M ℕ
new_fiber cb s = done s.next_id (record s {
  fibers = put s.next_id (record { state = initial; has_stack = true; cb = some cb }) s.fibers;
  next_id = suc s.next_id;
  count = suc s.count;
})

abbrev pub same_fiber : Option ℕ → Option ℕ → Bool
same_fiber none none = true
same_fiber none (some y) = false
same_fiber (some x) none = false
same_fiber (some x) (some y) = x == y

abbrev pub is_idle_state : State → Bool
is_idle_state initial = true
is_idle_state term = true
is_idle_state running = false
is_idle_state ready = false

-- The destructor; the object is gone after it.
unfoldable pub destroy : ℕ → M (Unit {0})
destroy x s =
    let t = record s { count = s.count - 1 } in
    elim (s.fibers x).has_stack [
      | true ↦ (if is_idle_state (s.fibers x).state then done tt t else fault)
      | false ↦ done tt (if same_fiber s.current (some x) then record t { current = none } else t)
    ]

unfoldable pub reset : ℕ → ℕ → M (Unit {0})
reset x callback s = elim (is_idle_state (s.fibers x).state) [
  | false ↦ fault
  | true ↦ elim (s.fibers x).has_stack [
    | false ↦ fault
    | true ↦ done tt (record s {
      fibers = put x (record (s.fibers x) { cb = some callback; state = initial }) s.fibers;
    })
  ]
]

-- `swapcontext` with the context of the main fiber, which is undefined where there is none.
abbrev pub swap : Option ℕ → Outcome Thread (Unit {0}) → Outcome Thread (Unit {0})
swap none next = fault
swap (some m) next = next

-- Up to the switch to the main fiber.
unfoldable pub yield : ℕ → M (Unit {0})
yield x s = elim (same_fiber s.current s.main) [
  | true ↦ done tt s
  | false ↦ elim (s.fibers x).state [
    | running ↦ swap s.main (done tt (record (set_state x ready s) { current = s.main }))
    | term ↦ swap s.main (done tt (record s { current = s.main }))
    | initial ↦ fault
    | ready ↦ fault
  ]
]

-- Up to the switch to the fiber.
unfoldable pub resume : ℕ → M (Unit {0})
resume x s = elim (same_fiber s.current s.main) [
  | false ↦ done tt s
  | true ↦ elim (s.fibers x).state [
    | running ↦ fault
    | term ↦ fault
    | initial ↦ swap s.main (done tt (record (set_state x running s) { current = some x }))
    | ready ↦ swap s.main (done tt (record (set_state x running s) { current = some x }))
  ]
]

unfoldable pub yield_to_ready : M (Unit {0})
yield_to_ready = get_this >>= yield

-- The end of `mainFunc`, behind the callback.
unfoldable pub finish : M (Unit {0})
finish = get_this >>= λ x s.
    yield x (record s { fibers = put x (record (s.fibers x) { cb = none; state = term }) s.fibers })

unfoldable pub set_idle : ℕ → Thread → Thread
set_idle x s = set_state x initial s

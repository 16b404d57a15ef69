-- ===== src/Scheduler/Queue.antt =====
-- The order in which the rounds of the loop run the tasks of the queue.
use cczoecpp.Common.{ℕ, ◌≡◌, ◌≢◌, List, [], ◌∷◌, ◌++◌, All, some, arith, ◌⊎◌}
use cczoecpp.Common.Outcome.{Outcome, done, fault, ◌>>=◌, ◌>>◌}
use cczoecpp.Fiber.{Thread, initial, running, term, ready, resume, set_state}
use cczoecpp.Scheduler.{Scheduler, on_thread, run_fiber, round}

-- A fiber that `resume` can switch to.
abbrev pub IsRunnable : Thread → ℕ → Type 0
IsRunnable t x = ((t.fibers x).state ≡ initial) ⊎ ((t.fibers x).state ≡ ready)

abbrev pub AreDistinct : List ℕ → Type 0
AreDistinct [] = Unit
AreDistinct (x ∷ xs) = All (λ y. y ≢ x) xs × AreDistinct xs

-- Between two rounds the main fiber runs, and every task of the queue is there once and can be
-- resumed.
abbrev pub IsValid : Scheduler → Type 0
IsValid s =
    (m : ℕ) × (s.thread.main ≡ some m)
    × (s.thread.current ≡ some m)
    × All (IsRunnable s.thread) s.tasks
    × AreDistinct s.tasks

-- The thread behind the switch to a fiber.
abbrev pub switched : ℕ → Scheduler → Scheduler
switched x s = record s { thread = record (set_state x running s.thread) { current = some x } }

-- A fiber that is resumed comes back to the main fiber with every task of the queue still in
-- order, and behind them what it scheduled, each of them runnable.
abbrev pub Returns : (ℕ → Scheduler → Outcome Scheduler (Unit {0})) → Type 0
Returns body =
    (x : ℕ) (s : Scheduler)
    → IsValid s
    → IsRunnable s.thread x
    → All (λ y. y ≢ x) s.tasks
    → (t : Scheduler) × (more : List ℕ) × (body x (switched x s) ≡ done tt t)
      × (t.tasks ≡ s.tasks ++ more)
      × IsValid t

-- A fiber that was scheduled a second time and has ended by then fails the assertion of `resume`.
pub ended_task_faults :
    (body : ℕ → Scheduler → Outcome Scheduler (Unit {0})) (x m : ℕ) (rest : List ℕ) (s : Scheduler)
    → s.tasks ≡ x ∷ rest
    → s.thread.main ≡ some m
    → s.thread.current ≡ some m
    → (s.thread.fibers x).state ≡ term
    → round body s ≡ fault
unfolding round run_fiber resume
ended_task_faults body x m rest s q e f h =
    let ended : resume x s.thread ≡ fault = ground (arith, e, f, h) in
    let stopped : on_thread (resume x) (record s { tasks = rest }) ≡ fault =
      rw (ended, on_thread) in
    let ran : run_fiber body x (record s { tasks = rest }) ≡ fault =
      rw (stopped, run_fiber, ◌>>◌, ◌>>=◌) in
    simp (q, round) ran

-- ===== src/Scheduler.antt =====
-- cczoecpp/Scheduler/scheduler.{h,cpp}: the queue of fibers and the loop of a thread that runs them.
--
-- A fiber is its number in the thread's fibers. What a fiber does from the switch to it until the
-- thread's main fiber runs again is a parameter, `body`; it may schedule more. The loop of `run` has
-- no end, so it is the sequence of its rounds. One thread; the mutex is left out.
pub mod Queue
mod Runs
use cczoecpp.Common.{ℕ, zero, suc, ◌-◌, List, [], ◌∷◌, ◌++◌}
use cczoecpp.Common.Outcome.{Outcome, done, raised, fault, stuck, ◌>>=◌, ◌>>◌}
use cczoecpp.Fiber.{Thread, new_fiber, resume, set_idle}

pub record Scheduler : Type 0 where
  pub tasks : List ℕ
  pub thread : Thread
  pub idle_fiber : ℕ
  pub idle_thread_count : ℕ

abbrev pub M : Type 0 → Type 0
M A = Scheduler → Outcome Scheduler A

-- `ScheduleTask`: a fiber, a callback, or neither.
pub data Task : Type 0 where
  fiber_task cb_task : ℕ → Task
  empty_task : Task

-- An operation on the fibers of the thread.
abbrev pub on_thread : {A : Type 0} → (Thread → Outcome Thread A) → M A
on_thread f s = elim (f s.thread) [
  | done a t ↦ done a (record s { thread = t })
  | raised e t ↦ raised e (record s { thread = t })
  | fault ↦ fault
  | stuck ↦ stuck
]

-- A fiber that is running is put into the queue all the same.
unfoldable pub schedule : Task → M (Unit {0})
schedule (fiber_task x) s = done tt (record s { tasks = s.tasks ++ x ∷ [] })
schedule (cb_task cb) s =
    (on_thread (new_fiber cb) >>= λ x t. done tt (record t { tasks = t.tasks ++ x ∷ [] })) s
schedule empty_task s = done tt s

module _ (body : ℕ → M (Unit {0})) where
  -- A fiber runs until the main fiber runs again.
  unfoldable pub run_fiber : ℕ → M (Unit {0})
  run_fiber x = on_thread (resume x) >> body x

  -- Nothing to do: the idle fiber runs.
  unfoldable pub idle_round : M (Unit {0})
  idle_round s =
      (run_fiber s.idle_fiber >>= λ u t.
      done tt (record t { idle_thread_count = t.idle_thread_count - 1 }))
        (record s {
          idle_thread_count = suc s.idle_thread_count;
          thread = set_idle s.idle_fiber s.thread;
        })

  -- One round of the loop of `run`.
  unfoldable pub round : M (Unit {0})
  round s = elim s.tasks [ [] ↦ idle_round s | x ∷ rest ↦ run_fiber x (record s { tasks = rest }) ]

  unfoldable pub rounds : ℕ → M (Unit {0})
  rounds zero s = done tt s
  rounds (suc n) s = (round >> rounds n) s

-- ===== src/Scheduler/Runs.antt =====
-- Fibers that give up at once, and the theorem at them.
use cczoecpp.Common.{ℕ, [], ◌∷◌, some, true, false, if◌then◌else◌, ◌==◌}
use cczoecpp.Common.Outcome.{Outcome, done}
use cczoecpp.Fiber.{running, initial, ready, set_state}
use cczoecpp.Scheduler.{Scheduler}

-- A fiber yields as soon as it runs.
abbrev give_up : ℕ → Scheduler → Outcome Scheduler (Unit {0})
give_up x s =
    done tt (record s { thread = record (set_state x ready s.thread) { current = s.thread.main } })

abbrev three_tasks : Scheduler
three_tasks = record {
  tasks = 1 ∷ 2 ∷ 3 ∷ [];
  thread = record {
    fibers = λ x. record {
      state = (if x == 0 then running else initial);
      has_stack = (if x == 0 then false else true);
      cb = some x;
    };
    current = some 0;
    main = some 0;
    next_id = 4;
    count = 4;
  };
  idle_fiber = 9;
  idle_thread_count = 0;
}

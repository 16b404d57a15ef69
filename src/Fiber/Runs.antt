-- ===== src/Fiber/Runs.antt =====
-- A thread with two fibers, and the theorems at it.
use cczoecpp.Fiber.Run.{Action, make, restart, switch_to, give_up, end}
use cczoecpp.Fiber.{Thread, initial, running}
use cczoecpp.Common.{none, some, true, false, ◌==◌, if◌then◌else◌, List, [], ◌∷◌}

-- A thread with its main fiber, then with another one that waits, then that one running.
abbrev main_only : Thread
main_only = record {
  fibers = λ x. record {
    state = (if x == 0 then running else initial);
    has_stack = (if x == 0 then false else true);
    cb = none;
  };
  current = some 0;
  main = some 0;
  next_id = 1;
  count = 1;
}

abbrev actions : List Action
actions = make 5 ∷ switch_to 1 ∷ give_up ∷ switch_to 1 ∷ end ∷ restart 1 6 ∷ []

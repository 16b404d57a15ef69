-- ===== src/FdManager/Runs.antt =====
-- The new table, and the theorems at it.
use cczoecpp.FdManager.Table.{lookup, set_fd_lem}
use cczoecpp.FdManager.{new_ctx, FdManager, new_manager, set_fd}
use cczoecpp.Common.{ℕ, ◌≤◌, ◌<◌, ◌≡◌, ◌≢◌, Option, some, Bool, true, length, arith}
use cczoecpp.Common.Outcome.{done}

-- Every descriptor is a socket.
abbrev all_sockets : ℕ → Option Bool
all_sockets fd = some true

set_fd_lem_example :
    (t : FdManager) × (set_fd all_sockets 100 new_manager ≡ done (new_ctx 100 (all_sockets 100)) t)
    × (length new_manager ≤ length t)
    × (100 < length t)
    × (lookup t 100 ≡ some (new_ctx 100 (all_sockets 100)))
    × ((other : ℕ) → other ≢ 100 → lookup t other ≡ lookup new_manager other)
set_fd_lem_example = set_fd_lem all_sockets 100 new_manager (omega arith)

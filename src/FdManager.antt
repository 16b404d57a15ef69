-- ===== src/FdManager.antt =====
-- cczoecpp/Net/Hook/fdmanager.{h,cpp}: the table of descriptors.
--
-- A context is held by value. `fstat` and `S_ISSOCK` are a parameter: `none` for a descriptor that
-- `fstat` refuses, else whether it is a socket. A descriptor is not negative.
pub mod Table
mod Runs
use cczoecpp.Common.{
  ℕ, ◌+◌, ◌-◌, ◌*◌, ◌/◌, ◌^◌, Option, none, some, List, ◌++◌, Bool, true, false, leb, ltb,
  if◌then◌else◌, length, get_elem?, set, take, replicate,
}
use cczoecpp.Common.Outcome.{Outcome, done, raised, fault, stuck}

pub record FdCtx : Type 0 where
  pub is_init : Bool
  pub is_socket : Bool
  pub sys_nonblock : Bool
  pub user_nonblock : Bool
  pub is_closed : Bool
  pub fd : ℕ
  pub recv_timeout : ℕ
  pub send_timeout : ℕ

pub data TimeoutType : Type 0 where
  so_rcvtimeo so_sndtimeo : TimeoutType

abbrev pub get_timeout : TimeoutType → FdCtx → ℕ
get_timeout so_rcvtimeo c = c.recv_timeout
get_timeout so_sndtimeo c = c.send_timeout

abbrev pub set_timeout : TimeoutType → ℕ → FdCtx → FdCtx
set_timeout so_rcvtimeo val c = record c { recv_timeout = val }
set_timeout so_sndtimeo val c = record c { send_timeout = val }

abbrev pub set_user_nonblock : Bool → FdCtx → FdCtx
set_user_nonblock v c = record c { user_nonblock = v }

abbrev pub set_sys_nonblock : Bool → FdCtx → FdCtx
set_sys_nonblock v c = record c { sys_nonblock = v }

-- The constructor: a socket is made non-blocking.
abbrev pub new_ctx : ℕ → Option Bool → FdCtx
new_ctx fd stat = record {
  is_init = elim stat [ none ↦ false | some socket ↦ true ];
  is_socket = elim stat [ none ↦ false | some socket ↦ socket ];
  sys_nonblock = elim stat [ none ↦ false | some socket ↦ socket ];
  user_nonblock = false;
  is_closed = false;
  fd = fd;
  recv_timeout = 2 ^ 64 - 1;
  send_timeout = 2 ^ 64 - 1;
}

abbrev pub FdManager : Type 0
FdManager = List (Option FdCtx)

abbrev pub M : Type 0 → Type 0
M A = FdManager → Outcome FdManager A

abbrev pub new_manager : FdManager
new_manager = replicate 64 none

-- `m_data.resize(size)`
unfoldable pub resize : ℕ → FdManager → FdManager
resize size data_ = take size data_ ++ replicate (size - length data_) none

-- `FdManager::set`; `fd * 1.5` is cut to a whole number.
unfoldable pub set_fd : (ℕ → Option Bool) → ℕ → M FdCtx
set_fd stat fd s =
    let c = new_ctx fd (stat fd) in
    let t = if leb (length s) fd then resize (fd * 3 / 2) s else s in
    if ltb fd (length t) then done c (set t fd (some c)) else fault

-- `FdManager::get`; the null pointer is `none`.
unfoldable pub get_fd : (ℕ → Option Bool) → ℕ → Bool → M (Option FdCtx)
get_fd stat fd auto_create s = elim (get_elem? s fd) [
  | none ↦ (if auto_create then fault else done none s)
  | some entry ↦ elim entry [
    | some c ↦ done (some c) s
    | none ↦ elim auto_create [
      | false ↦ done none s
      | true ↦ elim (set_fd stat fd s) [
        | done c t ↦ done (some c) t
        | raised e t ↦ raised e t
        | fault ↦ fault
        | stuck ↦ stuck
      ]
    ]
  ]
]

unfoldable pub del_fd : ℕ → FdManager → FdManager
del_fd fd s = if ltb fd (length s) then set s fd none else s

-- ===== src/Hook/Control.antt =====
-- cczoecpp/Net/Hook/hook.cpp: the calls that set up and close descriptors, that wait for a time, and
-- `connectWithTimeout`.
--
-- The functions of libc are a record of parameters again. An argument of `fcntl` is a number, or none
-- where the code passes none on. The constants are those of Linux.
use cczoecpp.Common.{
  ℕ, ◌+◌, ◌-◌, ◌*◌, ◌/◌, ◌%◌, ◌^◌, Option, none, some, List, [], ◌∷◌, Bool, true, false, not, ◌||◌,
  ◌==◌, if◌then◌else◌, set,
}
use cczoecpp.Common.Outcome.{Outcome, done, raised, fault, stuck, logic_error}
use cczoecpp.FdManager.{
  FdCtx, FdManager, TimeoutType, so_rcvtimeo, so_sndtimeo, set_timeout, set_user_nonblock, get_fd,
  del_fd,
}
use cczoecpp.IoManager.{writing}
use cczoecpp.Hook.{Reply, ret, fails, ebadf, einprogress, State, ask, origin}
use cczoecpp.Hook.Wait.{World, System, ready, refused, suspend}

pub record Libc (S : Type 0) : Type 0 where
  pub socket_f : S → Reply × S
  pub close_f : ℕ → S → Reply × S
  pub fcntl_f : ℕ → ℕ → Option ℕ → S → Reply × S
  pub ioctl_f : ℕ → ℕ → ℕ → S → Reply × S
  pub setsockopt_f : ℕ → ℕ → ℕ → ℕ × ℕ → S → Reply × S
  -- SO_ERROR of a socket, or `errno` of the call that asks for it.
  pub so_error : ℕ → S → Reply
  -- `cancelAll` of the event loop of this thread, where there is one.
  pub cancel_all : ℕ → S → S
  pub stat : ℕ → Option Bool

-- `get` without autoCreate.
abbrev pub lookup : (ℕ → Option Bool) → ℕ → FdManager → Option FdCtx
lookup stat fd table = elim (get_fd stat fd false table) [
  | done c t ↦ c
  | raised e t ↦ none
  | fault ↦ none
  | stuck ↦ none
]

-- The object that the table shares is changed.
abbrev pub put_ctx : ℕ → FdCtx → FdManager → FdManager
put_ctx fd c table = set table fd (some c)

-- `!ctx || ctx->isClosed() || !ctx->isSocket()` does not hold.
abbrev pub hooked_socket : Option FdCtx → Option FdCtx
hooked_socket none = none
hooked_socket (some c) = if c.is_closed || not c.is_socket then none else some c

abbrev pub f_getfl : ℕ
f_getfl = 3

abbrev pub f_setfl : ℕ
f_setfl = 4

-- `O_NONBLOCK` is the bit 11.
abbrev pub nonblock_bit : ℕ → Bool
nonblock_bit arg = arg / 2048 % 2 == 1

abbrev pub set_nonblock : ℕ → ℕ
set_nonblock arg = if nonblock_bit arg then arg else arg + 2048

abbrev pub clear_nonblock : ℕ → ℕ
clear_nonblock arg = if nonblock_bit arg then arg - 2048 else arg

-- The commands that pass an argument on: F_DUPFD, F_DUPFD_CLOEXEC, F_SETFD, F_SETOWN, F_SETSIG, F_SETLEASE,
-- F_NOTIFY, F_SETPIPE_SZ, then F_SETLK, F_SETLKW, F_GETLK, then F_GETOWN_EX, F_SETOWN_EX.
abbrev pub one_of : ℕ → List ℕ → Bool
one_of cmd [] = false
one_of cmd (c ∷ rest) = (cmd == c) || one_of cmd rest

abbrev pub with_argument : List ℕ
with_argument = 0 ∷ 1030 ∷ 2 ∷ 8 ∷ 10 ∷ 1024 ∷ 1026 ∷ 1031 ∷ 6 ∷ 7 ∷ 5 ∷ 16 ∷ 15 ∷ []

-- What `fcntl` returns: `negative n` is -n, which is no error code of the system.
pub data Control : Type 0 where
  value : ℕ → Control
  failed : ℕ → Control
  negative : ℕ → Control

abbrev pub control : Reply → Control
control (ret n) = value n
control (fails e) = failed e

abbrev pub fionbio : ℕ
fionbio = 21537

abbrev pub sol_socket : ℕ
sol_socket = 1

abbrev pub timeout_type : ℕ → Option TimeoutType
timeout_type optname =
    if optname == 20 then some so_rcvtimeo else if optname == 21 then some so_sndtimeo else none

abbrev pub fcntl_flags : FdCtx → ℕ → ℕ
fcntl_flags c arg = if c.sys_nonblock then set_nonblock arg else clear_nonblock arg

module _ {S : Type 0} (libc : Libc S) where
  abbrev pub call : (S → Reply × S) → State S → Control × State S
  call f w = let (n, s) = f w.sys in (control n, record w { sys = s })

  abbrev pub reply : (S → Reply × S) → State S → Reply × State S
  reply f w = let (n, s) = f w.sys in (n, record w { sys = s })

  -- F_SETFL: the user's flag is kept in the context, the system's is what the system has.
  unfoldable pub fcntl_setfl : ℕ → ℕ → State S → Control × State S
  fcntl_setfl fd arg w = elim (hooked_socket (lookup libc.stat fd w.table)) [
    | none ↦ call (libc.fcntl_f fd f_setfl (some arg)) w
    | some c ↦
        call (libc.fcntl_f fd f_setfl (some (fcntl_flags c arg)))
          (record w { table = put_ctx fd (set_user_nonblock (nonblock_bit arg) c) w.table })
  ]

  -- F_GETFL: the flag is the user's; -1 without that bit is -2049.
  abbrev pub user_flags : FdCtx → Reply → Control
  user_flags c (ret arg) = value (if c.user_nonblock then set_nonblock arg else clear_nonblock arg)
  user_flags c (fails e) = if c.user_nonblock then failed e else negative 2049

  unfoldable pub fcntl_getfl : ℕ → State S → Control × State S
  fcntl_getfl fd w =
      let (n, s) = libc.fcntl_f fd f_getfl none w.sys in
      let v = record w { sys = s } in
      elim (hooked_socket (lookup libc.stat fd w.table)) [
        | none ↦ (control n, v)
        | some c ↦ (user_flags c n, v)
      ]

  unfoldable pub fcntl : ℕ → ℕ → ℕ → State S → Control × State S
  fcntl fd cmd arg w =
      if not w.enable
      then call (libc.fcntl_f fd cmd none) w
      else if cmd == f_setfl
      then fcntl_setfl fd arg w
      else if cmd == f_getfl
      then fcntl_getfl fd w
      else if one_of cmd with_argument
      then call (libc.fcntl_f fd cmd (some arg)) w
      else call (libc.fcntl_f fd cmd none) w

  -- `arg` is what the pointer points to.
  unfoldable pub ioctl : ℕ → ℕ → ℕ → State S → Reply × State S
  ioctl fd request arg w =
      if request == fionbio
      then elim (hooked_socket (lookup libc.stat fd w.table)) [
        | none ↦ reply (libc.ioctl_f fd request arg) w
        | some c ↦
            reply (libc.ioctl_f fd request arg)
              (record w { table = put_ctx fd (set_user_nonblock (not (arg == 0)) c) w.table })
      ]
      else reply (libc.ioctl_f fd request arg) w

  -- The value of a time is its seconds and microseconds.
  unfoldable pub with_timeout : ℕ → ℕ → ℕ → ℕ × ℕ → FdManager → FdManager
  with_timeout sockfd level optname tv table =
      if level == sol_socket
      then elim (timeout_type optname) [
        | none ↦ table
        | some type ↦ elim (lookup libc.stat sockfd table) [
          | none ↦ table
          | some c ↦ put_ctx sockfd (set_timeout type (tv.0 * 1000 + tv.1 / 1000) c) table
        ]
      ]
      else table

  unfoldable pub setsockopt : ℕ → ℕ → ℕ → ℕ × ℕ → State S → Reply × State S
  setsockopt sockfd level optname tv w =
      if w.enable
      then reply (libc.setsockopt_f sockfd level optname tv)
          (record w { table = with_timeout sockfd level optname tv w.table })
      else reply (libc.setsockopt_f sockfd level optname tv) w

  unfoldable pub socket : State S → Outcome (State S) Reply
  socket w =
      let (n, s) = libc.socket_f w.sys in
      let v = record w { sys = s } in
      elim n [
        | fails e ↦ done (fails e) v
        | ret fd ↦ elim w.enable [
          | false ↦ done (ret fd) v
          | true ↦ elim (get_fd libc.stat fd true w.table) [
            | done c table ↦ done (ret fd) (record v { table = table })
            | raised e table ↦ raised e (record v { table = table })
            | fault ↦ fault
            | stuck ↦ stuck
          ]
        ]
      ]

  unfoldable pub close : ℕ → State S → Reply × State S
  close fd w =
      if w.enable
      then elim (lookup libc.stat fd w.table) [
        | none ↦ reply (libc.close_f fd) w
        | some c ↦
            reply (libc.close_f fd)
              (record w { table = del_fd fd w.table; sys = libc.cancel_all fd w.sys })
      ]
      else reply (libc.close_f fd) w

  -- What is known of the connection when the socket is ready.
  abbrev pub connected : Reply → Reply
  connected (fails e) = fails e
  connected (ret error) = if error == 0 then ret 0 else fails error

  module _ (env : System S) (connect_f : S → Reply × S) where
    -- From EINPROGRESS on.
    unfoldable pub connect_wait : ℕ → ℕ → World S → Outcome (World S) Reply
    connect_wait fd timeout s = elim (suspend env fd writing timeout s) [
      | done x t ↦ elim x [
        | refused e ↦ raised logic_error t
        | ready ↦ done (connected (libc.so_error fd t.kernel)) t
      ]
      | raised e t ↦ raised e t
      | fault ↦ fault
      | stuck ↦ stuck
    ]

    abbrev pub plain_connect : World S → Outcome (World S) Reply
    plain_connect s = origin env connect_f s

    unfoldable pub connect_with_timeout : ℕ → ℕ → State (World S) → Outcome (World S) Reply
    connect_with_timeout fd timeout w = elim w.enable [
      | false ↦ plain_connect w.sys
      | true ↦ elim (lookup libc.stat fd w.table) [
        | none ↦ done (fails ebadf) w.sys
        | some c ↦
            if c.is_closed
            then done (fails ebadf) w.sys
            else if not c.is_socket || c.user_nonblock
            then plain_connect w.sys
            else let (n, t) = ask env connect_f w.sys in
              elim n [
                | ret code ↦ done (ret code) t
                | fails e ↦ if e == einprogress then connect_wait fd timeout t else done (fails e) t
              ]
      ]
    ]

    -- With the hook on, `connect` does not connect.
    unfoldable pub connect : State (World S) → Outcome (World S) Reply
    connect w = if w.enable then done (ret 0) w.sys else plain_connect w.sys

-- What a fiber does in `sleep`, `usleep` and `nanosleep`: it sets a timer that schedules it, and
-- yields.
pub data Step : Type 0 where
  set_timer : ℕ → Step
  yield_to_ready : Step

unfoldable pub sleep : ℕ → List Step
sleep seconds = yield_to_ready ∷ set_timer (seconds * 1000 % 2 ^ 32) ∷ []

unfoldable pub usleep : ℕ → List Step
usleep usec = set_timer (usec / 1000) ∷ yield_to_ready ∷ []

unfoldable pub nanosleep : ℕ → ℕ → List Step
nanosleep seconds nanoseconds =
    set_timer (seconds * 1000 + nanoseconds / 1000000) ∷ yield_to_ready ∷ []

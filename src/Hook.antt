-- ===== src/Hook.antt =====
-- cczoecpp/Net/Hook/hook.{h,cpp}: the calls on descriptors that suspend the fiber instead of the
-- thread.
--
-- The functions of libc that `dlsym` finds are parameters, over a state of the system of their own. A
-- call gives `ret n`, or `fails e` for -1 with `errno`. The timers and the event loop are those of
-- Timer and IoManager, in the `World` of Wait. The number of calls that give EINTR or EAGAIN has no
-- bound, so `do_io` has fuel.
pub mod Wait
pub mod Fit
pub mod Suspend
pub mod Io
pub mod Control
pub mod Flags
mod Runs
use cczoecpp.Common.{
  ℕ, zero, suc, Option, none, some, Bool, true, false, not, ◌||◌, ◌==◌, if◌then◌else◌,
}
use cczoecpp.Common.Outcome.{Outcome, done, raised, fault, stuck, map_state}
use cczoecpp.FdManager.{
  FdCtx, FdManager, TimeoutType, so_rcvtimeo, so_sndtimeo, get_timeout, get_fd,
}
use cczoecpp.IoManager.{Kind, reading, writing}
use cczoecpp.Hook.Wait.{World, System, ready, refused, suspend}

pub data Reply : Type 0 where
  ret : ℕ → Reply
  fails : ℕ → Reply

abbrev pub eintr : ℕ
eintr = 4

abbrev pub ebadf : ℕ
ebadf = 9

abbrev pub eagain : ℕ
eagain = 11

abbrev pub etimedout : ℕ
etimedout = 110

abbrev pub einprogress : ℕ
einprogress = 115

-- `t_hookEnable`, the table of descriptors, and the rest.
pub record State (S : Type 0) : Type 0 where
  pub enable : Bool
  pub table : FdManager
  pub sys : S

-- The ten functions that read and write, with the event that they wait for.
pub data IoCall : Type 0 where
  read readv recv recvfrom recvmsg write writev send sendto sendmsg : IoCall

abbrev pub event_of : IoCall → Kind
event_of read = reading
event_of readv = reading
event_of recv = reading
event_of recvfrom = reading
event_of recvmsg = reading
event_of write = writing
event_of writev = writing
event_of send = writing
event_of sendto = writing
event_of sendmsg = writing

abbrev pub timeout_of : Kind → TimeoutType
timeout_of reading = so_rcvtimeo
timeout_of writing = so_sndtimeo

module _ {T : Type 0} (env : System T) where
  module _ (fun : T → Reply × T) where
    -- The call itself.
    abbrev pub ask : World T → Reply × World T
    ask w = let (n, t) = fun w.kernel in (n, record w { kernel = t })

    unfoldable pub retry : ℕ → ℕ → Kind → ℕ → World T → Outcome (World T) Reply
    retry zero fd event timeout w = stuck
    retry (suc fuel) fd event timeout w =
        let (n, t) = ask w in
        elim n [
          | ret value ↦ done (ret value) t
          | fails e ↦ elim (e == eintr) [
            | true ↦ retry fuel fd event timeout t
            | false ↦ elim (e == eagain) [
              | false ↦ done (fails e) t
              | true ↦ elim (suspend env fd event timeout t) [
                | done x u ↦ elim x [
                  | refused error ↦ done (fails error) u
                  | ready ↦ retry fuel fd event timeout u
                ]
                | raised x u ↦ raised x u
                | fault ↦ fault
                | stuck ↦ stuck
              ]
            ]
          ]
        ]

    abbrev pub origin : World T → Outcome (World T) Reply
    origin w = let (n, t) = ask w in done n t

    -- The guards of `do_io` on the context.
    unfoldable pub io_on : ℕ → FdCtx → ℕ → Kind → TimeoutType → World T → Outcome (World T) Reply
    io_on fuel ctx fd event so_timeout s =
        if ctx.is_closed
        then done (fails ebadf) s
        else if not ctx.is_socket || ctx.user_nonblock
        then origin s
        else retry fuel fd event (get_timeout so_timeout ctx) s

    abbrev pub with_sys :
        State (World T) → Outcome (World T) Reply → Outcome (State (World T)) Reply
    with_sys w out = map_state (λ s. record w { sys = s }) out

    unfoldable pub do_io :
        ℕ → ℕ → Kind → TimeoutType → State (World T) → Outcome (State (World T)) Reply
    do_io fuel fd event so_timeout w =
        if w.enable
        then elim (get_fd env.fstat fd false w.table) [
          | done ctx table ↦ elim ctx [
            | none ↦ with_sys w (origin w.sys)
            | some c ↦ with_sys w (io_on fuel c fd event so_timeout w.sys)
          ]
          | raised e table ↦ raised e (record w { table = table })
          | fault ↦ fault
          | stuck ↦ stuck
        ]
        else with_sys w (origin w.sys)

    -- `accept` makes a context for the new descriptor.
    unfoldable pub accept : ℕ → ℕ → State (World T) → Outcome (State (World T)) Reply
    accept fuel sockfd w = elim (do_io fuel sockfd reading so_rcvtimeo w) [
      | done n v ↦ elim n [
        | fails e ↦ done (fails e) v
        | ret fd ↦ elim (get_fd env.fstat fd true v.table) [
          | done ctx table ↦ done (ret fd) (record v { table = table })
          | raised e table ↦ raised e (record v { table = table })
          | fault ↦ fault
          | stuck ↦ stuck
        ]
      ]
      | raised e v ↦ raised e v
      | fault ↦ fault
      | stuck ↦ stuck
    ]

  unfoldable pub io_call :
      (IoCall → T → Reply × T) → ℕ → IoCall → ℕ → State (World T) → Outcome (State (World T)) Reply
  io_call origin_of fuel call fd w =
      do_io (origin_of call) fuel fd (event_of call) (timeout_of (event_of call)) w

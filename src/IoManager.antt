-- ===== src/IoManager.antt =====
-- cczoecpp/Scheduler/iomanager.{h,cpp}: the events that are registered for each descriptor, with
-- the work to schedule when they occur.
--
-- A callback, a fiber and a scheduler are numbers. `epoll_ctl` is a parameter: it gives the result
-- for the operation, the descriptor and the events. What is given to `schedule` is the list
-- `scheduled`; `m_pendingEventCount` is a `size_t`, which wraps. The mutexes are left out: every
-- operation runs as one step.
pub mod Trigger
pub mod Register
pub mod Idle
mod Runs
use cczoecpp.Common.{
  ℕ, zero, suc, ◌+◌, ◌-◌, ◌*◌, ◌/◌, ◌%◌, ◌^◌, Option, none, some, List, [], ◌∷◌, ◌++◌, Bool, true,
  false, ltb, leb, ◌==◌, if◌then◌else◌, map, length, get_elem?, set, take, replicate, not, ◌&&◌,
}
use cczoecpp.Common.Outcome.{Outcome, Exception, done, fault, ◌>>=◌, ◌>>◌, pure}

-- `IOManager::Event` as flags: READ and WRITE.
pub record Event : Type 0 where
  pub read : Bool
  pub write : Bool

abbrev pub none_set : Event
none_set = record { read = false; write = false }

-- One of the two flags.
pub data Kind : Type 0 where
  reading writing : Kind

abbrev pub has : Event → Kind → Bool
has e reading = e.read
has e writing = e.write

abbrev pub add : Event → Kind → Event
add e reading = record e { read = true }
add e writing = record e { write = true }

abbrev pub remove : Event → Kind → Event
remove e reading = record e { read = false }
remove e writing = record e { write = false }

abbrev pub any : Event → Bool
any e = if e.read then true else e.write

pub data Task : Type 0 where
  call : ℕ → Task
  run : ℕ → Task

pub record EventContext : Type 0 where
  pub scheduler : Option ℕ
  pub fiber : Option ℕ
  pub cb : Option ℕ

abbrev pub empty_context : EventContext
empty_context = record { scheduler = none; fiber = none; cb = none }

pub record FdContext : Type 0 where
  pub events : Event
  pub on_read : EventContext
  pub on_write : EventContext

abbrev pub new_context : FdContext
new_context = record { events = none_set; on_read = empty_context; on_write = empty_context }

pub record IoManager : Type 0 where
  pub contexts : List FdContext
  pub pending : ℕ
  pub scheduled : List (ℕ × Task)

abbrev pub M : Type 0 → Type 0
M A = IoManager → Outcome IoManager A

-- `getEventContext`
abbrev pub get_event_context : Kind → FdContext → EventContext
get_event_context reading c = c.on_read
get_event_context writing c = c.on_write

abbrev pub set_event_context : Kind → EventContext → FdContext → FdContext
set_event_context reading e c = record c { on_read = e }
set_event_context writing e c = record c { on_write = e }

-- `Scheduler::schedule` leaves out a fiber that is null.
abbrev pub task_of : EventContext → Option Task
task_of e = elim e.cb [
  | some cb ↦ some (call cb)
  | none ↦ elim e.fiber [ none ↦ none | some fiber ↦ some (run fiber) ]
]

abbrev pub enqueue : ℕ → Option Task → List (ℕ × Task) → List (ℕ × Task)
enqueue scheduler none queue = queue
enqueue scheduler (some task) queue = queue ++ ((scheduler, task) ∷ [])

-- `triggerEvent`: only the scheduler of the context is reset. The call on a null scheduler is
-- undefined behaviour.
unfoldable pub trigger_event :
    Kind → FdContext → List (ℕ × Task) → Option (FdContext × List (ℕ × Task))
trigger_event k c queue =
    let e = get_event_context k c in
    elim e.scheduler [
      | none ↦ none
      | some scheduler ↦ some (
        set_event_context k (record e { scheduler = none })
            (record c { events = remove c.events k }),
        enqueue scheduler (task_of e) queue,
      )
    ]

-- What `addEvent` puts into the context: the callback, or the running fiber if there is none. That
-- fiber is in the state RUNNING, as the last assertion of `addEvent` says.
abbrev pub hold : Option ℕ → Option ℕ → ℕ → EventContext → EventContext
hold (some cb) scheduler fiber e = record e { scheduler = scheduler; cb = some cb }
hold none scheduler fiber e = record e { scheduler = scheduler; fiber = some fiber }

-- `fdContextsResize`
unfoldable pub contexts_resize : ℕ → List FdContext → List FdContext
contexts_resize size contexts = take size contexts ++ replicate (size - length contexts) new_context

abbrev pub increment : ℕ → ℕ
increment n = (n + 1) % 2 ^ 64

abbrev pub decrement : ℕ → ℕ
decrement n = (n + 2 ^ 64 - 1) % 2 ^ 64

pub data Op : Type 0 where
  ctl_add ctl_mod ctl_del : Op

-- `fd * 1.5` is cut to a whole number.
unfoldable pub with_context : ℕ → IoManager → IoManager
with_context fd s =
    if ltb fd (length s.contexts)
    then s
    else record s { contexts = contexts_resize (fd * 3 / 2) s.contexts }

-- `fdCtx->triggerEvent(event)`
unfoldable pub trigger : ℕ → Kind → FdContext → M FdContext
trigger fd k c s = elim (trigger_event k c s.scheduled) [
  | none ↦ fault
  | some (c', queue) ↦ done c' (record s { contexts = set s.contexts fd c'; scheduled = queue })
]

-- `triggerEvent` with `m_pendingEventCount--`
unfoldable pub trigger_if : Bool → ℕ → Kind → FdContext → M FdContext
trigger_if b fd k c s = elim b [
  | false ↦ done c s
  | true ↦ (trigger fd k c >>= λ c' t. done c' (record t { pending = decrement t.pending })) s
]

-- What `idle` does for one event of a descriptor: `hup` is EPOLLERR or EPOLLHUP. The result of
-- `epoll_ctl` is only logged.
unfoldable pub occur : ℕ → Event → Bool → M (Unit {0})
occur fd e hup s =
    let r = if hup then true else e.read in
    let w = if hup then true else e.write in
    elim (get_elem? s.contexts fd) [
      | none ↦ fault
      | some c ↦ elim (if (r && c.events.read) then true else (w && c.events.write)) [
        | false ↦ done tt s
        | true ↦ (trigger_if r fd reading c >>= λ c'. trigger_if w fd writing c' >>= λ _. pure tt) s
      ]
    ]

module _ (epoll_ctl : Op → ℕ → Event → Bool) where
  -- The part of `addEvent` behind the lookup; `scheduler` is `Scheduler::GetThis()`, which may be
  -- null, and `fiber` is the running one. An event that is set already fails an assertion.
  unfoldable pub register : ℕ → Kind → Option ℕ → Option ℕ → ℕ → FdContext → M ℕ
  register fd k cb scheduler fiber c s = elim (has c.events k) [
    | true ↦ fault
    | false ↦ elim (epoll_ctl (if any c.events then ctl_mod else ctl_add) fd (add c.events k)) [
      | false ↦ done 1 s
      | true ↦
          let e = get_event_context k c in
          let c' =
            set_event_context k (hold cb scheduler fiber e)
              (record c { events = add c.events k }) in
          done 0 (record s { contexts = set s.contexts fd c'; pending = increment s.pending })
    ]
  ]

  unfoldable pub add_event : ℕ → Kind → Option ℕ → Option ℕ → ℕ → M ℕ
  add_event fd k cb scheduler fiber s =
      let t = with_context fd s in
      elim (get_elem? t.contexts fd) [
        | none ↦ fault
        | some c ↦ register fd k cb scheduler fiber c t
      ]

  -- What `delEvent` and `cancelEvent` share: the lookup, the test and `epoll_ctl`, then `rest`.
  unfoldable pub unregister : ℕ → Kind → (FdContext → M ℕ) → M ℕ
  unregister fd k rest s = elim (get_elem? s.contexts fd) [
    | none ↦ done 1 s
    | some c ↦ elim (has c.events k) [
      | false ↦ done 1 s
      | true ↦
          let left = remove c.events k in
          elim (epoll_ctl (if any left then ctl_mod else ctl_del) fd left) [
            | false ↦ done 1 s
            | true ↦ rest (record c { events = left }) (record s { pending = decrement s.pending })
          ]
    ]
  ]

  unfoldable pub del_event : ℕ → Kind → M ℕ
  del_event fd k = unregister fd k λ c s.
      done 0 (record s { contexts = set s.contexts fd (set_event_context k empty_context c) })

  unfoldable pub cancel_event : ℕ → Kind → M ℕ
  cancel_event fd k = unregister fd k λ c s. (trigger fd k c >>= λ _. pure 0) s

  unfoldable pub cancel_all : ℕ → M ℕ
  cancel_all fd s = elim (get_elem? s.contexts fd) [
    | none ↦ done 1 s
    | some c ↦ elim (any c.events) [
      | false ↦ done 1 s
      | true ↦ elim (epoll_ctl ctl_del fd none_set) [
        | false ↦ done 1 s
        | true ↦
            (trigger_if c.events.read fd reading c >>= λ c'.
            trigger_if c'.events.write fd writing c' >>= λ c''.
            λ t. elim (any c''.events) [ true ↦ fault | false ↦ done 0 t ])
              s
      ]
    ]
  ]

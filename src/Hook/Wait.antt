-- ===== src/Hook/Wait.antt =====
-- cczoecpp/Net/Hook/hook.{h,cpp}: from EAGAIN or EINPROGRESS to the resume of the fiber, over the timers
-- and the event loop of the thread.
--
-- A `World` is what such a call reaches: `IOManager::GetThis()`, which is null on a thread without one,
-- `Scheduler::GetThis()`, the running fiber, and the state of the system, which is a parameter. `wait`
-- is the run of everything else between `yield` and the next resume: it gives whether the loop called
-- the function of the timer in it. That function is the lambda of `addTimer` with a condition. It
-- keeps references to the parameters of a call that has returned, so that calling it is undefined
-- behaviour, and `cancelled` stays 0 in every other run.
use cczoecpp.Common.{ℕ, ◌-◌, ◌^◌, Option, none, some, Bool, false, ◌==◌, if◌then◌else◌}
use cczoecpp.Common.Outcome.{Outcome, done, fault, ◌>>=◌, pure, map_state}
use cczoecpp.Timer.{Manager, add_timer, cancel}
use cczoecpp.IoManager.{IoManager, Kind, Event, Op, add_event}

abbrev pub no_timeout : ℕ
no_timeout = 2 ^ 64 - 1

-- An IOManager is a TimerManager.
pub record Loop : Type 0 where
  pub io_manager : IoManager
  pub timer_manager : Manager

pub record World (T : Type 0) : Type 0 where
  pub loop : Option Loop
  pub scheduler : Option ℕ
  pub fiber : ℕ
  pub kernel : T

-- `now` is the time of `getCurrentMs`, `new_address` and `lambda` are the address of the new timer and
-- the number of its function, `errno` is what a failed `epoll_ctl` left.
pub record System (T : Type 0) : Type 0 where
  pub now : World T → ℕ
  pub new_address : World T → ℕ
  pub lambda : World T → ℕ
  pub epoll_ctl : T → Op → ℕ → Event → Bool
  pub errno : World T → ℕ
  pub wait : World T → Outcome (World T) Bool
  pub fstat : ℕ → Option Bool

-- What the wait for an event comes to.
pub data Waited : Type 0 where
  ready : Waited
  refused : ℕ → Waited

module _ {T : Type 0} where
  -- A call on `iom`, which must not be null.
  abbrev pub on_timers :
      {A : Type 0} → (Manager → Outcome Manager A) → World T → Outcome (World T) A
  on_timers f w = elim w.loop [
    | none ↦ fault
    | some l ↦
        map_state (λ t. record w { loop = some (record l { timer_manager = t }) })
          (f l.timer_manager)
  ]

  abbrev pub on_events :
      {A : Type 0} → (IoManager → Outcome IoManager A) → World T → Outcome (World T) A
  on_events f w = elim w.loop [
    | none ↦ fault
    | some l ↦
        map_state (λ t. record w { loop = some (record l { io_manager = t }) }) (f l.io_manager)
  ]

module _ {T : Type 0} (env : System T) where
  -- No timer where the timeout is the greatest number.
  unfoldable pub start_timer : ℕ → World T → Outcome (World T) (Option ℕ)
  start_timer timeout w =
      if timeout == no_timeout
      then done none w
      else (on_timers
              (add_timer (env.new_address w) (env.now w) timeout (some (env.lambda w)) false)
            >>= λ x. pure (some x))
          w

  unfoldable pub stop_timer : Option ℕ → World T → Outcome (World T) (Unit {0})
  stop_timer none w = done tt w
  stop_timer (some x) w = (on_timers (cancel x) >>= λ _. pure tt) w

  -- `addEvent(fd, event)`, without a callback.
  unfoldable pub watch : ℕ → Kind → World T → Outcome (World T) ℕ
  watch fd event w =
      on_events (add_event (env.epoll_ctl w.kernel) fd event none w.scheduler w.fiber) w

  -- The resume behind `wait`.
  unfoldable pub resumed : Option ℕ → Bool → World T → Outcome (World T) Waited
  resumed timer ran w = if ran then fault else (stop_timer timer >>= λ _. pure ready) w

  unfoldable pub watched : Option ℕ → ℕ → World T → Outcome (World T) Waited
  watched timer rt w =
      if rt == 0
      then (env.wait >>= resumed timer) w
      else (stop_timer timer >>= λ _ v. done (refused (env.errno v)) v) w

  unfoldable pub suspend : ℕ → Kind → ℕ → World T → Outcome (World T) Waited
  suspend fd event timeout = start_timer timeout >>= λ timer. (watch fd event >>= watched timer)

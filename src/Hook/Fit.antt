-- ===== src/Hook/Fit.antt =====
-- The worlds in which `do_io` is called and waits.
use cczoecpp.Common.{
  ℕ, zero, suc, ◌≤◌, ◌<◌, ◌≡◌, ◌≢◌, refl, ap, sym, ◌∙◌, Option, none, some, Bool, true, false,
  arith, List, [], ◌∷◌, get_elem?, All, length,
}
use cczoecpp.Common.Outcome.{Outcome, done, map_state}
use cczoecpp.Timer.{Manager}
use cczoecpp.Timer.Expired
use cczoecpp.Timer.Handle.{IsArmed}
use cczoecpp.IoManager.{IoManager, Kind, reading, writing, Event, FdContext, has, add, with_context}
use cczoecpp.IoManager.Register.{IsValid}
use cczoecpp.Hook.Wait.{World, System, Loop, on_timers, on_events}

-- A timer that `do_io` set, if it set one, before and after it is stopped.
abbrev pub IsStarted : Option ℕ → Manager → Type 0
IsStarted none s = Unit
IsStarted (some x) s = IsArmed x s

abbrev pub IsStopped : Option ℕ → Manager → Type 0
IsStopped none s = Unit
IsStopped (some x) s = All (λ y. y ≢ x) s.timers × ((s.store x).cb ≡ none)

module _ {T : Type 0} where
  abbrev pub with_timers : World T → Loop → Manager → World T
  with_timers w l t = record w { loop = some (record l { timer_manager = t }) }

  abbrev pub with_events : World T → Loop → IoManager → World T
  with_events w l t = record w { loop = some (record l { io_manager = t }) }

  pub on_timers-done :
      {A : Type 0} (f : Manager → Outcome Manager A) (w : World T) (l : Loop) (a : A) (t : Manager)
      → w.loop ≡ some l
      → f l.timer_manager ≡ done a t
      → on_timers f w ≡ done a (with_timers w l t)
  on_timers-done f w l a t e h = rw (e, on_timers) (rw (h, map_state) refl)

  pub on_events-done :
      {A : Type 0} (f : IoManager → Outcome IoManager A) (w : World T) (l : Loop) (a : A)
      (t : IoManager)
      → w.loop ≡ some l
      → f l.io_manager ≡ done a t
      → on_events f w ≡ done a (with_events w l t)
  on_events-done f w l a t e h = rw (e, on_events) (rw (h, map_state) refl)

pub has-add : (c : Event) (k : Kind) → has (add c k) k ≡ true
has-add c reading = refl
has-add c writing = refl

inside_of : (cs : List FdContext) (i : ℕ) (c : FdContext) → get_elem? cs i ≡ some c → i < length cs
inside_of [] i c h = ground (arith, h)
inside_of (x ∷ cs) zero c h = omega arith
inside_of (x ∷ cs) (suc i) c h = omega (arith, inside_of cs i c h)

abbrev value_or : FdContext → Option FdContext → FdContext
value_or c none = c
value_or c (some d) = d

-- A descriptor that has a context is found at once.
found_again :
    (fd : ℕ) (s : IoManager) (d : FdContext)
    → get_elem? s.contexts fd ≡ some d
    → with_context fd s ≡ s
unfolding with_context
found_again fd s d h = ground (arith, inside_of s.contexts fd d h)

-- So the event that the context does not have is one that the lookup does not find.
pub unwatched_at :
    (fd : ℕ) (event : Kind) (s : IoManager) (d : FdContext)
    → get_elem? s.contexts fd ≡ some d
    → has d.events event ≡ false
    → (c : FdContext) → get_elem? (with_context fd s).contexts fd ≡ some c
    → has c.events event ≡ false
unwatched_at fd event s d kept free c found =
    let same : c ≡ d =
      ap (value_or c)
        (sym found ∙ ap (λ u. get_elem? u.contexts fd) (found_again fd s d kept) ∙ kept) in
    ap (λ u. has u.events event) same ∙ free

module _ {T : Type 0} (fd : ℕ) (event : Kind) where
  -- The thread has a loop and a scheduler in valid states, and the event is not registered.
  pub record IsFit (w : World T) : Type 0 where
    pub loop_at : Loop
    pub has_loop : w.loop ≡ some loop_at
    pub scheduler_at : ℕ
    pub has_scheduler : w.scheduler ≡ some scheduler_at
    pub timers_valid : Expired.IsValid loop_at.timer_manager
    pub events_valid : IsValid loop_at.io_manager
    pub unwatched :
        (c : FdContext)
        → get_elem? (with_context fd loop_at.io_manager).contexts fd ≡ some c
        → has c.events event ≡ false

  -- The fiber waits: the event is registered, and the timer is set.
  pub record IsWaiting (timer : Option ℕ) (w : World T) : Type 0 where
    pub loop_at : Loop
    pub has_loop : w.loop ≡ some loop_at
    pub scheduler_at : ℕ
    pub has_scheduler : w.scheduler ≡ some scheduler_at
    pub timers_valid : Expired.IsValid loop_at.timer_manager
    pub events_valid : IsValid loop_at.io_manager
    pub timer_set : IsStarted timer loop_at.timer_manager
    pub context : FdContext
    pub has_context : get_elem? loop_at.io_manager.contexts fd ≡ some context
    pub is_watched : has context.events event ≡ true

  module _ (env : System T) (left : T → ℕ) where
    -- The fiber is resumed. Where the function of the timer did not run, the event was taken out,
    -- the timer is still set, and no more calls are left to come.
    abbrev pub Resumes : Option ℕ → World T → Type 0
    Resumes timer w =
        (ran : Bool) × (v : World T) × (env.wait w ≡ done ran v)
        × (ran ≡ true → (x : ℕ) × (timer ≡ some x))
        × (ran ≡ false
            → (left v.kernel ≤ left w.kernel)
              × (f : IsFit v) × IsStarted timer f.loop_at.timer_manager)

    -- What the call relies on: a new timer has an address of its own, every wait ends, and
    -- `epoll_ctl` gives neither EINTR nor EAGAIN.
    pub record KeepsTo : Type 0 where
      pub fresh :
          (w : World T) (l : Loop)
          → w.loop ≡ some l
          → All (λ y. y ≢ env.new_address w) l.timer_manager.timers
      pub resumes : (timer : Option ℕ) (w : World T) → IsWaiting timer w → Resumes timer w
      pub not_eintr : (w : World T) → env.errno w ≢ 4
      pub not_eagain : (w : World T) → env.errno w ≢ 11

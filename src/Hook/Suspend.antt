-- ===== src/Hook/Suspend.antt =====
-- The wait of `do_io` over the timers and the events of the loop.
use cczoecpp.Common.{
  ℕ, ◌^◌, ◌≤◌, ◌<◌, ◌≡◌, ◌≢◌, refl, ap, sym, subst, ◌∙◌, Option, none, some, Bool, true, false,
  ◌==◌, if◌then◌else◌, arith, Bool-cases, ◌⊎◌, inl, inr,
}
use cczoecpp.Common.Outcome.{Outcome, done, fault, ◌>>=◌, pure, >>=-done}
use cczoecpp.Timer.{Manager, add_timer, cancel}
use cczoecpp.Timer.Expired
use cczoecpp.Timer.Handle.{add_timer_lem, cancel_lem}
use cczoecpp.IoManager.{Kind, has, add_event}
use cczoecpp.IoManager.Register.{accepts_add, add_event_lem}
use cczoecpp.Hook.Wait.{
  World, System, Loop, Waited, ready, refused, no_timeout, on_timers, on_events, start_timer,
  stop_timer, watch, resumed, watched, suspend,
}
use cczoecpp.Hook.Fit.{
  IsStarted, IsStopped, IsFit, IsWaiting, KeepsTo, with_timers, with_events, on_timers-done,
  on_events-done, has-add, unwatched_at,
}

module _ {T : Type 0} (fd : ℕ) (event : Kind) (env : System T) (left : T → ℕ)
    (laws : KeepsTo fd event env left) where
  abbrev fit_with :
      (w : World T) (f : IsFit fd event w) (t : Manager)
      → Expired.IsValid t
      → IsFit fd event (with_timers w f.loop_at t)
  fit_with w f t v = record {
    loop_at = record f.loop_at { timer_manager = t };
    has_loop = refl;
    scheduler_at = f.scheduler_at;
    has_scheduler = f.has_scheduler;
    timers_valid = v;
    events_valid = f.events_valid;
    unwatched = f.unwatched;
  }

  abbrev call : World T → ℕ → Manager → Outcome Manager ℕ
  call w timeout = add_timer (env.new_address w) (env.now w) timeout (some (env.lambda w)) false

  -- A timer is set unless the timeout is the greatest number.
  abbrev pub SetFor : ℕ → Option ℕ → Type 0
  SetFor timeout timer =
      ((x : ℕ) → timer ≡ some x → timeout ≢ no_timeout) × (timer ≡ none → timeout ≡ no_timeout)

  start_lem :
      (timeout : ℕ) (w : World T)
      → IsFit fd event w
      → (timer : Option ℕ) × (v : World T) × (start_timer env timeout w ≡ done timer v)
        × (v.kernel ≡ w.kernel)
        × (f : IsFit fd event v) × IsStarted timer f.loop_at.timer_manager
        × SetFor timeout timer
  unfolding start_timer
  start_lem timeout w f = elim (Bool-cases (timeout == no_timeout)) [
    | inl e ↦ (
      none,
      w,
      rw (e, start_timer) refl,
      refl,
      f,
      tt,
      (λ x h. ground (arith, h), λ h. ground (arith, e)),
    )
    | inr e ↦
        let (t, added, valid, inside, at, ms, cb, once, others, inner) =
          add_timer_lem (env.new_address w) (env.now w) timeout (some (env.lambda w)) false
            f.loop_at.timer_manager f.timers_valid (laws.fresh w f.loop_at f.has_loop) in
        (
          some (env.new_address w),
          with_timers w f.loop_at t,
          rw (e, start_timer)
              (>>=-done (on_timers (call w timeout)) (λ x. pure (some x)) {s = w}
                (on_timers-done (call w timeout) w f.loop_at (env.new_address w) t f.has_loop
                  added)),
          refl,
          fit_with w f t valid,
          record { member = inside; callback = env.lambda w; has_callback = cb },
          (λ x h k. ground (arith, e, k), λ h. ground (arith, h)),
        )
  ]

  stop_lem :
      (timer : Option ℕ) (w : World T) (l : Loop)
      → w.loop ≡ some l
      → Expired.IsValid l.timer_manager
      → IsStarted timer l.timer_manager
      → (t : Manager) × (stop_timer env timer w ≡ done tt (with_timers w l t))
        × Expired.IsValid t
        × IsStopped timer t
  unfolding stop_timer
  stop_lem none w l e v h = (l.timer_manager, ap (λ x. done tt (record w { loop = x })) e, v, tt)
  stop_lem (some x) w l e v h =
      let (t, stopped, valid, out, cleared, rest) = cancel_lem x l.timer_manager v h in
      (
        t,
        >>=-done (on_timers (cancel x)) (λ _. pure tt) {s = w}
            (on_timers-done (cancel x) w l true t e stopped),
        valid,
        (out, cleared),
      )

  -- `addEvent` registers the event, or the call is refused and nothing changes.
  watch_lem :
      (timer : Option ℕ) (w : World T)
      → 2 ≤ fd
      → fd < 2 ^ 31
      → (f : IsFit fd event w) → IsStarted timer f.loop_at.timer_manager
      → (rt : ℕ) × (v : World T) × (watch env fd event w ≡ done rt v)
        × (v.kernel ≡ w.kernel)
        × ((rt ≡ 0 × IsWaiting fd event timer v)
            ⊎ (rt ≡ 1 × (g : IsFit fd event v) × IsStarted timer g.loop_at.timer_manager))
  unfolding watch
  watch_lem timer w low high f set =
      let io = f.loop_at.io_manager in
      let ctl = env.epoll_ctl w.kernel in
      let (c, d, t, found, called, valid, kept, events, count, queue) =
        add_event_lem ctl fd event none f.scheduler_at w.fiber io f.events_valid high (inl low)
          f.unwatched in
      let run : watch env fd event w
          ≡ done (if accepts_add ctl fd event c then 0 else 1) (with_events w f.loop_at t) =
        ap (λ x. on_events (add_event ctl fd event none x w.fiber) w) f.has_scheduler
        ∙ on_events-done (add_event ctl fd event none (some f.scheduler_at) w.fiber) w f.loop_at _ t
            f.has_loop called in
      let l = record f.loop_at { io_manager = t } in
      let v = record w { loop = some l } in
      elim (Bool-cases (accepts_add ctl fd event c)) [
        | inl e ↦ (
          0,
          v,
          run ∙ rw e refl,
          refl,
          inl (
            refl,
            record {
              loop_at = l;
              has_loop = refl;
              scheduler_at = f.scheduler_at;
              has_scheduler = f.has_scheduler;
              timers_valid = f.timers_valid;
              events_valid = valid;
              timer_set = set;
              context = d;
              has_context = kept;
              is_watched = ap (λ b. has b event) events ∙ rw e (has-add c.events event);
            },
          ),
        )
        | inr e ↦ (
          1,
          v,
          run ∙ rw e refl,
          refl,
          inr (
            refl,
            record {
              loop_at = l;
              has_loop = refl;
              scheduler_at = f.scheduler_at;
              has_scheduler = f.has_scheduler;
              timers_valid = f.timers_valid;
              events_valid = valid;
              unwatched =
                  unwatched_at fd event t d kept
                    (ap (λ u. has u event) (events ∙ rw e refl) ∙ f.unwatched c found);
            },
            set,
          ),
        )
      ]

  -- The timer that the call set is out of the set and has no function any more.
  abbrev pub IsOver : ℕ → World T → Type 0
  IsOver timeout v =
      (timer : Option ℕ) × (f : IsFit fd event v) × IsStopped timer f.loop_at.timer_manager
      × SetFor timeout timer

  -- A `suspend` that is ready, one that is refused, and one whose timer ran.
  abbrev pub Ends : ℕ → World T → Outcome (World T) Waited → Type 0
  Ends timeout w out =
      ((v : World T) × (out ≡ done ready v) × (left v.kernel ≤ left w.kernel) × IsOver timeout v)
      ⊎ ((v : World T) × (out ≡ done (refused (env.errno v)) v) × IsOver timeout v)
      ⊎ ((u : World T) × (v : World T) × (out ≡ fault)
          × (env.wait u ≡ done true v)
          × (timeout ≢ no_timeout))

  watched_lem :
      (timeout : ℕ) (timer : Option ℕ) (rt : ℕ) (v w : World T)
      → v.kernel ≡ w.kernel
      → SetFor timeout timer
      → (rt ≡ 0 × IsWaiting fd event timer v)
        ⊎ (rt ≡ 1 × (g : IsFit fd event v) × IsStarted timer g.loop_at.timer_manager)
      → Ends timeout w (watched env timer rt v)
  unfolding watched resumed
  watched_lem timeout timer rt v w same for (inl (zeroed, waiting)) =
      let (ran, u, e, timed, rest) = laws.resumes timer v waiting in go ran u e timed rest
    where
      go :
          (ran : Bool) (u : World T)
          → env.wait v ≡ done ran u
          → (ran ≡ true → (x : ℕ) × (timer ≡ some x))
          → (ran ≡ false
              → (left u.kernel ≤ left v.kernel)
                × (f : IsFit fd event u) × IsStarted timer f.loop_at.timer_manager)
          → Ends timeout w (watched env timer rt v)
      go true u e timed rest =
          let (x, eq) = timed refl in
          inr (
            inr (
              v,
              u,
              rw (zeroed, watched) (>>=-done env.wait (resumed env timer) {s = v} e),
              e,
              for.0 x eq,
            ))
      go false u e timed rest =
          let (fewer, f, set) = rest refl in
          let (t, stopped, valid, gone) =
            stop_lem timer u f.loop_at f.has_loop f.timers_valid set in
          inl (
            with_timers u f.loop_at t,
            rw (zeroed, watched)
                (>>=-done env.wait (resumed env timer) {s = v} e
                  ∙ >>=-done (stop_timer env timer) (λ _. pure ready) {s = u} stopped),
            subst (λ k. left u.kernel ≤ left k) same fewer,
            (timer, fit_with u f t valid, gone, for),
          )
  watched_lem timeout timer rt v w same for (inr (one, f, set)) =
      let (t, stopped, valid, gone) = stop_lem timer v f.loop_at f.has_loop f.timers_valid set in
      let u = with_timers v f.loop_at t in
      inr (
        inl (
          u,
          rw (one, watched)
              (>>=-done (stop_timer env timer) (λ _ x. done (refused (env.errno x)) x) {s = v}
                stopped),
          (timer, fit_with v f t valid, gone, for),
        ))

  pub suspend_lem :
      (timeout : ℕ) (w : World T)
      → 2 ≤ fd
      → fd < 2 ^ 31
      → IsFit fd event w
      → Ends timeout w (suspend env fd event timeout w)
  unfolding suspend
  suspend_lem timeout w low high f =
      let (timer, v, started, same, g, set, for) = start_lem timeout w f in
      let (rt, u, called, same', which) = watch_lem timer v low high g set in
      let run : suspend env fd event timeout w ≡ watched env timer rt u =
        >>=-done (start_timer env timeout) (λ x. watch env fd event >>= watched env x) {s = w}
          started
        ∙ >>=-done (watch env fd event) (watched env timer) {s = v} called in
      subst (Ends timeout w) (sym run) (watched_lem timeout timer rt u w (same' ∙ same) for which)

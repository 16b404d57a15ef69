-- ===== src/Hook/Io.antt =====
-- What `do_io` gives to its caller.
use cczoecpp.Common.{
  ℕ, suc, ◌^◌, ◌≤◌, ◌<◌, ◌≡◌, ◌≢◌, refl, ap, ◌∙◌, Bool, true, false, ◌==◌, arith, ◌⊎◌, inl, inr,
}
use cczoecpp.Common.Outcome.{Outcome, done, fault}
use cczoecpp.FdManager.{FdManager}
use cczoecpp.IoManager.{Kind}
use cczoecpp.Hook.{Reply, ret, fails, eintr, eagain, ebadf, ask, retry, State}
use cczoecpp.Hook.Wait.{World, System, no_timeout, suspend}
use cczoecpp.Hook.Fit.{IsFit, KeepsTo}
use cczoecpp.Hook.Suspend.{Ends, suspend_lem}

module _ {T : Type 0} (fd : ℕ) (event : Kind) (env : System T) (left : T → ℕ)
    (laws : KeepsTo fd event env left) (fun : T → Reply × T) where
  -- `left` bounds the calls that still give EINTR or EAGAIN.
  pub record IsBounded : Type 0 where
    pub interrupted : (s : T) → (fun s).0 ≡ fails eintr → left (fun s).1 < left s
    pub blocked : (s : T) → (fun s).0 ≡ fails eagain → left (fun s).1 < left s

  -- The answer of a call of the function, or the error of a refused event.
  abbrev pub IsAnswer : Reply → World T → Type 0
  IsAnswer n v = ((t : World T) × (ask env fun t ≡ (n, v))) ⊎ (n ≡ fails (env.errno v))

  -- The function of a timer ran.
  abbrev pub TimerRan : ℕ → Type 0
  TimerRan timeout =
      (u : World T) × (v : World T) × (env.wait u ≡ done true v) × (timeout ≢ no_timeout)

  abbrev pub Returns : ℕ → Outcome (World T) Reply → Type 0
  Returns timeout out =
      ((n : Reply) × (v : World T) × (out ≡ done n v)
        × (n ≢ fails eintr)
        × (n ≢ fails eagain)
        × IsAnswer n v
        × IsFit fd event v)
      ⊎ ((out ≡ fault) × TimerRan timeout)

  -- The same of the whole of `do_io`.
  abbrev pub Performs : State (World T) → Outcome (State (World T)) Reply → Type 0
  Performs w o =
      ((n : Reply) × (v : State (World T)) × (o ≡ done n v)
        × (v.table ≡ w.table)
        × (v.enable ≡ w.enable)
        × (IsAnswer n v.sys ⊎ ((n ≡ fails ebadf) × (v.sys ≡ w.sys))))
      ⊎ ((o ≡ fault) × (timeout : ℕ) × TimerRan timeout)

  asked-IsFit : (w : World T) → IsFit fd event w → IsFit fd event (ask env fun w).1
  asked-IsFit w f = record {
    loop_at = f.loop_at;
    has_loop = f.has_loop;
    scheduler_at = f.scheduler_at;
    has_scheduler = f.has_scheduler;
    timers_valid = f.timers_valid;
    events_valid = f.events_valid;
    unwatched = f.unwatched;
  }

  module _ (bounded : IsBounded) (low : 2 ≤ fd) (high : fd < 2 ^ 31) where
    -- One round of the loop, over what the rounds behind it give.
    module _ (fuel timeout : ℕ) (w : World T) (f : IsFit fd event w)
        (rest : (t : World T)
          → left t.kernel < fuel
          → IsFit fd event t
          → Returns timeout (retry env fun fuel fd event timeout t))
        (h : left w.kernel < suc fuel) where
      abbrev asked : World T
      asked = (ask env fun w).1

      out : Outcome (World T) Reply
      out = retry env fun (suc fuel) fd event timeout w

      suspended :
          Ends fd event env left laws timeout asked (suspend env fd event timeout asked)
          → (fun w.kernel).0 ≡ fails eagain
          → Returns timeout out
      unfolding retry out
      suspended (inl (v, e, fewer, (timer, g, stopped, over))) k =
          rw (k, retry, out)
            (rw (e, retry) (rest v (omega (arith, fewer, bounded.blocked w.kernel k, h)) g))
      suspended (inr (inl (v, e, (timer, g, stopped, over)))) k =
          rw (k, retry, out)
            (rw (e, retry)
              (inl (
                fails (env.errno v),
                v,
                refl,
                λ g. laws.not_eintr v (ground (arith, g)),
                λ g. laws.not_eagain v (ground (arith, g)),
                inr refl,
                g,
              )))
      suspended (inr (inr (u, v, e, ran, some_timeout))) k =
          rw (k, retry, out) (rw (e, retry) (inr (refl, (u, v, ran, some_timeout))))

      failed :
          (e : ℕ)
          → (fun w.kernel).0 ≡ fails e
          → (a b : Bool) → (e == eintr) ≡ a
          → (e == eagain) ≡ b
          → Returns timeout out
      unfolding retry out
      failed e k true b p q =
          rw (k, p, retry, out)
            (rest asked
              (omega (arith, h, bounded.interrupted w.kernel (k ∙ ap fails (ground arith))))
              (asked-IsFit w f))
      failed e k false true p q =
          suspended (suspend_lem fd event env left laws timeout asked low high (asked-IsFit w f))
            (k ∙ ap fails (ground arith))
      failed e k false false p q =
          rw (k, p, q, retry, out)
            (inl (
              fails e,
              asked,
              refl,
              λ g. ground (arith, g, p),
              λ g. ground (arith, g, q),
              inl (w, ap (λ n. (n, asked)) k),
              asked-IsFit w f,
            ))

      round : Returns timeout out
      unfolding retry out
      round = go (fun w.kernel).0 refl
        where
          go : (n : Reply) → (fun w.kernel).0 ≡ n → Returns timeout out
          go (ret n) e =
              rw (e, retry, out)
                (inl (
                  ret n,
                  asked,
                  refl,
                  λ g. ground (arith, g),
                  λ g. ground (arith, g),
                  inl (w, ap (λ n. (n, asked)) e),
                  asked-IsFit w f,
                ))
          go (fails n) e = failed n e (n == eintr) (n == eagain) refl refl

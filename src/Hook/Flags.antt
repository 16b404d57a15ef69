-- ===== src/Hook/Flags.antt =====
-- The flags and timeouts of hooked sockets, and who wakes a sleeping fiber.
use cczoecpp.Common.{
  ℕ, zero, suc, ◌/◌, ◌%◌, ◌≡◌, refl, subst, ap, sym, ◌∙◌, Option, none, some, List, [], ◌∷◌, Bool,
  true, false, if◌then◌else◌, set, get_elem?, arith,
}
use cczoecpp.FdManager.{
  FdCtx, FdManager, so_rcvtimeo, set_timeout, get_timeout, set_user_nonblock, get_fd,
}
use cczoecpp.Common.Outcome.{◌>>=◌, pure}
use cczoecpp.Timer.{add_timer}
use cczoecpp.Hook.{Reply, ret, State}
use cczoecpp.Hook.Wait.{World, System, on_timers, start_timer}
use cczoecpp.Hook.Control.{
  Libc, lookup, put_ctx, hooked_socket, f_getfl, f_setfl, nonblock_bit, set_nonblock,
  clear_nonblock, Control, value, fionbio, sol_socket, fcntl, fcntl_setfl, fcntl_getfl, user_flags,
  ioctl, with_timeout, setsockopt, Step, set_timer, yield_to_ready, sleep, usleep, nanosleep,
  fcntl_flags, call, reply,
}

bit_set : (arg : ℕ) → nonblock_bit (set_nonblock arg) ≡ true
bit_set arg = ground arith

bit_clear : (arg : ℕ) → nonblock_bit (clear_nonblock arg) ≡ false
bit_clear arg = ground arith

-- The other bits of a word of flags.
abbrev pub SameBut : ℕ → ℕ → Type 0
SameBut a b = (a % 2048 ≡ b % 2048) × (a / 4096 ≡ b / 4096)

set-SameBut : (arg : ℕ) → SameBut (set_nonblock arg) arg
set-SameBut arg = ground arith

clear-SameBut : (arg : ℕ) → SameBut (clear_nonblock arg) arg
clear-SameBut arg = ground arith

-- The descriptor is an open socket with a context.
abbrev pub IsHooked : (ℕ → Option Bool) → ℕ → FdManager → FdCtx → Type 0
IsHooked stat fd table c =
    (get_elem? table fd ≡ some (some c)) × (c.is_closed ≡ false) × (c.is_socket ≡ true)

pub known :
    (stat : ℕ → Option Bool) (fd : ℕ) (table : FdManager) (c : FdCtx)
    → get_elem? table fd ≡ some (some c)
    → lookup stat fd table ≡ some c
unfolding get_fd
known stat fd table c e = rw (e, get_fd, lookup)

hooked :
    (stat : ℕ → Option Bool) (fd : ℕ) (table : FdManager) (c : FdCtx)
    → IsHooked stat fd table c
    → hooked_socket (lookup stat fd table) ≡ some c
hooked stat fd table c (e, is_open, sock) =
    ap hooked_socket (known stat fd table c e) ∙ go c is_open sock
  where
    go : (d : FdCtx) → d.is_closed ≡ false → d.is_socket ≡ true → hooked_socket (some d) ≡ some d
    go d x y = simp (x, y, hooked_socket)

pub get_elem-set :
    (table : FdManager) (fd : ℕ) (old : Option FdCtx) (new : Option FdCtx)
    → get_elem? table fd ≡ some old
    → get_elem? (set table fd new) fd ≡ some new
get_elem-set [] fd old new h = ground (arith, h)
get_elem-set (x ∷ table) zero old new h = refl
get_elem-set (x ∷ table) (suc fd) old new h = get_elem-set table fd old new h

module _ {S : Type 0} (libc : Libc S) where
  setfl_eq :
      (fd arg : ℕ) (c : FdCtx) (w : State S)
      → IsHooked libc.stat fd w.table c
      → w.enable ≡ true
      → fcntl libc fd f_setfl arg w
        ≡ call libc
            (libc.fcntl_f fd f_setfl (some (fcntl_flags c arg)))
            (record w { table = put_ctx fd (set_user_nonblock (nonblock_bit arg) c) w.table })
  unfolding fcntl fcntl_setfl
  setfl_eq fd arg c w h on = simp (on, hooked libc.stat fd w.table c h, fcntl, fcntl_setfl)

  -- With the hook on, F_SETFL on an open socket with a context hands to the system the argument with the
  -- flag O_NONBLOCK as the context says that the system has it, every other flag as it was, and keeps
  -- the user's flag in the context.
  pub setfl_flags :
      (fd arg : ℕ) (c : FdCtx) (w : State S)
      → IsHooked libc.stat fd w.table c
      → w.enable ≡ true
      → (flags : ℕ) × (nonblock_bit flags ≡ c.sys_nonblock)
        × SameBut flags arg
        × ((fcntl libc fd f_setfl arg w).1.sys ≡ (libc.fcntl_f fd f_setfl (some flags) w.sys).1)
        × IsHooked libc.stat fd
            (fcntl libc fd f_setfl arg w).1.table
            (set_user_nonblock (nonblock_bit arg) c)
  unfolding fcntl fcntl_setfl
  setfl_flags fd arg c w h on = (
    fcntl_flags c arg,
    bit c.sys_nonblock refl,
    other c.sys_nonblock refl,
    ap (λ r. r.1.sys) (setfl_eq fd arg c w h on),
    subst
        (λ (r : Control × State S).
          IsHooked libc.stat fd r.1.table (set_user_nonblock (nonblock_bit arg) c))
        (sym (setfl_eq fd arg c w h on)) (get_elem-set w.table fd (some c) _ h.0, h.1, h.2),
  )
    where
      bit :
          (b : Bool)
          → c.sys_nonblock ≡ b
          → nonblock_bit (if b then set_nonblock arg else clear_nonblock arg) ≡ b
      bit true e = bit_set arg
      bit false e = bit_clear arg

      other :
          (b : Bool)
          → c.sys_nonblock ≡ b
          → SameBut (if b then set_nonblock arg else clear_nonblock arg) arg
      other true e = set-SameBut arg
      other false e = clear-SameBut arg

  getfl_eq :
      (fd arg : ℕ) (c : FdCtx) (w : State S)
      → IsHooked libc.stat fd w.table c
      → w.enable ≡ true
      → (fcntl libc fd f_getfl arg w).0 ≡ user_flags libc c (libc.fcntl_f fd f_getfl none w.sys).0
  unfolding fcntl fcntl_getfl
  getfl_eq fd arg c w h on = simp (on, hooked libc.stat fd w.table c h, fcntl, fcntl_getfl)

  user_bit :
      (b : Bool) (flags : ℕ)
      → nonblock_bit (if b then set_nonblock flags else clear_nonblock flags) ≡ b
  user_bit true flags = bit_set flags
  user_bit false flags = bit_clear flags

  user_other :
      (b : Bool) (flags : ℕ)
      → SameBut (if b then set_nonblock flags else clear_nonblock flags) flags
  user_other true flags = set-SameBut flags
  user_other false flags = clear-SameBut flags

  -- With the hook on, F_GETFL behind F_SETFL on an open socket with a context gives the caller the flags
  -- that the system has then, except that O_NONBLOCK is as the caller set it, whatever the system has.
  pub getfl-setfl :
      (fd arg ignored got : ℕ) (c : FdCtx) (w : State S)
      → IsHooked libc.stat fd w.table c
      → w.enable ≡ true
      → (libc.fcntl_f fd f_getfl none (fcntl libc fd f_setfl arg w).1.sys).0 ≡ ret got
      → (flags : ℕ) × ((fcntl libc fd f_getfl ignored (fcntl libc fd f_setfl arg w).1).0
          ≡ value flags)
        × (nonblock_bit flags ≡ nonblock_bit arg)
        × SameBut flags got
  unfolding fcntl
  getfl-setfl fd arg ignored got c w h on has =
      let (flags, bit, other, sys, still) = setfl_flags fd arg c w h on in
      let b = nonblock_bit arg in
      (
        if b then set_nonblock got else clear_nonblock got,
        getfl_eq fd ignored _ (fcntl libc fd f_setfl arg w).1 still
              (ap (λ (r : Control × State S). r.1.enable) (setfl_eq fd arg c w h on) ∙ on)
            ∙ ap (user_flags libc (set_user_nonblock (nonblock_bit arg) c)) has,
        user_bit b got,
        user_other b got,
      )

  -- FIONBIO with 0 on an open socket goes to the system as it is: the context still says that the
  -- system does not block, so that `do_io` counts on EAGAIN, and the system blocks. `nonblock` is what
  -- the system has.
  pub ioctl_unblocks :
      (nonblock : ℕ → S → Bool) (fd : ℕ) (c : FdCtx) (w : State S)
      → IsHooked libc.stat fd w.table c
      → ((s : S) → nonblock fd (libc.ioctl_f fd fionbio 0 s).1 ≡ false)
      → IsHooked libc.stat fd (ioctl libc fd fionbio 0 w).1.table (set_user_nonblock false c)
        × (nonblock fd (ioctl libc fd fionbio 0 w).1.sys ≡ false)
  unfolding ioctl
  ioctl_unblocks nonblock fd c w h blocks = (
    subst (λ (r : Reply × State S). IsHooked libc.stat fd r.1.table (set_user_nonblock false c))
        (sym same) (get_elem-set w.table fd (some c) _ h.0, h.1, h.2),
    ap (λ (r : Reply × State S). nonblock fd r.1.sys) same ∙ blocks w.sys,
  )
    where
      same :
          ioctl libc fd fionbio 0 w
          ≡ reply libc
              (libc.ioctl_f fd fionbio 0)
              (record w { table = put_ctx fd (set_user_nonblock false c) w.table })
      same = simp (hooked libc.stat fd w.table c h, ioctl)

  -- A timeout of no time, which to the system means none, becomes a timer of no time: the next call
  -- that has to wait sets it.
  pub setsockopt_zero :
      (env : System S) (fd : ℕ) (c : FdCtx) (w : State S) (s : World S)
      → get_elem? w.table fd ≡ some (some c)
      → w.enable ≡ true
      → (d : FdCtx) × (lookup libc.stat fd (setsockopt libc fd sol_socket 20 (0, 0) w).1.table
          ≡ some d)
        × (start_timer env (get_timeout so_rcvtimeo d) s
            ≡ (on_timers (add_timer (env.new_address s) (env.now s) 0 (some (env.lambda s)) false)
                  >>= λ x. pure (some x))
                s)
  unfolding setsockopt with_timeout start_timer
  setsockopt_zero env fd c w s h on = (
    set_timeout so_rcvtimeo 0 c,
    ap (λ (r : Reply × State S). lookup libc.stat fd r.1.table) same
        ∙ known libc.stat fd _ _ (get_elem-set w.table fd (some c) _ h),
    refl,
  )
    where
      timeout_kept :
          with_timeout libc fd sol_socket 20 (0, 0) w.table
          ≡ put_ctx fd (set_timeout so_rcvtimeo 0 c) w.table
      timeout_kept = rw (known libc.stat fd w.table c h, with_timeout)

      same :
          setsockopt libc fd sol_socket 20 (0, 0) w
          ≡ reply libc
              (libc.setsockopt_f fd sol_socket 20 (0, 0))
              (record w { table = put_ctx fd (set_timeout so_rcvtimeo 0 c) w.table })
      same =
          simp (on, setsockopt)
            (ap
              (λ table.
                reply libc (libc.setsockopt_f fd sol_socket 20 (0, 0))
                  (record w { enable = true; table = table }))
              timeout_kept)

-- Whether a fiber runs to the end: when it yields, a timer that it set before has to schedule it.
abbrev pub wakes : List Step → List ℕ → Bool
wakes [] timers = true
wakes (set_timer ms ∷ steps) timers = wakes steps (ms ∷ timers)
wakes (yield_to_ready ∷ steps) [] = false
wakes (yield_to_ready ∷ steps) (ms ∷ timers) = wakes steps timers

-- A fiber in `usleep` or `nanosleep` is scheduled again; in `sleep` it yields before it sets the timer,
-- and stays.
pub sleep_stays :
    (seconds usec nanoseconds : ℕ)
    → (wakes (sleep seconds) [] ≡ false)
      × (wakes (usleep usec) [] ≡ true)
      × (wakes (nanosleep seconds nanoseconds) [] ≡ true)
unfolding sleep usleep nanosleep
sleep_stays seconds usec nanoseconds = (refl, refl, refl)

-- ===== src/Hook/Runs.antt =====
-- A socket that is ready after some waits, and flags that a number keeps; the theorems at them.
use cczoecpp.Common.{
  ℕ, zero, suc, ◌+◌, ◌≡◌, refl, List, [], ◌∷◌, Bool, none, some, Option, true, false,
}
use cczoecpp.Common.Outcome.{Outcome, done, raised, fault, stuck, ◌>>=◌, pure}
use cczoecpp.FdManager.{FdCtx, so_rcvtimeo, set_user_nonblock}
use cczoecpp.IoManager.{reading, with_context, contexts_resize}
use cczoecpp.Timer
use cczoecpp.IoManager.{
  IoManager, Event, FdContext, reading, has, occur, with_context, contexts_resize,
}
use cczoecpp.IoManager.Register
use cczoecpp.Hook.{Reply, ret, fails, eagain, State, retry, do_io}
use cczoecpp.Hook.Wait.{World, System, Loop, on_events, suspend, no_timeout}
use cczoecpp.Hook.Control.{Libc, fcntl, f_getfl, f_setfl, value, nonblock_bit}
use cczoecpp.Hook.Flags.{IsHooked, SameBut, setfl_flags, getfl-setfl}

-- The state of the system is the number of calls that still give EAGAIN.
abbrev slow_read : ℕ → Reply × ℕ
slow_read zero = (ret 5, zero)
slow_read (suc n) = (fails eagain, n)

-- An address behind all that are taken.
abbrev above : List ℕ → ℕ
above [] = 1
above (x ∷ xs) = x + above xs

abbrev fresh_address : {T : Type 0} → World T → ℕ
fresh_address w = elim w.loop [ none ↦ 0 | some l ↦ above l.timer_manager.timers ]

abbrev read_event : Event
read_event = record { read = true; write = false }

-- A system whose every wait ends with the reading of descriptor 5.
abbrev read_comes : System ℕ
read_comes = record {
  now = λ w. 7;
  new_address = fresh_address;
  lambda = λ w. 1;
  epoll_ctl = λ t op fd event. true;
  errno = λ w. 9;
  wait = on_events (occur 5 read_event false) >>= λ _. pure false;
  fstat = λ fd. some true;
}

abbrev calls_left : ℕ → ℕ
calls_left n = n

abbrev new_loop : Loop
new_loop = record {
  io_manager = record { contexts = []; pending = 0; scheduled = [] };
  timer_manager = record {
    store = λ x. record { recurring = false; ms = 0; next = 0; cb = none };
    timers = [];
    locked = false;
    notified = 0;
  };
}

abbrev on_loop : World ℕ
on_loop = record { loop = some new_loop; scheduler = some 1; fiber = 2; kernel = 2 }

abbrev read_of : Option FdContext → Bool
read_of none = false
read_of (some c) = c.events.read

abbrev a_socket : FdCtx
a_socket = record {
  is_init = true;
  is_socket = true;
  sys_nonblock = true;
  user_nonblock = false;
  is_closed = false;
  fd = 0;
  recv_timeout = 100;
  send_timeout = 100;
}

abbrev with_socket : {S : Type 0} → S → State S
with_socket s = record { enable = true; table = some a_socket ∷ []; sys = s }

-- A system that keeps the flags that it is given.
abbrev flags_of : ℕ → ℕ → Option ℕ → ℕ → Reply × ℕ
flags_of fd cmd none s = (ret s, s)
flags_of fd cmd (some flags) s = (ret 0, flags)

abbrev keeping : Libc ℕ
keeping = record {
  socket_f = λ s. (ret 0, s);
  close_f = λ fd s. (ret 0, s);
  fcntl_f = flags_of;
  ioctl_f = λ fd request arg s. (ret 0, s);
  setsockopt_f = λ fd l n tv s. (ret 0, s);
  so_error = λ fd s. ret 0;
  cancel_all = λ fd s. s;
  stat = λ fd. some true;
}

-- The descriptor 5 is a socket.
abbrev with_five : State (World ℕ)
with_five = record {
  enable = true;
  table = none ∷ none ∷ none ∷ none ∷ none ∷ some (record a_socket { fd = 5 }) ∷ [];
  sys = on_loop;
}

-- The run gives 5.
abbrev result : {S : Type 0} → Outcome S Reply → Option Reply
result (done n s) = some n
result (raised e s) = none
result fault = none
result stuck = none

do_io_test : result (do_io read_comes slow_read 3 5 reading so_rcvtimeo with_five) ≡ some (ret 5)
unfolding do_io cczoecpp.FdManager.get_fd cczoecpp.Hook.io_on retry suspend
    cczoecpp.Hook.Wait.start_timer Timer.add_timer Timer.insert_timer cczoecpp.Hook.Wait.watch
    cczoecpp.IoManager.add_event with_context contexts_resize cczoecpp.IoManager.register
    cczoecpp.Hook.Wait.watched occur cczoecpp.IoManager.trigger_if cczoecpp.IoManager.trigger
    cczoecpp.Hook.Wait.resumed cczoecpp.Hook.Wait.stop_timer cczoecpp.IoManager.trigger_event
    Timer.cancel Timer.erase Timer.insert Timer.new_timer
do_io_test = refl

setfl_flags_example :
    (flags : ℕ) × (nonblock_bit flags ≡ true)
    × SameBut flags 3
    × ((fcntl keeping 0 f_setfl 3 (with_socket 0)).1.sys ≡ (flags_of 0 f_setfl (some flags) 0).1)
    × IsHooked keeping.stat 0
        (fcntl keeping 0 f_setfl 3 (with_socket 0)).1.table
        (set_user_nonblock (nonblock_bit 3) a_socket)
setfl_flags_example = setfl_flags keeping 0 3 a_socket (with_socket 0) (refl, refl, refl) refl

getfl-setfl_example :
    (flags : ℕ) × ((fcntl keeping 0 f_getfl 0 (fcntl keeping 0 f_setfl 3 (with_socket 0)).1).0
      ≡ value flags)
    × (nonblock_bit flags ≡ nonblock_bit 3)
    × SameBut flags 2051
unfolding fcntl cczoecpp.Hook.Control.fcntl_setfl cczoecpp.FdManager.get_fd
getfl-setfl_example =
    getfl-setfl keeping 0 3 0 2051 a_socket (with_socket 0) (refl, refl, refl) refl refl

-- ===== src/Socket/Runs.antt =====
-- A system that lists its open descriptors, and the theorems at it.
use cczoecpp.Common.{
  ℕ, suc, ◌≡◌, refl, List, [], ◌∷◌, Option, none, some, Bool, true, false, not, ◌&&◌, ◌||◌, ◌==◌,
  if◌then◌else◌, arith,
}
use cczoecpp.FdManager.{FdCtx, so_rcvtimeo, so_sndtimeo}
use cczoecpp.Hook.{State, ret}
use cczoecpp.Hook.Control.{Libc, sol_socket, setsockopt}
use cczoecpp.Address.{Address, ipv4, new_ipv4}
use cczoecpp.Socket.{Socket, Net, create_tcp_socket, send}
use cczoecpp.Socket.State.{
  KeepsOpen, Op, perform_ops, IsValid, perform_ops-IsValid, connect_op, close_op, transfer_op,
}
use cczoecpp.Socket.Timeouts.{
  get_socket_timeout, optname, time_value, send_option, recv_option, timeout_round_trip,
}

-- The state is the next descriptor, and the open ones.
abbrev Files : Type 0
Files = ℕ × List ℕ

abbrev member : List ℕ → ℕ → Bool
member [] y = false
member (x ∷ xs) y = (y == x) || member xs y

abbrev remove : ℕ → List ℕ → List ℕ
remove fd [] = []
remove fd (x ∷ xs) = let rest = remove fd xs in if x == fd then rest else x ∷ rest

-- The number that `socket` gives is not open, or the call fails.
abbrev new_file : Files → Option ℕ × Files
new_file (n, files) = if member files n then (none, (n, files)) else (some n, (suc n, n ∷ files))

abbrev listing : Net Files
listing = record {
  socket = λ family type protocol t. new_file t;
  bind = λ fd a t. (true, t);
  connect = λ fd a t. (true, t);
  connect_with_timeout = λ fd a timeout t. (false, t);
  listen = λ fd n t. (true, t);
  accept = λ fd t. (none, t);
  close = λ fd t. (t.0, remove fd t.1);
  set_option = λ fd o t. (true, t);
  sockname = λ fd a t. none;
  peername = λ fd a t. none;
  transfer = λ op fd t. (ret 1, t);
  has_context = λ fd t. true;
}

abbrev is_open : Files → ℕ → Bool
is_open t y = member t.1 y

member-remove :
    (fd : ℕ) (files : List ℕ) (y : ℕ) → member (remove fd files) y ≡ member files y && not (y == fd)
member-remove fd [] y = refl
member-remove fd (x ∷ xs) y = ground (arith, member-remove fd xs y)

listing-KeepsOpen : KeepsOpen listing is_open
listing-KeepsOpen = record {
  socket_new = λ family type protocol fd t h. ground (arith, h);
  socket_open = λ family type protocol t y. ground arith;
  close_open = λ fd t y. member-remove fd t.1 y;
  bind_open = λ fd a t y. refl;
  connect_open = λ fd a t y. refl;
  connect_with_timeout_open = λ fd a timeout t y. refl;
  listen_open = λ fd n t y. refl;
  set_option_open = λ fd o t y. refl;
  transfer_open = λ op fd t y. refl;
}

abbrev home : Address
home = ipv4 (new_ipv4 2130706433 0)

abbrev ops : List Op
ops = connect_op home 5 ∷ connect_op home 7 ∷ transfer_op send ∷ close_op ∷ close_op ∷ []

-- The descriptors 0 to 2 are those of others.
abbrev others : ℕ → Bool
others y = member (0 ∷ 1 ∷ 2 ∷ []) y

perform_ops-IsValid_example :
    IsValid listing is_open listing-KeepsOpen others
      (perform_ops listing ops create_tcp_socket (3, 0 ∷ 1 ∷ 2 ∷ [])).0
      (perform_ops listing ops create_tcp_socket (3, 0 ∷ 1 ∷ 2 ∷ [])).1
perform_ops-IsValid_example =
    perform_ops-IsValid listing is_open listing-KeepsOpen others ops create_tcp_socket
      (3, 0 ∷ 1 ∷ 2 ∷ []) (λ h. ground (arith, h), λ y. refl, λ y. refl)

abbrev a_socket : FdCtx
a_socket = record {
  is_init = true;
  is_socket = true;
  sys_nonblock = true;
  user_nonblock = false;
  is_closed = false;
  fd = 0;
  recv_timeout = 100;
  send_timeout = 100;
}

abbrev with_socket : State ℕ
with_socket = record { enable = true; table = some a_socket ∷ []; sys = 0 }

abbrev plain : Libc ℕ
plain = record {
  socket_f = λ s. (ret 0, s);
  close_f = λ fd s. (ret 0, s);
  fcntl_f = λ fd cmd arg s. (ret 0, s);
  ioctl_f = λ fd request arg s. (ret 0, s);
  setsockopt_f = λ fd l n tv s. (ret 0, s);
  so_error = λ fd s. ret 0;
  cancel_all = λ fd s. s;
  stat = λ fd. some true;
}

abbrev on_0 : Socket
on_0 = record create_tcp_socket { sock = some 0 }

timeout_round_trip_example :
    (get_socket_timeout plain.stat so_sndtimeo
        (setsockopt plain 0 sol_socket
          (optname (send_option 2500))
          (time_value (send_option 2500))
          with_socket).1.table
        on_0
      ≡ 2500)
    × (get_socket_timeout plain.stat so_rcvtimeo
          (setsockopt plain 0 sol_socket
            (optname (recv_option 2500))
            (time_value (recv_option 2500))
            with_socket).1.table
          on_0
        ≡ 2500)
timeout_round_trip_example =
    timeout_round_trip plain on_0 0 a_socket with_socket refl refl refl 2500

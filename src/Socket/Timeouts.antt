-- ===== src/Socket/Timeouts.antt =====
-- The timeouts of a socket, through the hooked `setsockopt`, and what stays behind in a socket.
use cczoecpp.Common.{
  ℕ, suc, ◌+◌, ◌-◌, ◌*◌, ◌/◌, ◌%◌, ◌^◌, ◌≡◌, refl, ap, ◌∙◌, Option, none, some, Bool, true, false,
  arith, get_elem?,
}
use cczoecpp.FdManager.{
  FdCtx, FdManager, TimeoutType, so_rcvtimeo, so_sndtimeo, get_timeout, set_timeout,
}
use cczoecpp.Hook.{State}
use cczoecpp.Hook.Control.{
  Libc, lookup, put_ctx, sol_socket, setsockopt, with_timeout, timeout_type,
}
use cczoecpp.Hook.Flags.{known, get_elem-set}
use cczoecpp.Address.{Address}
use cczoecpp.Socket.{
  Socket, SocketOption, reuse_address, no_delay, send_timeout, recv_timeout, Net, get_local_address,
  init, ensure, bind_to, bind, close, accept,
}

-- The name of an option of SOL_SOCKET, and the value that the pointer points to.
abbrev pub optname : SocketOption → ℕ
optname reuse_address = 2
optname no_delay = 1
optname (send_timeout seconds useconds) = 21
optname (recv_timeout seconds useconds) = 20

abbrev pub time_value : SocketOption → ℕ × ℕ
time_value reuse_address = (1, 0)
time_value no_delay = (1, 0)
time_value (send_timeout seconds useconds) = (seconds, useconds)
time_value (recv_timeout seconds useconds) = (seconds, useconds)

-- The options that `setSendTimeout` and `setRecvTimeout` make of a time in milliseconds.
abbrev pub send_option : ℕ → SocketOption
send_option timeout = send_timeout (timeout / 1000) (timeout % 1000 * 1000)

abbrev pub recv_option : ℕ → SocketOption
recv_option timeout = recv_timeout (timeout / 1000) (timeout % 1000 * 1000)

-- `getSendTimeout` and `getRecvTimeout`; -1 has no context.
unfoldable pub get_socket_timeout : (ℕ → Option Bool) → TimeoutType → FdManager → Socket → ℕ
get_socket_timeout stat type table s = elim s.sock [
  | none ↦ 2 ^ 64 - 1
  | some fd ↦ elim (lookup stat fd table) [ none ↦ 2 ^ 64 - 1 | some c ↦ get_timeout type c ]
]

whole : (timeout : ℕ) → timeout / 1000 * 1000 + timeout % 1000 * 1000 / 1000 ≡ timeout
whole timeout = omega arith

module _ {S : Type 0} (libc : Libc S) (s : Socket) (fd : ℕ) (c : FdCtx) (w : State S)
    (has : s.sock ≡ some fd) (entry : get_elem? w.table fd ≡ some (some c))
    (on : w.enable ≡ true) where
  -- The table behind the call.
  table_kept :
      (n : ℕ) (tv : ℕ × ℕ) (type : TimeoutType)
      → timeout_type n ≡ some type
      → (setsockopt libc fd sol_socket n tv w).1.table
        ≡ put_ctx fd (set_timeout type (tv.0 * 1000 + tv.1 / 1000) c) w.table
  unfolding setsockopt with_timeout
  table_kept n tv type named = ground (arith, on, named, known libc.stat fd w.table c entry)

  kept :
      (n : ℕ) (tv : ℕ × ℕ) (type : TimeoutType)
      → timeout_type n ≡ some type
      → get_socket_timeout libc.stat type (setsockopt libc fd sol_socket n tv w).1.table s
        ≡ get_timeout type (set_timeout type (tv.0 * 1000 + tv.1 / 1000) c)
  unfolding get_socket_timeout
  kept n tv type named =
      ap (λ table. get_socket_timeout libc.stat type table s) (table_kept n tv type named)
      ∙ rw (
        has,
        known libc.stat fd _ _ (
            get_elem-set w.table fd (some c) (some (set_timeout type (tv.0 * 1000 + tv.1 / 1000) c))
              entry),
        get_socket_timeout,
      )

  -- On a socket with a context, `getSendTimeout` and `getRecvTimeout` give back the milliseconds that
  -- `setSendTimeout` and `setRecvTimeout` hand to the hooked `setsockopt` as seconds and
  -- microseconds.
  pub timeout_round_trip :
      (timeout : ℕ)
      → (get_socket_timeout libc.stat so_sndtimeo
            (setsockopt libc fd sol_socket
              (optname (send_option timeout))
              (time_value (send_option timeout))
              w).1.table
            s
          ≡ timeout)
        × (get_socket_timeout libc.stat so_rcvtimeo
              (setsockopt libc fd sol_socket
                (optname (recv_option timeout))
                (time_value (recv_option timeout))
                w).1.table
              s
            ≡ timeout)
  timeout_round_trip timeout = (
    kept 21 (timeout / 1000, timeout % 1000 * 1000) so_sndtimeo refl ∙ whole timeout,
    kept 20 (timeout / 1000, timeout % 1000 * 1000) so_rcvtimeo refl ∙ whole timeout,
  )

module _ {S : Type 0} (net : Net S) where
  local_known :
      (a : Address) (s : Socket) (t : S)
      → s.local_address ≡ some a
      → get_local_address net s t ≡ (a, s)
  unfolding get_local_address
  local_known a s t h = simp (h, get_local_address)

  ensure-local : (s : Socket) (t : S) → (ensure net s t).1.local_address ≡ s.local_address
  unfolding ensure
  ensure-local s t = ground arith

  bind_to-local :
      (a b : Address) (s : Socket) (t : S)
      → s.local_address ≡ some b
      → (bind_to net a s t).1.local_address ≡ some b
  unfolding bind_to
  bind_to-local a b s t h = ground (arith, h, local_known b s (net.bind s.sock a t).1 h)

  bind-local : (a : Address) (s : Socket) (t : S) → (bind net a s t).1.local_address ≡ some a
  unfolding bind
  bind-local a s t = go (ensure net named t).0 refl
    where
      named : Socket
      named = record s { local_address = some a }

      go : (ok : Bool) → (ensure net named t).0 ≡ ok → (bind net a s t).1.local_address ≡ some a
      go false e = simp (e, bind) (ensure-local named t)
      go true e =
          simp (e, bind)
            (bind_to-local a a (ensure net named t).1 (ensure net named t).2 (ensure-local named t))

  -- `bind` keeps the address that it was asked for: `getLocalAddress` gives it from then on, in every
  -- later state of the system and also if `bind` failed, so the port that the system chooses for
  -- port 0 is never seen.
  pub bind_keeps_request :
      (a : Address) (s : Socket) (t later : S)
      → (get_local_address net (bind net a s t).1 later).0 ≡ a
  bind_keeps_request a s t later =
      ap (λ (r : Address × Socket). r.0) (local_known a (bind net a s t).1 later (bind-local a s t))

  -- A descriptor that `accept` got and that has no context, as is the case without the hook, is lost:
  -- there is no socket, and one more descriptor is open.
  pub accept_leaks :
      (count : S → ℕ) (s : Socket) (t : S) (fd : ℕ)
      → (net.accept s.sock t).0 ≡ some fd
      → count (net.accept s.sock t).1 ≡ suc (count t)
      → net.has_context fd (net.accept s.sock t).1 ≡ false
      → ((accept net s t).0 ≡ none) × (count (accept net s t).1 ≡ suc (count t))
  unfolding accept init close
  accept_leaks count s t fd got one_more context =
      (ground (arith, got, context), ground (arith, got, one_more, context))

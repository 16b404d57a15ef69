-- ===== src/Socket.antt =====
-- cczoecpp/Net/Socket/socket.{h,cpp} and socketStream.{h,cpp}: a socket with its descriptor, its state and
-- its addresses.
--
-- A descriptor is `none` for -1. The calls of the operating system, hooked or are a record of
-- parameters over a state `S`; a Boolean result is whether the call succeeded. Logging is left out.
pub mod State
pub mod Timeouts
mod Runs
use cczoecpp.Common.{
  ℕ, ◌-◌, ◌*◌, ◌/◌, ◌%◌, ◌^◌, Option, none, some, Bool, true, false, not, ◌==◌, if◌then◌else◌,
  replicate,
}
use cczoecpp.Hook.{Reply, fails}
use cczoecpp.Address.{
  Address, ipv4, ipv6, unix, unknown, new_ipv4, new_ipv6, empty_unix, af_inet, af_inet6, af_unix,
}

pub record Socket : Type 0 where
  pub sock : Option ℕ
  pub family : ℕ
  pub type : ℕ
  pub protocol : ℕ
  pub is_connected : Bool
  pub local_address : Option Address
  pub remote_address : Option Address

abbrev pub sock_stream : ℕ
sock_stream = 1

abbrev pub sock_dgram : ℕ
sock_dgram = 2

-- The eight functions that send and receive.
pub data Transfer : Type 0 where
  send send_vector send_to send_to_vector recv recv_vector recv_from recv_from_vector : Transfer

-- An option: its level, its name and its value, as a number or as seconds and microseconds.
pub data SocketOption : Type 0 where
  reuse_address no_delay : SocketOption
  send_timeout recv_timeout : ℕ → ℕ → SocketOption

pub record Net (S : Type 0) : Type 0 where
  pub socket : ℕ → ℕ → ℕ → S → Option ℕ × S
  pub bind : Option ℕ → Address → S → Bool × S
  pub connect : Option ℕ → Address → S → Bool × S
  pub connect_with_timeout : Option ℕ → Address → ℕ → S → Bool × S
  pub listen : Option ℕ → ℕ → S → Bool × S
  pub accept : Option ℕ → S → Option ℕ × S
  pub close : ℕ → S → S
  pub set_option : Option ℕ → SocketOption → S → Bool × S
  -- `getsockname` and `getpeername`: the address that they fill in, and its length.
  pub sockname : Option ℕ → Address → S → Option (Address × ℕ)
  pub peername : Option ℕ → Address → S → Option (Address × ℕ)
  pub transfer : Transfer → ℕ → S → Reply × S
  -- Whether the table of descriptors has an open socket there.
  pub has_context : ℕ → S → Bool

abbrev pub new_socket : ℕ → ℕ → ℕ → Socket
new_socket family type protocol = record {
  sock = none;
  family = family;
  type = type;
  protocol = protocol;
  is_connected = false;
  local_address = none;
  remote_address = none;
}

abbrev pub family_of : Address → ℕ
family_of (ipv4 a) = a.family
family_of (ipv6 a) = a.family
family_of (unix a) = af_unix
family_of (unknown family) = family

abbrev pub create_tcp : Address → Socket
create_tcp a = new_socket (family_of a) sock_stream 0

abbrev pub create_udp : Address → Socket
create_udp a = new_socket (family_of a) sock_dgram 0

abbrev pub create_tcp_socket : Socket
create_tcp_socket = new_socket af_inet sock_stream 0

abbrev pub create_udp_socket : Socket
create_udp_socket = new_socket af_inet sock_dgram 0

abbrev pub create_unix_tcp_socket : Socket
create_unix_tcp_socket = new_socket af_unix sock_stream 0

abbrev pub create_unix_udp_socket : Socket
create_unix_udp_socket = new_socket af_unix sock_dgram 0

abbrev pub is_valid : Socket → Bool
is_valid s = elim s.sock [ none ↦ false | some fd ↦ true ]

-- The address that the system fills in.
abbrev pub blank : ℕ → Address
blank family =
    if family == af_inet
    then ipv4 (new_ipv4 0 0)
    else if family == af_inet6
    then ipv6 (new_ipv6 (replicate 16 0) 0)
    else if family == af_unix
    then unix empty_unix
    else unknown family

abbrev pub set_addr_len : ℕ → Address → Address
set_addr_len len (unix a) = unix (record a { addr_len = len })
set_addr_len len (ipv4 a) = ipv4 a
set_addr_len len (ipv6 a) = ipv6 a
set_addr_len len (unknown family) = unknown family

abbrev pub filled : ℕ → Address → ℕ → Address
filled family a len = if family == af_unix then set_addr_len len a else a

-- The guards of the transfers, and of a SocketStream over it.
pub data Result : Type 0 where
  refused : Result
  called : Reply → Result

module _ {S : Type 0} (net : Net S) where
  unfoldable pub get_local_address : Socket → S → Address × Socket
  get_local_address s t = elim s.local_address [
    | some a ↦ (a, s)
    | none ↦ elim (net.sockname s.sock (blank s.family) t) [
      | none ↦ (unknown s.family, s)
      | some (a, len) ↦
          (filled s.family a len, record s { local_address = some (filled s.family a len) })
    ]
  ]

  unfoldable pub get_remote_address : Socket → S → Address × Socket
  get_remote_address s t = elim s.remote_address [
    | some a ↦ (a, s)
    | none ↦ elim (net.peername s.sock (blank s.family) t) [
      | none ↦ (unknown s.family, s)
      | some (a, len) ↦
          (filled s.family a len, record s { remote_address = some (filled s.family a len) })
    ]
  ]

  unfoldable pub init_options : Socket → S → S
  init_options s t =
      let (done, u) = net.set_option s.sock reuse_address t in
      if s.type == sock_stream then (net.set_option s.sock no_delay u).1 else u

  -- `init(sock)`, for a descriptor that is there.
  unfoldable pub init : ℕ → Socket → S → Bool × Socket × S
  init sock s t =
      let s' = record s { sock = some sock; is_connected = true } in
      let u = init_options s' t in
      if net.has_context sock t
      then (true, (get_remote_address (get_local_address s' u).1 u).1, u)
      else (false, s, t)

  unfoldable pub close : Socket → S → Bool × Socket × S
  close s t = elim s.sock [
    | none ↦ if s.is_connected then (false, record s { is_connected = false }, t) else (true, s, t)
    | some fd ↦ (false, record s { is_connected = false; sock = none }, net.close fd t)
  ]

  -- The descriptor that `bind` and `connect` make where there is none.
  unfoldable pub ensure : Socket → S → Bool × Socket × S
  ensure s t = elim s.sock [
    | some fd ↦ (true, s, t)
    | none ↦
        let (sock, u) = net.socket s.family s.type s.protocol t in
        elim sock [
          | none ↦ (false, s, u)
          | some fd ↦ let s' = record s { sock = some fd } in (true, s', init_options s' u)
        ]
  ]

  -- The rest of `bind` and of `connect`, with a descriptor.
  unfoldable pub bind_to : Address → Socket → S → Bool × Socket × S
  bind_to a s t =
      let (ok, u) = net.bind s.sock a t in
      if s.family == family_of a
      then (if ok then (true, (get_local_address s u).1, u) else (false, s, u))
      else (false, s, t)

  unfoldable pub bind : Address → Socket → S → Bool × Socket × S
  bind a s t =
      let (ok, s', u) = ensure (record s { local_address = some a }) t in
      if ok then bind_to a s' u else (false, s', u)

  abbrev pub connect_call : Option ℕ → Address → ℕ → S → Bool × S
  connect_call sock a timeout t =
      if timeout == 2 ^ 64 - 1
      then net.connect sock a t
      else net.connect_with_timeout sock a timeout t

  unfoldable pub connect_to : Address → ℕ → Socket → S → Bool × Socket × S
  connect_to a timeout s t =
      let (ok, u) = connect_call s.sock a timeout t in
      if family_of a == s.family
      then (if ok
          then (
            true,
            (get_local_address (get_remote_address (record s { is_connected = true }) u).1 u).1,
            u,
          )
          else (false, (close s u).1, (close s u).2))
      else (false, s, t)

  unfoldable pub connect : Address → ℕ → Socket → S → Bool × Socket × S
  connect a timeout s t =
      let (ok, s', u) = ensure (record s { remote_address = some a }) t in
      if ok then connect_to a timeout s' u else (false, s', u)

  unfoldable pub listen : ℕ → Socket → S → Bool × S
  listen backlog s t = if is_valid s then net.listen s.sock backlog t else (false, t)

  -- A null pointer is `none`; a socket that is thrown away closes its descriptor.
  unfoldable pub accept : Socket → S → Option Socket × S
  accept s t =
      let (sock, u) = net.accept s.sock t in
      elim sock [
        | none ↦ (none, u)
        | some fd ↦
            let (ok, made, v) = init fd (new_socket s.family s.type s.protocol) u in
            if ok then (some made, v) else (none, (close made v).2)
      ]

  unfoldable pub set_send_timeout : ℕ → Socket → S → Bool × S
  set_send_timeout timeout s t =
      net.set_option s.sock (send_timeout (timeout / 1000) (timeout % 1000 * 1000)) t

  unfoldable pub set_recv_timeout : ℕ → Socket → S → Bool × S
  set_recv_timeout timeout s t =
      net.set_option s.sock (recv_timeout (timeout / 1000) (timeout % 1000 * 1000)) t

  -- `send`, `sendTo`, `recv` and `recvFrom`, each with a buffer or a vector.
  unfoldable pub transfer : Transfer → Socket → S → Result × S
  transfer op s t =
      if s.is_connected
      then elim s.sock [
        | none ↦ (called (fails 9), t)
        | some fd ↦ let (n, u) = net.transfer op fd t in (called n, u)
      ]
      else (refused, t)

  -- `SocketStream::read` and `write`, over a socket that may be null.
  unfoldable pub stream_transfer : Transfer → Option Socket → S → Result × S
  stream_transfer op none t = (refused, t)
  stream_transfer op (some s) t = if s.is_connected then transfer op s t else (refused, t)

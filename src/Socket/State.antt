-- ===== src/Socket/State.antt =====
-- The descriptor of a socket, over the operations on it.
use cczoecpp.Common.{
  ℕ, ◌≡◌, refl, ap, sym, subst, ◌∙◌, Option, none, some, List, [], ◌∷◌, Bool, true, false, ◌||◌,
  ◌&&◌, not, arith, Option-cases, Bool-cases, inl, inr, ◌==◌,
}
use cczoecpp.Address.{Address}
use cczoecpp.Socket.{
  Socket, Transfer, SocketOption, reuse_address, no_delay, Net, is_valid, get_local_address,
  get_remote_address, init_options, close, ensure, bind_to, bind, connect_call, connect_to, connect,
  listen, transfer, set_send_timeout, set_recv_timeout, family_of,
}

-- Whether a descriptor is the one that a socket holds.
abbrev pub holds : Option ℕ → ℕ → Bool
holds none y = false
holds (some fd) y = y == fd

-- `is_open` says which descriptors are open: `socket` opens a new one where it succeeds, `close` of a
-- descriptor leaves it not open, and nothing else opens or closes any.
pub record KeepsOpen {S : Type 0} (net : Net S) (is_open : S → ℕ → Bool) : Type 0 where
  pub socket_new :
      (family type protocol fd : ℕ) (t : S)
      → (net.socket family type protocol t).0 ≡ some fd
      → is_open t fd ≡ false
  pub socket_open :
      (family type protocol : ℕ) (t : S) (y : ℕ)
      → is_open (net.socket family type protocol t).1 y
        ≡ holds (net.socket family type protocol t).0 y || is_open t y
  pub close_open :
      (fd : ℕ) (t : S) (y : ℕ) → is_open (net.close fd t) y ≡ is_open t y && not (y == fd)
  pub bind_open :
      (fd : Option ℕ) (a : Address) (t : S) (y : ℕ) → is_open (net.bind fd a t).1 y ≡ is_open t y
  pub connect_open :
      (fd : Option ℕ) (a : Address) (t : S) (y : ℕ) → is_open (net.connect fd a t).1 y ≡ is_open t y
  pub connect_with_timeout_open :
      (fd : Option ℕ) (a : Address) (timeout : ℕ) (t : S) (y : ℕ)
      → is_open (net.connect_with_timeout fd a timeout t).1 y ≡ is_open t y
  pub listen_open :
      (fd : Option ℕ) (n : ℕ) (t : S) (y : ℕ) → is_open (net.listen fd n t).1 y ≡ is_open t y
  pub set_option_open :
      (fd : Option ℕ) (o : SocketOption) (t : S) (y : ℕ)
      → is_open (net.set_option fd o t).1 y ≡ is_open t y
  pub transfer_open :
      (op : Transfer) (fd : ℕ) (t : S) (y : ℕ) → is_open (net.transfer op fd t).1 y ≡ is_open t y

-- The addresses do not touch the descriptor and the state.
abbrev pub SameState : Socket → Socket → Type 0
SameState s r = (r.sock ≡ s.sock) × (r.is_connected ≡ s.is_connected)

module _ {S : Type 0} (net : Net S) where
  local-SameState : (s : Socket) (t : S) → SameState s (get_local_address net s t).1
  unfolding get_local_address
  local-SameState s t = ground arith

  remote-SameState : (s : Socket) (t : S) → SameState s (get_remote_address net s t).1
  unfolding get_remote_address
  remote-SameState s t = ground arith

-- The operations on a socket that is there.
pub data Op : Type 0 where
  bind_op : Address → Op
  connect_op : Address → ℕ → Op
  listen_op : ℕ → Op
  close_op local_op remote_op : Op
  send_timeout_op recv_timeout_op : ℕ → Op
  transfer_op : Transfer → Op

module _ {S : Type 0} (net : Net S) where
  unfoldable pub perform : Op → Socket → S → Socket × S
  perform (bind_op a) s t = ((bind net a s t).1, (bind net a s t).2)
  perform (connect_op a timeout) s t =
      ((connect net a timeout s t).1, (connect net a timeout s t).2)
  perform (listen_op backlog) s t = (s, (listen net backlog s t).1)
  perform close_op s t = ((close net s t).1, (close net s t).2)
  perform local_op s t = ((get_local_address net s t).1, t)
  perform remote_op s t = ((get_remote_address net s t).1, t)
  perform (send_timeout_op timeout) s t = (s, (set_send_timeout net timeout s t).1)
  perform (recv_timeout_op timeout) s t = (s, (set_recv_timeout net timeout s t).1)
  perform (transfer_op op) s t = (s, (transfer net op s t).1)

  unfoldable pub perform_ops : List Op → Socket → S → Socket × S
  perform_ops [] s t = (s, t)
  perform_ops (op ∷ ops) s t = let (r, u) = perform op s t in perform_ops ops r u

module _ {S : Type 0} (net : Net S) (is_open : S → ℕ → Bool) (laws : KeepsOpen net is_open)
    (others : ℕ → Bool) where
  -- A socket that is connected has a descriptor; the open descriptors are those that others hold and
  -- the one of the socket, which no other holds.
  abbrev pub IsValid : Socket → S → Type 0
  IsValid s t =
      (s.is_connected ≡ true → is_valid s ≡ true)
      × ((y : ℕ) → is_open t y ≡ holds s.sock y || others y)
      × ((y : ℕ) → holds s.sock y && others y ≡ false)

  same-IsValid :
      (s r : Socket) (t u : S)
      → SameState s r
      → ((y : ℕ) → is_open u y ≡ is_open t y)
      → IsValid s t
      → IsValid r u
  same-IsValid s r t u (e, f) g (h, k, l) = (
    λ c. ap (λ x. elim x [ none ↦ false | some fd ↦ true ]) e ∙ h (sym f ∙ c),
    λ y. g y ∙ k y ∙ ap (λ x. holds x y || others y) (sym e),
    λ y. ap (λ x. holds x y && others y) e ∙ l y,
  )

  local-IsValid : (s : Socket) (t : S) → IsValid s t → IsValid (get_local_address net s t).1 t
  local-IsValid s t h =
      same-IsValid s (get_local_address net s t).1 t t (local-SameState net s t) (λ y. refl) h

  remote-IsValid : (s : Socket) (t : S) → IsValid s t → IsValid (get_remote_address net s t).1 t
  remote-IsValid s t h =
      same-IsValid s (get_remote_address net s t).1 t t (remote-SameState net s t) (λ y. refl) h

  options_open : (s : Socket) (t : S) (y : ℕ) → is_open (init_options net s t) y ≡ is_open t y
  unfolding init_options
  options_open s t y = ground (
    arith,
    laws.set_option_open s.sock reuse_address t y,
    laws.set_option_open s.sock no_delay (net.set_option s.sock reuse_address t).1 y,
  )

  -- What is left open when the descriptor of the socket is closed.
  closed_open : (a b d : Bool) → a ≡ d || b → d && b ≡ false → a && not d ≡ b
  closed_open a b d h k = ground (arith, h, k)

  closed-IsValid :
      (fd : ℕ) (s : Socket) (t : S)
      → s.sock ≡ some fd
      → IsValid s t
      → IsValid (record s { is_connected = false; sock = none }) (net.close fd t)
  closed-IsValid fd s t e (h, k, l) = (
    λ c. ground (arith, c),
    λ y.
        laws.close_open fd t y
        ∙ closed_open (is_open t y) (others y) (y == fd) (k y ∙ ap (λ x. holds x y || others y) e)
            (sym (ap (λ x. holds x y && others y) e) ∙ l y),
    λ y. refl,
  )

  close-IsValid : (s : Socket) (t : S) → IsValid s t → IsValid (close net s t).1 (close net s t).2
  unfolding close
  close-IsValid s t h = go s.is_connected refl s.sock refl
    where
      go :
          (b : Bool)
          → s.is_connected ≡ b
          → (sock : Option ℕ) → s.sock ≡ sock
          → IsValid (close net s t).1 (close net s t).2
      go b e (some fd) f = simp (f, close) (closed-IsValid fd s t f h)
      go false e none f =
          simp (e, f, close) (λ c. c, λ y. h.1 y ∙ ap (λ x. holds x y || others y) f, λ y. refl)
      go true e none f = ground (arith, f, h.0 e)

  opened-IsValid :
      (fd : ℕ) (s : Socket) (t : S)
      → s.sock ≡ none
      → (net.socket s.family s.type s.protocol t).0 ≡ some fd
      → IsValid s t
      → IsValid (record s { sock = some fd }) (net.socket s.family s.type s.protocol t).1
  opened-IsValid fd s t e f (h, k, l) = (
    λ c. refl,
    λ y.
        laws.socket_open s.family s.type s.protocol t y
        ∙ ap (λ x. holds x y || is_open t y) f
        ∙ ap (λ b. (y == fd) || b) (k y ∙ ap (λ x. holds x y || others y) e),
    λ y. new y,
  )
    where
      free : others fd ≡ false
      free =
          sym (ap (λ x. holds x fd || others fd) e)
          ∙ sym (k fd)
          ∙ laws.socket_new s.family s.type s.protocol fd t f

      new : (y : ℕ) → (y == fd) && others y ≡ false
      new y = elim (Bool-cases (y == fd)) [
        | inl same ↦ rw same (subst (λ z. others z ≡ false) (ground (arith, same)) free)
        | inr other ↦ rw other refl
      ]

  ensure-IsValid :
      (s : Socket) (t : S) → IsValid s t → IsValid (ensure net s t).1 (ensure net s t).2
  unfolding ensure
  ensure-IsValid s t h = go s.sock refl (net.socket s.family s.type s.protocol t).0 refl
    where
      go :
          (sock : Option ℕ)
          → s.sock ≡ sock
          → (new : Option ℕ) → (net.socket s.family s.type s.protocol t).0 ≡ new
          → IsValid (ensure net s t).1 (ensure net s t).2
      go (some fd) e new f =
          simp (e, ensure)
            (
              h.0,
              λ y. h.1 y ∙ ap (λ x. holds x y || others y) e,
              λ y. sym (ap (λ x. holds x y && others y) e) ∙ h.2 y,
            )
      go none e none f =
          simp (e, f, ensure)
            (
              h.0,
              λ y.
                  laws.socket_open s.family s.type s.protocol t y
                  ∙ ap (λ x. holds x y || is_open t y) f
                  ∙ h.1 y
                  ∙ ap (λ x. holds x y || others y) e,
              λ y. refl,
            )
      go none e (some fd) f =
          simp (e, f, ensure)
            (same-IsValid opened opened u (init_options net opened u) (refl, refl)
              (options_open opened u) (opened-IsValid fd s t e f h))
        where
          opened : Socket
          opened = record s { sock = some fd }

          u : S
          u = (net.socket s.family s.type s.protocol t).1

  -- A change of the addresses.
  renamed :
      (s : Socket) (l r : Option Address) (t : S)
      → IsValid s t
      → IsValid (record s { local_address = l; remote_address = r }) t
  renamed s l r t h = h

  bind_to-IsValid :
      (a : Address) (s : Socket) (t : S)
      → IsValid s t
      → IsValid (bind_to net a s t).1 (bind_to net a s t).2
  unfolding bind_to
  bind_to-IsValid a s t h = go (s.family == family_of a) refl (net.bind s.sock a t).0 refl
    where
      go :
          (b : Bool)
          → (s.family == family_of a) ≡ b
          → (ok : Bool) → (net.bind s.sock a t).0 ≡ ok
          → IsValid (bind_to net a s t).1 (bind_to net a s t).2
      go false e ok f = simp (e, bind_to) h
      go true e false f =
          simp (e, f, bind_to)
            (same-IsValid s s t (net.bind s.sock a t).1 (refl, refl) (laws.bind_open s.sock a t) h)
      go true e true f =
          simp (e, f, bind_to)
            (local-IsValid s (net.bind s.sock a t).1 (
              same-IsValid s s t (net.bind s.sock a t).1 (refl, refl) (laws.bind_open s.sock a t)
                h))

  bind-IsValid :
      (a : Address) (s : Socket) (t : S)
      → IsValid s t
      → IsValid (bind net a s t).1 (bind net a s t).2
  unfolding bind
  bind-IsValid a s t h = go (ensure net named t).0 refl
    where
      named : Socket
      named = record s { local_address = some a }

      after : IsValid (ensure net named t).1 (ensure net named t).2
      after = ensure-IsValid named t h

      go : (ok : Bool) → (ensure net named t).0 ≡ ok → IsValid (bind net a s t).1 (bind net a s t).2
      go false e = simp (e, bind) after
      go true e =
          simp (e, bind) (bind_to-IsValid a (ensure net named t).1 (ensure net named t).2 after)

  call_open :
      (sock : Option ℕ) (a : Address) (timeout : ℕ) (t : S) (y : ℕ)
      → is_open (connect_call net sock a timeout t).1 y ≡ is_open t y
  call_open sock a timeout t y =
      ground
        (arith, laws.connect_open sock a t y, laws.connect_with_timeout_open sock a timeout t y)

  -- With a descriptor; a connection that fails closes it.
  connect_to-IsValid :
      (a : Address) (timeout : ℕ) (s : Socket) (t : S)
      → is_valid s ≡ true
      → IsValid s t
      → IsValid (connect_to net a timeout s t).1 (connect_to net a timeout s t).2
  unfolding connect_to
  connect_to-IsValid a timeout s t v h =
      go (family_of a == s.family) refl (connect_call net s.sock a timeout t).0 refl
    where
      u : S
      u = (connect_call net s.sock a timeout t).1

      still : IsValid s u
      still = same-IsValid s s t u (refl, refl) (call_open s.sock a timeout t) h

      connected : Socket
      connected = record s { is_connected = true }

      connected-IsValid : IsValid connected u
      connected-IsValid = (λ e. v, still.1, still.2)

      go :
          (b : Bool)
          → (family_of a == s.family) ≡ b
          → (ok : Bool) → (connect_call net s.sock a timeout t).0 ≡ ok
          → IsValid (connect_to net a timeout s t).1 (connect_to net a timeout s t).2
      go false e ok f = simp (e, connect_to) h
      go true e false f = simp (e, f, connect_to) (close-IsValid s u still)
      go true e true f =
          simp (e, f, connect_to)
            (local-IsValid (get_remote_address net connected u).1 u
              (remote-IsValid connected u connected-IsValid))

  ensure-valid :
      (s : Socket) (t : S) → (ensure net s t).0 ≡ true → is_valid (ensure net s t).1 ≡ true
  unfolding ensure
  ensure-valid s t h = ground (arith, h)

  connect-IsValid :
      (a : Address) (timeout : ℕ) (s : Socket) (t : S)
      → IsValid s t
      → IsValid (connect net a timeout s t).1 (connect net a timeout s t).2
  unfolding connect
  connect-IsValid a timeout s t h = go (ensure net named t).0 refl
    where
      named : Socket
      named = record s { remote_address = some a }

      after : IsValid (ensure net named t).1 (ensure net named t).2
      after = ensure-IsValid named t h

      go :
          (ok : Bool)
          → (ensure net named t).0 ≡ ok
          → IsValid (connect net a timeout s t).1 (connect net a timeout s t).2
      go false e = simp (e, connect) after
      go true e =
          simp (e, connect)
            (connect_to-IsValid a timeout (ensure net named t).1 (ensure net named t).2
              (ensure-valid named t e) after)

  listen_kept : (n : ℕ) (s : Socket) (t : S) (y : ℕ) → is_open (listen net n s t).1 y ≡ is_open t y
  unfolding listen
  listen_kept n s t y = ground (arith, laws.listen_open s.sock n t y)

  transfer_kept :
      (op : Transfer) (s : Socket) (t : S) (y : ℕ) → is_open (transfer net op s t).1 y ≡ is_open t y
  unfolding transfer
  transfer_kept op s t y = elim (Option-cases s.sock) [
    | inl e ↦ ground (arith, e)
    | inr (fd, e) ↦ ground (arith, e, laws.transfer_open op fd t y)
  ]

  perform-IsValid :
      (op : Op) (s : Socket) (t : S)
      → IsValid s t
      → IsValid (perform net op s t).0 (perform net op s t).1
  unfolding perform set_send_timeout set_recv_timeout
  perform-IsValid (bind_op a) s t h = bind-IsValid a s t h
  perform-IsValid (connect_op a timeout) s t h = connect-IsValid a timeout s t h
  perform-IsValid (listen_op n) s t h =
      same-IsValid s s t (listen net n s t).1 (refl, refl) (listen_kept n s t) h
  perform-IsValid close_op s t h = close-IsValid s t h
  perform-IsValid local_op s t h = local-IsValid s t h
  perform-IsValid remote_op s t h = remote-IsValid s t h
  perform-IsValid (send_timeout_op timeout) s t h =
      same-IsValid s s t (set_send_timeout net timeout s t).1 (refl, refl)
        (laws.set_option_open s.sock _ t) h
  perform-IsValid (recv_timeout_op timeout) s t h =
      same-IsValid s s t (set_recv_timeout net timeout s t).1 (refl, refl)
        (laws.set_option_open s.sock _ t) h
  perform-IsValid (transfer_op op) s t h =
      same-IsValid s s t (transfer net op s t).1 (refl, refl) (transfer_kept op s t) h

  -- Over any sequence of bind, connect, listen, close, send, receive and timeout operations and of the
  -- queries of the addresses (accept and init, which replace the descriptor, are none of them), where
  -- `is_open` follows socket and close: a socket that is connected has a descriptor, and the open
  -- descriptors stay the ones that others hold and the one of the socket, which no other holds.
  pub perform_ops-IsValid :
      (ops : List Op) (s : Socket) (t : S)
      → IsValid s t
      → IsValid (perform_ops net ops s t).0 (perform_ops net ops s t).1
  unfolding perform_ops
  perform_ops-IsValid [] s t h = h
  perform_ops-IsValid (op ∷ ops) s t h =
      perform_ops-IsValid ops (perform net op s t).0 (perform net op s t).1
        (perform-IsValid op s t h)

-- ===== src/Address/Path.antt =====
-- The paths of Unix addresses, and the prefixes for which the network computations have no answer.
use cczoecpp.Common.{
  ℕ, ◌==◌, suc, slice-overwrite, if◌then◌else◌, ◌+◌, ◌-◌, ◌≤◌, ◌<◌, ◌≡◌, ap, ◌∙◌, List, [], ◌∷◌,
  ◌++◌, length, length-append, length-overwrite, length-replicate, overwrite, take, replicate,
  lt→ltb, le→ltb, arith, Bool, true, false, ◌≢◌,
}
use cczoecpp.Common.Outcome.{done, raised, fault, runtime_error}
use cczoecpp.Address.{
  IPv4Address, IPv6Address, UnixAddress, null, network_address_v4, broadcast_address_v4,
  subnet_mask_v4, network_address_v6, broadcast_address_v6, subnet_mask_v6, new_unix, is_abstract,
  unix_len, path_size, unix,
}
use cczoecpp.Address.Order.{HasLength}

-- A prefix longer than the address gives no address, for each of the six computations.
pub long_prefix_lem :
    (p q : ℕ) (a : IPv4Address) (b : IPv6Address)
    → 32 < p
    → 128 < q
    → (network_address_v4 p a ≡ null)
      × (broadcast_address_v4 p a ≡ null)
      × (subnet_mask_v4 p a ≡ null)
      × (network_address_v6 q b ≡ null)
      × (broadcast_address_v6 q b ≡ null)
      × (subnet_mask_v6 q b ≡ null)
unfolding network_address_v4 broadcast_address_v4 subnet_mask_v4 network_address_v6
    broadcast_address_v6 subnet_mask_v6
long_prefix_lem p q a b h k = (
  rw (lt→ltb 32 p h),
  rw (lt→ltb 32 p h),
  rw (lt→ltb 32 p h),
  rw (lt→ltb 128 q k),
  rw (lt→ltb 128 q k),
  rw (lt→ltb 128 q k),
)

-- A path that does not start with a zero is refused from 108 bytes on.
pub new_unix_refuses :
    {S : Type 0} (c : ℕ) (path : List ℕ) (s : S)
    → c ≢ 0
    → 108 ≤ length (c ∷ path)
    → new_unix (c ∷ path) s ≡ raised runtime_error s
unfolding new_unix
new_unix_refuses c path s h k =
    let e : (c == 0) ≡ false = ground arith in
    let f : unix_len (c ∷ path) ≡ length (c ∷ path) + 1 = rw (e, unix_len) in
    rw (f, lt→ltb 108 (length (c ∷ path) + 1) (omega (arith, k)))

-- A path of exactly 108 bytes that starts with a zero passes the test of the length, and the copy
-- writes its last zero behind `sun_path`.
pub abstract_path_overflows :
    {S : Type 0} (path : List ℕ) (s : S) → length (0 ∷ path) ≡ 108 → new_unix (0 ∷ path) s ≡ fault
unfolding new_unix
abstract_path_overflows path s h = rw (
  le→ltb 108 (length (0 ∷ path) + 1 - 1) (omega (arith, h)),
  lt→ltb 108 (length (0 ∷ path) + 1) (omega (arith, h)),
)

-- A path of less than 108 bytes is held with a zero behind it, and the length stays within the
-- structure.
pub new_unix_lem :
    {S : Type 0} (path : List ℕ) (s : S)
    → length path < 108
    → (u : UnixAddress) × (new_unix path s ≡ done u s)
      × (take (suc (length path)) u.path ≡ path ++ 0 ∷ [])
      × HasLength (unix u)
unfolding new_unix
new_unix_lem path s h = (
  u,
  rw (
    le→ltb 108 (unix_len path) (omega (arith, short.0)),
    le→ltb 108 (length path + 1) (omega (arith, h)),
    new_unix,
  ),
  ap (λ n. take n u.path) {x = suc (length path)} (omega (arith, length-append path (0 ∷ [])))
      ∙ slice-overwrite 0 (path ++ 0 ∷ []) (replicate path_size 0)
          (omega (arith, length-append path (0 ∷ []), length-replicate {A = ℕ} path_size 0)),
  omega (arith, short.0, length-overwrite 0 (path ++ 0 ∷ []) (replicate path_size 0)),
)
  where
    u : UnixAddress
    u = record {
      path = overwrite 0 (path ++ 0 ∷ []) (replicate path_size 0);
      addr_len = unix_len path + 2;
    }

    len : (b : Bool) → (if b then length path + 1 - 1 else length path + 1) ≤ 108
    len true = omega (arith, h)
    len false = omega (arith, h)

    short : (unix_len path ≤ 108) × Unit {0}
    short = (len (is_abstract path), tt)

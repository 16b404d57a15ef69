-- ===== src/Address.antt =====
-- cczoecpp/Net/Address/address.{h,cpp}, IPAddress/IPAddress.{h,cpp} and UnixAddress/unixAddress.{h,cpp}:
-- the addresses, the network computations of IPv4 and IPv6, and the order of addresses.
--
-- Words in network byte order are held as the numbers that `ntohl` and `ntohs` give; `get_addr`
-- writes out the bytes of the C structures on Linux. `inet_pton` is a parameter. A result of a
-- pointer type is `null` or `address`; `undefined` is undefined behaviour.
pub mod V4
pub mod V6
pub mod Broadcast
pub mod Order
pub mod Path
pub mod Lookup
pub mod Multimap
pub mod Nic
mod Runs
use Prim.Native.Nat.{Ordering}
use cczoecpp.Common.Text.{compare_bytes}
use cczoecpp.Common.{
  take, ℕ, zero, suc, ◌+◌, ◌-◌, ◌*◌, ◌/◌, ◌%◌, ◌^◌, min, bit_and, bit_or, List, [], ◌∷◌, ◌++◌,
  length, overwrite, replicate, Bool, true, false, not, ◌&&◌, ltb, ◌==◌, if◌then◌else◌, Option,
  none, some,
}
use cczoecpp.Common.Outcome.{Outcome, done, raised, fault, runtime_error}

abbrev pub af_unspec : ℕ
af_unspec = 0

abbrev pub af_unix : ℕ
af_unix = 1

abbrev pub af_inet : ℕ
af_inet = 2

abbrev pub af_inet6 : ℕ
af_inet6 = 10

pub data Result {ℓ} (A : Type ℓ) : Type ℓ where
  null undefined : Result A
  address : A → Result A

-- `sockaddr_in`.
pub record IPv4Address : Type 0 where
  pub family : ℕ
  pub port : ℕ
  pub ip : ℕ
  pub padding : List ℕ

abbrev pub new_ipv4 : ℕ → ℕ → IPv4Address
new_ipv4 ip port = record {
  family = af_inet;
  port = port % 2 ^ 16;
  ip = ip % 2 ^ 32;
  padding = replicate 8 0;
}

-- The constructor from text, over `inet_pton`, which is 1 with an address that it puts out.
unfoldable pub parse_ipv4 :
    {S : Type 0} → (List ℕ → Option ℕ) → List ℕ → ℕ → S → Outcome S IPv4Address
parse_ipv4 inet_pton text port s = elim (inet_pton text) [
  | none ↦ raised runtime_error s
  | some ip ↦ done (new_ipv4 ip port) s
]

-- `0xffffffff << (32 - prefixLen)`; a shift by the whole width is undefined.
unfoldable pub prefix_mask : ℕ → Option ℕ
prefix_mask prefix_len =
    if ltb (32 - prefix_len) 32 then some ((2 ^ 32 - 1) * 2 ^ (32 - prefix_len) % 2 ^ 32) else none

abbrev pub with_mask : (ℕ → ℕ) → Option ℕ → IPv4Address → Result IPv4Address
with_mask f none a = undefined
with_mask f (some mask) a = address (record a { ip = f mask })

abbrev pub masked : (ℕ → ℕ) → ℕ → IPv4Address → Result IPv4Address
masked f prefix_len a = if ltb 32 prefix_len then null else with_mask f (prefix_mask prefix_len) a

unfoldable pub broadcast_address_v4 : ℕ → IPv4Address → Result IPv4Address
broadcast_address_v4 prefix_len a = masked (bit_or a.ip) prefix_len a

unfoldable pub network_address_v4 : ℕ → IPv4Address → Result IPv4Address
network_address_v4 prefix_len a = masked (bit_and a.ip) prefix_len a

unfoldable pub subnet_mask_v4 : ℕ → IPv4Address → Result IPv4Address
subnet_mask_v4 prefix_len a = masked (λ mask. mask) prefix_len a

-- `sockaddr_in6`; `bytes` is `s6_addr`.
pub record IPv6Address : Type 0 where
  pub family : ℕ
  pub port : ℕ
  pub flowinfo : List ℕ
  pub bytes : List ℕ
  pub scope_id : List ℕ

abbrev pub new_ipv6 : List ℕ → ℕ → IPv6Address
new_ipv6 bytes port = record {
  family = af_inet6;
  port = port % 2 ^ 16;
  flowinfo = replicate 4 0;
  bytes = bytes;
  scope_id = replicate 4 0;
}

unfoldable pub parse_ipv6 :
    {S : Type 0} → (List ℕ → Option (List ℕ)) → List ℕ → ℕ → S → Outcome S IPv6Address
parse_ipv6 inet_pton text port s = elim (inet_pton text) [
  | none ↦ raised runtime_error s
  | some bytes ↦ done (new_ipv6 bytes port) s
]

-- `s6_addr[i] |= mask` and 0xff in every byte behind it; a write behind the array is undefined.
unfoldable pub fill_from : ℕ → ℕ → List ℕ → Option (List ℕ)
fill_from i mask [] = none
fill_from zero mask (b ∷ bytes) = some (bit_or b mask ∷ replicate (length bytes) 255)
fill_from (suc i) mask (b ∷ bytes) = elim (fill_from i mask bytes) [
  | none ↦ none
  | some rest ↦ some (b ∷ rest)
]

unfoldable pub broadcast_address_v6 : ℕ → IPv6Address → Result IPv6Address
broadcast_address_v6 prefix_len a =
    if ltb 128 prefix_len
    then null
    else elim (fill_from (prefix_len / 8) (255 / 2 ^ (prefix_len % 8)) a.bytes) [
      | none ↦ undefined
      | some bytes ↦ address (record a { bytes = bytes })
    ]

-- The loops of `networkAddress` and `subnetMask`, over the bytes from `i` on.
unfoldable pub network_loop : ℕ → List ℕ → List ℕ
network_loop prefix_len [] = []
network_loop prefix_len (b ∷ bytes) = elim (ltb 8 prefix_len) [
  | true ↦ bit_and b 255 ∷ network_loop (prefix_len - 8) bytes
  | false ↦ bit_and b (255 * 2 ^ (8 - prefix_len) % 2 ^ 8) ∷ network_loop 0 bytes
]

unfoldable pub mask_loop : ℕ → List ℕ → List ℕ
mask_loop prefix_len [] = []
mask_loop prefix_len (b ∷ bytes) = elim (ltb 8 prefix_len) [
  | true ↦ 255 ∷ mask_loop (prefix_len - 8) bytes
  | false ↦ 255 * 2 ^ (8 - prefix_len) % 2 ^ 8 ∷ mask_loop 0 bytes
]

unfoldable pub network_address_v6 : ℕ → IPv6Address → Result IPv6Address
network_address_v6 prefix_len a =
    if ltb 128 prefix_len
    then null
    else address (record a { bytes = network_loop prefix_len a.bytes })

unfoldable pub subnet_mask_v6 : ℕ → IPv6Address → Result IPv6Address
subnet_mask_v6 prefix_len a =
    if ltb 128 prefix_len then null else address (record a { bytes = mask_loop prefix_len a.bytes })

-- `sun_path` has 108 bytes and starts at offset 2.
abbrev pub path_size : ℕ
path_size = 108

pub record UnixAddress : Type 0 where
  pub path : List ℕ
  pub addr_len : ℕ

abbrev pub empty_unix : UnixAddress
empty_unix = record { path = replicate path_size 0; addr_len = 2 + (path_size - 1) }

-- `!path.empty() && path[0] == '\0'`.
abbrev pub is_abstract : List ℕ → Bool
is_abstract [] = false
is_abstract (c ∷ path) = c == 0

abbrev pub unix_len : List ℕ → ℕ
unix_len path = if is_abstract path then length path + 1 - 1 else length path + 1

-- `memcpy` of the path and the zero behind it; past the end of `sun_path` it is undefined.
unfoldable pub new_unix : {S : Type 0} → List ℕ → S → Outcome S UnixAddress
new_unix path s =
    if ltb path_size (unix_len path)
    then raised runtime_error s
    else if ltb path_size (length path + 1)
    then fault
    else done
        (record {
          path = overwrite 0 (path ++ 0 ∷ []) (replicate path_size 0);
          addr_len = unix_len path + 2;
        })
        s

pub data Address : Type 0 where
  ipv4 : IPv4Address → Address
  ipv6 : IPv6Address → Address
  unix : UnixAddress → Address
  unknown : ℕ → Address

-- A word of two bytes as the host has it, which is little endian, and in network byte order.
abbrev pub host_word : ℕ → List ℕ
host_word n = n % 256 ∷ n / 256 % 256 ∷ []

abbrev pub network_word : ℕ → List ℕ
network_word n = n / 256 % 256 ∷ n % 256 ∷ []

abbrev pub get_addr : Address → List ℕ
get_addr (ipv4 a) =
    host_word a.family
    ++ network_word a.port
    ++ network_word (a.ip / 2 ^ 16)
    ++ network_word (a.ip % 2 ^ 16)
    ++ a.padding
get_addr (ipv6 a) = host_word a.family ++ network_word a.port ++ a.flowinfo ++ a.bytes ++ a.scope_id
get_addr (unix a) = host_word af_unix ++ a.path
get_addr (unknown family) = host_word family ++ replicate 14 0

abbrev pub get_addr_len : Address → ℕ
get_addr_len (ipv4 a) = 16
get_addr_len (ipv6 a) = 28
get_addr_len (unix a) = a.addr_len
get_addr_len (unknown family) = 16

-- The sign of `memcmp` of the first `n` bytes.
abbrev pub memcmp : List ℕ → List ℕ → ℕ → Ordering
memcmp xs ys n = compare_bytes (take n xs) (take n ys)

unfoldable pub less : Address → Address → Bool
less a b = elim (memcmp (get_addr a) (get_addr b) (min (get_addr_len a) (get_addr_len b))) [
  | Ordering.lt ↦ true
  | Ordering.gt ↦ false
  | Ordering.eq ↦ ltb (get_addr_len a) (get_addr_len b)
]

abbrev pub is_zero : Ordering → Bool
is_zero Ordering.lt = false
is_zero Ordering.eq = true
is_zero Ordering.gt = false

unfoldable pub equal : Address → Address → Bool
equal a b =
    (get_addr_len a == get_addr_len b)
    && is_zero (memcmp (get_addr a) (get_addr b) (get_addr_len a))

unfoldable pub differs : Address → Address → Bool
differs a b = not (equal a b)

-- ===== src/Address/Lookup.antt =====
-- cczoecpp/Net/Address/IPAddress/IPAddress.cpp, DNSLookup and GetNICAddresses. `getaddrinfo` and
-- `getifaddrs` are parameters: the list that they give, or none on an error. A `std::multimap` is the
-- list of its entries in order.
use Prim.Native.Nat.{Ordering}
use cczoecpp.Common.{
  ℕ, suc, ◌+◌, List, [], ◌∷◌, ◌++◌, take, drop, not, ◌&&◌, ◌||◌, ◌==◌, if◌then◌else◌, Option, none,
  some,
}
use cczoecpp.Common.Text.{compare_bytes, same_bytes}
use cczoecpp.Common.Masks.{popcount}
use cczoecpp.Address.{
  IPv4Address, IPv6Address, Address, ipv4, ipv6, Result, null, undefined, address, af_unspec,
  af_inet, af_inet6, new_ipv4, new_ipv6,
}
use cczoecpp.Common.{replicate}

-- A `sockaddr` of a family, with what the casts to `sockaddr_in` and `sockaddr_in6` make of it.
pub record SockAddr : Type 0 where
  pub sa_family : ℕ
  pub as_in : IPv4Address
  pub as_in6 : IPv6Address

-- `find_last_of(":")`.
unfoldable pub find_last_of : ℕ → List ℕ → Option ℕ
find_last_of c [] = none
find_last_of c (x ∷ xs) = elim (find_last_of c xs) [
  | some pos ↦ some (suc pos)
  | none ↦ if x == c then some 0 else none
]

-- The host's name and its service, which may be empty.
unfoldable pub split_host : List ℕ → List ℕ × List ℕ
split_host host = elim (find_last_of 58 host) [
  | some pos ↦ (take pos host, drop (suc pos) host)
  | none ↦ (host, [])
]

unfoldable pub dns_loop : List SockAddr → List Address
dns_loop [] = []
dns_loop (node ∷ nodes) =
    (if (node.sa_family == af_inet) || (node.sa_family == af_unspec)
      then ipv4 node.as_in ∷ []
      else [])
    ++ (if (node.sa_family == af_inet6) || (node.sa_family == af_unspec)
        then ipv6 node.as_in6 ∷ []
        else [])
    ++ dns_loop nodes

-- `nullptr` for an empty service.
abbrev pub service_of : List ℕ → Option (List ℕ)
service_of [] = none
service_of (c ∷ service) = some (c ∷ service)

abbrev pub unless_empty {ℓ} : {A : Type ℓ} → List A → Option (List A)
unless_empty [] = none
unless_empty (x ∷ xs) = some (x ∷ xs)

unfoldable pub dns_lookup :
    (List ℕ → Option (List ℕ) → ℕ → ℕ → ℕ → Option (List SockAddr))
    → List ℕ
    → ℕ
    → ℕ
    → ℕ
    → Option (List Address)
dns_lookup getaddrinfo host family type protocol =
    let (hostname, service) = split_host host in
    elim (getaddrinfo hostname (service_of service) family type protocol) [
      | none ↦ none
      | some nodes ↦ unless_empty (dns_loop nodes)
    ]

-- `ifaddrs`; `ifa_addr` may be null.
pub record Interface : Type 0 where
  pub ifa_name : List ℕ
  pub ifa_addr : Option SockAddr
  pub ifa_netmask : SockAddr

abbrev pub NicInfo : Type 0
NicInfo = Address × ℕ

-- `emplace`: behind the entries of the same key.
unfoldable pub emplace : List ℕ → NicInfo → List (List ℕ × NicInfo) → List (List ℕ × NicInfo)
emplace key info [] = (key, info) ∷ []
emplace key info ((k, v) ∷ entries) = elim (compare_bytes key k) [
  | Ordering.lt ↦ (key, info) ∷ (k, v) ∷ entries
  | Ordering.eq ↦ (k, v) ∷ emplace key info entries
  | Ordering.gt ↦ (k, v) ∷ emplace key info entries
]

unfoldable pub popcount_bytes : List ℕ → ℕ
popcount_bytes [] = 0
popcount_bytes (b ∷ bytes) = popcount 8 b + popcount_bytes bytes

-- The `switch` over the family.
unfoldable pub nic_info : SockAddr → SockAddr → Option NicInfo
nic_info addr netmask =
    if addr.sa_family == af_inet
    then some (ipv4 addr.as_in, popcount 32 netmask.as_in.ip)
    else if addr.sa_family == af_inet6
    then some (ipv6 addr.as_in6, popcount_bytes netmask.as_in6.bytes)
    else none

-- The body of the loop for an address that is not null.
unfoldable pub nic_node :
    ℕ → List ℕ → SockAddr → SockAddr → List (List ℕ × NicInfo) → List (List ℕ × NicInfo)
nic_node family name addr netmask res =
    if not (family == af_unspec) && not (family == addr.sa_family)
    then res
    else elim (nic_info addr netmask) [ none ↦ res | some info ↦ emplace name info res ]

-- The loop; `none` is a null address that is dereferenced.
unfoldable pub nic_loop :
    ℕ → List Interface → List (List ℕ × NicInfo) → Option (List (List ℕ × NicInfo))
nic_loop family [] res = some res
nic_loop family (node ∷ nodes) res = elim node.ifa_addr [
  | none ↦ none
  | some addr ↦ nic_loop family nodes (nic_node family node.ifa_name addr node.ifa_netmask res)
]

abbrev pub nonempty {ℓ} : {A : Type ℓ} → List A → Result (List A)
nonempty [] = null
nonempty (x ∷ xs) = address (x ∷ xs)

unfoldable pub get_nic_addresses : Option (List Interface) → ℕ → Result (List (List ℕ × NicInfo))
get_nic_addresses none family = null
get_nic_addresses (some nodes) family = elim (nic_loop family nodes []) [
  | none ↦ undefined
  | some res ↦ nonempty res
]

-- The infos of the entries of a key.
unfoldable pub equal_range : List ℕ → List (List ℕ × NicInfo) → List NicInfo
equal_range key [] = []
equal_range key ((k, v) ∷ entries) =
    if same_bytes key k then v ∷ equal_range key entries else equal_range key entries

abbrev pub any_address : ℕ → List NicInfo
any_address family =
    (if (family == af_inet) || (family == af_unspec) then (ipv4 (new_ipv4 0 0), 0) ∷ [] else [])
    ++ (if (family == af_inet6) || (family == af_unspec)
        then (ipv6 (new_ipv6 (replicate 16 0) 0), 0) ∷ []
        else [])

-- `nullopt` is `null`; the rest is there where the first call gave a map.
unfoldable pub get_nic_addresses_of : Option (List Interface) → List ℕ → ℕ → Result (List NicInfo)
get_nic_addresses_of interfaces iface family =
    if same_bytes iface [] || same_bytes iface (42 ∷ [])
    then address (any_address family)
    else elim (get_nic_addresses interfaces family) [
      | null ↦ null
      | undefined ↦ undefined
      | address infos ↦ address (equal_range iface infos)
    ]

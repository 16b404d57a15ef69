-- ===== src/Address/Runs.antt =====
-- Addresses of the examples, and the theorems at them.
use cczoecpp.Common.{
  ℕ, ◌<◌, All-replicate, ◌≡◌, ◌-◌, ◌+◌, ◌^◌, ◌%◌, ◌↔◌, suc, take, refl, List, [], ◌∷◌, ◌++◌, length,
  replicate, map, some, true, not, arith,
}
use cczoecpp.Common.Text.{bytes_of, compare_bytes}
use cczoecpp.Common.Outcome.{done}
use cczoecpp.Address.{
  IPv4Address, IPv6Address, UnixAddress, address, new_ipv4, new_ipv6, ipv4, ipv6, unix, af_inet,
  network_address_v6, broadcast_address_v6, new_unix, less, equal, differs,
}
use cczoecpp.Address.V6.{AreBytes, value, network_address_v6_lem}
use cczoecpp.Address.Broadcast.{broadcast_address_v6_lem}
use cczoecpp.Address.Order.{less_refines, is_less, visible, HasLength}
use cczoecpp.Address.Path.{new_unix_lem}
use cczoecpp.Address.Nic.{nic_addresses_lem, interface, expected}
use cczoecpp.Address.Multimap.{IsSorted}
use cczoecpp.Address.Lookup.{SockAddr, NicInfo, nic_loop, equal_range}

abbrev home4 : IPv4Address
home4 = new_ipv4 2130706433 80

abbrev home6 : IPv6Address
home6 = new_ipv6 (32 ∷ 1 ∷ 13 ∷ 184 ∷ replicate 12 7) 80

home6-AreBytes : AreBytes home6.bytes
home6-AreBytes = (
  omega arith,
  (omega arith, (omega arith, (omega arith, All-replicate (λ b. b < 2 ^ 8) 12 7 (omega arith)))),
)

abbrev no_state : ℕ
no_state = 0

abbrev eth0 : List ℕ × SockAddr × SockAddr
eth0 = (
  bytes_of "eth0",
  record { sa_family = af_inet; as_in = home4; as_in6 = home6 },
  record { sa_family = af_inet; as_in = new_ipv4 255 0; as_in6 = home6 },
)

network_address_v6_lem_example :
    (bytes : List ℕ) × (network_address_v6 36 home6 ≡ address (record home6 { bytes = bytes }))
    × (length bytes ≡ 16)
    × (value bytes ≡ value home6.bytes - value home6.bytes % 2 ^ (128 - 36))
network_address_v6_lem_example = network_address_v6_lem 36 home6 (omega arith) home6-AreBytes refl

broadcast_address_v6_lem_example :
    (bytes : List ℕ) × (broadcast_address_v6 36 home6 ≡ address (record home6 { bytes = bytes }))
    × (length bytes ≡ 16)
    × (value bytes ≡ value home6.bytes - value home6.bytes % 2 ^ (128 - 36) + (2 ^ (128 - 36) - 1))
broadcast_address_v6_lem_example =
    broadcast_address_v6_lem 36 home6 (omega arith) home6-AreBytes refl

less_refines_example :
    (less (ipv4 home4) (ipv6 home6)
      ≡ is_less (compare_bytes (visible (ipv4 home4)) (visible (ipv6 home6))))
    × ((equal (ipv4 home4) (ipv6 home6) ≡ true) ↔ (visible (ipv4 home4) ≡ visible (ipv6 home6)))
    × (differs (ipv4 home4) (ipv6 home6) ≡ not (equal (ipv4 home4) (ipv6 home6)))
less_refines_example = less_refines (ipv4 home4) (ipv6 home6) (omega arith) (omega arith)

nic_addresses_lem_example :
    (out : List (List ℕ × NicInfo)) × (nic_loop af_inet (map interface (eth0 ∷ [])) [] ≡ some out)
    × IsSorted out
    × (equal_range (bytes_of "eth0") out ≡ expected af_inet (bytes_of "eth0") (eth0 ∷ []))
nic_addresses_lem_example = nic_addresses_lem af_inet (bytes_of "eth0") (eth0 ∷ [])

new_unix_lem_example :
    (u : UnixAddress) × (new_unix (bytes_of "/tmp/s") no_state ≡ done u no_state)
    × (take (suc (length (bytes_of "/tmp/s"))) u.path ≡ bytes_of "/tmp/s" ++ 0 ∷ [])
    × HasLength (unix u)
new_unix_lem_example = new_unix_lem (bytes_of "/tmp/s") no_state (omega arith)

-- ===== src/Address/Nic.antt =====
-- What DNSLookup and GetNICAddresses find.
use cczoecpp.Common.{
  ℕ, suc, ◌-◌, ◌*◌, ◌≤◌, ◌<◌, ◌≡◌, ◌≢◌, refl, ap, ap₂, sym, ◌∙◌, List, [], ◌∷◌, ◌++◌, All, length,
  drop, take-append, ltb, Bool, true, false, not, ◌&&◌, ◌==◌, if◌then◌else◌, Option, none, some,
  Option-cases, Bool-cases, inl, inr, arith, append-nil, append_assoc, map, le→ltb,
}
use cczoecpp.Common.Text.{same_bytes}
use cczoecpp.Common.Masks.{popcount, popcount-high, ones_shifted}
use cczoecpp.Address.{af_unspec, IPv6Address, undefined, address, subnet_mask_v6, mask_loop}
use cczoecpp.Address.Lookup.{
  SockAddr, find_last_of, split_host, Interface, NicInfo, nic_node, nic_loop, nic_info,
  get_nic_addresses, equal_range, popcount_bytes,
}
use cczoecpp.Address.Multimap.{IsSorted, entry, emplace-IsSorted, equal_range-emplace}

find_last_of-none : (c : ℕ) (xs : List ℕ) → All (λ x. x ≢ c) xs → find_last_of c xs ≡ none
unfolding find_last_of
find_last_of-none c [] h = refl
find_last_of-none c (x ∷ xs) (h, k) = ground (arith, find_last_of-none c xs k)

find_last_of_append :
    (c : ℕ) (xs ys : List ℕ)
    → All (λ y. y ≢ c) ys
    → find_last_of c (xs ++ c ∷ ys) ≡ some (length xs)
unfolding find_last_of
find_last_of_append c [] ys h = ground (arith, find_last_of-none c ys h)
find_last_of_append c (x ∷ xs) ys h = ground (arith, find_last_of_append c xs ys h)

-- A host with a service behind its last colon is split into the two, at that colon.
pub split_host_lem :
    (name service : List ℕ)
    → All (λ c. c ≢ 58) service
    → split_host (name ++ 58 ∷ service) ≡ (name, service)
unfolding split_host
split_host_lem name service h =
    rw (find_last_of_append 58 name service h, split_host)
      (ap₂ (λ xs ys. (xs, ys)) (take-append name (58 ∷ service)) (drop_past name))
  where
    drop_past : (xs : List ℕ) → drop (suc (length xs)) (xs ++ 58 ∷ service) ≡ service
    drop_past [] = refl
    drop_past (x ∷ xs) = drop_past xs

-- The number of ones in the mask of a prefix, which `GetNICAddresses` takes for its length.
popcount-mask_loop :
    (p : ℕ) (bytes : List ℕ) → p ≤ 8 * length bytes → popcount_bytes (mask_loop p bytes) ≡ p
unfolding mask_loop popcount_bytes
popcount-mask_loop p [] h = omega (arith, h)
popcount-mask_loop p (b ∷ bytes) h = elim (Bool-cases (ltb 8 p)) [
  | inl e ↦
      rw (e, mask_loop, popcount_bytes)
        (omega (arith, popcount-mask_loop (p - 8) bytes (omega (arith, h)), beyond e))
  | inr e ↦
      rw (e, mask_loop, popcount_bytes)
        (omega (
          arith,
          popcount-mask_loop 0 bytes (omega arith),
          ap (popcount 8) (ones_shifted (8 - p) 8 (omega arith)),
          popcount-high (8 - p) 8 (omega arith),
          within e,
        ))
]
  where
    beyond : ltb 8 p ≡ true → 8 < p
    beyond e = ground arith

    within : ltb 8 p ≡ false → p ≤ 8
    within e = ground arith

-- For a prefix of up to 128 bits, the mask of `subnetMask` of an IPv6 address has as many ones as
-- `GetNICAddresses` counts in it: the length of the prefix.
pub subnet_mask_v6_lem :
    (p : ℕ) (a : IPv6Address)
    → p ≤ 128
    → length a.bytes ≡ 16
    → (bytes : List ℕ) × (subnet_mask_v6 p a ≡ address (record a { bytes = bytes }))
      × (popcount_bytes bytes ≡ p)
unfolding subnet_mask_v6
subnet_mask_v6_lem p a h l =
    (mask_loop p a.bytes, rw (le→ltb 128 p h), popcount-mask_loop p a.bytes (omega (arith, h, l)))

-- What the loop has to find for a name: the infos of the nodes of the family with that name, in the
-- order of the nodes.
abbrev pub info_of : ℕ → SockAddr → SockAddr → Option NicInfo
info_of family addr netmask =
    if not (family == af_unspec) && not (family == addr.sa_family)
    then none
    else nic_info addr netmask

abbrev pub chosen : List ℕ → List ℕ → Option NicInfo → List NicInfo
chosen iface name none = []
chosen iface name (some info) = entry (same_bytes iface name) info

abbrev pub expected : ℕ → List ℕ → List (List ℕ × SockAddr × SockAddr) → List NicInfo
expected family iface [] = []
expected family iface ((name, addr, netmask) ∷ nodes) =
    chosen iface name (info_of family addr netmask) ++ expected family iface nodes

abbrev pub interface : List ℕ × SockAddr × SockAddr → Interface
interface (name, addr, netmask) = record {
  ifa_name = name;
  ifa_addr = some addr;
  ifa_netmask = netmask;
}

nic_node_lem :
    (family : ℕ) (iface name : List ℕ) (addr netmask : SockAddr) (res : List (List ℕ × NicInfo))
    → IsSorted res
    → IsSorted (nic_node family name addr netmask res)
      × (equal_range iface (nic_node family name addr netmask res)
          ≡ equal_range iface res ++ chosen iface name (info_of family addr netmask))
unfolding nic_node
nic_node_lem family iface name addr netmask res h =
    go (not (family == af_unspec) && not (family == addr.sa_family)) refl (nic_info addr netmask)
      refl
  where
    go :
        (b : Bool)
        → (not (family == af_unspec) && not (family == addr.sa_family)) ≡ b
        → (o : Option NicInfo) → nic_info addr netmask ≡ o
        → IsSorted (nic_node family name addr netmask res)
          × (equal_range iface (nic_node family name addr netmask res)
              ≡ equal_range iface res ++ chosen iface name (info_of family addr netmask))
    go true e o f = rw (e, nic_node) (h, sym (append-nil (equal_range iface res)))
    go false e none f = rw (e, f, nic_node) (h, sym (append-nil (equal_range iface res)))
    go false e (some info) f =
        rw (e, f, nic_node)
          (emplace-IsSorted name info res h, equal_range-emplace iface name info res h)

nic_loop_lem :
    (family : ℕ) (iface : List ℕ) (nodes : List (List ℕ × SockAddr × SockAddr))
    (res : List (List ℕ × NicInfo))
    → IsSorted res
    → (out : List (List ℕ × NicInfo)) × (nic_loop family (map interface nodes) res ≡ some out)
      × IsSorted out
      × (equal_range iface out ≡ equal_range iface res ++ expected family iface nodes)
unfolding nic_loop
nic_loop_lem family iface [] res h = (res, refl, h, sym (append-nil (equal_range iface res)))
nic_loop_lem family iface ((name, addr, netmask) ∷ nodes) res h =
    let (sorted, e) = nic_node_lem family iface name addr netmask res h in
    let (out, f, last, g) =
      nic_loop_lem family iface nodes (nic_node family name addr netmask res) sorted in
    (
      out,
      f,
      last,
      g
          ∙ ap (λ xs. xs ++ expected family iface nodes) e
          ∙ append_assoc (equal_range iface res) (chosen iface name (info_of family addr netmask))
              (expected family iface nodes),
    )

-- Over interfaces that all have an address, the loop of `GetNICAddresses` ends with a multimap in the
-- order of the names, in which the entries of a name are the infos of the nodes of that name and of the
-- family asked for, in the order of the nodes.
pub nic_addresses_lem :
    (family : ℕ) (iface : List ℕ) (nodes : List (List ℕ × SockAddr × SockAddr))
    → (out : List (List ℕ × NicInfo)) × (nic_loop family (map interface nodes) [] ≡ some out)
      × IsSorted out
      × (equal_range iface out ≡ expected family iface nodes)
unfolding equal_range
nic_addresses_lem family iface nodes = nic_loop_lem family iface nodes [] tt

abbrev pub unaddressed : List ℕ → SockAddr → Interface
unaddressed name netmask = record { ifa_name = name; ifa_addr = none; ifa_netmask = netmask }

nic_loop_null :
    (family : ℕ) (before after : List Interface) (node : Interface) (res : List (List ℕ × NicInfo))
    → node.ifa_addr ≡ none
    → nic_loop family (before ++ node ∷ after) res ≡ none
unfolding nic_loop
nic_loop_null family [] after node res h = rw (h, nic_loop)
nic_loop_null family (first ∷ before) after node res h = elim (Option-cases first.ifa_addr) [
  | inl e ↦ rw (e, nic_loop)
  | inr (addr, e) ↦ rw (e, nic_loop) (nic_loop_null family before after node _ h)
]

-- An interface without an address, of which there may be some in the list, makes `GetNICAddresses`
-- read through a null pointer.
pub nic_addresses_fault :
    (family : ℕ) (before after : List Interface) (name : List ℕ) (netmask : SockAddr)
    → get_nic_addresses (some (before ++ unaddressed name netmask ∷ after)) family ≡ undefined
unfolding get_nic_addresses
nic_addresses_fault family before after name netmask =
    rw (nic_loop_null family before after (unaddressed name netmask) [] refl, get_nic_addresses)

-- ===== src/Address/V4.antt =====
-- The network computations of an IPv4 address, as arithmetic on its host bits.
use cczoecpp.Common.{
  ℕ, ◌+◌, ◌-◌, ◌%◌, ◌^◌, ◌≤◌, ◌<◌, ◌≡◌, ap, ◌∙◌, bit_and, bit_or, some, lt→ltb, le→ltb, arith,
}
use cczoecpp.Common.Masks.{bit_and_high, bit_or_high, popcount, popcount-high, ones_shifted}
use cczoecpp.Address.{
  IPv4Address, address, prefix_mask, masked, broadcast_address_v4, network_address_v4,
  subnet_mask_v4,
}

prefix_mask_lem : (p : ℕ) → 0 < p → prefix_mask p ≡ some (2 ^ 32 - 2 ^ (32 - p))
unfolding prefix_mask
prefix_mask_lem p h =
    rw (lt→ltb (32 - p) 32 (omega arith)) (ap some (ones_shifted (32 - p) 32 (omega arith)))

masked_lem :
    (f : ℕ → ℕ) (p : ℕ) (a : IPv4Address)
    → 0 < p
    → p ≤ 32
    → masked f p a ≡ address (record a { ip = f (2 ^ 32 - 2 ^ (32 - p)) })
masked_lem f p a h k = rw (le→ltb 32 p k, prefix_mask_lem p h)

-- For a prefix of 1 to 32 bits, `networkAddress` clears exactly the bits behind the prefix.
pub network_address_v4_lem :
    (p : ℕ) (a : IPv4Address)
    → 0 < p
    → p ≤ 32
    → a.ip < 2 ^ 32
    → network_address_v4 p a ≡ address (record a { ip = a.ip - a.ip % 2 ^ (32 - p) })
unfolding network_address_v4
network_address_v4_lem p a h k w =
    masked_lem (bit_and a.ip) p a h k
    ∙ ap (λ ip. address (record a { ip = ip })) (bit_and_high (32 - p) 32 a.ip (omega arith) w)

-- For a prefix of 1 to 32 bits, `broadcastAddress` sets the bits of the prefix and keeps the host
-- bits, where the broadcast address keeps the prefix and has all host bits set.
pub broadcast_address_v4_lem :
    (p : ℕ) (a : IPv4Address)
    → 0 < p
    → p ≤ 32
    → a.ip < 2 ^ 32
    → broadcast_address_v4 p a
      ≡ address (record a { ip = 2 ^ 32 - 2 ^ (32 - p) + a.ip % 2 ^ (32 - p) })
unfolding broadcast_address_v4
broadcast_address_v4_lem p a h k w =
    masked_lem (bit_or a.ip) p a h k
    ∙ ap (λ ip. address (record a { ip = ip })) (bit_or_high (32 - p) 32 a.ip (omega arith) w)

-- For a prefix of 1 to 32 bits, the mask of `subnetMask` has as many ones as `GetNICAddresses`
-- counts in it: the length of the prefix.
pub subnet_mask_v4_lem :
    (p : ℕ) (a : IPv4Address)
    → 0 < p
    → p ≤ 32
    → (mask : ℕ) × (subnet_mask_v4 p a ≡ address (record a { ip = mask })) × (popcount 32 mask ≡ p)
unfolding subnet_mask_v4
subnet_mask_v4_lem p a h k = (
  2 ^ 32 - 2 ^ (32 - p),
  masked_lem (λ mask. mask) p a h k,
  popcount-high (32 - p) 32 (omega arith) ∙ omega arith,
)

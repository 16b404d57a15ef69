-- ===== src/ByteArray/Growth.antt =====
-- `addCapacity`: the chain after growth, and that it is long enough.
use cczoecpp.Common.{
  ℕ, zero, suc, ◌+◌, ◌-◌, ◌*◌, ◌/◌, ◌%◌, ◌≤◌, ◌<◌, ◌≡◌, sym, ap, ◌∙◌, [], ◌∷◌, ◌++◌, length,
  replicate, arith, append_assoc, append-nil, length-append, length-replicate, All-append,
  All-replicate, ltb, if◌then◌else◌,
}
use native.Mathlib.Nat.{div-add-mod, mod-lt, mul_comm}
use native.Mathlib.Decide.{dec_le}
use cczoecpp.Common.Outcome.{done}
use cczoecpp.ByteArray.{ByteArray, new_node, append_nodes, add_capacity, get_capacity}
use cczoecpp.ByteArray.IsValid.{IsValid, node_room}

-- The state with `n` more nodes at the end of the chain.
abbrev pub grown : ℕ → ByteArray → ByteArray
grown n s = record s {
  blocks = s.blocks ++ replicate n (new_node s.base_size s.junk);
  capacity = s.capacity + n * s.base_size;
}

pub append_nodes_lem : (n : ℕ) (s : ByteArray) → append_nodes n s ≡ grown n s
unfolding append_nodes
append_nodes_lem zero s =
    λ i. record s { blocks = sym (append-nil s.blocks) i; capacity = same_capacity i }
  where
    same_capacity : s.capacity ≡ s.capacity + 0 * s.base_size
    same_capacity = omega arith
append_nodes_lem (suc n) s = append_nodes_lem n _ ∙ λ i. record s {
  blocks =
      append_assoc s.blocks (new_node s.base_size s.junk ∷ [])
        (replicate n (new_node s.base_size s.junk)) i;
  capacity = same_capacity i;
}
  where
    same_capacity : s.capacity + s.base_size + n * s.base_size ≡ s.capacity + suc n * s.base_size
    same_capacity = omega arith

module _ {s : ByteArray} (v : IsValid s) where
  -- Growth keeps a state valid, unless the cursor has run off the chain.
  pub grown-IsValid : (n : ℕ) → s.position < s.capacity → IsValid (grown n s)
  grown-IsValid n h = record {
    base_pos = v.base_pos;
    some_block = omega (arith, v.some_block, more);
    sized =
        All-append _ s.blocks _ v.sized (All-replicate _ n _ (length-replicate s.base_size s.junk));
    counted = omega (arith, v.counted, ap (λ (t : ℕ). t * s.base_size) more);
    size_fits = omega (arith, v.size_fits);
    position_fits = v.position_fits;
    cursor = ground (arith, v.cursor, more, node_room v h);
  }
    where
      more : length (s.blocks ++ replicate n (new_node s.base_size s.junk)) ≡ length s.blocks + n
      more = omega (
        arith,
        length-append s.blocks (replicate n (new_node s.base_size s.junk)),
        length-replicate n (new_node s.base_size s.junk),
      )

  -- The rounds that `addCapacity` makes give the room that was asked for.
  rounds_suffice :
      (size room : ℕ)
      → size
        ≤ room
          + (size / s.base_size + (if ltb room (size % s.base_size) then 1 else 0)) * s.base_size
  rounds_suffice size room = ground (
    arith,
    div-add-mod size s.base_size,
    mod-lt size v.base_pos,
    mul_comm s.base_size (size / s.base_size),
  )

  -- `addCapacity` makes room for `size` bytes behind the position, and changes nothing else.
  pub add_capacity_lem :
      (size : ℕ)
      → s.position < s.capacity
      → (n : ℕ) × (add_capacity size s ≡ done tt (grown n s))
        × (s.position + size ≤ s.capacity + n * s.base_size)
  unfolding add_capacity append_nodes
  add_capacity_lem size h = elim (dec_le size room) [
    | yes k ↦ (0, ground (arith, room_left, append_nodes_lem 0 s), omega arith)
    | no k ↦ (
      rounds,
      ground (arith, room_left, append_nodes_lem rounds s, v.base_pos),
      omega (arith, rounds_suffice size room),
    )
  ]
    where
      room : ℕ
      room = s.capacity - s.position

      rounds : ℕ
      rounds = size / s.base_size + (if ltb room (size % s.base_size) then 1 else 0)

      room_left : get_capacity s ≡ room
      room_left = ground arith

-- ===== src/ByteArray/IsValid.antt =====
-- The well-formed states of a ByteArray, and the memory that the chain of blocks stands for.
use native.Mathlib.Nat.{div-lt_iff_lt-mul, mul-div_left, mul-le-mul_right}
use cczoecpp.Common.{
  none, ap, ◌∙◌, ℕ, ◌*◌, ◌/◌, ◌≤◌, ◌<◌, ◌≡◌, List, some, length, All, flatten, arith,
  length-flatten, length-replicate,
}
use cczoecpp.ByteArray.{ByteArray, init, node_at}

-- Every block has the base size, the counters fit one another, and the cursor is the node that
-- holds the position.
pub record IsValid (s : ByteArray) : Type 0 where
  pub base_pos : 0 < s.base_size
  pub some_block : 0 < length s.blocks
  pub sized : All (λ b. length b ≡ s.base_size) s.blocks
  pub counted : s.capacity ≡ length s.blocks * s.base_size
  pub size_fits : s.size ≤ s.capacity
  pub position_fits : s.position ≤ s.size
  pub cursor : s.curr ≡ node_at (length s.blocks) (s.position / s.base_size)

-- The bytes of all blocks, from the first on.
abbrev pub memory : ByteArray → List ℕ
memory s = flatten s.blocks

pub length-memory : {s : ByteArray} → IsValid s → length (memory s) ≡ s.capacity
length-memory {s} v = omega (arith, length-flatten s.base_size s.blocks v.sized, v.counted)

pub init-IsValid : (base_size junk : ℕ) → 0 < base_size → IsValid (init base_size junk)
unfolding init
init-IsValid base_size junk h = record {
  base_pos = h;
  some_block = omega arith;
  sized = (length-replicate base_size junk, tt);
  counted = omega arith;
  size_fits = omega arith;
  position_fits = omega arith;
  cursor = ground arith;
}

module _ {s : ByteArray} (v : IsValid s) where
  pub node_room : s.position < s.capacity → s.position / s.base_size < length s.blocks
  node_room h = (div-lt_iff_lt-mul v.base_pos).1 (omega (arith, v.counted))

  -- With room behind the position the cursor is a node; at the end of the chain it is null.
  pub cursor_node : s.position < s.capacity → s.curr ≡ some (s.position / s.base_size)
  cursor_node h = ground (arith, v.cursor, node_room h)

  pub cursor_null : s.position ≡ s.capacity → s.curr ≡ none
  cursor_null h = ground (
    arith,
    v.cursor,
    v.counted,
    mul-div_left (length s.blocks) v.base_pos,
    ap (λ (t : ℕ). t / s.base_size) (h ∙ v.counted),
  )

  pub base_size-le-capacity : s.base_size ≤ s.capacity
  base_size-le-capacity =
      omega
        (arith, v.counted, mul-le-mul_right {m = 1} {n = length s.blocks} s.base_size v.some_block)

  pub node_of : (pos : ℕ) → pos < s.capacity → pos / s.base_size < length s.blocks
  node_of pos h = (div-lt_iff_lt-mul v.base_pos).1 (omega (arith, v.counted))

-- ===== src/ByteArray/Seek.antt =====
-- `setPosition`: where its walk ends. It starts at `m_curr`, not at `m_root`.
use native.Mathlib.Nat.{div-eq_of_lt, div-eq-sub-div}
use native.Mathlib.Decide.{dec_lt}
use cczoecpp.Common.{
  ℕ, zero, suc, ◌+◌, ◌-◌, ◌/◌, ◌≤◌, ◌<◌, ◌≡◌, refl, ap, ◌∙◌, sym, ◌∷◌, some, none, length, arith,
  All, ltb, if◌then◌else◌, split_at, All-right, subst, le→ltb,
}
use cczoecpp.Common.Outcome.{done, raised, fault, out_of_range}
use cczoecpp.ByteArray.{ByteArray, node_at, curr_size, next_node, seek_loop, set_position}
use cczoecpp.ByteArray.IsValid.{
  IsValid, memory, node_room, cursor_node, cursor_null, node_of, base_size-le-capacity,
}
use cczoecpp.ByteArray.Steps.{curr_size_lem, next_node_lem}

node_size :
    (base c : ℕ) (s : ByteArray)
    → All (λ b. length b ≡ base) s.blocks
    → s.curr ≡ some c
    → c < length s.blocks
    → (curr_size s ≡ done base s)
      × (next_node s ≡ done tt (record s { curr = node_at (length s.blocks) (suc c) }))
node_size base c s sized here h =
    let (front, b, back, chain, index) = split_at c s.blocks h in
    let here' : s.curr ≡ some (length front) = here ∙ ap some (sym index) in
    let size : length b ≡ base =
      (All-right _ front (b ∷ back) (subst (All (λ d. length d ≡ base)) chain sized)).0 in
    (
      rw size at (curr_size_lem s front back b chain here'),
      rw index at (next_node_lem s front back b chain here'),
    )

curr_size_null : (s : ByteArray) → s.curr ≡ none → curr_size s ≡ fault
unfolding curr_size
curr_size_null s e = ground arith

seek_loop_null :
    (fuel pos : ℕ) (s : ByteArray) → 0 < fuel → s.curr ≡ none → seek_loop fuel pos s ≡ fault
unfolding seek_loop
seek_loop_null zero pos s h e = absurd (omega arith)
seek_loop_null (suc fuel) pos s h e = ground (arith, curr_size_null s e)

-- The walk goes `pos / base` nodes on from the cursor, and faults when the chain ends before.
pub seek_loop_lem :
    (fuel base c pos : ℕ) (s : ByteArray)
    → 0 < base
    → All (λ b. length b ≡ base) s.blocks
    → s.curr ≡ some c
    → c < length s.blocks
    → length s.blocks < fuel + c
    → seek_loop fuel pos s ≡ (
        if ltb (c + pos / base) (length s.blocks)
        then done tt (record s { curr = some (c + pos / base) })
        else fault)
unfolding seek_loop
seek_loop_lem zero base c pos s base_pos sized here h enough = absurd (omega arith)
seek_loop_lem (suc fuel) base c pos s base_pos sized here h enough =
    let (size, next) = node_size base c s sized here h in
    elim (dec_lt pos base) [
      | yes near ↦ ground (arith, size, div-eq_of_lt near)
      | no far ↦
          let rest = div-eq-sub-div {m = base} {n = pos} base_pos (omega arith) in
          elim (dec_lt (suc c) (length s.blocks)) [
            | yes more ↦ ground (
              arith,
              size,
              next,
              rest,
              seek_loop_lem fuel base (suc c) (pos - base) (record s { curr = some (suc c) })
                  base_pos sized refl more (omega arith),
            )
            | no end ↦ ground (
              arith,
              size,
              next,
              rest,
              seek_loop_null fuel (pos - base) (record s { curr = none }) (omega arith) refl,
            )
          ]
    ]

module _ (s : ByteArray) (v : IsValid s) where
  -- In a valid state a position behind the data is refused with `out_of_range`, and nothing moves.
  pub set_position_out_of_range :
      (pos : ℕ) → s.size < pos → set_position pos s ≡ raised out_of_range s
  unfolding set_position
  set_position_out_of_range pos h = ground arith

  -- In a valid state whose position is not at the end of the chain, `setPosition` within the data
  -- sets the position, but its walk starts at the cursor: the blocks of `pos` are added to the block
  -- of the cursor, and a walk behind the last block is a fault.
  pub set_position_lem :
      (pos : ℕ)
      → s.position < s.capacity
      → pos ≤ s.size
      → set_position pos s ≡ (
          if ltb (s.position / s.base_size + pos / s.base_size) (length s.blocks)
          then done tt (record s {
            position = pos;
            curr = some (s.position / s.base_size + pos / s.base_size);
          })
          else fault)
  unfolding set_position
  set_position_lem pos h fits = rw (le→ltb s.size pos fits) (
      seek_loop_lem (suc (length s.blocks)) s.base_size (s.position / s.base_size) pos
        (record s { position = pos }) v.base_pos v.sized (cursor_node v h) (node_room v h)
        (omega arith))

  -- At the end of the chain the cursor is null, and every position in range faults.
  pub set_position_null :
      (pos : ℕ) → s.position ≡ s.capacity → pos ≤ s.size → set_position pos s ≡ fault
  unfolding set_position
  set_position_null pos h fits = rw (le→ltb s.size pos fits) (
      seek_loop_null (suc (length s.blocks)) pos (record s { position = pos }) (omega arith)
        (cursor_null v h))

  -- From a cursor in the first block the walk is right: the state stays valid, and only the
  -- position moves.
  pub set_position_first :
      (pos : ℕ)
      → s.position < s.base_size
      → pos ≤ s.size
      → pos < s.capacity
      → (t : ByteArray) × (set_position pos s ≡ done tt t)
        × IsValid t
        × (t.position ≡ pos)
        × (memory t ≡ memory s)
        × (t.size ≡ s.size)
        × (t.endian ≡ s.endian)
  set_position_first pos first fits h = (
    record s { position = pos; curr = some (pos / s.base_size) },
    set_position_lem pos (omega (arith, base_size-le-capacity v)) fits
        ∙ ground (arith, div-eq_of_lt first, node_of v pos h),
    record {
      base_pos = v.base_pos;
      some_block = v.some_block;
      sized = v.sized;
      counted = v.counted;
      size_fits = v.size_fits;
      position_fits = fits;
      cursor = ground (arith, node_of v pos h);
    },
    refl,
    refl,
    refl,
    refl,
  )

  -- When `setPosition` within the data returns from a block behind the first, the state it leaves is
  -- not valid.
  pub set_position_drifts :
      (pos : ℕ) (t : ByteArray)
      → s.base_size ≤ s.position
      → s.position < s.capacity
      → pos ≤ s.size
      → set_position pos s ≡ done tt t
      → ¬ IsValid t
  set_position_drifts pos t later h fits e w = ground (
    arith,
    e,
    set_position_lem pos h fits,
    w.cursor,
    div-eq-sub-div {m = s.base_size} {n = s.position} v.base_pos later,
  )

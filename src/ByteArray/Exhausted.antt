-- ===== src/ByteArray/Exhausted.antt =====
-- `write` of an array whose chain is full: `addCapacity` sets `m_curr` to the last old block.
use native.Mathlib.Nat.{div-eq_of_lt, mul-mod_left}
use cczoecpp.Common.{
  ℕ, zero, suc, ◌+◌, ◌-◌, ◌*◌, ◌%◌, ◌≤◌, ◌<◌, ◌≡◌, refl, sym, ap, ◌∙◌, subst, List, [], ◌∷◌, ◌++◌,
  some, length, replicate, overwrite, flatten, flatten-append, append_assoc, append-nil, arith, All,
  All-left, All-right, split_at, length-append, length-overwrite, overwrite-append_right,
  overwrite-append_left, length-flatten, if◌then◌else◌, ltb,
}
use cczoecpp.Common.Outcome.{done, >>=-done}
use cczoecpp.ByteArray.{
  ByteArray, new_node, copy_in, append_nodes, first_node, add_capacity, offset, write_loop,
  raise_size, write, sub_size, curr_size,
}
use cczoecpp.ByteArray.IsValid.{IsValid, memory}
use cczoecpp.ByteArray.Steps.{copy_in_lem, curr_size_lem, offset_lem, sub_size_lem}

-- The state behind `addCapacity`.
abbrev stretched : ByteArray → ByteArray
stretched s = record s {
  blocks = s.blocks ++ new_node s.base_size s.junk ∷ [];
  capacity = s.capacity + s.base_size;
  curr = some (length s.blocks - 1);
}

module _ (s : ByteArray) (v : IsValid s) (full : s.position ≡ s.capacity) where
  stretch : (size : ℕ) → 0 < size → size < s.base_size → add_capacity size s ≡ done tt (stretched s)
  unfolding add_capacity append_nodes first_node
  stretch size some_byte small = ground (arith, full, div-eq_of_lt small, v.base_pos)

  at_start : s.position % s.base_size ≡ 0
  at_start =
      ap (λ p. p % s.base_size) (full ∙ v.counted) ∙ mul-mod_left (length s.blocks) s.base_size

  -- The chain, cut before its last block.
  last_block :
      (front : List (List ℕ)) × (b : List ℕ) × (s.blocks ≡ front ++ b ∷ [])
      × (length front ≡ length s.blocks - 1)
      × (length b ≡ s.base_size)
      × (length (flatten front) + s.base_size ≡ s.capacity)
  last_block =
      let (front, b, back, chain, index) =
        split_at (length s.blocks - 1) s.blocks (omega (arith, v.some_block)) in
      let cut : All (λ d. length d ≡ s.base_size) (front ++ b ∷ back) =
        subst (All (λ d. length d ≡ s.base_size)) chain v.sized in
      let nothing =
        no_more back
          (omega (arith, ap length chain, length-append front (b ∷ back), index, v.some_block)) in
      (
        front,
        b,
        chain ∙ ap (λ r. front ++ b ∷ r) nothing,
        index,
        (All-right _ front (b ∷ back) cut).0,
        omega (
          arith,
          v.counted,
          length-flatten s.base_size front (All-left _ front (b ∷ back) cut),
          ap (λ (n : ℕ). n * s.base_size) index,
          split_count (length s.blocks) s.base_size v.some_block,
        ),
      )
    where
      no_more : (back : List (List ℕ)) → length back ≡ 0 → back ≡ []
      no_more [] h = refl
      no_more (d ∷ back) h = absurd (omega arith)

      split_count : (n base : ℕ) → 0 < n → (n - 1) * base + base ≡ n * base
      split_count zero base h = absurd (omega arith)
      split_count (suc n) base h =
          let e : suc n - 1 ≡ n = omega arith in ap (λ (t : ℕ). t * base + base) e ∙ omega arith

  -- The bytes of a chain whose last old block was written to.
  overwritten :
      (front : List (List ℕ)) (b bytes fresh : List ℕ)
      → length bytes ≤ length b
      → s.blocks ≡ front ++ b ∷ []
      → s.position - s.base_size ≡ length (flatten front) + 0
      → flatten (front ++ overwrite 0 bytes b ∷ (fresh ∷ []))
        ≡ overwrite (s.position - s.base_size) bytes (memory s ++ fresh)
  unfolding flatten
  overwritten front b bytes fresh h chain start =
      flatten-append front (overwrite 0 bytes b ∷ (fresh ∷ []))
      ∙ ap (λ t. flatten front ++ (overwrite 0 bytes b ++ t)) (append-nil fresh)
      ∙ ap (◌++◌ (flatten front)) (sym (overwrite-append_left 0 bytes b fresh (omega (arith, h))))
      ∙ sym (overwrite-append_right 0 bytes (flatten front) (b ++ fresh))
      ∙ λ i. overwrite (sym start i) bytes (sym whole i)
    where
      whole : memory s ++ fresh ≡ flatten front ++ (b ++ fresh)
      whole =
          ap (λ bs. flatten bs ++ fresh) chain
          ∙ ap (λ t. t ++ fresh)
              (flatten-append front (b ∷ []) ∙ ap (◌++◌ (flatten front)) (append-nil b))
          ∙ append_assoc (flatten front) b fresh

  -- In a valid state whose position is at the end of the chain, a write of less than a block returns
  -- normally and moves the position behind it, but its bytes go to the start of the last old block,
  -- over what is there, and not to the position.
  pub write_overwrites :
      (x : ℕ) (buf : List ℕ)
      → length (x ∷ buf) < s.base_size
      → (t : ByteArray) × (write (x ∷ buf) s ≡ done tt t)
        × (t.position ≡ s.position + length (x ∷ buf))
        × (memory t
            ≡ overwrite
                (s.position - s.base_size)
                (x ∷ buf)
                (memory s ++ replicate s.base_size s.junk))
  unfolding write write_loop raise_size
  write_overwrites x buf small =
      let (front, b, chain, index, size, before) = last_block in
      let u = stretched s in
      let fresh = new_node s.base_size s.junk in
      let cut : u.blocks ≡ front ++ b ∷ (fresh ∷ []) =
        ap (λ bs. bs ++ (fresh ∷ [])) chain ∙ append_assoc front (b ∷ []) (fresh ∷ []) in
      let here : u.curr ≡ some (length front) = ap some (sym index) in
      let b' = overwrite 0 (x ∷ buf) b in
      let w = record u {
        blocks = front ++ b' ∷ (fresh ∷ []);
        position = u.position + length (x ∷ buf);
      } in
      let copied : copy_in 0 (x ∷ buf) u ≡ done tt w =
        copy_in_lem u front (fresh ∷ []) b cut here 0 (x ∷ buf) (omega (arith, small, size)) in
      let sized : curr_size w ≡ done (length b') w =
        curr_size_lem w front (fresh ∷ []) b' refl here in
      let rest : sub_size s.base_size 0 ≡ s.base_size =
        sub_size_lem s.base_size 0 (omega arith) ∙ omega arith in
      let loop : write_loop (suc (length (x ∷ buf))) (x ∷ buf) 0 (sub_size s.base_size 0) u
          ≡ done tt w =
        ground (arith, small, rest, copied, sized, length-overwrite 0 (x ∷ buf) b, size) in
      let from : offset u ≡ done 0 u = offset_lem u v.base_pos ∙ ap (λ n. done n u) at_start in
      (
        record w { size = if ltb w.size w.position then w.position else w.size },
        >>=-done (add_capacity (length (x ∷ buf))) _
              (stretch (length (x ∷ buf)) (omega arith) small)
            ∙ >>=-done offset _ from
            ∙ >>=-done (write_loop (suc (length (x ∷ buf))) (x ∷ buf) 0 (sub_size s.base_size 0))
                (λ _. raise_size) loop,
        refl,
        overwritten front b (x ∷ buf) fresh (omega (arith, small, size)) chain
            (omega (arith, before, full)),
      )

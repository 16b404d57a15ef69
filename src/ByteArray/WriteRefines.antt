-- ===== src/ByteArray/WriteRefines.antt =====
-- `write` against the flat memory that the chain of blocks stands for.
use native.Mathlib.Nat.{mod-lt}
use cczoecpp.Common.{
  ℕ, zero, suc, ◌+◌, ◌-◌, ◌*◌, ◌/◌, ◌%◌, ◌≤◌, ◌<◌, ◌≡◌, refl, sym, ap, ap₂, ◌∙◌, List, [], ◌∷◌,
  ◌++◌, length, replicate, overwrite, flatten, arith, length-append, All, All-append,
  flatten-append, overwrite-append_right, append-nil, overwrite-nil, replicate-add, subst, ltb,
  if◌then◌else◌, max,
}
use cczoecpp.Common.Outcome.{done, >>=-done}
use cczoecpp.ByteArray.{
  ByteArray, node_at, new_node, write_loop, write, add_capacity, offset, raise_size,
}
use cczoecpp.ByteArray.IsValid.{IsValid, memory}
use cczoecpp.ByteArray.Write.{Written, write_loop_lem}
use cczoecpp.ByteArray.Steps.{offset_lem, sub_size_lem}
use cczoecpp.ByteArray.Cut.{Cut, cut, node_behind}
use cczoecpp.ByteArray.Growth.{grown, grown-IsValid, add_capacity_lem}

-- `t` is `s` after `bytes` were written at its position: the chain may have grown, by bytes that
-- are not determined, and every byte outside of the run is as before.
pub record Wrote (s : ByteArray) (bytes : List ℕ) (t : ByteArray) : Type 0 where
  pub valid : IsValid t
  pub moved : t.position ≡ s.position + length bytes
  pub extended : t.size ≡ max s.size t.position
  pub grows : s.capacity ≤ t.capacity
  pub same_base : t.base_size ≡ s.base_size
  pub same_endian : t.endian ≡ s.endian
  pub same_junk : t.junk ≡ s.junk
  pub bytes_in :
      memory t ≡ overwrite s.position bytes (memory s ++ replicate (t.capacity - s.capacity) s.junk)

flatten-replicate :
    (n base junk : ℕ) → flatten (replicate n (new_node base junk)) ≡ replicate (n * base) junk
unfolding flatten
flatten-replicate zero base junk = let e : 0 * base ≡ 0 = omega arith in rw e
flatten-replicate (suc n) base junk =
    let e : suc n * base ≡ base + n * base = omega arith in
    rw (e, flatten-replicate n base junk, replicate-add base (n * base) junk)

-- What one run of the loop leaves, in a state that can be cut.
abbrev Looped : ByteArray → List ℕ → ByteArray → Type 0
Looped s buf t =
    (t.size ≡ s.size)
    × (t.capacity ≡ s.capacity)
    × (t.base_size ≡ s.base_size)
    × (t.endian ≡ s.endian)
    × (t.junk ≡ s.junk)
    × (t.position ≡ s.position + length buf)
    × (memory t ≡ overwrite s.position buf (memory s))
    × All (λ b. length b ≡ s.base_size) t.blocks
    × (length t.blocks ≡ length s.blocks)
    × (t.curr ≡ node_at (length t.blocks) (t.position / s.base_size))

module _ (s : ByteArray) (c : Cut s) (fuel : ℕ) (buf : List ℕ) where
  open c use {front, node, back}

  landing :
      Written s.base_size fuel buf (s.position % s.base_size) s front node back
      → (t : ByteArray) × (write_loop fuel buf
            (s.position % s.base_size)
            (s.base_size - s.position % s.base_size)
            s
          ≡ done tt t)
        × Looped s buf t
  landing (bs, run, flat, all, count) = (
    record s {
      blocks = front ++ bs;
      position = s.position + length buf;
      curr = node_at (length s.blocks) (length front + (npos + length buf) / s.base_size);
    },
    run,
    (
      refl,
      refl,
      refl,
      refl,
      refl,
      refl,
      flatten-append front bs ∙ ap (◌++◌ (flatten front)) flat ∙ sym written_behind,
      All-append _ front bs c.front_sized all,
      same_count,
      λ i. node_at (sym same_count i) (node_behind s c (length buf) i),
    ),
  )
    where
      npos : ℕ
      npos = s.position % s.base_size

      same_count : length (front ++ bs) ≡ length s.blocks
      same_count = omega (
        arith,
        length-append front bs,
        count,
        ap length c.chain,
        length-append front (node ∷ back),
      )

      written_behind :
          overwrite s.position buf (memory s)
          ≡ flatten front ++ overwrite npos buf (flatten (node ∷ back))
      written_behind =
          ap (overwrite s.position buf) (ap flatten c.chain ∙ flatten-append front (node ∷ back))
          ∙ ap (λ p. overwrite p buf (flatten front ++ flatten (node ∷ back))) c.before
          ∙ overwrite-append_right npos buf (flatten front) (flatten (node ∷ back))

-- The loop runs to its end from a valid state with room for the bytes.
loop_run :
    (s : ByteArray) (buf : List ℕ)
    → IsValid s
    → 0 < length buf
    → s.position + length buf ≤ s.capacity
    → (t : ByteArray) × (write_loop
          (suc (length buf))
          buf
          (s.position % s.base_size)
          (s.base_size - s.position % s.base_size)
          s
        ≡ done tt t)
      × Looped s buf t
loop_run s buf v busy fits =
    let c = cut s v (omega arith) in
    landing s c (suc (length buf)) buf (
      write_loop_lem s.base_size (suc (length buf)) buf (s.position % s.base_size) s c.front c.back
        c.node c.chain c.here c.sized busy (omega arith) c.inside (omega (arith, c.room)))

Looped-Wrote :
    (s : ByteArray) (n : ℕ) (buf : List ℕ) (t : ByteArray)
    → IsValid s
    → IsValid (grown n s)
    → s.position + length buf ≤ s.capacity + n * s.base_size
    → Looped (grown n s) buf t
    → Wrote s buf (record t { size = if ltb t.size t.position then t.position else t.size })
Looped-Wrote s n buf t v g fits l = record {
  valid = record {
    base_pos = omega (arith, l.2, v.base_pos);
    some_block = omega (arith, l.8, g.some_block);
    sized = subst (λ k. All (λ b. length b ≡ k) t.blocks) (sym l.2) l.7;
    counted = l.1 ∙ g.counted ∙ ap₂ (λ a b. a * b) (sym l.8) (sym l.2);
    size_fits = ground (arith, l.0, l.1, l.5, g.size_fits);
    position_fits = ground arith;
    cursor = l.9 ∙ λ i. node_at (length t.blocks) (t.position / sym l.2 i);
  };
  moved = l.5;
  extended = ground (arith, l.0);
  grows = omega (arith, l.1);
  same_base = l.2;
  same_endian = l.3;
  same_junk = l.4;
  bytes_in = l.6 ∙ ap (overwrite s.position buf) grown_memory;
}
  where
    new_bytes : n * s.base_size ≡ t.capacity - s.capacity
    new_bytes = omega (arith, l.1)

    grown_memory : memory (grown n s) ≡ memory s ++ replicate (t.capacity - s.capacity) s.junk
    grown_memory =
        flatten-append s.blocks (replicate n (new_node s.base_size s.junk))
        ∙ ap (◌++◌ (memory s))
            (flatten-replicate n s.base_size s.junk ∙ ap (λ k. replicate k s.junk) new_bytes)

Wrote-nil : (s : ByteArray) → IsValid s → Wrote s [] s
Wrote-nil s v = record {
  valid = v;
  moved = omega arith;
  extended = ground (arith, v.position_fits);
  grows = omega arith;
  same_base = refl;
  same_endian = refl;
  same_junk = refl;
  bytes_in =
      sym (append-nil (memory s))
      ∙ ap (λ k. memory s ++ replicate k s.junk) no_more
      ∙ sym (overwrite-nil s.position (memory s ++ replicate (s.capacity - s.capacity) s.junk));
}
  where
    no_more : 0 ≡ s.capacity - s.capacity
    no_more = omega arith

-- From a valid state whose position is not at the end of the chain, `write` returns normally, and
-- the memory differs only in the bytes that were written.
pub write_refines :
    (s : ByteArray) (buf : List ℕ)
    → IsValid s
    → s.position < s.capacity
    → (t : ByteArray) × (write buf s ≡ done tt t) × Wrote s buf t
unfolding write raise_size
write_refines s [] v h = (s, refl, Wrote-nil s v)
write_refines s (x ∷ buf) v h =
    let (n, added, fits) = add_capacity_lem v (length (x ∷ buf)) h in
    let g = grown-IsValid v n h in
    let (t, ran, looped) = loop_run (grown n s) (x ∷ buf) g (omega arith) fits in
    (
      record t { size = if ltb t.size t.position then t.position else t.size },
      >>=-done (add_capacity (length (x ∷ buf))) _ added
          ∙ >>=-done offset _ (offset_lem (grown n s) v.base_pos)
          ∙ >>=-done (write_loop _ (x ∷ buf) _ _) (λ _. raise_size)
              (rw
                (sub_size_lem s.base_size (s.position % s.base_size)
                  (omega (arith, mod-lt s.position v.base_pos)))
                ran),
      Looped-Wrote s n (x ∷ buf) t v g fits looped,
    )

-- ===== src/ByteArray/ReadRefines.antt =====
-- `read` against the flat memory that the chain of blocks stands for.
use cczoecpp.Common.{
  true, false, ◌++◌, sym, ℕ, zero, suc, ◌+◌, ◌-◌, ◌/◌, ◌%◌, ◌≤◌, ◌<◌, ◌≡◌, refl, ap, ◌∙◌, List, [],
  ◌∷◌, length, slice, flatten, arith, flatten-append, slice-append_right, ltb,
}
use cczoecpp.Common.Outcome.{done, raised, out_of_range, >>=-done, ◌>>=◌}
use cczoecpp.ByteArray.{
  M, ByteArray, node_at, offset, curr_size, read_loop, read, get_readable_size, sub_size,
}
use cczoecpp.ByteArray.IsValid.{IsValid, memory}
use cczoecpp.ByteArray.Steps.{offset_lem, sub_size_lem, curr_size_lem}
use cczoecpp.ByteArray.Cut.{Cut, cut, node_behind}
use cczoecpp.ByteArray.Read.{read_loop_lem}

-- The cursor moved on by `n` bytes.
abbrev pub advanced : ℕ → ByteArray → ByteArray
advanced n s = record s {
  position = s.position + n;
  curr = node_at (length s.blocks) ((s.position + n) / s.base_size);
}

pub advanced-IsValid :
    (n : ℕ) {s : ByteArray} → IsValid s → s.position + n ≤ s.size → IsValid (advanced n s)
advanced-IsValid n v h = record {
  base_pos = v.base_pos;
  some_block = v.some_block;
  sized = v.sized;
  counted = v.counted;
  size_fits = v.size_fits;
  position_fits = h;
  cursor = refl;
}

readable_lem : {s : ByteArray} → IsValid s → get_readable_size s ≡ s.size - s.position
readable_lem {s} v = sub_size_lem s.size s.position v.position_fits

-- The copy behind the check of `read`.
abbrev copy_all : ℕ → M (List ℕ)
copy_all size = do npos ← offset; n ← curr_size; read_loop (suc size) size npos (sub_size n npos)

read_in_range :
    (s : ByteArray) (size : ℕ) → s.position + size ≤ s.size → read size s ≡ copy_all size s
unfolding read
read_in_range s size fits = rw in_range
  where
    in_range : ltb (get_readable_size s) size ≡ false
    in_range = ground arith

-- It asks for more than there is, and moves nothing.
pub read_out_of_range :
    (s : ByteArray) (size : ℕ)
    → IsValid s
    → s.size < s.position + size
    → read size s ≡ raised out_of_range s
unfolding read
read_out_of_range s size v over = rw out
  where
    out : ltb (get_readable_size s) size ≡ true
    out = ground (arith, v.position_fits)

module _ (s : ByteArray) (v : IsValid s) (h : s.position < s.capacity) where
  pub memory_behind :
      (c : Cut s) (size : ℕ)
      → slice (s.position % s.base_size) size (flatten (c.node ∷ c.back))
        ≡ slice s.position size (memory s)
  memory_behind c size =
      sym (
        slice-append_right (s.position % s.base_size) size (flatten c.front)
          (flatten (c.node ∷ c.back)))
      ∙ ap (λ p. slice p size (flatten c.front ++ flatten (c.node ∷ c.back))) (sym c.before)
      ∙ ap (slice s.position size)
          (sym (ap flatten c.chain ∙ flatten-append c.front (c.node ∷ c.back)))

  loop_run :
      (size : ℕ)
      → s.position + size ≤ s.size
      → read_loop
          (suc size)
          size
          (s.position % s.base_size)
          (s.base_size - s.position % s.base_size)
          s
        ≡ done (slice s.position size (memory s)) (advanced size s)
  unfolding read_loop
  loop_run zero fits = λ i. done [] (record s {
    position = same_position i;
    curr = (v.cursor ∙ λ j. node_at (length s.blocks) (same_position j / s.base_size)) i;
  })
    where
      same_position : s.position ≡ s.position + 0
      same_position = omega arith
  loop_run (suc size) fits =
      let c = cut s v h in
      read_loop_lem s.base_size (suc (suc size)) (suc size) (s.position % s.base_size) s c.front
        c.back c.node c.chain c.here c.sized (omega arith) (omega arith) c.inside
        (omega (arith, c.room, v.size_fits))
      ∙ λ i. done (memory_behind c (suc size) i) (record s {
        position = s.position + suc size;
        curr = node_at (length s.blocks) (node_behind s c (suc size) i);
      })

  -- In a valid state whose position is not at the end of the chain, `read` of no more bytes than
  -- there are returns the bytes at the position and moves the position behind them.
  pub read_refines :
      (size : ℕ)
      → s.position + size ≤ s.size
      → read size s ≡ done (slice s.position size (memory s)) (advanced size s)
  read_refines size fits =
      let c = cut s v h in
      read_in_range s size fits
      ∙ >>=-done offset _ (offset_lem s v.base_pos)
      ∙ >>=-done curr_size
          (λ n.
            read_loop (suc size) size (s.position % s.base_size)
              (sub_size n (s.position % s.base_size)))
          (curr_size_lem s c.front c.back c.node c.chain c.here)
      ∙ rw
          (c.sized.0, sub_size_lem s.base_size (s.position % s.base_size) (omega (arith, c.inside)))
          (loop_run size fits)

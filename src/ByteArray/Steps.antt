-- ===== src/ByteArray/Steps.antt =====
-- One access through `m_curr`, at a node that the chain has.
use cczoecpp.Common.{
  ◌%◌, ℕ, suc, ◌+◌, ◌-◌, ◌≤◌, ◌<◌, ◌≡◌, List, ◌∷◌, ◌++◌, some, length, overwrite, slice, arith,
  get_elem?, set, get_elem?-append, set-append,
}
use cczoecpp.Common.Outcome.{done}
use cczoecpp.ByteArray.{
  ByteArray, node_at, curr_size, next_node, copy_in, copy_out, offset, sub_size,
}

-- The chain is cut at the node `b` that `m_curr` points to.
module _ (s : ByteArray) (front back : List (List ℕ)) (b : List ℕ)
    (chain : s.blocks ≡ front ++ b ∷ back) (here : s.curr ≡ some (length front)) where
  node : get_elem? s.blocks (length front) ≡ some b
  node = rw chain (get_elem?-append front back b)

  pub curr_size_lem : curr_size s ≡ done (length b) s
  unfolding curr_size
  curr_size_lem = ground (arith, node)

  pub next_node_lem :
      next_node s ≡ done tt (record s { curr = node_at (length s.blocks) (suc (length front)) })
  unfolding next_node
  next_node_lem = ground arith

  pub copy_in_lem :
      (npos : ℕ) (bytes : List ℕ)
      → npos + length bytes ≤ length b
      → copy_in npos bytes s
        ≡ done tt (record s {
          blocks = front ++ overwrite npos bytes b ∷ back;
          position = s.position + length bytes;
        })
  unfolding copy_in
  copy_in_lem npos bytes h =
      ground (arith, node, chain, set-append front back b (overwrite npos bytes b), written)
    where
      written :
          set s.blocks (length front) (overwrite npos bytes b)
          ≡ front ++ overwrite npos bytes b ∷ back
      written = rw chain (set-append front back b (overwrite npos bytes b))

  pub copy_out_lem :
      (npos n : ℕ)
      → npos + n ≤ length b
      → copy_out npos n s ≡ done (slice npos n b) (record s { position = s.position + n })
  unfolding copy_out
  copy_out_lem npos n h = ground (arith, node)

pub offset_lem : (s : ByteArray) → 0 < s.base_size → offset s ≡ done (s.position % s.base_size) s
unfolding offset
offset_lem s h = ground arith

pub sub_size_lem : (a b : ℕ) → b ≤ a → sub_size a b ≡ a - b
sub_size_lem a b h = ground arith

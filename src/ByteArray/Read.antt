-- ===== src/ByteArray/Read.antt =====
-- The copy loop of `read` over the chain of blocks.
use native.Mathlib.Nat.{div-eq-sub-div}
use native.Mathlib.Decide.{dec_lt}
use cczoecpp.Common.{
  ℕ, zero, suc, ◌+◌, ◌-◌, ◌*◌, ◌/◌, ◌≤◌, ◌<◌, ◌≡◌, sym, ap, ◌∙◌, List, [], ◌∷◌, ◌++◌, some, length,
  slice, flatten, arith, All, append_assoc, length-append, slice-append, slice-append_left,
}
use cczoecpp.Common.Outcome.{done}
use cczoecpp.ByteArray.{ByteArray, node_at, read_loop}
use cczoecpp.ByteArray.Steps.{curr_size_lem, next_node_lem, copy_out_lem}
use cczoecpp.ByteArray.Write.{block_index}

module _ (s : ByteArray) (front back : List (List ℕ)) (b : List ℕ)
    (chain : s.blocks ≡ front ++ b ∷ back) (here : s.curr ≡ some (length front)) where
  -- What is left stands in the block at the cursor.
  read_loop_ends :
      (fuel size npos : ℕ)
      → npos + suc size ≤ length b
      → read_loop (suc fuel) (suc size) npos (length b - npos) s
        ≡ done (slice npos (suc size) b) (record s {
          position = s.position + suc size;
          curr = node_at (length s.blocks) (length front + (npos + suc size) / length b);
        })
  unfolding read_loop
  read_loop_ends fuel size npos h = ground (
    arith,
    copy_out_lem s front back b chain here npos (suc size) h,
    curr_size_lem copied front back b chain here,
    next_node_lem copied front back b chain here,
    block_index (npos + suc size) (length b),
    ap length chain,
    length-append front (b ∷ back),
  )
    where
      copied : ByteArray
      copied = record s { position = s.position + suc size }

-- What the loop comes to: the bytes of the memory that begins at the cursor's block.
abbrev pub Loaded : ℕ → ℕ → ℕ → ℕ → ByteArray → ℕ → List (List ℕ) → Type 0
Loaded base fuel size npos s index blocks =
    read_loop fuel size npos (base - npos) s
    ≡ done (slice npos size (flatten blocks)) (record s {
      position = s.position + size;
      curr = node_at (length s.blocks) (index + (npos + size) / base);
    })

read_loop_within :
    (base fuel size npos : ℕ) (s : ByteArray) (front back : List (List ℕ)) (b : List ℕ)
    → s.blocks ≡ front ++ b ∷ back
    → s.curr ≡ some (length front)
    → length b ≡ base
    → npos + suc size ≤ base
    → Loaded base (suc fuel) (suc size) npos s (length front) (b ∷ back)
unfolding flatten
read_loop_within base fuel size npos s front back b chain here sized h =
    rw (← sized) (read_loop_ends s front back b chain here fuel size npos (omega arith)) ∙ λ i.
    done (sym (slice-append_left npos (suc size) b (flatten back) (omega arith)) i) (record s {
      position = s.position + suc size;
      curr = node_at (length s.blocks) (length front + (npos + suc size) / base);
    })

-- It goes on in the next block.
module _ (base fuel size npos : ℕ) (s : ByteArray) (front rest : List (List ℕ)) (b c : List ℕ)
    (chain : s.blocks ≡ front ++ b ∷ c ∷ rest) (here : s.curr ≡ some (length front))
    (sized : length b ≡ base) (sized' : length c ≡ base) (inside : npos < base)
    (over : base < npos + suc size) where
  abbrev copied : ByteArray
  copied = record s { position = s.position + (base - npos) }

  abbrev moved : ByteArray
  moved = record copied { curr = some (suc (length front)) }

  abbrev left : ℕ
  left = suc size - (base - npos)

  moved-chain : s.blocks ≡ (front ++ b ∷ []) ++ c ∷ rest
  moved-chain = chain ∙ sym (append_assoc front (b ∷ []) (c ∷ rest))

  read_loop_crosses :
      (bytes : List ℕ) (t : ByteArray)
      → read_loop fuel left 0 (base - 0) moved ≡ done bytes t
      → read_loop (suc fuel) (suc size) npos (base - npos) s
        ≡ done (slice npos (base - npos) b ++ bytes) t
  unfolding read_loop
  read_loop_crosses bytes t e = ground (
    arith,
    e,
    whole,
    copy_out_lem s front (c ∷ rest) b chain here npos (base - npos) (omega arith),
    next_node_lem copied front (c ∷ rest) b chain here,
    curr_size_lem moved (front ++ b ∷ []) rest c moved-chain
        (ap some (omega (arith, length-append front (b ∷ [])))),
    ap length chain,
    length-append front (b ∷ c ∷ rest),
  )
    where
      whole : base - 0 ≡ length c
      whole = omega arith

  next_block :
      length (front ++ b ∷ []) + (0 + left) / base ≡ length front + (npos + suc size) / base
  next_block = omega (
    arith,
    length-append front (b ∷ []),
    div-eq-sub-div {m = base} {n = npos + suc size} (omega arith) (omega arith),
    ap (λ (t : ℕ). t / base) same_left,
  )
    where
      same_left : 0 + left ≡ npos + suc size - base
      same_left = omega arith

  read_loop_goes_on :
      Loaded base fuel left 0 moved (length (front ++ b ∷ [])) (c ∷ rest)
      → Loaded base (suc fuel) (suc size) npos s (length front) (b ∷ c ∷ rest)
  unfolding flatten
  read_loop_goes_on ih = read_loop_crosses _ _ ih ∙ λ i.
      done (bytes i)
        (record s { position = same_position i; curr = node_at (length s.blocks) (next_block i) })
    where
      same_position : s.position + (base - npos) + left ≡ s.position + suc size
      same_position = omega arith

      split : base - npos + left ≡ suc size
      split = omega arith

      bytes :
          slice npos (base - npos) b ++ slice 0 left (c ++ flatten rest)
          ≡ slice npos (suc size) (b ++ (c ++ flatten rest))
      bytes =
          sym (slice-append npos (base - npos) left b (c ++ flatten rest) (omega arith))
          ∙ ap (λ n. slice npos n (b ++ (c ++ flatten rest))) split

pub read_loop_lem :
    (base fuel size npos : ℕ) (s : ByteArray) (front back : List (List ℕ)) (b : List ℕ)
    → s.blocks ≡ front ++ b ∷ back
    → s.curr ≡ some (length front)
    → All (λ c. length c ≡ base) (b ∷ back)
    → 0 < size
    → size < fuel
    → npos < base
    → npos + size ≤ suc (length back) * base
    → Loaded base fuel size npos s (length front) (b ∷ back)
unfolding flatten
read_loop_lem base zero size npos s front back b chain here sized busy enough inside fits =
    absurd (omega arith)
read_loop_lem base (suc fuel) zero npos s front back b chain here sized busy enough inside fits =
    absurd (omega arith)
read_loop_lem base (suc fuel) (suc size) npos s front [] b chain here sized busy enough inside
      fits =
    read_loop_within base fuel size npos s front [] b chain here sized.0 (omega arith)
read_loop_lem base (suc fuel) (suc size) npos s front (c ∷ rest) b chain here sized busy enough
      inside fits =
    elim (dec_lt base (npos + suc size)) [
      | no h ↦
          read_loop_within base fuel size npos s front (c ∷ rest) b chain here sized.0 (omega arith)
      | yes over ↦
          read_loop_goes_on base fuel size npos s front rest b c chain here sized.0 sized.1.0 inside
            over
            (read_loop_lem base fuel (suc size - (base - npos)) 0
              (record s { position = s.position + (base - npos); curr = some (suc (length front)) })
              (front ++ b ∷ []) rest c (chain ∙ sym (append_assoc front (b ∷ []) (c ∷ rest)))
              (ap some (omega (arith, length-append front (b ∷ [])))) sized.1 (omega arith)
              (omega arith) (omega arith) (omega arith))
    ]

-- ===== src/ByteArray/Write.antt =====
-- The copy loop of `write` over the chain of blocks.
use native.Mathlib.Nat.{div-eq_of_lt, div_self, div-eq-sub-div}
use native.Mathlib.Decide.{dec_lt}
use cczoecpp.Common.{
  ◌⊎◌, inl, inr, ℕ, zero, suc, ◌+◌, ◌-◌, ◌*◌, ◌/◌, ◌≤◌, ◌<◌, ◌≡◌, refl, sym, ap, ◌∙◌, List, [], ◌∷◌,
  ◌++◌, some, length, take, drop, overwrite, flatten, arith, All, append_assoc, length-append,
  length-overwrite, length-take, length-drop, overwrite-append, overwrite-append_left,
  take-append-drop,
}
use cczoecpp.Common.Outcome.{Outcome, done}
use cczoecpp.ByteArray.{ByteArray, node_at, write_loop}
use cczoecpp.ByteArray.Steps.{curr_size_lem, next_node_lem, copy_in_lem}

-- The block, counted from the cursor's, that holds the byte behind a run that ends in this block.
pub block_index :
    (n size : ℕ) → 0 < n → n ≤ size → ((n ≡ size) × (n / size ≡ 1)) ⊎ ((n < size) × (n / size ≡ 0))
block_index n size h k = elim (dec_lt n size) [
  | yes l ↦ inr (l, div-eq_of_lt l)
  | no l ↦ let e : n ≡ size = omega arith in inl (e, rw e (div_self (omega arith)))
]

module _ (s : ByteArray) (front back : List (List ℕ)) (b : List ℕ)
    (chain : s.blocks ≡ front ++ b ∷ back) (here : s.curr ≡ some (length front)) where
  -- What is left fits the block at the cursor.
  write_loop_fits :
      (fuel : ℕ) (x : ℕ) (buf : List ℕ) (npos : ℕ)
      → npos + length (x ∷ buf) ≤ length b
      → write_loop (suc fuel) (x ∷ buf) npos (length b - npos) s
        ≡ done tt (record s {
          blocks = front ++ overwrite npos (x ∷ buf) b ∷ back;
          position = s.position + length (x ∷ buf);
          curr = node_at (length s.blocks) (length front + (npos + length (x ∷ buf)) / length b);
        })
  unfolding write_loop
  write_loop_fits fuel x buf npos h = ground (
    arith,
    copy_in_lem s front back b chain here npos (x ∷ buf) h,
    curr_size_lem copied front back (overwrite npos (x ∷ buf) b) refl here,
    next_node_lem copied front back (overwrite npos (x ∷ buf) b) refl here,
    length-overwrite npos (x ∷ buf) b,
    block_index (npos + length (x ∷ buf)) (length b),
    ap length chain,
    length-append front (b ∷ back),
    length-append front (overwrite npos (x ∷ buf) b ∷ back),
  )
    where
      copied : ByteArray
      copied = record s {
        blocks = front ++ overwrite npos (x ∷ buf) b ∷ back;
        position = s.position + length (x ∷ buf);
      }

  -- It goes on in the next block.
  write_loop_crosses :
      (fuel : ℕ) (x : ℕ) (buf : List ℕ) (npos : ℕ) (c : List ℕ) (rest : List (List ℕ))
      → back ≡ c ∷ rest
      → npos ≤ length b
      → length b < npos + length (x ∷ buf)
      → write_loop (suc fuel) (x ∷ buf) npos (length b - npos) s
        ≡ write_loop fuel (drop (length b - npos) (x ∷ buf)) 0 (length c) (record s {
          blocks = front ++ overwrite npos (take (length b - npos) (x ∷ buf)) b ∷ back;
          position = s.position + (length b - npos);
          curr = some (suc (length front));
        })
  unfolding write_loop
  write_loop_crosses fuel x buf npos c rest e h k = ground (
    arith,
    copy_in_lem s front back b chain here npos chunk
        (omega (arith, length-take (length b - npos) (x ∷ buf))),
    next_node_lem copied front back (overwrite npos chunk b) refl here,
    curr_size_lem moved (front ++ overwrite npos chunk b ∷ []) rest c split
        (ground (arith, length-append front (overwrite npos chunk b ∷ []))),
    length-take (length b - npos) (x ∷ buf),
    length-append front (overwrite npos chunk b ∷ back),
    ap length e,
  )
    where
      chunk : List ℕ
      chunk = take (length b - npos) (x ∷ buf)

      copied : ByteArray
      copied = record s {
        blocks = front ++ overwrite npos chunk b ∷ back;
        position = s.position + (length b - npos);
      }

      moved : ByteArray
      moved = record copied { curr = some (suc (length front)) }

      split :
          front ++ overwrite npos chunk b ∷ back
          ≡ (front ++ overwrite npos chunk b ∷ []) ++ c ∷ rest
      split = rw e (sym (append_assoc front (overwrite npos chunk b ∷ []) (c ∷ rest)))

-- What the loop comes to: its bytes are written into the memory that begins at the cursor's block,
-- and the cursor is left at the node that holds the byte behind them.
abbrev pub Written :
    ℕ → ℕ → List ℕ → ℕ → ByteArray → List (List ℕ) → List ℕ → List (List ℕ) → Type 0
Written base fuel buf npos s front b back =
    (bs : List (List ℕ)) × (write_loop fuel buf npos (base - npos) s
      ≡ done tt (record s {
        blocks = front ++ bs;
        position = s.position + length buf;
        curr = node_at (length s.blocks) (length front + (npos + length buf) / base);
      }))
    × (flatten bs ≡ overwrite npos buf (flatten (b ∷ back)))
    × All (λ c. length c ≡ base) bs
    × (length bs ≡ suc (length back))

write_loop_ends :
    (base fuel x : ℕ) (buf : List ℕ) (npos : ℕ) (s : ByteArray) (front back : List (List ℕ))
    (b : List ℕ)
    → s.blocks ≡ front ++ b ∷ back
    → s.curr ≡ some (length front)
    → All (λ c. length c ≡ base) (b ∷ back)
    → npos + length (x ∷ buf) ≤ base
    → Written base (suc fuel) (x ∷ buf) npos s front b back
unfolding flatten
write_loop_ends base fuel x buf npos s front back b chain here sized h = (
  overwrite npos (x ∷ buf) b ∷ back,
  rw (← sized.0) (write_loop_fits s front back b chain here fuel x buf npos (omega arith)),
  sym (overwrite-append_left npos (x ∷ buf) b (flatten back) (omega arith)),
  (length-overwrite npos (x ∷ buf) b ∙ sized.0, sized.1),
  refl,
)

module _ (base fuel x : ℕ) (buf : List ℕ) (npos : ℕ) (s : ByteArray) (front : List (List ℕ))
    (b c : List ℕ) (rest : List (List ℕ)) (chain : s.blocks ≡ front ++ b ∷ c ∷ rest)
    (here : s.curr ≡ some (length front)) (sized : All (λ d. length d ≡ base) (b ∷ c ∷ rest))
    (inside : npos < base) (over : base < npos + length (x ∷ buf)) where
  left_over : List ℕ
  left_over = drop (base - npos) (x ∷ buf)

  chunk : List ℕ
  chunk = take (base - npos) (x ∷ buf)

  filled : List ℕ
  filled = overwrite npos chunk b

  moved : ByteArray
  moved = record s {
    blocks = front ++ filled ∷ c ∷ rest;
    position = s.position + (base - npos);
    curr = some (suc (length front));
  }

  length-left_over : base + length left_over ≡ npos + length (x ∷ buf)
  unfolding left_over
  length-left_over = omega (arith, length-drop (base - npos) (x ∷ buf))

  no_offset : base - 0 ≡ base
  no_offset = omega arith

  one_round :
      write_loop (suc fuel) (x ∷ buf) npos (base - npos) s
      ≡ write_loop fuel left_over 0 (base - 0) moved
  unfolding left_over chunk filled moved
  one_round = rw no_offset (
      rw (sized.0, sized.1.0) at
        (write_loop_crosses s front (c ∷ rest) b chain here fuel x buf npos c rest refl
          (omega arith) (omega arith)))

  moved-chain : moved.blocks ≡ (front ++ filled ∷ []) ++ c ∷ rest
  unfolding moved
  moved-chain = sym (append_assoc front (filled ∷ []) (c ∷ rest))

  next_block :
      length (front ++ filled ∷ []) + (0 + length left_over) / base
      ≡ length front + (npos + length (x ∷ buf)) / base
  next_block = omega (
    arith,
    length-append front (filled ∷ []),
    length-left_over,
    div-eq-sub-div {m = base} {n = npos + length (x ∷ buf)} (omega arith) (omega arith),
    ap (λ (t : ℕ). t / base) same_left,
  )
    where
      same_left : 0 + length left_over ≡ npos + length (x ∷ buf) - base
      same_left = omega (arith, length-left_over)

  write_loop_goes_on :
      Written base fuel left_over 0 moved (front ++ filled ∷ []) c rest
      → Written base (suc fuel) (x ∷ buf) npos s front b (c ∷ rest)
  unfolding moved filled chunk left_over flatten
  write_loop_goes_on (bs, run, flat, all, count) = (
    filled ∷ bs,
    one_round ∙ run ∙ landed,
    rw flat (
        sym (overwrite-append npos chunk left_over b (c ++ flatten rest) chunk_fits)
        ∙ ap (λ t. overwrite npos t (b ++ (c ++ flatten rest)))
            (take-append-drop (base - npos) (x ∷ buf))),
    (length-overwrite npos chunk b ∙ sized.0, all),
    ap suc count,
  )
    where
      chunk_fits : npos + length chunk ≡ length b
      chunk_fits = omega (arith, length-take (base - npos) (x ∷ buf), sized.0)

      same_position : s.position + (base - npos) + length left_over ≡ s.position + length (x ∷ buf)
      same_position = omega (arith, length-left_over)

      same_count : length (front ++ filled ∷ c ∷ rest) ≡ length s.blocks
      same_count = omega (
        arith,
        ap length chain,
        length-append front (filled ∷ c ∷ rest),
        length-append front (b ∷ c ∷ rest),
      )

      landed :
          ◌≡◌ {A = Outcome ByteArray (Unit {0})}
            (done tt (record s {
              blocks = (front ++ filled ∷ []) ++ bs;
              position = s.position + (base - npos) + length left_over;
              curr =
                  node_at
                    (length (front ++ filled ∷ c ∷ rest))
                    (length (front ++ filled ∷ []) + (0 + length left_over) / base);
            }))
            (done tt (record s {
              blocks = front ++ filled ∷ bs;
              position = s.position + length (x ∷ buf);
              curr = node_at (length s.blocks) (length front + (npos + length (x ∷ buf)) / base);
            }))
      landed = λ i. done tt (record s {
        blocks = append_assoc front (filled ∷ []) bs i;
        position = same_position i;
        curr = node_at (same_count i) (next_block i);
      })

pub write_loop_lem :
    (base fuel : ℕ) (buf : List ℕ) (npos : ℕ) (s : ByteArray) (front back : List (List ℕ))
    (b : List ℕ)
    → s.blocks ≡ front ++ b ∷ back
    → s.curr ≡ some (length front)
    → All (λ c. length c ≡ base) (b ∷ back)
    → 0 < length buf
    → length buf < fuel
    → npos < base
    → npos + length buf ≤ suc (length back) * base
    → Written base fuel buf npos s front b back
unfolding moved filled chunk left_over
write_loop_lem base zero buf npos s front back b chain here sized busy enough inside fits =
    absurd (omega arith)
write_loop_lem base (suc fuel) [] npos s front back b chain here sized busy enough inside fits =
    absurd (omega arith)
write_loop_lem base (suc fuel) (x ∷ buf) npos s front [] b chain here sized busy enough inside
      fits =
    write_loop_ends base fuel x buf npos s front [] b chain here sized (omega arith)
write_loop_lem base (suc fuel) (x ∷ buf) npos s front (c ∷ rest) b chain here sized busy enough
      inside fits =
    elim (dec_lt base (npos + length (x ∷ buf))) [
      | no h ↦
          write_loop_ends base fuel x buf npos s front (c ∷ rest) b chain here sized (omega arith)
      | yes over ↦
          write_loop_goes_on base fuel x buf npos s front b c rest chain here sized inside over (
            write_loop_lem base fuel (drop (base - npos) (x ∷ buf)) 0
              (record s {
                blocks = front ++ overwrite npos (take (base - npos) (x ∷ buf)) b ∷ c ∷ rest;
                position = s.position + (base - npos);
                curr = some (suc (length front));
              })
              (front ++ overwrite npos (take (base - npos) (x ∷ buf)) b ∷ []) rest c
              (sym (append_assoc front _ (c ∷ rest)))
              (ap some (
                omega (
                  arith,
                  length-append front (overwrite npos (take (base - npos) (x ∷ buf)) b ∷ []),
                )))
              sized.1 (omega (arith, length-drop (base - npos) (x ∷ buf)))
              (omega (arith, length-drop (base - npos) (x ∷ buf))) (omega arith)
              (omega (arith, length-drop (base - npos) (x ∷ buf))))
    ]

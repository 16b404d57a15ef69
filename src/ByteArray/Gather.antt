-- ===== src/ByteArray/Gather.antt =====
-- Which bytes the buffers of a ByteArray stand for, and where there are none.
use cczoecpp.Common.{
  ℕ, zero, suc, ◌+◌, ◌-◌, ◌%◌, ◌*◌, ◌≤◌, ◌<◌, ◌≡◌, refl, ap, sym, ◌∙◌, subst, List, [], ◌∷◌, ◌++◌,
  All, length, slice, flatten, get_elem?, get_elem?-append, none, some, true, false, ltb, leb, ◌==◌,
  arith, slice-append, slice-append_left, append_assoc, append-nil, length-append, ap₂,
}
use native.Mathlib.Decide.{dec_le}
use cczoecpp.Common.Outcome.{done, fault, ◌>>=◌, pure, >>=-done, >>=-fault}
use cczoecpp.ByteArray.{ByteArray, add_capacity, get_capacity, offset, curr_size, get_readable_size}
use cczoecpp.ByteArray.IsValid.{IsValid, memory}
use cczoecpp.ByteArray.Steps.{offset_lem, sub_size_lem, curr_size_lem}
use cczoecpp.ByteArray.Cut.{Cut, cut}
use cczoecpp.ByteArray.ReadRefines.{memory_behind}
use cczoecpp.ByteArray.Buffers.{
  Iovec, read_buffers_loop, read_buffers_at, add_read_buffers, write_buffers_loop, write_buffers_at,
  at_cursor, add_write_buffers,
}

-- The bytes that the iovecs point to.
abbrev pub block_at : List (List ℕ) → ℕ → List ℕ
block_at blocks i = elim (get_elem? blocks i) [ none ↦ [] | some b ↦ b ]

abbrev pub gather : List (List ℕ) → List Iovec → List ℕ
gather blocks [] = []
gather blocks (v ∷ more) =
    slice v.iov_offset v.iov_len (block_at blocks v.node) ++ gather blocks more

block_at-append :
    (front back : List (List ℕ)) (b : List ℕ) → block_at (front ++ b ∷ back) (length front) ≡ b
block_at-append front back b = rw (get_elem?-append front back b, block_at)

-- A part that lies within its block.
abbrev pub IsWithin : List (List ℕ) → Iovec → Type 0
IsWithin blocks v = v.iov_offset + v.iov_len ≤ length (block_at blocks v.node)

-- The loop, from a block on, lists what the blocks hold behind `npos`.
abbrev Lists : ℕ → ℕ → ℕ → ℕ → List (List ℕ) → ℕ → List (List ℕ) → ByteArray → Type 0
Lists fuel npos ncap left blocks node behind s =
    (iovs : List Iovec) × (read_buffers_loop fuel node npos ncap left s ≡ done iovs s)
    × (gather blocks iovs ≡ slice npos left (flatten behind))
    × All (IsWithin blocks) iovs

module _ (s : ByteArray) (front back : List (List ℕ)) (b : List ℕ)
    (chain : s.blocks ≡ front ++ b ∷ back) where
  here : block_at s.blocks (length front) ≡ b
  here = ap (λ blocks. block_at blocks (length front)) chain ∙ block_at-append front back b

  -- What is left stands in this block.
  loop_ends :
      (fuel npos left : ℕ)
      → npos + suc left ≤ length b
      → Lists (suc fuel) npos (length b - npos) (suc left) s.blocks (length front) (b ∷ back) s
  unfolding read_buffers_loop flatten
  loop_ends fuel npos left h =
      let e : leb (suc left) (length b - npos) ≡ true = ground (arith, h) in
      (
        record { node = length front; iov_offset = npos; iov_len = suc left } ∷ [],
        rw (e, read_buffers_loop),
        append-nil (slice npos (suc left) (block_at s.blocks (length front)))
            ∙ ap (slice npos (suc left)) here
            ∙ sym (slice-append_left npos (suc left) b (flatten back) h),
        (omega (arith, h, ap length here), tt),
      )

module _ (s : ByteArray) (front rest : List (List ℕ)) (b c : List ℕ)
    (chain : s.blocks ≡ front ++ b ∷ c ∷ rest) where
  next_block : get_elem? s.blocks (suc (length front)) ≡ some c
  next_block =
      ap (get_elem? s.blocks) {y = length (front ++ b ∷ [])}
        (omega (arith, length-append front (b ∷ [])))
      ∙ ap (λ blocks. get_elem? blocks (length (front ++ b ∷ [])))
          (chain ∙ sym (append_assoc front (b ∷ []) (c ∷ rest)))
      ∙ get_elem?-append (front ++ b ∷ []) rest c

  -- The rest of this block, and what the next ones give.
  loop_goes_on :
      (fuel npos left more : ℕ)
      → npos ≤ length b
      → suc left ≡ length b - npos + suc more
      → Lists fuel 0 (length c) (suc more) s.blocks (suc (length front)) (c ∷ rest) s
      → Lists (suc fuel) npos (length b - npos) (suc left) s.blocks (length front) (b ∷ c ∷ rest) s
  unfolding read_buffers_loop flatten
  loop_goes_on fuel npos left more inside split (iovs, run, bytes, within) =
      let e : leb (suc left) (length b - npos) ≡ false = ground (arith, split) in
      let f : suc left - (length b - npos) ≡ suc more = omega (arith, split) in
      (
        record { node = length front; iov_offset = npos; iov_len = length b - npos } ∷ iovs,
        rw (e, next_block, f, run, read_buffers_loop, ◌>>=◌, pure),
        ap₂ (λ xs ys. xs ++ ys)
              (ap (slice npos (length b - npos)) (here s front (c ∷ rest) b chain)) bytes
            ∙ sym (
                slice-append npos (length b - npos) (suc more) b (flatten (c ∷ rest))
                  (omega (arith, inside)))
            ∙ ap (λ n. slice npos n (flatten (b ∷ c ∷ rest))) (sym split),
        (omega (arith, inside, ap length (here s front (c ∷ rest) b chain)), within),
      )

loop-Lists :
    (fuel npos left : ℕ) (s : ByteArray) (front back : List (List ℕ)) (b : List ℕ)
    → s.blocks ≡ front ++ b ∷ back
    → All (λ c. length c ≡ s.base_size) (b ∷ back)
    → npos < s.base_size
    → left < fuel
    → 0 < left
    → npos + left ≤ suc (length back) * s.base_size
    → Lists fuel npos (length b - npos) left s.blocks (length front) (b ∷ back) s
loop-Lists zero npos left s front back b chain sized inside enough busy fits = absurd (omega arith)
loop-Lists (suc fuel) npos zero s front back b chain sized inside enough busy fits =
    absurd (omega arith)
loop-Lists (suc fuel) npos (suc left) s front [] b chain sized inside enough busy fits =
    loop_ends s front [] b chain fuel npos left (omega (arith, fits, sized.0))
loop-Lists (suc fuel) npos (suc left) s front (c ∷ rest) b chain sized inside enough busy fits =
    elim (dec_le (npos + suc left) (length b)) [
      | yes h ↦ loop_ends s front (c ∷ rest) b chain fuel npos left h
      | no over ↦
          loop_goes_on s front rest b c chain fuel npos left (npos + left - length b)
            (omega (arith, sized.0, inside)) (omega (arith, sized.0, inside, over))
            (subst
              (λ (p : ℕ × ℕ).
                Lists fuel 0 p.0 (suc (npos + left - length b)) s.blocks p.1 (c ∷ rest) s)
              (ap₂ (λ (n : ℕ) (m : ℕ). (n, m)) {x = length c - 0} (omega arith)
                (omega (arith, length-append front (b ∷ []))))
              (loop-Lists fuel 0 (suc (npos + left - length b)) s (front ++ b ∷ []) rest c
                (chain ∙ sym (append_assoc front (b ∷ []) (c ∷ rest))) sized.1
                (omega (arith, inside)) (omega (arith, sized.0, inside, enough, over)) (omega arith)
                (omega (arith, sized.0, fits, over))))
    ]

-- The tests pass, and the loop starts at the cursor.
module _ (s : ByteArray) (v : IsValid s) (c : Cut s) (len : ℕ) (busy : 0 < len)
    (fits : s.position + len ≤ s.size) where
  starts : add_read_buffers len s ≡ read_buffers_at (length c.front) len s
  unfolding add_read_buffers
  starts =
      let whole : ltb (get_readable_size s) len ≡ false = ground (arith, fits) in
      let some_byte : (len == 0) ≡ false = ground (arith, busy) in
      simp (whole, some_byte, c.here, add_read_buffers)

  runs :
      (iovs : List Iovec)
      → read_buffers_loop
          (suc len)
          (length c.front)
          (s.position % s.base_size)
          (length c.node - s.position % s.base_size)
          len
          s
        ≡ done iovs s
      → read_buffers_at (length c.front) len s ≡ done (len, iovs) s
  runs iovs run =
      >>=-done offset _ (offset_lem s v.base_pos)
      ∙ >>=-done curr_size _ (curr_size_lem s c.front c.back c.node c.chain c.here)
      ∙ rw
          (sub_size_lem (length c.node) (s.position % s.base_size)
            (omega (arith, c.sized.0, c.inside)))
          (>>=-done
            (read_buffers_loop (suc len) (length c.front) (s.position % s.base_size)
              (length c.node - s.position % s.base_size) len)
            _ run)

-- In a valid state, `addReadBuffers` of some bytes, no more than there are, lists parts of blocks, each
-- within its block, that hold, one after another, the bytes at the position, and changes nothing.
pub add_read_buffers_lem :
    (len : ℕ) (s : ByteArray)
    → IsValid s
    → 0 < len
    → s.position + len ≤ s.size
    → (iovs : List Iovec) × (add_read_buffers len s ≡ done (len, iovs) s)
      × (gather s.blocks iovs ≡ slice s.position len (memory s))
      × All (IsWithin s.blocks) iovs
add_read_buffers_lem len s v busy fits =
    let c = cut s v room in
    let (iovs, run, bytes, within) =
      loop-Lists (suc len) (s.position % s.base_size) len s c.front c.back c.node c.chain c.sized
        c.inside (omega arith) busy (omega (arith, c.room, v.size_fits, fits)) in
    (
      iovs,
      starts s v c len busy fits ∙ runs s v c len busy fits iovs run,
      bytes ∙ memory_behind s v room c len,
      within,
    )
  where
    room : s.position < s.capacity
    room = omega (arith, busy, fits, v.size_fits)

write_loop-faults :
    (fuel npos left : ℕ) (s : ByteArray) (front back : List (List ℕ)) (b : List ℕ)
    → s.blocks ≡ front ++ b ∷ back
    → All (λ c. length c ≡ s.base_size) (b ∷ back)
    → npos < s.base_size
    → left < fuel
    → 0 < left
    → npos + left ≡ suc (length back) * s.base_size
    → write_buffers_loop fuel (length front) npos (length b - npos) left s ≡ fault
unfolding write_buffers_loop
write_loop-faults zero npos left s front back b chain sized inside enough busy fits =
    absurd (omega arith)
write_loop-faults (suc fuel) npos zero s front back b chain sized inside enough busy fits =
    absurd (omega arith)
write_loop-faults (suc fuel) npos (suc left) s front [] b chain sized inside enough busy fits =
    let e : ltb (suc left) (length b - npos) ≡ false = ground (arith, fits, sized.0) in
    let last : get_elem? s.blocks (suc (length front)) ≡ none =
      ap (λ blocks. get_elem? blocks (suc (length front))) chain ∙ behind front in
    rw (e, last, write_buffers_loop)
  where
    behind : (xs : List (List ℕ)) → get_elem? (xs ++ b ∷ []) (suc (length xs)) ≡ none
    behind [] = refl
    behind (x ∷ xs) = behind xs
write_loop-faults (suc fuel) npos (suc left) s front (c ∷ rest) b chain sized inside enough busy
      fits =
    let e : ltb (suc left) (length b - npos) ≡ false = ground (arith, fits, sized.0) in
    rw (e, next_block s front rest b c chain, write_buffers_loop)
      (>>=-fault
        (write_buffers_loop fuel (suc (length front)) 0 (length c) (suc left - (length b - npos))) _
        (subst
          (λ (p : ℕ × ℕ).
            write_buffers_loop fuel p.1 0 p.0 (suc left - (length b - npos)) raised_size ≡ fault)
          (ap₂ (λ (n : ℕ) (m : ℕ). (n, m)) {x = length c - 0} (omega arith)
            (omega (arith, length-append front (b ∷ []))))
          (write_loop-faults fuel 0 (suc left - (length b - npos)) raised_size (front ++ b ∷ [])
            rest c (chain ∙ sym (append_assoc front (b ∷ []) (c ∷ rest))) sized.1
            (omega (arith, inside)) (omega (arith, sized.0, inside, enough))
            (omega (arith, sized.0, inside, fits)) (omega (arith, sized.0, inside, fits)))))
  where
    raised_size : ByteArray
    raised_size = record s { size = s.size + (length b - npos) }

-- Where the bytes would fill the chain to its end, `addWriteBuffers` reads the size of the block behind
-- the last one, through a null pointer.
pub add_write_buffers_faults :
    (len : ℕ) (s : ByteArray)
    → IsValid s
    → 0 < len
    → s.position + len ≡ s.capacity
    → add_write_buffers len s ≡ fault
unfolding add_write_buffers add_capacity
add_write_buffers_faults len s v busy fits =
    let c = cut s v room in
    let some_byte : (len == 0) ≡ false = ground (arith, busy) in
    let enough : leb len (get_capacity s) ≡ true = ground (arith, fits) in
    let grown : add_capacity len s ≡ done tt s = rw (some_byte, enough, add_capacity) in
    let start : at_cursor (λ node. write_buffers_at node len) s
        ≡ write_buffers_at (length c.front) len s =
      simp (c.here, at_cursor) in
    simp (some_byte, add_write_buffers)
      (>>=-done (add_capacity len) (λ u. at_cursor (λ node. write_buffers_at node len)) grown
        ∙ start
        ∙ >>=-done offset _ (offset_lem s v.base_pos)
        ∙ >>=-done curr_size _ (curr_size_lem s c.front c.back c.node c.chain c.here)
        ∙ rw
            (sub_size_lem (length c.node) (s.position % s.base_size)
              (omega (arith, c.sized.0, c.inside)))
            (>>=-fault
              (write_buffers_loop (suc len) (length c.front) (s.position % s.base_size)
                (length c.node - s.position % s.base_size) len)
              _
              (write_loop-faults (suc len) (s.position % s.base_size) len s c.front c.back c.node
                c.chain c.sized c.inside (omega arith) busy (omega (arith, c.room, fits)))))
  where
    room : s.position < s.capacity
    room = omega (arith, busy, fits)

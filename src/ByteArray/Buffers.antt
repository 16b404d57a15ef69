-- ===== src/ByteArray/Buffers.antt =====
-- cczoecpp/Net/ByteArray/bytearray.cpp: `addReadBuffers` and `addWriteBuffers`, which list the parts of the
-- blocks that hold the next bytes, for a call that reads or writes several buffers.
--
-- An iovec has the index of its node for the pointer to its block. Fuel is one more than the length:
-- every round but the last passes a block, which is not empty.
use cczoecpp.Common.{
  ℕ, zero, suc, ◌+◌, ◌-◌, List, [], ◌∷◌, length, get_elem?, none, some, true, false, ltb, leb, ◌==◌,
  if◌then◌else◌,
}
use cczoecpp.Common.Outcome.{done, fault, stuck, ◌>>=◌, pure}
use cczoecpp.ByteArray.{M, add_capacity, offset, curr_size, sub_size, get_readable_size}

pub record Iovec : Type 0 where
  pub node : ℕ
  pub iov_offset : ℕ
  pub iov_len : ℕ

-- The `while` loop of `addReadBuffers`; `left` is what is left of `len`.
unfoldable pub read_buffers_loop : ℕ → ℕ → ℕ → ℕ → ℕ → M (List Iovec)
read_buffers_loop zero node npos ncap left s = stuck
read_buffers_loop (suc fuel) node npos ncap zero s = done [] s
read_buffers_loop (suc fuel) node npos ncap (suc left) s = elim (leb (suc left) ncap) [
  | true ↦ done (record { node = node; iov_offset = npos; iov_len = suc left } ∷ []) s
  | false ↦ elim (get_elem? s.blocks (suc node)) [
    | none ↦ fault
    | some b ↦
        (read_buffers_loop fuel (suc node) 0 (length b) (suc left - ncap) >>= λ more.
        pure (record { node = node; iov_offset = npos; iov_len = ncap } ∷ more))
          s
  ]
]

-- The part behind the first tests, for a cursor that is not null.
abbrev pub read_buffers_at : ℕ → ℕ → M (ℕ × List Iovec)
read_buffers_at node len = do
  npos ← offset
  n ← curr_size
  iovs ← read_buffers_loop (suc len) node npos (sub_size n npos) len
  pure (len, iovs)

unfoldable pub add_read_buffers : ℕ → M (ℕ × List Iovec)
add_read_buffers wanted s =
    let len = if ltb (get_readable_size s) wanted then get_readable_size s else wanted in
    if len == 0
    then done (0, []) s
    else elim s.curr [ none ↦ fault | some node ↦ read_buffers_at node len s ]

-- The `while` loop of `addWriteBuffers`, which raises `m_size` as it goes.
unfoldable pub write_buffers_loop : ℕ → ℕ → ℕ → ℕ → ℕ → M (List Iovec)
write_buffers_loop zero node npos ncap left s = stuck
write_buffers_loop (suc fuel) node npos ncap zero s = done [] s
write_buffers_loop (suc fuel) node npos ncap (suc left) s = elim (ltb (suc left) ncap) [
  | true ↦
      done (record { node = node; iov_offset = npos; iov_len = suc left } ∷ [])
        (record s { size = s.size + suc left })
  | false ↦ elim (get_elem? s.blocks (suc node)) [
    | none ↦ fault
    | some b ↦
        (write_buffers_loop fuel (suc node) 0 (length b) (suc left - ncap) >>= λ more.
        pure (record { node = node; iov_offset = npos; iov_len = ncap } ∷ more))
          (record s { size = s.size + ncap })
  ]
]

abbrev pub write_buffers_at : ℕ → ℕ → M (ℕ × List Iovec)
write_buffers_at node len = do
  npos ← offset
  n ← curr_size
  iovs ← write_buffers_loop (suc len) node npos (sub_size n npos) len
  pure (len, iovs)

-- `m_curr`, which is dereferenced.
abbrev pub at_cursor : (ℕ → M (ℕ × List Iovec)) → M (ℕ × List Iovec)
at_cursor f s = elim s.curr [ none ↦ fault | some node ↦ f node s ]

unfoldable pub add_write_buffers : ℕ → M (ℕ × List Iovec)
add_write_buffers len s =
    if len == 0
    then done (0, []) s
    else (add_capacity len >>= λ u. at_cursor (λ node. write_buffers_at node len)) s

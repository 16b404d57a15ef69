-- ===== src/Stream/FixSize.antt =====
-- What the calls of fixed size return, over every stream that keeps to the interface.
use cczoecpp.Common.{
  ℕ, zero, suc, ◌+◌, ◌-◌, ◌≤◌, ◌<◌, ◌≡◌, refl, ap, subst, ◌∙◌, List, [], ◌∷◌, ◌++◌, length, drop,
  flatten, length-append, length-drop, arith, ◌⊎◌, inl, inr,
}
use cczoecpp.Stream.{
  Reply, got, stop, Result, count, fails, read_array_loop, read_fix_size_array, Taken, took,
  refused, write_loop, write_fix_size, write_array_loop, write_fix_size_array,
}

-- `read` gives at least one byte and at most as many as it was asked for, or it stops.
abbrev pub Keeps : ℕ → Reply → Type 0
Keeps n (got bytes) = (0 < length bytes) × (length bytes ≤ n)
Keeps n (stop code) = Unit

-- The whole size, or the code of the read that stopped with fewer bytes.
abbrev pub Complete : ℕ → ℕ → Result → List ℕ → Type 0
Complete whole left result bytes =
    ((result ≡ count whole) × (length bytes ≡ left))
    ⊎ ((n : ℕ) × (result ≡ fails n) × (length bytes < left))

module _ {S : Type 0} (read : ℕ → S → Reply × S)
    (keeps : (n : ℕ) (s : S) → Keeps n (read n s).0) where
  -- The reads that come one after another: each of them is asked for what is left, and gives a chunk.
  abbrev pub Gives : List (List ℕ) → ℕ → S → ℕ → S → Type 0
  Gives [] left s k t = (left ≡ k) × (s ≡ t)
  Gives (chunk ∷ chunks) left s k t =
      ((read left s).0 ≡ got chunk) × Gives chunks (left - length chunk) (read left s).1 k t

  -- How a read of fixed size ends, `k` bytes before the whole, with the state t in front of the last read:
  -- with the whole size, or with what the read returned that stopped.
  abbrev pub Ends : ℕ → ℕ → S → Result → S → Type 0
  Ends whole k t result last =
      ((k ≡ 0) × (result ≡ count whole) × (last ≡ t))
      ⊎ ((n : ℕ) × (0 < k) × ((read k t).0 ≡ stop n) × (result ≡ fails n) × (last ≡ (read k t).1))

  abbrev Reads : ℕ → ℕ → S → Result × List ℕ × S → Type 0
  Reads whole left s out =
      (chunks : List (List ℕ)) × (k : ℕ) × (t : S) × Gives chunks left s k t
      × (out.1 ≡ flatten chunks)
      × (length out.1 + k ≡ left)
      × Ends whole k t out.0 out.2

  array_loop_lem :
      (fuel left : ℕ) (s : S)
      → left < fuel
      → Complete 0 left (read_array_loop read fuel left s).0 (read_array_loop read fuel left s).1
  unfolding read_array_loop
  array_loop_lem zero left s h = absurd (omega arith)
  array_loop_lem (suc fuel) zero s h = inl (refl, refl)
  array_loop_lem (suc fuel) (suc left) s h =
      go (read (suc left) s).0 (keeps (suc left) s) refl λ bytes some_byte.
        array_loop_lem fuel (suc left - length bytes) (read (suc left) s).1
          (omega (arith, some_byte, h))
    where
      more :
          (bytes rest : List ℕ) (result : Result)
          → length bytes ≤ suc left
          → Complete 0 (suc left - length bytes) result rest
          → Complete 0 (suc left) result (bytes ++ rest)
      more bytes rest result k (inl (e, m)) = inl (e, omega (arith, length-append bytes rest, k, m))
      more bytes rest result k (inr (n, e, m)) =
          inr (n, e, omega (arith, length-append bytes rest, k, m))

      go :
          (reply : Reply)
          → Keeps (suc left) reply
          → (read (suc left) s).0 ≡ reply
          → ((bytes : List ℕ)
              → 0 < length bytes
              → Complete 0
                  (suc left - length bytes)
                  (read_array_loop read fuel (suc left - length bytes) (read (suc left) s).1).0
                  (read_array_loop read fuel (suc left - length bytes) (read (suc left) s).1).1)
          → Complete 0
              (suc left)
              (read_array_loop read (suc fuel) (suc left) s).0
              (read_array_loop read (suc fuel) (suc left) s).1
      go (stop n) k e rest = rw (e, read_array_loop) (inr (n, refl, omega arith))
      go (got bytes) k e rest = rw (e, read_array_loop) (more bytes _ _ k.1 (rest bytes k.0))

  -- Over such a stream, `readFixSize` into a ByteArray returns 0 when it has read all bytes, or what
  -- the read returned that stopped, with fewer bytes.
  pub read_fix_size_array_lem :
      (size : ℕ) (s : S)
      → Complete 0 size (read_fix_size_array read size s).0 (read_fix_size_array read size s).1
  unfolding read_fix_size_array
  read_fix_size_array_lem size s = array_loop_lem (suc size) size s (omega arith)

-- `write` takes at least one byte and at most all that it is given, or it refuses.
abbrev pub KeepsTaken : List ℕ → Taken → Type 0
KeepsTaken bytes (took n) = (0 < n) × (n ≤ length bytes)
KeepsTaken bytes (refused code) = Unit

module _ {S : Type 0} (write : List ℕ → S → Taken × S)
    (keeps : (bytes : List ℕ) (s : S) → KeepsTaken bytes (write bytes s).0) where
  write_loop_lem :
      (fuel offset : ℕ) (buffer : List ℕ) (s : S)
      → length buffer < fuel
      → ((write_loop write fuel offset buffer s).0 ≡ count (offset + length buffer))
        ⊎ ((n : ℕ) × ((write_loop write fuel offset buffer s).0 ≡ fails n))
  unfolding write_loop
  write_loop_lem zero offset buffer s h = absurd (omega arith)
  write_loop_lem (suc fuel) offset [] s h = inl (ap count (omega arith))
  write_loop_lem (suc fuel) offset (x ∷ buffer) s h =
      go (write (x ∷ buffer) s).0 (keeps (x ∷ buffer) s) refl λ n some_byte.
        write_loop_lem fuel (offset + n) (drop n (x ∷ buffer)) (write (x ∷ buffer) s).1
          (omega (arith, length-drop n (x ∷ buffer), some_byte, h))
    where
      go :
          (reply : Taken)
          → KeepsTaken (x ∷ buffer) reply
          → (write (x ∷ buffer) s).0 ≡ reply
          → ((n : ℕ)
              → 0 < n
              → ((write_loop write fuel
                    (offset + n)
                    (drop n (x ∷ buffer))
                    (write (x ∷ buffer) s).1).0
                  ≡ count (offset + n + length (drop n (x ∷ buffer))))
                ⊎ ((m : ℕ) × ((write_loop write fuel
                        (offset + n)
                        (drop n (x ∷ buffer))
                        (write (x ∷ buffer) s).1).0
                      ≡ fails m)))
          → ((write_loop write (suc fuel) offset (x ∷ buffer) s).0
              ≡ count (offset + length (x ∷ buffer)))
            ⊎ ((m : ℕ) × ((write_loop write (suc fuel) offset (x ∷ buffer) s).0 ≡ fails m))
      go (refused n) k e rest = rw (e, write_loop) (inr (n, refl))
      go (took n) k e rest =
          rw (e, write_loop)
            (elim (rest n k.0) [
              | inl all ↦ inl (all ∙ ap count (omega (arith, length-drop n (x ∷ buffer), k)))
              | inr (m, failed) ↦ inr (m, failed)
            ])

  -- Over a stream that takes at least one byte of what it is given, or refuses, `writeFixSize` returns
  -- the length of the buffer, or what the write returned that refused.
  pub write_fix_size_lem :
      (buffer : List ℕ) (s : S)
      → ((write_fix_size write buffer s).0 ≡ count (length buffer))
        ⊎ ((n : ℕ) × ((write_fix_size write buffer s).0 ≡ fails n))
  unfolding write_fix_size
  write_fix_size_lem buffer s =
      subst
        (λ n.
          ((write_loop write (suc (length buffer)) 0 buffer s).0 ≡ count n)
          ⊎ ((m : ℕ) × ((write_loop write (suc (length buffer)) 0 buffer s).0 ≡ fails m)))
        (omega arith) (write_loop_lem (suc (length buffer)) 0 buffer s (omega arith))

-- The same of a `write` that is told how many bytes to take.
abbrev pub KeepsCount : ℕ → Taken → Type 0
KeepsCount left (took n) = (0 < n) × (n ≤ left)
KeepsCount left (refused code) = Unit

module _ {S : Type 0} (write : ℕ → S → Taken × S)
    (keeps : (left : ℕ) (s : S) → KeepsCount left (write left s).0) where
  write_array_loop_lem :
      (fuel left : ℕ) (s : S)
      → left < fuel
      → ((write_array_loop write fuel left s).0 ≡ count 0)
        ⊎ ((n : ℕ) × ((write_array_loop write fuel left s).0 ≡ fails n))
  unfolding write_array_loop
  write_array_loop_lem zero left s h = absurd (omega arith)
  write_array_loop_lem (suc fuel) zero s h = inl refl
  write_array_loop_lem (suc fuel) (suc left) s h =
      go (write (suc left) s).0 (keeps (suc left) s) refl λ n some_byte.
        write_array_loop_lem fuel (suc left - n) (write (suc left) s).1
          (omega (arith, some_byte, h))
    where
      go :
          (reply : Taken)
          → KeepsCount (suc left) reply
          → (write (suc left) s).0 ≡ reply
          → ((n : ℕ)
              → 0 < n
              → ((write_array_loop write fuel (suc left - n) (write (suc left) s).1).0 ≡ count 0)
                ⊎ ((m : ℕ) × ((write_array_loop write fuel (suc left - n) (write (suc left) s).1).0
                      ≡ fails m)))
          → ((write_array_loop write (suc fuel) (suc left) s).0 ≡ count 0)
            ⊎ ((m : ℕ) × ((write_array_loop write (suc fuel) (suc left) s).0 ≡ fails m))
      go (refused n) k e rest = rw (e, write_array_loop) (inr (n, refl))
      go (took n) k e rest = rw (e, write_array_loop) (rest n k.0)

  -- Over such a stream, `writeFixSize` of a ByteArray returns, and what it returns is 0 or what the
  -- write returned that refused.
  pub write_fix_size_array_lem :
      (size : ℕ) (s : S)
      → ((write_fix_size_array write size s).0 ≡ count 0)
        ⊎ ((n : ℕ) × ((write_fix_size_array write size s).0 ≡ fails n))
  unfolding write_fix_size_array
  write_fix_size_array_lem size s = write_array_loop_lem (suc size) size s (omega arith)

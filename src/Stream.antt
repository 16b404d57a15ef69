-- ===== src/Stream.antt =====
-- cczoecpp/Net/Socket/stream.{h,cpp}: reads and writes of a fixed size over a stream that may
-- move fewer bytes at a time.
--
-- The virtual `read` and `write` are parameters. A result of `n` bytes that is positive comes with
-- these bytes; a result that is not is `stop n`, for -n. Sizes are below 2 ^ 31, so `int` holds them. Fuel is one more than the length: every
-- round but the last moves a byte.
pub mod FixSize
mod Runs
use cczoecpp.Common.{
  ℕ, zero, suc, ◌+◌, ◌-◌, List, [], ◌∷◌, ◌++◌, length, drop, Option, none, some, ◌==◌,
  if◌then◌else◌, true, false,
}

-- What `read` returns, with the bytes that it puts into the buffer.
pub data Reply : Type 0 where
  got : List ℕ → Reply
  stop : ℕ → Reply

-- What a call of fixed size returns: `count n` is the number n, `fails n` is -n, `stuck` is no
-- result of the program.
pub data Result : Type 0 where
  count : ℕ → Result
  fails : ℕ → Result
  stuck : Result

module _ {S : Type 0} (read : ℕ → S → Reply × S) where
  -- The `while` loop of `readFixSize(buffer, length)`: `offset` bytes are read, `left` are not.
  unfoldable pub read_loop : ℕ → ℕ → ℕ → S → Result × List ℕ × S
  read_loop zero offset left s = (stuck, [], s)
  read_loop (suc fuel) offset zero s = (count offset, [], s)
  read_loop (suc fuel) offset (suc left) s =
      let (reply, t) = read (suc left) s in
      elim reply [
        | stop n ↦ (fails n, [], t)
        | got bytes ↦
            let (result, rest, u) =
              read_loop fuel (offset + length bytes) (suc left - length bytes) t in
            (result, bytes ++ rest, u)
      ]

  unfoldable pub read_fix_size : ℕ → S → Result × List ℕ × S
  read_fix_size size s = read_loop (suc size) 0 size s

  -- The same into a ByteArray: `length` itself counts down, and is returned.
  unfoldable pub read_array_loop : ℕ → ℕ → S → Result × List ℕ × S
  read_array_loop zero left s = (stuck, [], s)
  read_array_loop (suc fuel) zero s = (count 0, [], s)
  read_array_loop (suc fuel) (suc left) s =
      let (reply, t) = read (suc left) s in
      elim reply [
        | stop n ↦ (fails n, [], t)
        | got bytes ↦
            let (result, rest, u) = read_array_loop fuel (suc left - length bytes) t in
            (result, bytes ++ rest, u)
      ]

  unfoldable pub read_fix_size_array : ℕ → S → Result × List ℕ × S
  read_fix_size_array size s = read_array_loop (suc size) size s

-- What `write` returns: the number of bytes that it took, or -n.
pub data Taken : Type 0 where
  took : ℕ → Taken
  refused : ℕ → Taken

module _ {S : Type 0} (write : List ℕ → S → Taken × S) where
  -- The `while` loop of `writeFixSize(buffer, length)`; `buffer` is what is left of it.
  unfoldable pub write_loop : ℕ → ℕ → List ℕ → S → Result × S
  write_loop zero offset buffer s = (stuck, s)
  write_loop (suc fuel) offset [] s = (count offset, s)
  write_loop (suc fuel) offset (x ∷ buffer) s =
      let (reply, t) = write (x ∷ buffer) s in
      elim reply [
        | refused n ↦ (fails n, t)
        | took n ↦ write_loop fuel (offset + n) (drop n (x ∷ buffer)) t
      ]

  unfoldable pub write_fix_size : List ℕ → S → Result × S
  write_fix_size buffer s = write_loop (suc (length buffer)) 0 buffer s

module _ {S : Type 0} (write : ℕ → S → Taken × S) where
  -- `writeFixSize` of a ByteArray, which is part of the state: `length` counts down, and is returned.
  unfoldable pub write_array_loop : ℕ → ℕ → S → Result × S
  write_array_loop zero left s = (stuck, s)
  write_array_loop (suc fuel) zero s = (count 0, s)
  write_array_loop (suc fuel) (suc left) s =
      let (reply, t) = write (suc left) s in
      elim reply [ refused n ↦ (fails n, t) | took n ↦ write_array_loop fuel (suc left - n) t ]

  unfoldable pub write_fix_size_array : ℕ → S → Result × S
  write_fix_size_array size s = write_array_loop (suc size) size s

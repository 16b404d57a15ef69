-- ===== src/ByteArray/Varint.antt =====
-- The variable-length integers of cczoecpp/Net/ByteArray/bytearray.cpp and their zigzag coding.
-- A signed integer is its bit pattern.
use cczoecpp.Common.{
  ℕ, zero, suc, ◌+◌, ◌-◌, ◌*◌, ◌/◌, ◌%◌, ◌^◌, bit_and, bit_or, bit_xor, List, [], ◌∷◌, Option, none,
  some, leb, ltb, ◌==◌, if◌then◌else◌, true, false,
}
use cczoecpp.Common.Outcome.{fault, ◌>>=◌, pure}
use cczoecpp.ByteArray.{M, write}
use cczoecpp.ByteArray.Fixed.{read_fuint8}

-- The bytes that the `while` loop puts into `tmp`, which has `room` places left; `none` is a write
-- behind its end. A byte of `tmp` is a `uint8_t`.
unfoldable pub groups : ℕ → ℕ → Option (List ℕ)
groups zero value = none
groups (suc room) value = elim (leb 0x80 value) [
  | false ↦ some (value % 256 ∷ [])
  | true ↦ elim (groups room (value / 2 ^ 7)) [
    | none ↦ none
    | some more ↦ some (bit_or (bit_and value 0x7f) 0x80 % 256 ∷ more)
  ]
]

unfoldable pub write_groups : Option (List ℕ) → M (Unit {0})
write_groups none s = fault
write_groups (some tmp) s = write tmp s

unfoldable pub write_uint32 : ℕ → M (Unit {0})
write_uint32 value = write_groups (groups 5 value)

unfoldable pub write_uint64 : ℕ → M (Unit {0})
write_uint64 value = write_groups (groups 10 value)

-- The `for` loop of `readUint32` and `readUint64`, which have the same bound: `i` goes up by 7
-- while it is below 32, so five `rounds` from 0 on. `w` is the width of `result`.
unfoldable pub read_groups : ℕ → ℕ → ℕ → ℕ → M ℕ
read_groups zero w i result = pure result
read_groups (suc rounds) w i result = do
  b ← read_fuint8
  elim (ltb b 0x80) [
    | true ↦ pure (bit_or result (b * 2 ^ i % 2 ^ w))
    | false ↦ read_groups rounds w (i + 7) (bit_or result (bit_and b 0x7f * 2 ^ i % 2 ^ w))
  ]

unfoldable pub read_uint32 : M ℕ
read_uint32 = read_groups 5 32 0 0

unfoldable pub read_uint64 : M ℕ
read_uint64 = read_groups 5 64 0 0

-- `none` is an overflow of the signed type: `-v` of the least integer, and `v * 2` of an integer
-- that is too large. The product and the difference on the other branch are unsigned.
unfoldable pub encode_zigzag : ℕ → ℕ → Option ℕ
encode_zigzag w v =
    if leb (2 ^ (w - 1)) v
    then (if v == 2 ^ (w - 1) then none else some ((((2 ^ w - v) * 2) % 2 ^ w + 2 ^ w - 1) % 2 ^ w))
    else if leb (2 ^ (w - 2)) v
    then none
    else some (v * 2)

-- `-(v & 1)` is zero or all ones.
unfoldable pub decode_zigzag : ℕ → ℕ → ℕ
decode_zigzag w v = bit_xor (v / 2) ((2 ^ w - bit_and v 1) % 2 ^ w)

unfoldable pub write_encoded : (ℕ → M (Unit {0})) → Option ℕ → M (Unit {0})
write_encoded put none s = fault
write_encoded put (some v) s = put v s

unfoldable pub write_int32 : ℕ → M (Unit {0})
write_int32 value = write_encoded write_uint32 (encode_zigzag 32 value)

unfoldable pub write_int64 : ℕ → M (Unit {0})
write_int64 value = write_encoded write_uint64 (encode_zigzag 64 value)

unfoldable pub read_int32 : M ℕ
read_int32 = do v ← read_uint32; pure (decode_zigzag 32 v)

unfoldable pub read_int64 : M ℕ
read_int64 = do v ← read_uint64; pure (decode_zigzag 64 v)

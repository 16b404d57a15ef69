-- ===== src/ByteArray/Signed.antt =====
-- The signed variable-length integers in the array: the zigzag coding, then groups of seven bits.
use cczoecpp.Common.{ℕ, ◌+◌, ◌^◌, ◌≤◌, ◌<◌, ◌≡◌, subst, [], some, arith, append-nil}
use cczoecpp.Common.Outcome.{done, pure, ◌>>◌}
use cczoecpp.ByteArray.{Endian, ByteArray, set_position}
use cczoecpp.ByteArray.IsValid.{IsValid}
use cczoecpp.ByteArray.Varint.{encode_zigzag, decode_zigzag, write_encoded, write_int32, read_int32}
use cczoecpp.ByteArray.Zigzag.{IsEncodable, decode-encode}
use cczoecpp.ByteArray.Groups.{base128, length-base128, write_uint32-Emits, read_uint32-Parses}
use cczoecpp.ByteArray.Stream.{Emits, Parses, >>=-Parses, pure-Parses, round_trip}

write_int32-Emits :
    (e : Endian) (v u : ℕ)
    → encode_zigzag 32 v ≡ some u
    → u < 2 ^ 32
    → Emits e (write_int32 v) (base128 4 u)
unfolding write_int32 write_encoded
write_int32-Emits e v u coded h = rw coded (write_uint32-Emits e u h)

read_int32-Parses :
    (e : Endian) (v u : ℕ)
    → u < 2 ^ 32
    → decode_zigzag 32 u ≡ v
    → Parses e read_int32 (base128 4 u) v
unfolding read_int32
read_int32-Parses e v u h back =
    subst (λ bs. Parses e read_int32 bs v) (append-nil (base128 4 u))
      (>>=-Parses e (λ n. pure (decode_zigzag 32 n)) (base128 4 u) [] (read_uint32-Parses e u h)
        (subst (Parses e (pure (decode_zigzag 32 u)) []) back (pure-Parses e (decode_zigzag 32 u))))

-- In a valid state with more than five bytes of the first block behind the position, an int32 from
-- -2 ^ 31 + 1 to 2 ^ 30 - 1, as a pattern, that is written comes back when it is read from there, in at
-- most five bytes.
pub int32_round_trip :
    (v : ℕ) (s : ByteArray)
    → IsEncodable 32 v
    → IsValid s
    → s.position + 5 < s.base_size
    → (u : ByteArray) × ((write_int32 v >> (set_position s.position >> read_int32)) s ≡ done v u)
      × IsValid u
      × (s.position < u.position)
      × (u.position ≤ s.position + 5)
int32_round_trip v s small valid room =
    let (n, coded, h, back) = decode-encode 32 v (omega arith) small in
    let size = length-base128 4 n in
    let (u, ran, valid', at_end) =
      round_trip (base128 4 n) s (write_int32-Emits s.endian v n coded h)
        (read_int32-Parses s.endian v n h back) valid (omega (arith, size)) in
    (u, ran, valid', omega (arith, size, at_end), omega (arith, size, at_end))

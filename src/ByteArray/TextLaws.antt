-- ===== src/ByteArray/TextLaws.antt =====
-- What the strings in the array read back as.
use native.Mathlib.Nat.{mod-lt, mod-le, one-le-pow}
use cczoecpp.Common.{
  ℕ, ◌+◌, ◌%◌, ◌^◌, ◌<◌, ◌≡◌, sym, ap, ◌∙◌, subst, List, ◌++◌, length, take, drop, arith,
  if◌then◌else◌, take-append-drop, length-take, length-append, append_assoc,
}
use cczoecpp.Common.Outcome.{done, ◌>>=◌, ◌>>◌}
use cczoecpp.ByteArray.{Endian, ByteArray, M, read, set_position}
use cczoecpp.ByteArray.IsValid.{IsValid}
use cczoecpp.ByteArray.Fixed.{
  IntType, uint16, uint32, uint64, width, read_int, write_fuint16, write_fuint32, write_fuint64,
  read_fuint16, read_fuint32, read_fuint64,
}
use cczoecpp.ByteArray.Wire.{wire, write_int-Emits, read_int-Parses, length-represent, is_unsigned}
use cczoecpp.ByteArray.Text.{
  write_string_f16, write_string_f32, write_string_f64, write_string_vint, read_string_f16,
  read_string_f32, read_string_f64, read_string_vint,
}
use cczoecpp.ByteArray.Stream.{
  Emits, Parses, write-Emits, read-Parses, >>-Emits, >>=-Parses, round_trip_prefix,
}

pub data Format : Type 0 where
  f16 f32 f64 vint : Format

abbrev pub length_type : Format → IntType
length_type f16 = uint16
length_type f32 = uint32
length_type f64 = uint64
length_type vint = uint64

abbrev pub write_string : Endian → Format → List ℕ → M (Unit {0})
write_string host f16 = write_string_f16 host
write_string host f32 = write_string_f32 host
write_string host f64 = write_string_f64 host
write_string host vint = write_string_vint host

abbrev pub read_string : Endian → Format → M (List ℕ)
read_string host f16 = read_string_f16 host
read_string host f32 = read_string_f32 host
read_string host f64 = read_string_f64 host
read_string host vint = read_string_vint host

-- The length field of a string, and how many of its bytes that counts.
abbrev counted : Format → List ℕ → ℕ
counted f value = length value % 256 ^ width (length_type f)

write_string-Emits :
    (host e : Endian) (f : Format) (value : List ℕ)
    → Emits e (write_string host f value) (wire host e (length_type f) (counted f value) ++ value)
unfolding write_string_f16 write_string_f32 write_string_f64 write_string_vint write_fuint16
    write_fuint32 write_fuint64
write_string-Emits host e f16 value =
    >>-Emits e _ value (write_int-Emits host e uint16 _) (write-Emits e value)
write_string-Emits host e f32 value =
    >>-Emits e _ value (write_int-Emits host e uint32 _) (write-Emits e value)
write_string-Emits host e f64 value =
    >>-Emits e _ value (write_int-Emits host e uint64 _) (write-Emits e value)
write_string-Emits host e vint value =
    >>-Emits e _ value (write_int-Emits host e uint64 _) (write-Emits e value)

counted_read :
    (host e : Endian) (t : IntType) (bytes : List ℕ)
    → length bytes < 256 ^ width t
    → Parses e (read_int host t >>= read) (wire host e t (length bytes) ++ bytes) bytes
counted_read host e t bytes h =
    >>=-Parses e read (wire host e t (length bytes)) bytes
      (read_int-Parses host e t (length bytes) h) (read-Parses e bytes)

read_string-Parses :
    (host e : Endian) (f : Format) (bytes : List ℕ)
    → length bytes < 256 ^ width (length_type f)
    → Parses e (read_string host f) (wire host e (length_type f) (length bytes) ++ bytes) bytes
unfolding read_string_f16 read_string_f32 read_string_f64 read_string_vint read_fuint16 read_fuint32
    read_fuint64
read_string-Parses host e f16 bytes h = counted_read host e uint16 bytes h
read_string-Parses host e f32 bytes h = counted_read host e uint32 bytes h
read_string-Parses host e f64 bytes h = counted_read host e uint64 bytes h
read_string-Parses host e vint bytes h = counted_read host e uint64 bytes h

length-counted :
    (f : Format) (value : List ℕ) → length (take (counted f value) value) ≡ counted f value
length-counted f value = omega (
  arith,
  length-take (counted f value) value,
  mod-le (length value) (256 ^ width (length_type f)),
)

-- In a valid state with more bytes of the first block behind the position than the length field and the
-- string have, a string that is written reads back from there as the part of it that its length field
-- counts: all of it, if the length fits the field.
pub text_round_trip :
    (host : Endian) (f : Format) (value : List ℕ) (s : ByteArray)
    → IsValid s
    → s.position + (width (length_type f) + length value) < s.base_size
    → (u : ByteArray) × ((write_string host f value
            >> (set_position s.position >> read_string host f))
          s
        ≡ done (take (length value % 256 ^ width (length_type f)) value) u)
      × IsValid u
text_round_trip host f value s valid room =
    let (u, ran, valid', _) =
      round_trip_prefix (field ++ part) (drop (counted f value) value) s
        (subst (Emits s.endian (write_string host f value)) (sym regroup)
          (write_string-Emits host s.endian f value))
        (subst
          (λ n.
            Parses s.endian (read_string host f) (wire host s.endian (length_type f) n ++ part)
              part)
          (length-counted f value)
          (read_string-Parses host s.endian f part (
            subst (λ n. n < 256 ^ width (length_type f)) (sym (length-counted f value))
              (mod-lt (length value) (one-le-pow (width (length_type f)) 256 (omega arith))))))
        valid
        (omega (
          arith,
          ap length regroup,
          length-append field value,
          length-represent (if is_unsigned (length_type f) then s.endian else host)
              (width (length_type f)) (counted f value),
        )) in
    (u, ran, valid')
  where
    field : List ℕ
    field = wire host s.endian (length_type f) (counted f value)

    part : List ℕ
    part = take (counted f value) value

    regroup : (field ++ part) ++ drop (counted f value) value ≡ field ++ value
    regroup =
        append_assoc field part (drop (counted f value) value)
        ∙ ap (◌++◌ field) (take-append-drop (counted f value) value)

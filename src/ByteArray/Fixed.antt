-- ===== src/ByteArray/Fixed.antt =====
-- cczoecpp/Net/ByteArray/endian.h and the fixed-length integers of bytearray.cpp.
--
-- An integer of `w` bytes is its bit pattern, below 256 ^ w, a float or a double is the pattern of
-- its bits. `host` is the byte order of the machine, CCZOE_BYTE_ORDER.
use cczoecpp.Common.{
  ℕ, zero, suc, ◌+◌, ◌*◌, ◌/◌, ◌%◌, List, [], ◌∷◌, Bool, true, false, if◌then◌else◌, reverse,
}
use cczoecpp.Common.Outcome.{◌>>=◌, pure}
use cczoecpp.ByteArray.{Endian, little, big, M, write, read, get}

-- The lowest byte first.
abbrev pub le_bytes : ℕ → ℕ → List ℕ
le_bytes zero v = []
le_bytes (suc w) v = v % 256 ∷ le_bytes w (v / 256)

abbrev pub of_le_bytes : List ℕ → ℕ
of_le_bytes [] = 0
of_le_bytes (b ∷ bs) = b + 256 * of_le_bytes bs

-- `memcpy` from an integer, and to one.
abbrev pub represent : Endian → ℕ → ℕ → List ℕ
represent little w v = le_bytes w v
represent big w v = reverse (le_bytes w v)

abbrev pub value_of : Endian → List ℕ → ℕ
value_of little bs = of_le_bytes bs
value_of big bs = of_le_bytes (reverse bs)

-- bswap_16, bswap_32 and bswap_64 of <byteswap.h>.
abbrev pub bswap : ℕ → ℕ → ℕ
bswap w v = of_le_bytes (reverse (le_bytes w v))

pub data IntType : Type 0 where
  int16 uint16 int32 uint32 int64 uint64 : IntType

abbrev pub width : IntType → ℕ
width int16 = 2
width uint16 = 2
width int32 = 4
width uint32 = 4
width int64 = 8
width uint64 = 8

-- The template `byteswap`: a type that is none of the three comes back as it was.
unfoldable pub byteswap : IntType → ℕ → ℕ
byteswap uint64 val = bswap 8 val
byteswap uint32 val = bswap 4 val
byteswap uint16 val = bswap 2 val
byteswap int64 val = val
byteswap int32 val = val
byteswap int16 val = val

abbrev pub same_order : Endian → Endian → Bool
same_order little little = true
same_order big big = true
same_order little big = false
same_order big little = false

-- The body that the writers of two and more bytes share.
unfoldable pub write_int : Endian → IntType → ℕ → M (Unit {0})
write_int host t value s =
    write (represent host (width t) (if same_order s.endian host then value else byteswap t value))
      s

-- The macro XX of the readers.
unfoldable pub read_int : Endian → IntType → M ℕ
read_int host t = do
  bytes ← read (width t)
  s ← get
  let v = value_of host bytes
  if same_order s.endian host then pure v else pure (byteswap t v)

unfoldable pub write_fint8 : ℕ → M (Unit {0})
write_fint8 value = write (value ∷ [])

unfoldable pub write_fuint8 : ℕ → M (Unit {0})
write_fuint8 value = write (value ∷ [])

abbrev pub first_byte : List ℕ → M ℕ
first_byte [] = pure 0
first_byte (v ∷ more) = pure v

unfoldable pub read_fint8 : M ℕ
read_fint8 = do v ← read 1; first_byte v

unfoldable pub read_fuint8 : M ℕ
read_fuint8 = do v ← read 1; first_byte v

module _ (host : Endian) where
  pub write_fint16 : ℕ → M (Unit {0})
  write_fint16 = write_int host int16

  unfoldable pub write_fuint16 : ℕ → M (Unit {0})
  write_fuint16 = write_int host uint16

  pub write_fint32 : ℕ → M (Unit {0})
  write_fint32 = write_int host int32

  unfoldable pub write_fuint32 : ℕ → M (Unit {0})
  write_fuint32 = write_int host uint32

  pub write_fint64 : ℕ → M (Unit {0})
  write_fint64 = write_int host int64

  unfoldable pub write_fuint64 : ℕ → M (Unit {0})
  write_fuint64 = write_int host uint64

  pub read_fint16 : M ℕ
  read_fint16 = read_int host int16

  unfoldable pub read_fuint16 : M ℕ
  read_fuint16 = read_int host uint16

  pub read_fint32 : M ℕ
  read_fint32 = read_int host int32

  unfoldable pub read_fuint32 : M ℕ
  read_fuint32 = read_int host uint32

  pub read_fint64 : M ℕ
  read_fint64 = read_int host int64

  unfoldable pub read_fuint64 : M ℕ
  read_fuint64 = read_int host uint64

  -- The bits of a float and of a double.
  pub write_float : ℕ → M (Unit {0})
  write_float value = write_fuint32 value

  pub write_double : ℕ → M (Unit {0})
  write_double value = write_fuint64 value

  pub read_float : M ℕ
  read_float = read_fuint32

  pub read_double : M ℕ
  read_double = read_fuint64

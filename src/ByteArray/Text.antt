-- ===== src/ByteArray/Text.antt =====
-- The strings of cczoecpp/Net/ByteArray/bytearray.cpp: a length of 2, 4 or 8 bytes and the bytes.
use cczoecpp.Common.{ℕ, ◌%◌, ◌^◌, List, length}
use cczoecpp.Common.Outcome.{◌>>=◌, ◌>>◌}
use cczoecpp.ByteArray.{Endian, M, write, read}
use cczoecpp.ByteArray.Fixed.{
  write_fuint16, write_fuint32, write_fuint64, read_fuint16, read_fuint32, read_fuint64,
}

-- A length is converted to the type of its parameter.
module _ (host : Endian) where
  unfoldable pub write_string_f16 : List ℕ → M (Unit {0})
  write_string_f16 value = write_fuint16 host (length value % 2 ^ 16) >> write value

  unfoldable pub write_string_f32 : List ℕ → M (Unit {0})
  write_string_f32 value = write_fuint32 host (length value % 2 ^ 32) >> write value

  unfoldable pub write_string_f64 : List ℕ → M (Unit {0})
  write_string_f64 value = write_fuint64 host (length value % 2 ^ 64) >> write value

  -- It writes a fixed-length integer, in spite of its name.
  unfoldable pub write_string_vint : List ℕ → M (Unit {0})
  write_string_vint value = write_fuint64 host (length value % 2 ^ 64) >> write value

  unfoldable pub read_string_f16 : M (List ℕ)
  read_string_f16 = do len ← read_fuint16 host; read len

  unfoldable pub read_string_f32 : M (List ℕ)
  read_string_f32 = do len ← read_fuint32 host; read len

  unfoldable pub read_string_f64 : M (List ℕ)
  read_string_f64 = do len ← read_fuint64 host; read len

  unfoldable pub read_string_vint : M (List ℕ)
  read_string_vint = do len ← read_fuint64 host; read len

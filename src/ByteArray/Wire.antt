-- ===== src/ByteArray/Wire.antt =====
-- The bytes that the fixed-length integers have in the array, and that they read back.
use native.Mathlib.Nat.{pow-suc}
use mathlib.Core.List.{reverse-cons, reverse-reverse}
use cczoecpp.Common.{
  ℕ, zero, suc, ◌+◌, ◌*◌, ◌/◌, ◌%◌, ◌^◌, ◌<◌, ◌≡◌, refl, sym, ap, ◌∙◌, List, [], ◌∷◌, Bool, true,
  false, if◌then◌else◌, reverse, length, length-reverse, All, All-append, arith, Bool-cases, inl,
  inr,
}
use cczoecpp.Common.Outcome.{done, ◌>>◌, pure, >>=-done}
use cczoecpp.ByteArray.{Endian, little, big, ByteArray, write, read, set_position}
use cczoecpp.ByteArray.IsValid.{IsValid}
use cczoecpp.ByteArray.ReadRefines.{advanced}
use cczoecpp.ByteArray.Fixed.{
  IntType, int16, uint16, int32, uint32, int64, uint64, width, le_bytes, of_le_bytes, represent,
  value_of, bswap, byteswap, same_order, write_int, read_int,
}
use cczoecpp.ByteArray.Stream.{Emits, Parses, write-Emits, round_trip, read-Parses}

length-le_bytes : (w v : ℕ) → length (le_bytes w v) ≡ w
length-le_bytes zero v = refl
length-le_bytes (suc w) v = ap suc (length-le_bytes w (v / 256))

pub length-represent : (e : Endian) (w v : ℕ) → length (represent e w v) ≡ w
length-represent little w v = length-le_bytes w v
length-represent big w v = length-reverse (le_bytes w v) ∙ length-le_bytes w v

abbrev pub IsByte : ℕ → Type 0
IsByte b = b < 256

le_bytes-IsByte : (w v : ℕ) → All IsByte (le_bytes w v)
le_bytes-IsByte zero v = tt
le_bytes-IsByte (suc w) v = (omega arith, le_bytes-IsByte w (v / 256))

reverse-IsByte : (bs : List ℕ) → All IsByte bs → All IsByte (reverse bs)
reverse-IsByte [] h = tt
reverse-IsByte (b ∷ bs) h =
    rw (reverse-cons b bs)
      (All-append IsByte (reverse bs) (b ∷ []) (reverse-IsByte bs h.1) (h.0, tt))

of_le_bytes-le_bytes : (w v : ℕ) → v < 256 ^ w → of_le_bytes (le_bytes w v) ≡ v
of_le_bytes-le_bytes zero v h = omega arith
of_le_bytes-le_bytes (suc w) v h =
    omega (arith, of_le_bytes-le_bytes w (v / 256) (omega (arith, pow-suc 256 w)))

le_bytes-of_le_bytes : (bs : List ℕ) → All IsByte bs → le_bytes (length bs) (of_le_bytes bs) ≡ bs
le_bytes-of_le_bytes [] h = refl
le_bytes-of_le_bytes (b ∷ bs) h =
    λ i. low i ∷ (ap (le_bytes (length bs)) high ∙ le_bytes-of_le_bytes bs h.1) i
  where
    low : (b + 256 * of_le_bytes bs) % 256 ≡ b
    low = omega (arith, h.0)

    high : (b + 256 * of_le_bytes bs) / 256 ≡ of_le_bytes bs
    high = omega (arith, h.0)

-- Swapping is reversing the bytes.
le_bytes-bswap : (w v : ℕ) → le_bytes w (bswap w v) ≡ reverse (le_bytes w v)
le_bytes-bswap w v =
    ap (λ n. le_bytes n (bswap w v)) (sym (length-reverse (le_bytes w v) ∙ length-le_bytes w v))
    ∙ le_bytes-of_le_bytes (reverse (le_bytes w v))
        (reverse-IsByte (le_bytes w v) (le_bytes-IsByte w v))

pub bswap-bswap : (w v : ℕ) → v < 256 ^ w → bswap w (bswap w v) ≡ v
bswap-bswap w v h =
    ap (λ bs. of_le_bytes (reverse bs)) (le_bytes-bswap w v)
    ∙ ap of_le_bytes (reverse-reverse (le_bytes w v))
    ∙ of_le_bytes-le_bytes w v h

abbrev pub opposite : Endian → Endian
opposite little = big
opposite big = little

pub represent-bswap :
    (e : Endian) (w v : ℕ) → represent e w (bswap w v) ≡ represent (opposite e) w v
represent-bswap little w v = le_bytes-bswap w v
represent-bswap big w v = ap reverse (le_bytes-bswap w v) ∙ reverse-reverse (le_bytes w v)

pub value_of-represent : (e : Endian) (w v : ℕ) → v < 256 ^ w → value_of e (represent e w v) ≡ v
value_of-represent little w v h = of_le_bytes-le_bytes w v h
value_of-represent big w v h =
    ap of_le_bytes (reverse-reverse (le_bytes w v)) ∙ of_le_bytes-le_bytes w v h

pub value_of-opposite : (e : Endian) (w v : ℕ) → value_of e (represent (opposite e) w v) ≡ bswap w v
value_of-opposite little w v = refl
value_of-opposite big w v = refl

abbrev pub is_unsigned : IntType → Bool
is_unsigned int16 = false
is_unsigned uint16 = true
is_unsigned int32 = false
is_unsigned uint32 = true
is_unsigned int64 = false
is_unsigned uint64 = true

-- The bytes of an integer in an array of byte order `e`, on a machine of byte order `host`.
abbrev pub wire : Endian → Endian → IntType → ℕ → List ℕ
wire host e t v = represent (if is_unsigned t then e else host) (width t) v

byteswap_unsigned : (t : IntType) (v : ℕ) → is_unsigned t ≡ true → byteswap t v ≡ bswap (width t) v
unfolding byteswap
byteswap_unsigned uint16 v h = refl
byteswap_unsigned uint32 v h = refl
byteswap_unsigned uint64 v h = refl
byteswap_unsigned int16 v h = cc
byteswap_unsigned int32 v h = cc
byteswap_unsigned int64 v h = cc

byteswap_signed : (t : IntType) (v : ℕ) → is_unsigned t ≡ false → byteswap t v ≡ v
unfolding byteswap
byteswap_signed int16 v h = refl
byteswap_signed int32 v h = refl
byteswap_signed int64 v h = refl
byteswap_signed uint16 v h = cc
byteswap_signed uint32 v h = cc
byteswap_signed uint64 v h = cc

-- What the writer hands to `write`.
represent-swapped :
    (host e : Endian) (t : IntType) (v : ℕ)
    → represent host (width t) (if same_order e host then v else byteswap t v) ≡ wire host e t v
represent-swapped host e t v = elim (Bool-cases (is_unsigned t)) [
  | inr signed ↦
      rw (byteswap_signed t v signed, signed)
        (ap (represent host (width t)) (either (same_order e host)))
  | inl unsigned ↦ rw (byteswap_unsigned t v unsigned, unsigned) (in_order host e)
]
  where
    either : (b : Bool) → (if b then v else v) ≡ v
    either true = refl
    either false = refl

    in_order :
        (h o : Endian)
        → represent h (width t) (if same_order o h then v else bswap (width t) v)
          ≡ represent o (width t) v
    in_order little little = refl
    in_order big big = refl
    in_order little big = represent-bswap little (width t) v
    in_order big little = represent-bswap big (width t) v

-- Every writer of two and more bytes writes the bytes of its integer.
pub write_int-Emits :
    (host e : Endian) (t : IntType) (v : ℕ) → Emits e (write_int host t v) (wire host e t v)
unfolding write_int
write_int-Emits host e t v s order valid room =
    let (u, ran, wrote) = write-Emits e (wire host e t v) s order valid room in
    (
      u,
      ap (λ bs. write bs s) (represent-swapped host s.endian t v ∙ λ i. wire host (order i) t v)
          ∙ ran,
      wrote,
    )

-- What the readers return for those bytes.
value_of-swapped :
    (host e : Endian) (t : IntType) (v : ℕ)
    → v < 256 ^ width t
    → (if same_order e host
        then value_of host (wire host e t v)
        else byteswap t (value_of host (wire host e t v)))
      ≡ v
value_of-swapped host e t v h = elim (Bool-cases (is_unsigned t)) [
  | inr signed ↦
      rw (byteswap_signed t _ signed, signed, value_of-represent host (width t) v h)
        (either (same_order e host))
  | inl unsigned ↦ rw (byteswap_unsigned t _ unsigned, unsigned) (in_order host e)
]
  where
    either : (b : Bool) → (if b then v else v) ≡ v
    either true = refl
    either false = refl

    in_order :
        (h o : Endian)
        → (if same_order o h
            then value_of h (represent o (width t) v)
            else bswap (width t) (value_of h (represent o (width t) v)))
          ≡ v
    in_order little little = of_le_bytes-le_bytes (width t) v h
    in_order big big = value_of-represent big (width t) v h
    in_order little big = bswap-bswap (width t) v h
    in_order big little =
        ap (bswap (width t)) (value_of-opposite big (width t) v) ∙ bswap-bswap (width t) v h

pub read_int-Parses :
    (host e : Endian) (t : IntType) (v : ℕ)
    → v < 256 ^ width t
    → Parses e (read_int host t) (wire host e t v) v
unfolding read_int
read_int-Parses host e t v h s more order u =
    >>=-done (read (width t)) _ taken
    ∙ finish (same_order s.endian host)
    ∙ ap (λ n. done n moved)
        ((λ i.
            if same_order (order i) host
            then value_of host bytes
            else byteswap t (value_of host bytes))
          ∙ value_of-swapped host e t v h)
  where
    bytes : List ℕ
    bytes = wire host e t v

    moved : ByteArray
    moved = advanced (length bytes) s

    taken : read (width t) s ≡ done bytes moved
    taken =
        ap (λ n. read n s) (sym (length-represent (if is_unsigned t then e else host) (width t) v))
        ∙ read-Parses e bytes s more order u

    finish :
        (b : Bool)
        → (if b then pure (value_of host bytes) else pure (byteswap t (value_of host bytes))) moved
          ≡ done (if b then value_of host bytes else byteswap t (value_of host bytes)) moved
    finish true = refl
    finish false = refl

-- In a valid state with more bytes of the first block behind the position than the type is wide, a value
-- of any of the six types that is written and read back from there, in either byte order and on either
-- machine, is the value that was written.
pub int_round_trip :
    (host : Endian) (t : IntType) (v : ℕ) (s : ByteArray)
    → v < 256 ^ width t
    → IsValid s
    → s.position + width t < s.base_size
    → (u : ByteArray) × ((write_int host t v >> (set_position s.position >> read_int host t)) s
        ≡ done v u)
      × IsValid u
      × (u.position ≡ s.position + width t)
int_round_trip host t v s h valid room =
    let length_wire = length-represent (if is_unsigned t then s.endian else host) (width t) v in
    let (u, ran, valid', at_end) =
      round_trip (wire host s.endian t v) s (write_int-Emits host s.endian t v)
        (read_int-Parses host s.endian t v h) valid (omega (arith, length_wire)) in
    (u, ran, valid', omega (arith, at_end, length_wire))

-- The bytes of an unsigned integer follow the byte order of the array, whatever the machine's is.
pub unsigned_host_independent :
    (host host' : Endian) (t : IntType) (v : ℕ) (s : ByteArray)
    → is_unsigned t ≡ true
    → write_int host t v s ≡ write_int host' t v s
unfolding write_int
unsigned_host_independent host host' t v s unsigned =
    ap (λ bs. write bs s)
      (represent-swapped host s.endian t v
        ∙ (rw unsigned)
        ∙ sym (represent-swapped host' s.endian t v))

-- The bytes of a signed integer are those of the machine: the byte order of the array makes no
-- difference to them.
pub signed_ignores_order :
    (host : Endian) (t : IntType) (v : ℕ) (s : ByteArray)
    → is_unsigned t ≡ false
    → write_int host t v s ≡ write (represent host (width t) v) s
unfolding write_int
signed_ignores_order host t v s signed =
    ap (λ bs. write bs s) (represent-swapped host s.endian t v ∙ (rw signed))

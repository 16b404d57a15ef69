-- ===== src/ByteArray/Runs.antt =====
-- The arrays of the examples, and the theorems at them.
use cczoecpp.ByteArray.Buffers.{Iovec, add_read_buffers}
use cczoecpp.ByteArray.Gather.{gather, IsWithin, add_read_buffers_lem}
use cczoecpp.ByteArray.WriteRefines.{Wrote, write_refines}
use cczoecpp.ByteArray.ReadRefines.{advanced, read_refines}
use cczoecpp.ByteArray.Seek.{set_position_lem}
use cczoecpp.ByteArray.Exhausted.{write_overwrites}
use cczoecpp.ByteArray.Wire.{int_round_trip}
use cczoecpp.ByteArray.Groups.{uint32_round_trip}
use cczoecpp.ByteArray.Signed.{int32_round_trip}
use cczoecpp.ByteArray.TextLaws.{Format, length_type, write_string, read_string, text_round_trip}
use cczoecpp.ByteArray.{Endian, ByteArray, init, write, read, set_position}
use cczoecpp.ByteArray.IsValid.{IsValid, memory, init-IsValid}
use cczoecpp.ByteArray.Fixed.{width, write_int, read_int, int32}
use cczoecpp.ByteArray.Varint.{write_uint32, read_uint32, write_int32, read_int32}
use cczoecpp.Common.{
  All, ℕ, ◌+◌, ◌-◌, ◌/◌, ◌%◌, ◌≤◌, ◌<◌, ◌≡◌, refl, List, [], ◌∷◌, ◌++◌, length, replicate,
  overwrite, arith, ltb, if◌then◌else◌, slice, some, none, ◌^◌, inr, take,
}
use cczoecpp.Common.Outcome.{done, fault, ◌>>◌}

-- A run of bytes, and arrays of one block and of three blocks.
abbrev sample : List ℕ
sample = 7 ∷ 8 ∷ 9 ∷ []

abbrev fresh : ByteArray
fresh = init 64 0

fresh-IsValid : IsValid fresh
fresh-IsValid = init-IsValid 64 0 (omega arith)

abbrev later : ByteArray
later = record {
  base_size = 2;
  position = 2;
  capacity = 6;
  size = 5;
  endian = Endian.little;
  blocks = (1 ∷ 2 ∷ []) ∷ (3 ∷ 4 ∷ []) ∷ (5 ∷ 0 ∷ []) ∷ [];
  curr = some 1;
  junk = 0;
}

later-IsValid : IsValid later
later-IsValid = record {
  base_pos = omega arith;
  some_block = omega arith;
  sized = (refl, (refl, (refl, tt)));
  counted = omega arith;
  size_fits = omega arith;
  position_fits = omega arith;
  cursor = refl;
}

abbrev first : ℕ
first = 9

abbrev others : List ℕ
others = 8 ∷ []

abbrev full_chain : ByteArray
full_chain = record {
  base_size = 4;
  position = 4;
  capacity = 4;
  size = 4;
  endian = Endian.little;
  blocks = (1 ∷ 2 ∷ 3 ∷ 4 ∷ []) ∷ [];
  curr = none;
  junk = 0;
}

full_chain-IsValid : IsValid full_chain
full_chain-IsValid = record {
  base_pos = omega arith;
  some_block = omega arith;
  sized = (refl, tt);
  counted = omega arith;
  size_fits = omega arith;
  position_fits = omega arith;
  cursor = refl;
}

write_refines_example : (t : ByteArray) × (write sample fresh ≡ done tt t) × Wrote fresh sample t
unfolding init
write_refines_example = write_refines fresh sample fresh-IsValid (omega arith)

read_refines_example :
    read 3 later ≡ done (slice later.position 3 (memory later)) (advanced 3 later)
read_refines_example = read_refines later later-IsValid (omega arith) 3 (omega arith)

set_position_lem_example : set_position 2 later ≡ (
    if ltb (later.position / later.base_size + 2 / later.base_size) (length later.blocks)
    then done tt (record later {
      position = 2;
      curr = some (later.position / later.base_size + 2 / later.base_size);
    })
    else fault)
set_position_lem_example = set_position_lem later later-IsValid 2 (omega arith) (omega arith)

write_overwrites_example :
    (t : ByteArray) × (write (first ∷ others) full_chain ≡ done tt t)
    × (t.position ≡ full_chain.position + length (first ∷ others))
    × (memory t
        ≡ overwrite
            (full_chain.position - full_chain.base_size)
            (first ∷ others)
            (memory full_chain ++ replicate full_chain.base_size full_chain.junk))
write_overwrites_example =
    write_overwrites full_chain full_chain-IsValid refl first others (omega arith)

int_round_trip_example :
    (u : ByteArray) × ((write_int Endian.little int32 4000000000
          >> (set_position fresh.position >> read_int Endian.little int32))
        fresh
      ≡ done 4000000000 u)
    × IsValid u
    × (u.position ≡ fresh.position + width int32)
unfolding init
int_round_trip_example =
    int_round_trip Endian.little int32 4000000000 fresh (omega arith) fresh-IsValid (omega arith)

uint32_round_trip_example :
    (u : ByteArray) × ((write_uint32 300 >> (set_position fresh.position >> read_uint32)) fresh
      ≡ done 300 u)
    × IsValid u
    × (fresh.position < u.position)
    × (u.position ≤ fresh.position + 5)
unfolding init
uint32_round_trip_example = uint32_round_trip 300 fresh (omega arith) fresh-IsValid (omega arith)

int32_round_trip_example :
    (u : ByteArray) × ((write_int32 (2 ^ 32 - 7) >> (set_position fresh.position >> read_int32))
        fresh
      ≡ done (2 ^ 32 - 7) u)
    × IsValid u
    × (fresh.position < u.position)
    × (u.position ≤ fresh.position + 5)
unfolding init
int32_round_trip_example =
    int32_round_trip (2 ^ 32 - 7) fresh (inr (omega arith, omega arith)) fresh-IsValid (omega arith)

text_round_trip_example :
    (u : ByteArray) × ((write_string Endian.little Format.f16 sample
          >> (set_position fresh.position >> read_string Endian.little Format.f16))
        fresh
      ≡ done (take (length sample % 256 ^ width (length_type Format.f16)) sample) u)
    × IsValid u
unfolding init
text_round_trip_example =
    text_round_trip Endian.little Format.f16 sample fresh fresh-IsValid (omega arith)

add_read_buffers_lem_example :
    (iovs : List Iovec) × (add_read_buffers 3 later ≡ done (3, iovs) later)
    × (gather later.blocks iovs ≡ slice 2 3 (memory later))
    × All (IsWithin later.blocks) iovs
add_read_buffers_lem_example =
    add_read_buffers_lem 3 later later-IsValid (omega arith) (omega arith)

-- ===== src/ByteArray/Groups.antt =====
-- The variable-length integers in the array: groups of seven bits, the lowest first.
use native.Mathlib.Nat.{
  pow-suc, div-add-mod, mod-lt, mod-eq_of_lt, mul-le-mul_right, mul-add-mod_self_left, one-le-pow,
  mod-one,
}
use native.Mathlib.Numerals.{towards_suc}
use native.Mathlib.Decide.{dec_lt}
use cczoecpp.Common.{
  ℕ, zero, suc, ◌+◌, ◌*◌, ◌/◌, ◌%◌, ◌^◌, ◌≤◌, ◌<◌, ◌≡◌, sym, ap, ◌∙◌, bit_and, bit_or, List, [],
  ◌∷◌, some, ltb, if◌then◌else◌, length, take, drop, subst, take-append-drop, length-take, ◌≢◌,
  arith, le→ltb,
}
use cczoecpp.Common.Bits.{bit_and_mask, bit_or_shifted}
use cczoecpp.Common.Outcome.{done, pure, ◌>>◌, >>=-done}
use cczoecpp.ByteArray.{Endian, ByteArray, read, set_position}
use cczoecpp.ByteArray.IsValid.{IsValid}
use cczoecpp.ByteArray.Fixed.{read_fuint8, first_byte}
use cczoecpp.ByteArray.Varint.{
  groups, write_groups, write_uint32, write_uint64, read_groups, read_uint32, read_uint64,
}
use cczoecpp.ByteArray.Stream.{
  Emits, Parses, write-Emits, read-Parses, pure-Parses, >>=-Parses, round_trip, round_trip_prefix,
}

-- A number below 128 ^ (k + 1), as at most k + 1 groups of seven bits.
pub base128 : ℕ → ℕ → List ℕ
base128 zero v = v ∷ []
base128 (suc k) v =
    let rest = base128 k (v / 128) in if ltb v 128 then v ∷ [] else (v % 128 + 128) ∷ rest

continued : (v : ℕ) → bit_or (bit_and v 0x7f) 0x80 % 256 ≡ v % 128 + 128
continued v =
    omega (
      arith,
      ap (λ t. bit_or t 0x80) (bit_and_mask 7 v),
      bit_or_shifted 7 (v % 128) 1 (omega arith),
    )

-- The loop of the writers stays within `tmp`.
pub groups_lem : (k v : ℕ) → v < 128 ^ suc k → groups (suc k) v ≡ some (base128 k v)
unfolding groups base128
groups_lem zero v h = ground arith
groups_lem (suc k) v h = ground (arith, continued v, groups_lem k (v / 128), pow-suc 128 (suc k))

pub length-base128 : (k v : ℕ) → (0 < length (base128 k v)) × (length (base128 k v) ≤ suc k)
unfolding base128
length-base128 zero v = omega arith
length-base128 (suc k) v = ground (arith, length-base128 k (v / 128))

read_fuint8-Parses : (e : Endian) (b : ℕ) → Parses e read_fuint8 (b ∷ []) b
unfolding read_fuint8
read_fuint8-Parses e b s more order u =
    >>=-done (read 1) first_byte (read-Parses e (b ∷ []) s more order u)

pow_seven : (i : ℕ) → 2 ^ (i + 7) ≡ 128 * 2 ^ i
pow_seven i = simp towards_suc (omega arith)

gathered :
    (w i acc g : ℕ)
    → acc < 2 ^ i
    → acc + g * 2 ^ i < 2 ^ w
    → bit_or acc (g * 2 ^ i % 2 ^ w) ≡ acc + g * 2 ^ i
gathered w i acc g small fits =
    ap (bit_or acc) (mod-eq_of_lt (omega arith)) ∙ bit_or_shifted i acc g small

last_group :
    (e : Endian) (rounds w i acc b : ℕ)
    → b < 128
    → acc < 2 ^ i
    → acc + b * 2 ^ i < 2 ^ w
    → Parses e (read_groups (suc rounds) w i acc) (b ∷ []) (acc + b * 2 ^ i)
unfolding read_groups
last_group e rounds w i acc b h small fits =
    >>=-Parses e _ (b ∷ []) [] (read_fuint8-Parses e b) λ s more order u.
      ground (arith, pure-Parses e (acc + b * 2 ^ i) s more order u, gathered w i acc b small fits)

next_group :
    (e : Endian) (rounds w i acc g : ℕ) (bytes : List ℕ) (a : ℕ)
    → g < 128
    → acc < 2 ^ i
    → acc + g * 2 ^ i < 2 ^ w
    → Parses e (read_groups rounds w (i + 7) (acc + g * 2 ^ i)) bytes a
    → Parses e (read_groups (suc rounds) w i acc) ((g + 128) ∷ bytes) a
unfolding read_groups
next_group e rounds w i acc g bytes a h small fits rest =
    >>=-Parses e _ ((g + 128) ∷ []) bytes (read_fuint8-Parses e (g + 128)) λ s more order u.
      rw (le→ltb (g + 128) 128 (omega arith))
        (ap (λ n. read_groups rounds w (i + 7) n s) low ∙ rest s more order u)
  where
    group_low : (g + 128) % 128 ≡ g
    group_low = omega arith

    low : bit_or acc (bit_and (g + 128) 0x7f * 2 ^ i % 2 ^ w) ≡ acc + g * 2 ^ i
    low =
        ap (λ t. bit_or acc (t * 2 ^ i % 2 ^ w)) (bit_and_mask 7 (g + 128) ∙ group_low)
        ∙ gathered w i acc g small fits

-- The lowest group of `v` and the rest, both shifted by `i`.
split_group : (v i : ℕ) → v * 2 ^ i ≡ v % 128 * 2 ^ i + v / 128 * 2 ^ (i + 7)
split_group v i = omega (
  arith,
  ap (λ (t : ℕ). t * 2 ^ i) (div-add-mod v 128),
  ap (λ (t : ℕ). v / 128 * t) (pow_seven i),
)

group-lt : (acc v i : ℕ) → acc < 2 ^ i → acc + v % 128 * 2 ^ i < 2 ^ (i + 7)
group-lt acc v i small =
    omega (arith, pow_seven i, mul-le-mul_right {m = v % 128} {n = 127} (2 ^ i) (omega arith))

whole : (acc v i : ℕ) → acc + v % 128 * 2 ^ i + v / 128 * 2 ^ (i + 7) ≡ acc + v * 2 ^ i
whole acc v i = omega (arith, split_group v i)

mod-128-pow : (v r : ℕ) → v % 128 ^ suc r ≡ v / 128 % 128 ^ r * 128 + v % 128
mod-128-pow v r =
    ap (λ n. n % 128 ^ suc r) regroup
    ∙ mul-add-mod_self_left (128 ^ suc r) (v / 128 / 128 ^ r) (v / 128 % 128 ^ r * 128 + v % 128)
    ∙ mod-eq_of_lt (
        omega
          (arith, pow-suc 128 r, mod-lt (v / 128) {m = 128 ^ r} (one-le-pow r 128 (omega arith))))
  where
    regroup : v ≡ 128 ^ suc r * (v / 128 / 128 ^ r) + (v / 128 % 128 ^ r * 128 + v % 128)
    regroup = omega (
      arith,
      div-add-mod (v / 128) (128 ^ r),
      ap (λ (t : ℕ). t * (v / 128 / 128 ^ r)) (pow-suc 128 r),
    )

base128_last : (k v : ℕ) → v < 128 → base128 (suc k) v ≡ v ∷ []
unfolding base128
base128_last k v h = ground arith

base128_next : (k v : ℕ) → 128 ≤ v → base128 (suc k) v ≡ (v % 128 + 128) ∷ base128 k (v / 128)
unfolding base128
base128_next k v h = ground arith

-- `v` is what is still to be read; it counts from bit `i` on.
groups-Parses :
    (e : Endian) (k rounds w i acc v : ℕ)
    → v < 128 ^ suc k
    → k < rounds
    → acc < 2 ^ i
    → acc + v * 2 ^ i < 2 ^ w
    → Parses e (read_groups rounds w i acc) (base128 k v) (acc + v * 2 ^ i)
groups-Parses e k zero w i acc v h enough small fits = absurd (omega arith)
groups-Parses e zero (suc rounds) w i acc v h enough small fits =
    unfold base128 in last_group e rounds w i acc v (omega arith) small fits
groups-Parses e (suc k) (suc rounds) w i acc v h enough small fits = elim (dec_lt v 128) [
  | yes last ↦
      subst (λ bs. Parses e (read_groups (suc rounds) w i acc) bs (acc + v * 2 ^ i))
        (sym (base128_last k v last)) (last_group e rounds w i acc v last small fits)
  | no more ↦
      subst (λ bs. Parses e (read_groups (suc rounds) w i acc) bs (acc + v * 2 ^ i))
        (sym (base128_next k v (omega arith)))
        (next_group e rounds w i acc (v % 128) (base128 k (v / 128)) (acc + v * 2 ^ i) (omega arith)
          small (omega (arith, split_group v i))
          (subst
            (Parses e (read_groups rounds w (i + 7) (acc + v % 128 * 2 ^ i)) (base128 k (v / 128)))
            (whole acc v i)
            (groups-Parses e k rounds w (i + 7) (acc + v % 128 * 2 ^ i) (v / 128)
              (omega (arith, pow-suc 128 (suc k))) (omega arith) (group-lt acc v i small)
              (omega (arith, split_group v i)))))
]

cut_value :
    (acc v i r : ℕ)
    → acc + v % 128 * 2 ^ i + v / 128 % 128 ^ r * 2 ^ (i + 7) ≡ acc + v % 128 ^ suc r * 2 ^ i
cut_value acc v i r = omega (
  arith,
  ap (λ (t : ℕ). t * 2 ^ i) (mod-128-pow v r),
  ap (λ (t : ℕ). v / 128 % 128 ^ r * t) (pow_seven i),
)

nothing : (acc v i : ℕ) → acc ≡ acc + v % 128 ^ 0 * 2 ^ i
nothing acc v i = omega (arith, ap (λ (t : ℕ). t * 2 ^ i) (mod-one v))

-- With more groups than rounds the rest of them is left.
cut_groups-Parses :
    (e : Endian) (k rounds w i acc v : ℕ)
    → 128 ^ rounds ≤ v
    → rounds ≤ k
    → acc < 2 ^ i
    → acc + v * 2 ^ i < 2 ^ w
    → Parses e
        (read_groups rounds w i acc)
        (take rounds (base128 k v))
        (acc + v % 128 ^ rounds * 2 ^ i)
cut_groups-Parses e k zero w i acc v h enough small fits =
    unfold read_groups in subst (Parses e (pure acc) []) (nothing acc v i) (pure-Parses e acc)
cut_groups-Parses e zero (suc r) w i acc v h enough small fits = absurd (omega arith)
cut_groups-Parses e (suc k) (suc r) w i acc v h enough small fits =
    subst (λ bs. Parses e (read_groups (suc r) w i acc) bs (acc + v % 128 ^ suc r * 2 ^ i))
      (sym (ap (take (suc r)) (base128_next k v big)))
      (next_group e r w i acc (v % 128) (take r (base128 k (v / 128)))
        (acc + v % 128 ^ suc r * 2 ^ i) (omega arith) small (omega (arith, split_group v i))
        (subst
          (Parses e (read_groups r w (i + 7) (acc + v % 128 * 2 ^ i))
            (take r (base128 k (v / 128))))
          (cut_value acc v i r)
          (cut_groups-Parses e k r w (i + 7) (acc + v % 128 * 2 ^ i) (v / 128)
            (omega (arith, pow-suc 128 r)) (omega arith) (group-lt acc v i small)
            (omega (arith, split_group v i)))))
  where
    big : 128 ≤ v
    big = omega (arith, pow-suc 128 r, one-le-pow r 128 (omega arith))

pub write_uint32-Emits : (e : Endian) (v : ℕ) → v < 2 ^ 32 → Emits e (write_uint32 v) (base128 4 v)
unfolding write_uint32 write_groups
write_uint32-Emits e v h = rw (groups_lem 4 v (omega arith)) (write-Emits e (base128 4 v))

pub write_uint64-Emits : (e : Endian) (v : ℕ) → v < 2 ^ 64 → Emits e (write_uint64 v) (base128 9 v)
unfolding write_uint64 write_groups
write_uint64-Emits e v h = rw (groups_lem 9 v (omega arith)) (write-Emits e (base128 9 v))

pub read_uint32-Parses : (e : Endian) (v : ℕ) → v < 2 ^ 32 → Parses e read_uint32 (base128 4 v) v
unfolding read_uint32
read_uint32-Parses e v h =
    subst (Parses e (read_groups 5 32 0 0) (base128 4 v)) (omega arith)
      (groups-Parses e 4 5 32 0 0 v (omega arith) (omega arith) (omega arith) (omega arith))

-- In a valid state with more than five bytes of the first block behind the position, every uint32 that
-- is written comes back when it is read from there, in at most five bytes.
pub uint32_round_trip :
    (v : ℕ) (s : ByteArray)
    → v < 2 ^ 32
    → IsValid s
    → s.position + 5 < s.base_size
    → (u : ByteArray) × ((write_uint32 v >> (set_position s.position >> read_uint32)) s ≡ done v u)
      × IsValid u
      × (s.position < u.position)
      × (u.position ≤ s.position + 5)
uint32_round_trip v s h valid room =
    let size = length-base128 4 v in
    let (u, ran, valid', at_end) =
      round_trip (base128 4 v) s (write_uint32-Emits s.endian v h) (read_uint32-Parses s.endian v h)
        valid (omega (arith, size)) in
    (u, ran, valid', omega (arith, size, at_end), omega (arith, size, at_end))

-- A uint64 below 2 ^ 35 has at most five groups.
short_groups : (k v : ℕ) → v < 128 ^ suc k → base128 (suc k) v ≡ base128 k v
unfolding base128
short_groups zero v h = ground arith
short_groups (suc k) v h = ground (arith, short_groups k (v / 128), pow-suc 128 (suc k))

pub five_groups : (v : ℕ) → v < 2 ^ 35 → base128 9 v ≡ base128 4 v
five_groups v h =
    short_groups 8 v (omega arith)
    ∙ short_groups 7 v (omega arith)
    ∙ short_groups 6 v (omega arith)
    ∙ short_groups 5 v (omega arith)
    ∙ short_groups 4 v (omega arith)

pub read_uint64-Parses : (e : Endian) (v : ℕ) → v < 2 ^ 35 → Parses e read_uint64 (base128 4 v) v
unfolding read_uint64
read_uint64-Parses e v h =
    subst (Parses e (read_groups 5 64 0 0) (base128 4 v)) (omega arith)
      (groups-Parses e 4 5 64 0 0 v (omega arith) (omega arith) (omega arith) (omega arith))

-- A uint64 below 2 ^ 35 that is written in the first block comes back, in at most five bytes.
pub uint64_round_trip :
    (v : ℕ) (s : ByteArray)
    → v < 2 ^ 35
    → IsValid s
    → s.position + 5 < s.base_size
    → (u : ByteArray) × ((write_uint64 v >> (set_position s.position >> read_uint64)) s ≡ done v u)
      × IsValid u
      × (s.position < u.position)
      × (u.position ≤ s.position + 5)
uint64_round_trip v s h valid room =
    let size = length-base128 4 v in
    let (u, ran, valid', at_end) =
      round_trip (base128 4 v) s
        (subst (Emits s.endian (write_uint64 v)) (five_groups v h)
          (write_uint64-Emits s.endian v (omega arith)))
        (read_uint64-Parses s.endian v h) valid (omega (arith, size)) in
    (u, ran, valid', omega (arith, size, at_end), omega (arith, size, at_end))

-- Of a uint64 from 2 ^ 35 on that is written in the first block, `readUint64` returns the low 35
-- bits, which are another number, and stops after five bytes.
pub uint64_cut :
    (v : ℕ) (s : ByteArray)
    → 2 ^ 35 ≤ v
    → v < 2 ^ 64
    → IsValid s
    → s.position + 10 < s.base_size
    → (u : ByteArray) × ((write_uint64 v >> (set_position s.position >> read_uint64)) s
        ≡ done (v % 2 ^ 35) u)
      × (v % 2 ^ 35 ≢ v)
      × (u.position ≤ s.position + 5)
unfolding read_uint64
uint64_cut v s big h valid room =
    let size = length-base128 9 v in
    let (u, ran, valid', at_end) =
      round_trip_prefix (take 5 (base128 9 v)) (drop 5 (base128 9 v)) s
        (subst (Emits s.endian (write_uint64 v)) (sym (take-append-drop 5 (base128 9 v)))
          (write_uint64-Emits s.endian v h))
        (subst (Parses s.endian (read_groups 5 64 0 0) (take 5 (base128 9 v))) (omega arith) (
          cut_groups-Parses s.endian 9 5 64 0 0 v (omega arith) (omega arith) (omega arith)
            (omega arith)))
        valid (omega (arith, size, ap length (take-append-drop 5 (base128 9 v)))) in
    (u, ran, omega arith, omega (arith, at_end, length-take 5 (base128 9 v)))

-- ===== src/ByteArray/Stream.antt =====
-- What writers leave in a ByteArray and readers take from it, for values of any type: a writer
-- emits bytes, a reader parses them, and both compose.
use native.Mathlib.Nat.{add_assoc}
use cczoecpp.Common.{
  ℕ, ◌+◌, ◌-◌, ◌/◌, ◌≤◌, ◌<◌, ◌≡◌, refl, sym, ap, ◌∙◌, List, [], ◌++◌, length, slice, overwrite,
  replicate, arith, append_assoc, length-append, overwrite-overwrite, overwrite-append_left,
  replicate-add, slice-overwrite, slice-split, append-nil, append-injective, length-slice, subst,
}
use cczoecpp.Common.Outcome.{done, >>=-done, ◌>>=◌, ◌>>◌, pure}
use cczoecpp.ByteArray.{Endian, ByteArray, M, node_at, write, read, set_position}
use cczoecpp.ByteArray.IsValid.{IsValid, memory, length-memory, base_size-le-capacity}
use cczoecpp.ByteArray.WriteRefines.{Wrote, write_refines}
use cczoecpp.ByteArray.ReadRefines.{advanced, advanced-IsValid, read_refines}
use cczoecpp.ByteArray.Seek.{set_position_first}

-- The bytes ahead of the cursor begin with `bytes`, and the chain does not end behind them.
pub record Upcoming (bytes : List ℕ) (s : ByteArray) : Type 0 where
  pub valid : IsValid s
  pub ahead : slice s.position (length bytes) (memory s) ≡ bytes
  pub ends : s.position + length bytes ≤ s.size
  pub room : s.position + length bytes < s.capacity

-- `m` writes exactly `bytes`, from any valid state of byte order `e` that has room for them and one
-- more.
abbrev pub Emits : Endian → M (Unit {0}) → List ℕ → Type 0
Emits e m bytes =
    (s : ByteArray)
    → s.endian ≡ e
    → IsValid s
    → s.position + length bytes < s.capacity
    → (t : ByteArray) × (m s ≡ done tt t) × Wrote s bytes t

-- `m` takes exactly `bytes` and returns `a` in byte order `e`, whatever comes behind them.
abbrev pub Parses : {A : Type 0} → Endian → M A → List ℕ → A → Type 0
Parses e m bytes a =
    (s : ByteArray) (more : List ℕ)
    → s.endian ≡ e
    → Upcoming (bytes ++ more) s
    → m s ≡ done a (advanced (length bytes) s)

pub write-Emits : (e : Endian) (bytes : List ℕ) → Emits e (write bytes) bytes
write-Emits e bytes s order v h = write_refines s bytes v (omega arith)

Wrote-append :
    (xs ys : List ℕ) (s t u : ByteArray)
    → IsValid s
    → s.position + length xs + length ys ≤ s.capacity
    → Wrote s xs t
    → Wrote t ys u
    → Wrote s (xs ++ ys) u
Wrote-append xs ys s t u v fits w w' = record {
  valid = w'.valid;
  moved = omega (arith, w.moved, w'.moved, length-append xs ys);
  extended = omega (arith, w.extended, w'.extended, w'.moved);
  grows = omega (arith, w.grows, w'.grows);
  same_base = w'.same_base ∙ w.same_base;
  same_endian = w'.same_endian ∙ w.same_endian;
  same_junk = w'.same_junk ∙ w.same_junk;
  bytes_in =
      w'.bytes_in
      ∙ (λ i.
          overwrite (w.moved i) ys
            (w.bytes_in i ++ replicate (u.capacity - t.capacity) (w.same_junk i)))
      ∙ ap (overwrite (s.position + length xs) ys)
          (sym (overwrite-append_left s.position xs (memory s ++ first) second in_first))
      ∙ overwrite-overwrite s.position xs ys ((memory s ++ first) ++ second)
      ∙ ap (overwrite s.position (xs ++ ys))
          (append_assoc (memory s) first second ∙ ap (◌++◌ (memory s)) both);
}
  where
    first : List ℕ
    first = replicate (t.capacity - s.capacity) s.junk

    second : List ℕ
    second = replicate (u.capacity - t.capacity) s.junk

    in_first : s.position + length xs ≤ length (memory s ++ first)
    in_first = omega (arith, length-append (memory s) first, length-memory v)

    all_new : t.capacity - s.capacity + (u.capacity - t.capacity) ≡ u.capacity - s.capacity
    all_new = omega (arith, w.grows, w'.grows)

    both : first ++ second ≡ replicate (u.capacity - s.capacity) s.junk
    both =
        sym (replicate-add (t.capacity - s.capacity) (u.capacity - t.capacity) s.junk)
        ∙ ap (λ n. replicate n s.junk) all_new

pub >>-Emits :
    (o : Endian) {m n : M (Unit {0})} (xs ys : List ℕ)
    → Emits o m xs
    → Emits o n ys
    → Emits o (m >> n) (xs ++ ys)
>>-Emits o {m} {n} xs ys e f s order v h =
    let (t, ran, w) = e s order v (omega (arith, length-append xs ys)) in
    let (u, ran', w') =
      f t (w.same_endian ∙ order) w.valid (omega (arith, length-append xs ys, w.moved, w.grows)) in
    (
      u,
      >>=-done m (λ _. n) ran ∙ ran',
      Wrote-append xs ys s t u v (omega (arith, length-append xs ys)) w w',
    )

-- The bytes ahead, in two parts.
module _ (xs ys : List ℕ) (s : ByteArray) (u : Upcoming (xs ++ ys) s) where
  both_parts :
      (slice s.position (length xs) (memory s) ≡ xs)
      × (slice (s.position + length xs) (length ys) (memory s) ≡ ys)
  both_parts =
      append-injective (slice s.position (length xs) (memory s))
        (slice (s.position + length xs) (length ys) (memory s)) xs ys
        (length-slice s.position (length xs) (memory s)
          (omega (arith, length-memory u.valid, u.room, length-append xs ys)))
        (sym (slice-split s.position (length xs) (length ys) (memory s))
          ∙ ap (λ n. slice s.position n (memory s)) (sym (length-append xs ys))
          ∙ u.ahead)

  -- Reading moves on to what comes behind.
  advanced-Upcoming : Upcoming ys (advanced (length xs) s)
  advanced-Upcoming = record {
    valid = advanced-IsValid (length xs) u.valid (omega (arith, u.ends, length-append xs ys));
    ahead = both_parts.1;
    ends = omega (arith, u.ends, length-append xs ys);
    room = omega (arith, u.room, length-append xs ys);
  }

pub read-Parses : (e : Endian) (bytes : List ℕ) → Parses e (read (length bytes)) bytes bytes
read-Parses e bytes s more order u =
    read_refines s u.valid (omega (arith, u.room)) (length bytes)
      (omega (arith, u.ends, length-append bytes more))
    ∙ ap (λ b. done b (advanced (length bytes) s)) (both_parts bytes more s u).0

advanced-advanced : (m n : ℕ) (s : ByteArray) → advanced n (advanced m s) ≡ advanced (m + n) s
advanced-advanced m n s = λ i. record s {
  position = add_assoc s.position m n i;
  curr = node_at (length s.blocks) (add_assoc s.position m n i / s.base_size);
}

advanced-zero : (s : ByteArray) → IsValid s → advanced 0 s ≡ s
advanced-zero s v = λ i. record s {
  position = same i;
  curr = (ap (λ p. node_at (length s.blocks) (p / s.base_size)) same ∙ sym v.cursor) i;
}
  where
    same : s.position + 0 ≡ s.position
    same = omega arith

pub pure-Parses : {A : Type 0} (e : Endian) (a : A) → Parses e (pure a) [] a
pure-Parses e a s more order u = ap (done a) (sym (advanced-zero s u.valid))

pub >>=-Parses :
    {A B : Type 0} (e : Endian) {m : M A} (f : A → M B) (xs ys : List ℕ) {a : A} {b : B}
    → Parses e m xs a
    → Parses e (f a) ys b
    → Parses e (m >>= f) (xs ++ ys) b
>>=-Parses e {m} f xs ys {a} {b} p q s more order u =
    >>=-done m f (p s (ys ++ more) order u')
    ∙ q (advanced (length xs) s) more order (advanced-Upcoming xs (ys ++ more) s u')
    ∙ ap (done b) (
        advanced-advanced (length xs) (length ys) s
        ∙ ap (λ n. advanced n s) (sym (length-append xs ys)))
  where
    u' : Upcoming (xs ++ (ys ++ more)) s
    u' = subst (λ bytes. Upcoming bytes s) (append_assoc xs ys more) u

rewound :
    (s t t' : ByteArray) (bytes : List ℕ)
    → IsValid s
    → s.position + length bytes < s.base_size
    → Wrote s bytes t
    → IsValid t'
    → t'.position ≡ s.position
    → memory t' ≡ memory t
    → t'.size ≡ t.size
    → Upcoming bytes t'
rewound s t t' bytes v h wrote v' at_start same same_size = record {
  valid = v';
  ahead =
      (λ i. slice (at_start i) (length bytes) ((same ∙ wrote.bytes_in) i))
      ∙ slice-overwrite s.position bytes (memory s ++ fresh) in_memory;
  ends = omega (arith, at_start, same_size, wrote.valid.position_fits, wrote.moved);
  room = omega (
    arith,
    at_start,
    wrote.grows,
    base_size-le-capacity v,
    ap length same,
    length-memory v',
    length-memory wrote.valid,
  );
}
  where
    fresh : List ℕ
    fresh = replicate (t.capacity - s.capacity) s.junk

    in_memory : s.position + length bytes ≤ length (memory s ++ fresh)
    in_memory =
        omega (arith, length-append (memory s) fresh, length-memory v, base_size-le-capacity v)

-- What a writer emits within the first block of a valid state, a reader finds after `setPosition`;
-- it may leave some of it behind.
pub round_trip_prefix :
    {A : Type 0} {w : M (Unit {0})} {r : M A} (bytes more : List ℕ) {a : A} (s : ByteArray)
    → Emits s.endian w (bytes ++ more)
    → Parses s.endian r bytes a
    → IsValid s
    → s.position + length (bytes ++ more) < s.base_size
    → (t : ByteArray) × ((w >> (set_position s.position >> r)) s ≡ done a t)
      × IsValid t
      × (t.position ≡ s.position + length bytes)
round_trip_prefix {w} {r} bytes more {a} s e p v h =
    let (t, ran, wrote) = e s refl v (omega (arith, base_size-le-capacity v)) in
    let (t', sought, v', at_start, same, same_size, same_order) =
      set_position_first t wrote.valid s.position (omega (arith, wrote.moved, wrote.same_base))
        (omega (arith, wrote.valid.position_fits, wrote.moved))
        (omega (
          arith,
          wrote.valid.size_fits,
          wrote.valid.position_fits,
          wrote.moved,
          wrote.grows,
          base_size-le-capacity v,
        )) in
    let u = rewound s t t' (bytes ++ more) v h wrote v' at_start same same_size in
    (
      advanced (length bytes) t',
      >>=-done w _ ran
          ∙ >>=-done (set_position s.position) (λ _. r) sought
          ∙ p t' more (same_order ∙ wrote.same_endian) u,
      advanced-IsValid (length bytes) v' (omega (arith, u.ends, length-append bytes more)),
      ap (λ n. n + length bytes) at_start,
    )

pub round_trip :
    {A : Type 0} {w : M (Unit {0})} {r : M A} (bytes : List ℕ) {a : A} (s : ByteArray)
    → Emits s.endian w bytes
    → Parses s.endian r bytes a
    → IsValid s
    → s.position + length bytes < s.base_size
    → (t : ByteArray) × ((w >> (set_position s.position >> r)) s ≡ done a t)
      × IsValid t
      × (t.position ≡ s.position + length bytes)
round_trip {w} bytes s e p v h =
    round_trip_prefix bytes [] s (subst (Emits s.endian w) (sym (append-nil bytes)) e) p v
      (omega (arith, length-append bytes []))

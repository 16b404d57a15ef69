-- ===== src/ByteArray.antt =====
-- cczoecpp/Net/ByteArray/bytearray.{h,cpp}: the chain of memory blocks, its growth and its cursor.
--
-- The nodes from `m_root` on are the list `blocks`, and `m_curr` is a position in that list, or
-- `none` for the null pointer. `junk` stands for the bytes of a fresh block, which C++ leaves open.
-- Sizes are exact: a chain of 2 ^ 64 bytes cannot be allocated.
pub mod IsValid
pub mod Steps
pub mod Write
pub mod Growth
pub mod Cut
pub mod WriteRefines
pub mod Read
pub mod ReadRefines
pub mod Seek
pub mod Stream
pub mod Fixed
pub mod Wire
pub mod Varint
pub mod Groups
pub mod Zigzag
pub mod Signed
pub mod Text
pub mod TextLaws
pub mod Exhausted
pub mod Buffers
pub mod Gather
mod Runs
use cczoecpp.Common.{
  ℕ, zero, suc, ◌+◌, ◌-◌, ◌/◌, ◌%◌, ◌^◌, Option, none, some, List, [], ◌∷◌, ◌++◌, true, false,
  length, get_elem?, set, take, drop, replicate, overwrite, slice, ltb, leb, ◌==◌, if◌then◌else◌,
}
use cczoecpp.Common.Outcome.{Outcome, done, raised, fault, stuck, out_of_range, ◌>>=◌, ◌>>◌, pure}

pub data Endian : Type 0 where
  little big : Endian

pub record ByteArray : Type 0 where
  pub base_size : ℕ
  pub position : ℕ
  pub capacity : ℕ
  pub size : ℕ
  pub endian : Endian
  pub blocks : List (List ℕ)
  pub curr : Option ℕ
  pub junk : ℕ

abbrev pub M : Type 0 → Type 0
M A = ByteArray → Outcome ByteArray A

-- `new Node(m_baseSize)`
abbrev pub new_node : ℕ → ℕ → List ℕ
new_node base_size junk = replicate base_size junk

pub init : ℕ → ℕ → ByteArray
init base_size junk = record {
  base_size = base_size;
  position = 0;
  capacity = base_size;
  size = 0;
  endian = little;
  blocks = new_node base_size junk ∷ [];
  curr = some 0;
  junk = junk;
}

-- `size_t` subtraction, which wraps.
abbrev pub sub_size : ℕ → ℕ → ℕ
sub_size a b = if leb b a then a - b else a + 2 ^ 64 - b

abbrev pub get_readable_size : ByteArray → ℕ
get_readable_size s = sub_size s.size s.position

abbrev pub get_capacity : ByteArray → ℕ
get_capacity s = sub_size s.capacity s.position

-- The node with index `i` in a chain of `count` nodes; behind the last stands the null pointer.
abbrev pub node_at : ℕ → ℕ → Option ℕ
node_at count i = if ltb i count then some i else none

-- `m_curr->size`
pub curr_size : M ℕ
curr_size s = elim s.curr [
  | none ↦ fault
  | some c ↦ elim (get_elem? s.blocks c) [ none ↦ fault | some b ↦ done (length b) s ]
]

-- `m_curr = m_curr->next`
pub next_node : M (Unit {0})
next_node s = elim s.curr [
  | none ↦ fault
  | some c ↦ done tt (record s { curr = node_at (length s.blocks) (suc c) })
]

-- `memcpy(m_curr->ptr + npos, bytes, n); m_position += n`
pub copy_in : ℕ → List ℕ → M (Unit {0})
copy_in npos bytes s = elim s.curr [
  | none ↦ fault
  | some c ↦ elim (get_elem? s.blocks c) [
    | none ↦ fault
    | some b ↦
        if leb (npos + length bytes) (length b)
        then done tt (record s {
          blocks = set s.blocks c (overwrite npos bytes b);
          position = s.position + length bytes;
        })
        else fault
  ]
]

-- `memcpy(buf, m_curr->ptr + npos, n); m_position += n`
pub copy_out : ℕ → ℕ → M (List ℕ)
copy_out npos n s = elim s.curr [
  | none ↦ fault
  | some c ↦ elim (get_elem? s.blocks c) [
    | none ↦ fault
    | some b ↦
        if leb (npos + n) (length b)
        then done (slice npos n b) (record s { position = s.position + n })
        else fault
  ]
]

-- The `for` loop of `addCapacity`, `count` rounds of it.
pub append_nodes : ℕ → ByteArray → ByteArray
append_nodes zero s = s
append_nodes (suc count) s = append_nodes count (record s {
  blocks = s.blocks ++ (new_node s.base_size s.junk ∷ []);
  capacity = s.capacity + s.base_size;
})

-- `first` of `addCapacity`: the node before the first new one, or null if there is no new one.
pub first_node : ℕ → ℕ → Option ℕ
first_node zero old_count = none
first_node (suc count) old_count = some (old_count - 1)

pub add_capacity : ℕ → M (Unit {0})
add_capacity size s =
    let old_cap = get_capacity s in
    let count = size / s.base_size + (if ltb old_cap (size % s.base_size) then 1 else 0) in
    let grown = append_nodes count s in
    if size == 0
    then done tt s
    else if leb size old_cap
    then done tt s
    else if s.base_size == 0
    then fault
    else if old_cap == 0
    then done tt (record grown { curr = first_node count (length s.blocks) })
    else done tt grown

-- The `while` loop of `write`: `buf` is what is left, from `bpos` on. The last branch takes at
-- least one byte from it in a chain of blocks that are not empty.
pub write_loop : ℕ → List ℕ → ℕ → ℕ → M (Unit {0})
write_loop zero buf npos ncap = λ s. stuck
write_loop (suc fuel) [] npos ncap = pure tt
write_loop (suc fuel) (x ∷ buf) npos ncap = elim (leb (length (x ∷ buf)) ncap) [
  | true ↦ do
    copy_in npos (x ∷ buf)
    n ← curr_size
    if npos + length (x ∷ buf) == n then next_node else pure tt
  | false ↦ do
    copy_in npos (take ncap (x ∷ buf))
    next_node
    n ← curr_size
    write_loop fuel (drop ncap (x ∷ buf)) 0 n
]

-- The last lines of `write`.
pub raise_size : M (Unit {0})
raise_size s = done tt (record s { size = if ltb s.size s.position then s.position else s.size })

-- `m_position % m_baseSize`
pub offset : M ℕ
offset s = if s.base_size == 0 then fault else done (s.position % s.base_size) s

abbrev pub get : M ByteArray
get s = done s s

pub write : List ℕ → M (Unit {0})
write [] = pure tt
write (x ∷ buf) = do
  add_capacity (length (x ∷ buf))
  npos ← offset
  s ← get
  write_loop (suc (length (x ∷ buf))) (x ∷ buf) npos (sub_size s.base_size npos)
  raise_size

-- The `while` loop of `read`: `size` bytes are still to be read.
pub read_loop : ℕ → ℕ → ℕ → ℕ → M (List ℕ)
read_loop zero size npos ncap = λ s. stuck
read_loop (suc fuel) zero npos ncap = pure []
read_loop (suc fuel) (suc size) npos ncap = elim (leb (suc size) ncap) [
  | true ↦ do
    bytes ← copy_out npos (suc size)
    n ← curr_size
    if n == npos + suc size then next_node else pure tt
    pure bytes
  | false ↦ do
    bytes ← copy_out npos ncap
    next_node
    n ← curr_size
    rest ← read_loop fuel (suc size - ncap) 0 n
    pure (bytes ++ rest)
]

pub read : ℕ → M (List ℕ)
read size s =
    if ltb (get_readable_size s) size
    then raised out_of_range s
    else (do npos ← offset; n ← curr_size; read_loop (suc size) size npos (sub_size n npos)) s

-- `read(buf, size, pos) const`: `m_curr` and `m_position` move in a copy, and `pos` is only added to.
pub read_const : ℕ → ℕ → M (List ℕ)
read_const size pos s = elim (read size s) [
  | done bytes t ↦ done bytes s
  | raised e t ↦ raised e s
  | fault ↦ fault
  | stuck ↦ stuck
]

pub clear : ByteArray → ByteArray
clear s = record s {
  position = 0;
  size = 0;
  capacity = s.base_size;
  blocks = take 1 s.blocks;
  curr = some 0;
}

-- The `while` loop of `setPosition`, from the node at `m_curr`.
pub seek_loop : ℕ → ℕ → M (Unit {0})
seek_loop zero pos = λ s. stuck
seek_loop (suc fuel) pos = do
  n ← curr_size
  elim (leb n pos) [ true ↦ next_node >> seek_loop fuel (pos - n) | false ↦ pure tt ]

pub set_position : ℕ → M (Unit {0})
set_position pos s =
    if ltb s.size pos
    then raised out_of_range s
    else seek_loop (suc (length s.blocks)) pos (record s { position = pos })

-- ===== src/SharedBuffer.antt =====
-- lib/SharedBuffer.h: a buffer of bytes with a reader index and a writer index, of 32 bits each. A
-- byte is a number. Memory is a list, whose bytes past the end of the list are the zeros that
-- `allocate` writes; an operation gives none where an assertion fails or memory past the capacity is
-- read. Copies of a buffer share its memory in the source; here each user has the one buffer.
pub mod Cursor
pub mod Writing
pub mod Patching
use pulsar_client_cpp.Prelude.{
  ℕ, zero, suc, ◌+◌, ◌-◌, ◌*◌, ◌/◌, ◌%◌, Option, none, some, List, [], ◌∷◌, ◌++◌, length, drop, leb,
  ltb, Bool, if◌then◌else◌,
}

pub record SharedBuffer : Type 0 where
  pub memory : List ℕ
  pub read_idx : ℕ
  pub write_idx : ℕ
  pub capacity : ℕ

-- The differences of two numbers of 32 bits.
abbrev pub u32_mod : ℕ
u32_mod = 0x1_0000_0000

abbrev pub sub32 : ℕ → ℕ → ℕ
sub32 a b = (a + u32_mod - b) % u32_mod

-- An operation on the buffer, with its result.
abbrev pub M : Type 0 → Type 0
M A = SharedBuffer → Option (A × SharedBuffer)

infixl 5 ◌>>=◌ ◌>>◌
abbrev pub ◌>>=◌ : {A B : Type 0} → M A → (A → M B) → M B
◌>>=◌ m f b = elim (m b) [ none ↦ none | some (a, b') ↦ f a b' ]

abbrev pub ◌>>◌ : {B : Type 0} → M (Unit {0}) → M B → M B
m >> k = m >>= λ _. k

abbrev pub return : {A : Type 0} → A → M A
return a b = some (a, b)

-- The first bytes of a list that goes on with zeros.
abbrev pub take_padded : ℕ → List ℕ → List ℕ
take_padded zero xs = []
take_padded (suc n) [] = 0 ∷ take_padded n []
take_padded (suc n) (x ∷ xs) = x ∷ take_padded n xs

-- `std::copy` into the memory at an index.
unfoldable pub store : ℕ → List ℕ → List ℕ → List ℕ
store i xs memory = take_padded i memory ++ xs ++ drop (i + length xs) memory

-- Numbers in network order.
abbrev pub big_endian : ℕ → List ℕ → ℕ
big_endian n [] = n
big_endian n (x ∷ xs) = big_endian (n * 256 + x) xs

abbrev pub u32_bytes : ℕ → List ℕ
u32_bytes v = v / 0x100_0000 % 256 ∷ v / 0x1_0000 % 256 ∷ v / 256 % 256 ∷ v % 256 ∷ []

abbrev pub u16_bytes : ℕ → List ℕ
u16_bytes v = v / 256 % 256 ∷ v % 256 ∷ []

abbrev pub allocate : ℕ → SharedBuffer
allocate size = record { memory = []; read_idx = 0; write_idx = 0; capacity = size }

abbrev pub take_data : List ℕ → SharedBuffer
take_data bytes = record {
  memory = bytes;
  read_idx = 0;
  write_idx = length bytes;
  capacity = length bytes;
}

unfoldable pub readable_bytes : SharedBuffer → ℕ
readable_bytes b = sub32 b.write_idx b.read_idx

unfoldable pub writable_bytes : SharedBuffer → ℕ
writable_bytes b = sub32 b.capacity b.write_idx

unfoldable pub readable : SharedBuffer → Bool
readable b = ltb 0 (readable_bytes b)

unfoldable pub writable : SharedBuffer → Bool
writable b = ltb 0 (writable_bytes b)

-- So many bytes at `data()`.
unfoldable pub peek : ℕ → M (List ℕ)
peek size b =
    if leb (b.read_idx + size) b.capacity
    then some (take_padded size (drop b.read_idx b.memory), b)
    else none

unfoldable pub consume : ℕ → M (Unit {0})
consume size b =
    if leb size (readable_bytes b)
    then some (tt, record b { read_idx = b.read_idx + size })
    else none

unfoldable pub rollback : ℕ → M (Unit {0})
rollback size b =
    if leb size b.read_idx then some (tt, record b { read_idx = b.read_idx - size }) else none

abbrev pub reset : SharedBuffer → SharedBuffer
reset b = record b { read_idx = 0; write_idx = 0 }

unfoldable pub set_reader_index : ℕ → M (Unit {0})
set_reader_index index b =
    if leb index b.capacity then some (tt, record b { read_idx = index }) else none

unfoldable pub set_writer_index : ℕ → M (Unit {0})
set_writer_index index b =
    if leb index b.capacity then some (tt, record b { write_idx = index }) else none

unfoldable pub skip_bytes : ℕ → M (Unit {0})
skip_bytes size b =
    if leb (b.write_idx + size) b.capacity
    then some (tt, record b { write_idx = b.write_idx + size })
    else none

unfoldable pub bytes_written : ℕ → M (Unit {0})
bytes_written size b =
    if leb size (writable_bytes b)
    then some (tt, record b { write_idx = b.write_idx + size })
    else none

-- `write`: bytes at `mutableData()`, with `bytesWritten`.
unfoldable pub write : List ℕ → M (Unit {0})
write xs b =
    if leb (length xs) (writable_bytes b)
    then bytes_written (length xs) (record b { memory = store b.write_idx xs b.memory })
    else none

unfoldable pub write_unsigned_int : ℕ → M (Unit {0})
write_unsigned_int value = write (u32_bytes value)

unfoldable pub write_unsigned_short : ℕ → M (Unit {0})
write_unsigned_short value = write (u16_bytes value)

unfoldable pub read_unsigned_int : M ℕ
read_unsigned_int b =
    if leb 4 (readable_bytes b)
    then (do bytes ← peek 4; consume 4; return (big_endian 0 bytes)) b
    else none

unfoldable pub read_unsigned_short : M ℕ
read_unsigned_short b =
    if leb 2 (readable_bytes b)
    then (do bytes ← peek 2; consume 2; return (big_endian 0 bytes)) b
    else none

-- The slices have the memory of the buffer.
unfoldable pub slice : ℕ → SharedBuffer → Option SharedBuffer
slice offset b = elim (consume offset b) [ none ↦ none | some (_, b') ↦ some b' ]

unfoldable pub slice_of : ℕ → ℕ → SharedBuffer → Option SharedBuffer
slice_of offset size b = elim (slice offset b) [
  | none ↦ none
  | some b' ↦
      if leb size (readable_bytes b')
      then some (record b' { write_idx = b'.read_idx + size })
      else none
]

unfoldable pub copy : List ℕ → ℕ → Option SharedBuffer
copy bytes size = elim (write (take_padded size bytes) (allocate size)) [
  | none ↦ none
  | some (_, b) ↦ some b
]

-- `copyFrom`: the bytes to read, in a new buffer.
unfoldable pub copy_from : SharedBuffer → ℕ → Option SharedBuffer
copy_from other capacity =
    if leb (readable_bytes other) capacity
    then (elim (peek (readable_bytes other) other) [
      | none ↦ none
      | some (bytes, _) ↦ elim (write bytes (allocate capacity)) [
        | none ↦ none
        | some (_, b) ↦ some b
      ]
    ])
    else none

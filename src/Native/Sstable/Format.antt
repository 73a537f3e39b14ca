-- ===== src/Native/Sstable/Format.antt =====
-- The bytes of an SSTable file: `flushMemtable`, `readValueAt` and the scan of `recoverState` in
-- lib/manager/store/native/sstable_manager.cpp.
pub mod Reads
pub mod Table
use lsmio.Base.{
  ℕ, zero, suc, ◌+◌, ◌*◌, ◌/◌, ◌%◌, ◌^◌, Option, none, some, List, [], ◌∷◌, ◌++◌, Bytes, beq, leb,
  length, take, drop, if◌then◌else◌,
}
use lsmio.Native.Sstable.Index.{Entry}

infixl 5 ◌>>=◌
abbrev ◌>>=◌ {ℓ κ} : {A : Type ℓ} {B : Type κ} → Option A → (A → Option B) → Option B
none >>= f = none
some a >>= f = f a

abbrev pub u32_mod : ℕ
u32_mod = 2 ^ 32

-- The bytes of a `uint32_t` in memory, on a little-endian machine.
unfoldable pub u32_bytes : ℕ → Bytes
u32_bytes n = (n % 256) ∷ (n / 256 % 256) ∷ (n / 65536 % 256) ∷ (n / 16777216 % 256) ∷ []

unfoldable pub serialize_entry : Bytes × Bytes → Bytes
unfolding u32_bytes
serialize_entry (key, value) =
    let key_len = length key % u32_mod in
    let val_len = length value % u32_mod in
    u32_bytes key_len ++ (take key_len key ++ (u32_bytes val_len ++ take val_len value))

-- All records of a table, one behind the other.
unfoldable pub serialize : List (Bytes × Bytes) → Bytes
unfolding serialize_entry
serialize [] = []
serialize (e ∷ es) = serialize_entry e ++ serialize es

-- `tellp()` before each record is written.
unfoldable pub offsets_from : ℕ → List (Bytes × Bytes) → List Entry
unfolding serialize_entry
offsets_from offset [] = []
offsets_from offset ((key, value) ∷ es) =
    (key, offset) ∷ offsets_from (offset + length (serialize_entry (key, value))) es

-- A `uint32_t` at the reading position, and what follows; `none` if the read fails.
unfoldable pub read_u32 : Bytes → Option (ℕ × Bytes)
read_u32 (a ∷ b ∷ c ∷ d ∷ s) = some (a + 256 * b + 65536 * c + 16777216 * d, s)
read_u32 _ = none

unfoldable pub read_exact : ℕ → Bytes → Option (Bytes × Bytes)
read_exact n s = if leb n (length s) then some (take n s, drop n s) else none

-- `readValueAt` on the contents of the file.
unfoldable pub read_value_at : Bytes → ℕ → Bytes → Option Bytes
unfolding read_u32 read_exact
read_value_at file offset key = do
  (key_len, s1) ← read_u32 (drop offset file)
  (key_from_file, s2) ← read_exact key_len s1
  if beq key_from_file key
      then (do (val_len, s3) ← read_u32 s2; (value, s4) ← read_exact val_len s3; some value)
      else none

-- One round of the loop of `recoverState`: the key, the length of the record and what follows it.
unfoldable pub read_header : Bytes → Option (Bytes × ℕ × Bytes)
unfolding read_u32 read_exact
read_header s = do
  (key_len, s1) ← read_u32 s
  (key, s2) ← read_exact key_len s1
  (val_len, s3) ← read_u32 s2
  some (key, 8 + key_len + val_len, drop val_len s3)

-- `while (sst_file.peek() != EOF)`. Each round takes eight bytes or more, so the length is fuel.
unfoldable pub index_file : ℕ → ℕ → Bytes → List Entry
unfolding read_header
index_file zero offset s = []
index_file (suc fuel) offset [] = []
index_file (suc fuel) offset (c ∷ s) = elim (read_header (c ∷ s)) [
  | none ↦ []
  | some (key, size, rest) ↦ (key, offset) ∷ index_file fuel (offset + size) rest
]

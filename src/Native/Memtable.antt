-- ===== src/Native/Memtable.antt =====
-- Memtable: lib/manager/store/native/memtable.cpp and its header.
pub mod Lookup
pub mod Scan
use mathlib.Core.List.{foldl}
use lsmio.Base.{
  ℕ, ◌+◌, ◌%◌, ◌^◌, Bool, true, false, Option, List, [], ◌∷◌, ◌++◌, reverse, Bytes, codes, beq,
  starts_with, length, lookup, insert, erase, set_insert, set_erase, if◌then◌else◌,
}

-- MEMTABLE_TOMBSTONE
abbrev pub tombstone : Bytes
tombstone = codes "__LSM_TOMBSTONE_v1__"

-- One more than the largest `size_t`.
abbrev pub size_mod : ℕ
size_mod = 2 ^ 64

-- `_data` (oldest entry first) and `_size_bytes`
pub record Memtable : Type 0 where
  pub entries : List (Bytes × Bytes)
  pub size_bytes : ℕ

abbrev pub new : Memtable
new = record { entries = []; size_bytes = 0 }

unfoldable pub add : Memtable → Bytes → Bytes → Memtable
add m key value = record {
  entries = m.entries ++ (key, value) ∷ [];
  size_bytes = (m.size_bytes + (length key + length value)) % size_mod;
}

-- The reverse scan.
unfoldable pub get : Memtable → Bytes → Option Bytes
get m key = lookup key (reverse m.entries)

-- The two out-parameters of a scan.
pub record Found : Type 0 where
  pub results : List (Bytes × Bytes)
  pub deleted_keys : List Bytes

abbrev pub nothing : Found
nothing = record { results = []; deleted_keys = [] }

unfoldable pub scan_entry : Bytes → Found → Bytes × Bytes → Found
scan_entry prefix f (key, value) =
    if starts_with prefix key
    then if beq value tombstone
      then record { results = erase key f.results; deleted_keys = set_insert key f.deleted_keys }
      else record {
        results = insert key value f.results;
        deleted_keys = set_erase key f.deleted_keys;
      }
    else f

unfoldable pub scan : Memtable → Bytes → Found → Found
unfolding scan_entry
scan m prefix f = foldl (scan_entry prefix) f m.entries

abbrev pub empty : Memtable → Bool
empty m = elim m.entries [ [] ↦ true | _ ↦ false ]

abbrev pub count : Memtable → ℕ
count m = length m.entries

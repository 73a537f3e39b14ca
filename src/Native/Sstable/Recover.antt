-- ===== src/Native/Sstable/Recover.antt =====
-- `recoverState` of lib/manager/store/native/sstable_manager.cpp: the tables that a directory holds.
pub mod Names
pub mod Tables
pub mod Sorting
use Prim.Native.Nat.{max}
use mathlib.Core.List.{foldl}
use lsmio.Base.{
  ℕ, ◌+◌, ◌-◌, ◌%◌, Bool, true, false, ◌&&◌, ◌||◌, Option, none, some, List, [], ◌∷◌, Bytes, codes,
  beq, blt, starts_with, leb, ltb, ◌==◌, length, drop, take, value_from, if◌then◌else◌,
}
use lsmio.Native.FilePool
use lsmio.Native.FilePool.{Disk, u64_mod}
use lsmio.Native.FileCloser
use lsmio.Native.Sstable.Index.{index_of}
use lsmio.Native.Sstable.Format.{index_file}
use lsmio.Native.Sstable.{L0Index, SstableManager, contents}

-- `std::stoull`: white space, a sign, digits; `none` if it throws.
is_space : ℕ → Bool
is_space c = c == 32 || (leb 9 c && leb c 13)

unfoldable pub skip_space : Bytes → Bytes
unfolding is_space
skip_space [] = []
skip_space (c ∷ s) = let rest = skip_space s in if is_space c then rest else c ∷ s

unfoldable pub leading_digits : Bytes → Bytes
leading_digits [] = []
leading_digits (c ∷ s) =
    let rest = c ∷ leading_digits s in if leb b'0' c && leb c b'9' then rest else []

unfoldable pub to_number : Bytes → Option ℕ
to_number [] = none
to_number (c ∷ s) = if ltb (value_from 0 (c ∷ s)) u64_mod then some (value_from 0 (c ∷ s)) else none

negated : Option ℕ → Option ℕ
negated none = none
negated (some n) = some ((u64_mod - n) % u64_mod)

stoull_signed : Bytes → Option ℕ
stoull_signed [] = none
stoull_signed (c ∷ s) =
    if c == b'-'
    then negated (to_number (leading_digits s))
    else if c == b'+'
    then to_number (leading_digits s)
    else to_number (leading_digits (c ∷ s))

unfoldable pub stoull : Bytes → Option ℕ
unfolding skip_space leading_digits to_number negated stoull_signed
stoull s = stoull_signed (skip_space s)

-- The id of a table's file name, "L0-<id>.sst"; `none` for other files.
unfoldable pub recover_id : Bytes → Option ℕ
unfolding stoull
recover_id name =
    if starts_with (codes "L0-") name && beq (drop (length name - 4) name) (codes ".sst")
    then stoull (take (length name - 7) (drop 3 name))
    else none

unfoldable pub found_files : Bytes → List Bytes → List (ℕ × Bytes)
unfolding recover_id
found_files dir [] = []
found_files dir (name ∷ names) =
    let rest = found_files dir names in
    elim (recover_id name) [ none ↦ rest | some id ↦ (id, FilePool.join dir name) ∷ rest ]

unfoldable pub max_id : List (ℕ × Bytes) → ℕ
max_id [] = 0
max_id ((id, path) ∷ l) = max id (max_id l)

-- The order of `std::pair<uint64_t, std::string>`.
unfoldable pub insert_file : ℕ × Bytes → List (ℕ × Bytes) → List (ℕ × Bytes)
insert_file (i, p) [] = (i, p) ∷ []
insert_file (i, p) ((j, q) ∷ l) =
    let rest = insert_file (i, p) l in
    if ltb i j || (i == j && blt p q) then (i, p) ∷ (j, q) ∷ l else (j, q) ∷ rest

unfoldable pub sort_files : List (ℕ × Bytes) → List (ℕ × Bytes)
unfolding insert_file
sort_files [] = []
sort_files (f ∷ l) = insert_file f (sort_files l)

-- The node of a file: its records are indexed as far as they can be read.
unfoldable pub recover_node : Disk → ℕ × Bytes → L0Index
recover_node disk (id, path) = record {
  path = path;
  offsets = index_of (let file = contents disk path in index_file (length file) 0 file);
}

unfoldable pub recover_nodes : Disk → List (ℕ × Bytes) → List L0Index
unfolding recover_node
recover_nodes disk files = foldl (λ head file. recover_node disk file ∷ head) [] files

-- `names` are the files of the directory, in the order in which the iterator gives them.
unfoldable pub recover_state : Bytes → List Bytes → Disk → ℕ → ℕ → SstableManager
unfolding found_files max_id sort_files recover_nodes
recover_state dir names disk file_pool_size pre_allocation = record {
  head = recover_nodes disk (sort_files (found_files dir names));
  file_pool =
      FilePool.new dir (codes "L0-") (codes ".sst") file_pool_size
        ((max_id (found_files dir names) + 1) % u64_mod) pre_allocation;
  file_closer = FileCloser.new file_pool_size;
  disk = disk;
}

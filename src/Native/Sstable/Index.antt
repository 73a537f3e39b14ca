-- ===== src/Native/Sstable/Index.antt =====
-- The offset index of one SSTable: sorting, `std::unique` and `std::lower_bound` as
-- lib/manager/store/native/sstable_manager.cpp uses them.
pub mod Sorted
pub mod Lookup
pub mod Strict
use lsmio.Base.{ℕ, Bool, Option, none, some, List, [], ◌∷◌, Bytes, beq, blt, ltb, if◌then◌else◌}

-- A key with the offset of its record.
abbrev pub Entry : Type 0
Entry = Bytes × ℕ

-- The comparator of `std::sort`: keys upwards, then offsets downwards.
unfoldable pub entry_less : Entry → Entry → Bool
entry_less (j, o) (k, p) = if beq j k then ltb p o else blt j k

unfoldable pub sort_insert : Entry → List Entry → List Entry
sort_insert e [] = e ∷ []
sort_insert e (f ∷ l) = let rest = sort_insert e l in if entry_less e f then e ∷ f ∷ l else f ∷ rest

unfoldable pub sort : List Entry → List Entry
sort [] = []
sort (e ∷ l) = sort_insert e (sort l)

-- `std::unique`: an entry goes if the entry kept last has its key.
unfoldable pub unique_after : Bytes → List Entry → List Entry
unique_after k [] = []
unique_after k ((j, o) ∷ l) =
    let same = unique_after k l in
    let other = (j, o) ∷ unique_after j l in if beq k j then same else other

unfoldable pub unique : List Entry → List Entry
unfolding unique_after
unique [] = []
unique ((j, o) ∷ l) = (j, o) ∷ unique_after j l

-- The index that a list of offsets in file order becomes.
unfoldable pub index_of : List Entry → List Entry
unfolding sort unique sort_insert entry_less
index_of offsets = unique (sort offsets)

-- The entries from `std::lower_bound` on.
unfoldable pub lower_bound : Bytes → List Entry → List Entry
lower_bound k [] = []
lower_bound k ((j, o) ∷ l) = let rest = lower_bound k l in if blt j k then rest else (j, o) ∷ l

unfoldable pub at_first : Bytes → List Entry → Option ℕ
at_first k [] = none
at_first k ((j, o) ∷ l) = if beq j k then some o else none

-- `offset_it != offsets.end() && offset_it->first == key`
unfoldable pub find_offset : Bytes → List Entry → Option ℕ
unfolding lower_bound at_first
find_offset k offsets = at_first k (lower_bound k offsets)

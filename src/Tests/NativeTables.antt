-- ===== src/Tests/NativeTables.antt =====
-- The theorems on memtables, files and SSTables at concrete inputs.
use lsmio.Base.{
  ℕ, ◌≤◌, ◌≡◌, true, false, List, [], ◌∷◌, ◌++◌, arith, Bytes, codes, last_lookup, map, length,
}
use lsmio.Native.Memtable.{Memtable}
use lsmio.Native.FilePool
use lsmio.Native.FilePool.{FilePool, path_of, file_name, u64_mod}
use lsmio.Native.FilePool.Order.{acquires, replenishes, init, Ids, run, handed_out_in_order}
use lsmio.Native.FileCloser
use lsmio.Native.FileCloser.Order
use lsmio.Native.FileCloser.Order.{closed-close_remaining}
use lsmio.Native.Sstable
use lsmio.Native.Sstable.{SstableManager}
use lsmio.Native.Sstable.Index.{index_of, find_offset}
use lsmio.Native.Sstable.Index.Lookup.{find_offset-index_of}
use lsmio.Native.Sstable.Format.{serialize, offsets_from, index_file}
use lsmio.Native.Sstable.Format.Table.{table_get, table_get-serialize, index_file-whole}
use lsmio.Native.Sstable.Flush.{Promise, flush_memtable-Promise}
use lsmio.Native.Sstable.Fresh.{IsFresh, replenish, replenish-IsFresh}
use lsmio.Native.Sstable.Recover.{recover_state}
use lsmio.Native.Sstable.Recover.Tables.{Table, recover_state-IsFresh}

abbrev entries : List (Bytes × Bytes)
entries = (codes "b", codes "1") ∷ (codes "a", codes "2") ∷ (codes "b", codes "3") ∷ []

abbrev table : Memtable
table = record { entries = entries; size_bytes = 6 }

find_offset-index_of_example :
    find_offset (codes "b") (index_of ((codes "b", 0) ∷ (codes "a", 10) ∷ (codes "b", 20) ∷ []))
    ≡ last_lookup (codes "b") ((codes "b", 0) ∷ (codes "a", 10) ∷ (codes "b", 20) ∷ [])
find_offset-index_of_example =
    find_offset-index_of (codes "b") ((codes "b", 0) ∷ (codes "a", 10) ∷ (codes "b", 20) ∷ [])
      (omega arith)

table_get-serialize_example :
    table_get (serialize entries ++ codes "tail") (index_of (offsets_from 0 entries)) (codes "b")
    ≡ last_lookup (codes "b") entries
table_get-serialize_example = table_get-serialize entries (codes "tail") (codes "b") (omega arith)

index_file-whole_example :
    index_file (length (serialize entries)) 0 (serialize entries) ≡ offsets_from 0 entries
index_file-whole_example = index_file-whole entries (omega arith)

handed_out_in_order_example :
    let s =
      run
        (init (codes "db") (codes "L0-") (codes ".sst") 2 0 0 [])
        (replenishes true false ∷ acquires ∷ replenishes true false ∷ []) in
    (length s.fp.pool ≤ 2)
    × ((ids : List ℕ) × Ids 0 s.fp.next_id ids
        × (s.handed ++ s.fp.pool ≡ map (path_of (codes "db") (codes "L0-") (codes ".sst")) ids))
handed_out_in_order_example =
    handed_out_in_order (codes "db") (codes "L0-") (codes ".sst") 2 0 0 []
      (replenishes true false ∷ acquires ∷ replenishes true false ∷ []) (omega arith)

closed-close_remaining_example :
    (FileCloser.close_remaining (
      FileCloser.Order.run (FileCloser.new 2) (
        FileCloser.Order.schedules (codes "a")
        ∷ FileCloser.Order.schedules (codes "b")
        ∷ FileCloser.Order.works
        ∷ FileCloser.Order.schedules (codes "c")
        ∷ []))).closed
    ≡ codes "a" ∷ codes "b" ∷ codes "c" ∷ []
closed-close_remaining_example = closed-close_remaining 2 (
    FileCloser.Order.schedules (codes "a")
    ∷ FileCloser.Order.schedules (codes "b")
    ∷ FileCloser.Order.works
    ∷ FileCloser.Order.schedules (codes "c")
    ∷ [])

-- A manager whose pool holds one fresh file.
abbrev manager : SstableManager
manager = record {
  head = [];
  file_pool = record (FilePool.new (codes "db") (codes "L0-") (codes ".sst") 2 1 0) {
    pool = path_of (codes "db") (codes "L0-") (codes ".sst") 0 ∷ [];
  };
  file_closer = FileCloser.new 2;
  disk = [];
}

flush_memtable-Promise_example :
    Promise manager table (codes "b") (Sstable.flush_memtable manager table true)
unfolding FilePool.new
flush_memtable-Promise_example =
    flush_memtable-Promise manager table true (codes "b") (tt, tt) (omega arith)

-- A new manager, whose pool is still empty.
abbrev first_manager : SstableManager
first_manager = recover_state (codes "db") [] [] 2 0

replenish-IsFresh_example : IsFresh (replenish first_manager true false)
unfolding recover_state FilePool.new
replenish-IsFresh_example =
    replenish-IsFresh first_manager (omega arith)
      (recover_state-IsFresh (codes "db") [] [] 2 0 (omega arith)) true false

-- A directory with one table and another file.
abbrev names : List Bytes
names = codes "LOCK" ∷ codes "L0-000004.sst" ∷ []

abbrev written : Table
written = record { id = 4; path = codes "db/L0-000004.sst"; entries = entries }

abbrev disk : List (Bytes × Bytes)
disk = (codes "db/L0-000004.sst", serialize entries) ∷ []

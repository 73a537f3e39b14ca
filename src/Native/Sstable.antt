-- ===== src/Native/Sstable.antt =====
-- SSTableManager: lib/manager/store/native/sstable_manager.cpp and its header. The atomic list of
-- index nodes is a list, newest first; the files are a map from paths to bytes.
pub mod Index
pub mod Format
pub mod Read
pub mod Scan
pub mod Flush
pub mod Fresh
pub mod Recover
pub mod Laid
pub mod Restart
use lsmio.Base.{
  ℕ, ◌+◌, ◌-◌, ◌*◌, ◌%◌, Bool, true, false, ◌&&◌, ◌||◌, Option, none, some, List, [], ◌∷◌, ◌++◌,
  Bytes, codes, beq, blt, starts_with, leb, ltb, ◌==◌, length, drop, lookup, insert, member,
  set_insert, if◌then◌else◌,
}
use lsmio.Native.Memtable
use lsmio.Native.Memtable.{Memtable, Found, tombstone}
use lsmio.Native.FilePool
use lsmio.Native.FilePool.{Disk, FilePool, u64_mod}
use lsmio.Native.FileCloser
use lsmio.Native.FileCloser.{FileCloser}
use Index.{Entry, index_of, find_offset, lower_bound}
use Format.{serialize, offsets_from, read_value_at, index_file}

pub record L0Index : Type 0 where
  pub path : Bytes
  pub offsets : List Entry

pub record SstableManager : Type 0 where
  pub head : List L0Index
  pub file_pool : FilePool
  pub file_closer : FileCloser
  pub disk : Disk

-- Bytes written from the start of a file: what lies behind them stays.
unfoldable pub write_over : Bytes → Bytes → Bytes
write_over old written = written ++ drop (length written) old

abbrev pub contents : Disk → Bytes → Bytes
contents disk path = elim (lookup path disk) [ none ↦ [] | some file ↦ file ]

-- How a flush ends: it returns true or false with the new state, waits for a file, or throws.
pub data Flushed : Type 0 where
  returns : Bool → SstableManager → Flushed
  blocks : Flushed
  throws : Flushed

-- The records are written, the file goes to the closer, and the index node to the list's head.
unfoldable pub write_table : SstableManager → Bytes → FilePool → Memtable → SstableManager
write_table s path fp m = record {
  head = record { path = path; offsets = index_of (offsets_from 0 m.entries) } ∷ s.head;
  file_pool = fp;
  file_closer = FileCloser.schedule_close s.file_closer path;
  disk = insert path (write_over (contents s.disk path) (serialize m.entries)) s.disk;
}

unfoldable pub flush_to : SstableManager → Memtable → Bool → FilePool.Acquired → Flushed
flush_to s m good FilePool.Acquired.blocked = blocks
flush_to s m good FilePool.Acquired.shutting_down = throws
flush_to s m good (FilePool.Acquired.got path fp) =
    if good
    then returns true (write_table s path fp m)
    else returns false (record s { file_pool = fp })

-- `good` is the state of the stream that comes with the file.
unfoldable pub flush_memtable : SstableManager → Memtable → Bool → Flushed
unfolding write_table flush_to
flush_memtable s m good =
    if Memtable.empty m then returns true s else flush_to s m good (FilePool.acquire s.file_pool)

unfoldable pub read_value : Disk → Bytes → ℕ → Bytes → Option Bytes
read_value disk path offset key = elim (lookup path disk) [
  | none ↦ none
  | some file ↦ read_value_at file offset key
]

unfoldable pub node_get : Disk → L0Index → Bytes → Option Bytes
unfolding read_value
node_get disk node key = elim (find_offset key node.offsets) [
  | none ↦ none
  | some offset ↦ read_value disk node.path offset key
]

-- The nodes are tried from the newest to the oldest, until one gives a value.
unfoldable pub nodes_get : Disk → List L0Index → Bytes → Option Bytes
unfolding node_get
nodes_get disk [] key = none
nodes_get disk (node ∷ older) key =
    let rest = nodes_get disk older key in
    elim (node_get disk node key) [ none ↦ rest | some v ↦ some v ]

unfoldable pub get : SstableManager → Bytes → Option Bytes
get s key = nodes_get s.disk s.head key

-- A value from disk enters the results, or the deleted keys.
unfoldable pub visit : Bytes → Option Bytes → Found → Found
visit key none f = f
visit key (some value) f =
    if beq value tombstone
    then record f { deleted_keys = set_insert key f.deleted_keys }
    else record f { results = insert key value f.results }

abbrev pub is_new : Bytes → Found → Bool
is_new key f = elim (lookup key f.results) [
  | some v ↦ false
  | none ↦ if member key f.deleted_keys then false else true
]

unfoldable pub scan_offsets : Disk → Bytes → Bytes → List Entry → Found → Found
unfolding visit read_value
scan_offsets disk path prefix [] f = f
scan_offsets disk path prefix ((key, offset) ∷ l) f =
    let next = if is_new key f then visit key (read_value disk path offset key) f else f in
    let rest = scan_offsets disk path prefix l next in if starts_with prefix key then rest else f

unfoldable pub scan_nodes : Disk → Bytes → List L0Index → Found → Found
unfolding scan_offsets
scan_nodes disk prefix [] f = f
scan_nodes disk prefix (node ∷ older) f =
    scan_nodes disk prefix older
      (scan_offsets disk node.path prefix (lower_bound prefix node.offsets) f)

unfoldable pub scan : SstableManager → Bytes → Found → Found
scan s prefix f = scan_nodes s.disk prefix s.head f

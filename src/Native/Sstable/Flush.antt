-- ===== src/Native/Sstable/Flush.antt =====
-- A flushed memtable answers from its file as it did from memory.
use lsmio.Base.{
  ◌≡◌, refl, sym, ap₂, ◌∙◌, ◌++◌, Bool, true, false, none, some, List, [], ◌∷◌, arith, Bytes,
  beq_refl, All, lookup, insert, lookup-insert, last_lookup, or_else, length, drop, if_cases,
}
use lsmio.Native.Memtable
use lsmio.Native.Memtable.{Memtable}
use lsmio.Native.Memtable.Lookup.{get-last_lookup}
use lsmio.Native.FilePool
use lsmio.Native.FilePool.{FilePool}
use lsmio.Native.Sstable.Index.{index_of}
use lsmio.Native.Sstable.Format.{serialize, offsets_from}
use lsmio.Native.Sstable.Format.Reads.{IsSmall}
use lsmio.Native.Sstable.Format.Table.{table_get-serialize}
use lsmio.Native.Sstable.Read.{IsUnused, node_get-table_get, nodes_get-insert, nodes_get-cons}
use lsmio.Native.Sstable.{
  SstableManager, L0Index, Flushed, returns, blocks, throws, write_over, contents, write_table,
  flush_to, flush_memtable, get,
}

lookup-insert_self : (k v : Bytes) (m : List (Bytes × Bytes)) → lookup k (insert k v m) ≡ some v
lookup-insert_self k v m = rw (lookup-insert k k v m, beq_refl k)

-- What `get` reads after a table was written to an unused file: the newest value of the memtable,
-- or else what it read before.
pub get-write_table :
    (s : SstableManager) (path : Bytes) (fp : FilePool) (m : Memtable) (k : Bytes)
    → IsUnused path s.head
    → All IsSmall m.entries
    → get (write_table s path fp m) k ≡ or_else (Memtable.get m k) (get s k)
unfolding get write_table write_over
get-write_table s path fp m k unused small =
    nodes_get-cons disk k node s.head
    ∙ ap₂ or_else
        (node_get-table_get disk node file k (lookup-insert_self path file s.disk)
          ∙ table_get-serialize m.entries rest k small
          ∙ sym (get-last_lookup m k))
        (nodes_get-insert s.disk path file k s.head unused)
  where
    rest : Bytes
    rest = drop (length (serialize m.entries)) (contents s.disk path)

    file : Bytes
    file = serialize m.entries ++ rest

    disk : List (Bytes × Bytes)
    disk = insert path file s.disk

    node : L0Index
    node = record { path = path; offsets = index_of (offsets_from 0 m.entries) }

entries_of_empty : (es : List (Bytes × Bytes)) (k : Bytes) → length es ≡ 0 → last_lookup k es ≡ none
unfolding last_lookup
entries_of_empty [] k e = refl
entries_of_empty (x ∷ es) k e = absurd (omega arith)

-- An empty memtable has no value.
pub empty_get : (m : Memtable) (k : Bytes) → Memtable.empty m ≡ true → Memtable.get m k ≡ none
empty_get m k e = get-last_lookup m k ∙ entries_of_empty m.entries k (ground arith)

-- What each way of returning promises to a reader of key `k`.
abbrev pub Promise : SstableManager → Memtable → Bytes → Flushed → Type 0
Promise s m k (returns true t) = get t k ≡ or_else (Memtable.get m k) (get s k)
Promise s m k (returns false t) = get t k ≡ get s k
Promise s m k blocks = (s.file_pool.pool ≡ []) × (s.file_pool.shutdown ≡ false)
Promise s m k throws = (s.file_pool.pool ≡ []) × (s.file_pool.shutdown ≡ true)

hand_out-Promise :
    (s : SstableManager) (m : Memtable) (k : Bytes) (good : Bool) (pool : List Bytes)
    → s.file_pool.pool ≡ pool
    → All (λ path. IsUnused path s.head) pool
    → All IsSmall m.entries
    → Promise s m k (flush_to s m good (FilePool.hand_out s.file_pool pool))
unfolding flush_to FilePool.hand_out
hand_out-Promise s m k good [] e unused small =
    if_cases (λ a. Promise s m k (flush_to s m good a)) s.file_pool.shutdown _ _ (λ down. (e, down))
      (λ up. (e, up))
hand_out-Promise s m k good (path ∷ rest) e unused small =
    if_cases (Promise s m k) good _ _
      (λ _. get-write_table s path (record s.file_pool { pool = rest }) m k unused.0 small)
      (λ _. unfold get in refl)

-- With no file of the pool in use and lengths below 2^32: a flush that returns true gives every
-- lookup the newest value of the memtable or else the old one; one that returns false changes no
-- lookup; it blocks only with no file in the pool and the pool up, and throws only with no file
-- and the pool shut down.
pub flush_memtable-Promise :
    (s : SstableManager) (m : Memtable) (good : Bool) (k : Bytes)
    → All (λ path. IsUnused path s.head) s.file_pool.pool
    → All IsSmall m.entries
    → Promise s m k (flush_memtable s m good)
unfolding flush_memtable FilePool.acquire
flush_memtable-Promise s m good k unused small =
    if_cases (Promise s m k) (Memtable.empty m) _ _ (λ e. rw (empty_get m k e))
      (λ _. hand_out-Promise s m k good s.file_pool.pool refl unused small)

-- The flush did not give the table up.
abbrev pub IsKept : Flushed → Type 0
IsKept (returns true t) = Unit
IsKept (returns false t) = ⊥
IsKept blocks = Unit
IsKept throws = Unit

pub flush_memtable-IsKept : (s : SstableManager) (m : Memtable) → IsKept (flush_memtable s m true)
unfolding flush_memtable flush_to FilePool.acquire FilePool.hand_out
flush_memtable-IsKept s m =
    if_cases IsKept (Memtable.empty m) _ _ (λ _. tt) (λ _. go s.file_pool.pool)
  where
    go : (pool : List Bytes) → IsKept (flush_to s m true (FilePool.hand_out s.file_pool pool))
    go [] =
        if_cases (λ a. IsKept (flush_to s m true a)) s.file_pool.shutdown _ _ (λ _. tt) (λ _. tt)
    go (path ∷ rest) = tt

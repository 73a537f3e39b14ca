-- ===== src/Store/Rdb.antt =====
-- LSMIOStoreRDB: lib/manager/store/store_rdb.cpp and its header. RocksDB is a parameter, the calls of
-- LevelDB's interface that the store makes of it, and its flush.
pub mod Opening
pub mod Lives
use lsmio.Base.{◌≡◌, Bool, true, some, List, Bytes}
use lsmio.Store.{LsmioStore, MutationType, put, del}
use lsmio.Store.Laws.{IsMap, IsListing}
use lsmio.Store.Ldb.{Database, while_prefix}
use lsmio.Store.Ldb.Order.{IsReliable}
use lsmio.Store.Ldb.Prefixes.{IsOrdered, while_prefix-holds, while_prefix-lists}

module _ {D : Type 0} (database : Database D) (flush_memtable : D → Bool × D) where
  unfoldable pub get_prefix : D → Bytes → Bool × List (Bytes × Bytes)
  get_prefix d key =
      let (status, entries) = database.entries_from d key in (status, while_prefix key entries)

  -- `flush` is not applicable: every mutation goes to the database.
  unfoldable pub batch_mutation : D → MutationType → Bytes → Bytes → Bool → Bool × D
  batch_mutation d put key value flush = database.put d key value
  batch_mutation d del key value flush = database.delete d key

  abbrev pub start_batch : D → Bool × D
  start_batch d = (true, d)

  abbrev pub stop_batch : D → Bool × D
  stop_batch d = (true, d)

  abbrev pub read_barrier : D → Bool × D
  read_barrier d = (true, d)

  abbrev pub write_barrier : D → Bool × D
  write_barrier d = flush_memtable d

  abbrev pub rdb_store : LsmioStore D
  rdb_store = record {
    get = database.get;
    get_prefix = get_prefix;
    batch_mutation = batch_mutation;
    stop_batch = stop_batch;
    read_barrier = read_barrier;
    write_barrier = write_barrier;
  }

  -- Over a database whose writes succeed and whose flush changes no key, the RocksDB store is a map:
  -- each put and del is seen by the next get of its key, and by no other, with or without flush.
  pub rdb_store-IsMap :
      IsReliable database
      → ((d : D) (k : Bytes) → database.get (flush_memtable d).1 k ≡ database.get d k)
      → IsMap rdb_store some
  unfolding batch_mutation
  rdb_store-IsMap reliable kept = record {
    get-put = λ d k j v flush. reliable.get-put d k j v;
    get-del = λ d k j flush. reliable.get-delete d k j;
    get-write_barrier = kept;
  }

  -- Over a database whose iterator goes through its keys in order, getPrefix lists what get gives
  -- under the keys with the prefix.
  pub rdb_store-IsListing : IsOrdered database → IsListing rdb_store
  unfolding get_prefix
  rdb_store-IsListing ordered = record {
    holds = while_prefix-holds database ordered;
    lists = while_prefix-lists database ordered;
  }

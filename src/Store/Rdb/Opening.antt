-- ===== src/Store/Rdb/Opening.antt =====
-- The constructor and `close` of lib/manager/store/store_rdb.cpp: the options that the
-- configuration becomes.
use lsmio.Base.{
  ℕ, ◌≡◌, refl, Bool, true, false, not, ◌&&◌, Option, none, some, Bytes, ltb, if◌then◌else◌, arith,
}
use lsmio.Config.{LsmioConfig}
use lsmio.Store.Opening.{Engine, Opened, opened, aborts, open_database}

pub data Compression : Type 0 where
  no_compression : Compression
  default_compression : Compression

-- `BlockBasedTableOptions`; `none` leaves the library's default.
pub record TableOptions : Type 0 where
  pub bloom_bits : Option ℕ
  pub block_cache : Option ℕ
  pub block_size : ℕ

-- `rocksdb::Options` as far as the store sets them.
pub record Options : Type 0 where
  pub create_if_missing : Bool
  pub compression : Compression
  pub table : TableOptions
  pub write_buffer_size : ℕ
  pub max_write_buffer_number : ℕ
  pub writable_file_max_buffer_size : ℕ
  pub max_write_batch_group_size_bytes : ℕ
  pub compaction_style_none : Bool
  pub level0_file_num_compaction_trigger : ℕ
  pub disable_auto_compactions : Bool
  pub skip_stats_update_on_db_open : Bool
  pub allow_mmap_writes : Bool
  pub allow_mmap_reads : Bool
  pub allow_fallocate : Bool
  pub max_successive_merges : ℕ

-- `rocksdb::WriteOptions`
pub record WriteOptions : Type 0 where
  pub disable_wal : Bool
  pub sync : Bool

unfoldable pub table_options : LsmioConfig → TableOptions
table_options config = record {
  bloom_bits = if config.use_bloom_filter then some 10 else none;
  block_cache = if ltb 0 config.cache_size then some config.cache_size else none;
  block_size = config.block_size;
}

unfoldable pub options_of : LsmioConfig → Options
unfolding table_options
options_of config = record {
  create_if_missing = true;
  compression = if not config.compression then no_compression else default_compression;
  table = table_options config;
  write_buffer_size = config.write_buffer_size;
  max_write_buffer_number = config.write_buffer_number;
  writable_file_max_buffer_size = config.write_file_size;
  max_write_batch_group_size_bytes = config.async_batch_bytes;
  compaction_style_none = true;
  level0_file_num_compaction_trigger = 1024;
  disable_auto_compactions = true;
  skip_stats_update_on_db_open = false;
  allow_mmap_writes = config.enable_mmap;
  allow_mmap_reads = config.enable_mmap;
  allow_fallocate = config.pre_allocate;
  max_successive_merges = 4096;
}

-- Synchronous writes are asked for only where there is a log to write.
unfoldable pub write_options_of : LsmioConfig → WriteOptions
write_options_of config = record {
  disable_wal = not config.enable_wal;
  sync = if config.use_sync then if config.enable_wal then config.use_sync else false else false;
}

-- The library refuses a synchronous write with the log disabled; the store asks for none.
pub IsAccepted : WriteOptions → Type 0
IsAccepted o = (o.sync && o.disable_wal) ≡ false

pub write_options_of-IsAccepted : (config : LsmioConfig) → IsAccepted (write_options_of config)
unfolding write_options_of IsAccepted
write_options_of-IsAccepted config = ground arith

-- `_wOptions` and `_db`, a null pointer after `close`.
pub record RdbStore (D : Type 0) : Type 0 where
  pub write_options : WriteOptions
  pub db : Option D

module _ {F D : Type 0} (engine : Engine Options F D) where
  with_options : LsmioConfig → Opened D → Opened (RdbStore D)
  with_options config (opened d) =
      opened (record { write_options = write_options_of config; db = some d })
  with_options config aborts = aborts

  unfoldable pub construct : LsmioConfig → Bool → Bytes → F → Opened (RdbStore D)
  unfolding with_options
  construct config over_write path f =
      with_options config (open_database engine (options_of config) over_write path f)

-- `close`: the status of `writeBarrier` is dropped. `close_db` gives the files of a database.
unfoldable pub close :
    {F D : Type 0} (flush_memtable : D → Bool × D) (close_db : D → F)
    → RdbStore D
    → Option F × RdbStore D
close flush_memtable close_db s = elim s.db [
  | none ↦ (none, s)
  | some d ↦ (some (close_db (flush_memtable d).1), record s { db = none })
]

-- A store that is constructed has its database open, with the options of the configuration.
pub construct-opened :
    {F D : Type 0} (engine : Engine Options F D) (config : LsmioConfig) (over_write : Bool)
    (path : Bytes) (f : F) (s : RdbStore D)
    → construct engine config over_write path f ≡ opened s
    → (d : D) × (open_database engine (options_of config) over_write path f ≡ opened d)
      × (s ≡ record { write_options = write_options_of config; db = some d })
unfolding construct with_options
construct-opened {D} engine config over_write path f s e =
    go (open_database engine (options_of config) over_write path f) e
  where
    go :
        (o : Opened D)
        → with_options engine config o ≡ opened s
        → (d : D) × (o ≡ opened d)
          × (s ≡ record { write_options = write_options_of config; db = some d })
    go (opened d) q = (d, refl, cc)
    go aborts q = cc

-- ===== src/Store/Ldb/Opening.antt =====
-- The constructor of lib/manager/store/store_ldb.cpp: the options that the configuration becomes.
-- `_wOptions.sync` is handed to LevelDB with each write and is not part of the state.
use lsmio.Base.{ℕ, ◌≡◌, refl, Bool, true, not, Option, none, some, Bytes, ltb, if◌then◌else◌}
use lsmio.Config.{LsmioConfig}
use lsmio.Store.Ldb
use lsmio.Store.Ldb.{LdbStore}
use lsmio.Store.Opening.{Engine, Opened, opened, aborts, open_database}

pub data Compression : Type 0 where
  no_compression : Compression
  default_compression : Compression

-- `leveldb::Options` as far as the store sets them; `none` leaves the library's default.
pub record Options : Type 0 where
  pub create_if_missing : Bool
  pub bloom_bits : Option ℕ
  pub compression : Compression
  pub block_cache : Option ℕ
  pub block_size : ℕ
  pub write_buffer_size : ℕ
  pub max_file_size : ℕ

unfoldable pub options_of : LsmioConfig → Options
options_of config = record {
  create_if_missing = true;
  bloom_bits = if config.use_bloom_filter then some 10 else none;
  compression = if not config.compression then no_compression else default_compression;
  block_cache = if ltb 0 config.cache_size then some config.cache_size else none;
  block_size = config.block_size;
  write_buffer_size = config.write_buffer_size;
  max_file_size = config.write_file_size;
}

module _ {F D : Type 0} (engine : Engine Options F D) where
  -- The base class takes the limits of a batch from the configuration.
  with_limits : LsmioConfig → Opened D → Opened (LdbStore D)
  with_limits config (opened d) =
      opened (Ldb.new config.async_batch_size config.async_batch_bytes d)
  with_limits config aborts = aborts

  unfoldable pub construct : LsmioConfig → Bool → Bytes → F → Opened (LdbStore D)
  unfolding with_limits
  construct config over_write path f =
      with_limits config (open_database engine (options_of config) over_write path f)

-- A store that is constructed has its database open and no batch.
pub construct-opened :
    {F D : Type 0} (engine : Engine Options F D) (config : LsmioConfig) (over_write : Bool)
    (path : Bytes) (f : F) (s : LdbStore D)
    → construct engine config over_write path f ≡ opened s
    → (d : D) × (open_database engine (options_of config) over_write path f ≡ opened d)
      × (s ≡ Ldb.new config.async_batch_size config.async_batch_bytes d)
unfolding construct with_limits
construct-opened {D} engine config over_write path f s e =
    go (open_database engine (options_of config) over_write path f) e
  where
    go :
        (o : Opened D)
        → with_limits engine config o ≡ opened s
        → (d : D) × (o ≡ opened d)
          × (s ≡ Ldb.new config.async_batch_size config.async_batch_bytes d)
    go (opened d) q = (d, refl, cc)
    go aborts q = cc

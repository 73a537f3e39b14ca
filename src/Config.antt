-- ===== src/Config.antt =====
-- The configuration: include/lsmio/lsmio.hpp and lib/lsmio.cpp. Logging and the handler of SIGSEGV
-- only call glog and the C library.
pub mod Flags
use lsmio.Base.{ℕ, ◌*◌, Bool, true, false, Bytes, codes}

pub data MpiAggType : Type 0 where
  shared : MpiAggType
  entire : MpiAggType
  entire_serial : MpiAggType
  split : MpiAggType

pub data StorageType : Type 0 where
  native_db : StorageType
  level_db : StorageType
  rocks_db : StorageType

-- `to_string` of both enumerations
unfoldable pub agg_type_name : MpiAggType → Bytes
agg_type_name shared = codes "mpiShared"
agg_type_name entire = codes "mpiEntire"
agg_type_name entire_serial = codes "mpiEntireSerial"
agg_type_name split = codes "mpiSplit"

unfoldable pub storage_type_name : StorageType → Bytes
storage_type_name native_db = codes "NativeDB"
storage_type_name level_db = codes "LevelDB"
storage_type_name rocks_db = codes "RocksDB"

-- The sizes are ints of the source that are not negative.
pub record LsmioConfig : Type 0 where
  pub storage_type : StorageType
  pub mpi_agg_type : MpiAggType
  pub disable_agg_dir_structure : Bool
  pub use_bloom_filter : Bool
  pub use_sync : Bool
  pub enable_mmap : Bool
  pub compression : Bool
  pub block_size : ℕ
  pub transfer_size : ℕ
  pub enable_wal : Bool
  pub write_buffer_number : ℕ
  pub always_flush : Bool
  pub async_batch_size : ℕ
  pub async_batch_bytes : ℕ
  pub cache_size : ℕ
  pub write_buffer_size : ℕ
  pub write_file_size : ℕ
  pub pre_allocate : Bool
  pub file_pool_size : ℕ
  pub auto_tune_parameters : Bool

abbrev pub default_config : LsmioConfig
default_config = record {
  storage_type = native_db;
  mpi_agg_type = shared;
  disable_agg_dir_structure = false;
  use_bloom_filter = false;
  use_sync = false;
  enable_mmap = false;
  compression = false;
  block_size = 512 * 1024;
  transfer_size = 512 * 1024;
  enable_wal = false;
  write_buffer_number = 4;
  always_flush = false;
  async_batch_size = 512;
  async_batch_bytes = 32 * 1024 * 1024;
  cache_size = 0;
  write_buffer_size = 32 * 1024 * 1024;
  write_file_size = 8 * (32 * 1024 * 1024);
  pre_allocate = false;
  file_pool_size = 4;
  auto_tune_parameters = false;
}

-- ===== src/Benchmark/Program/Runs.antt =====
-- An iteration of benchmark/bm_leveldb.cpp and of bm_rocksdb.cpp, from the two constructors of the
-- store to the exit code.
use lsmio.Base.{pos, ℕ, ◌-◌, ◌≤◌, ◌≡◌, Bool, true, false, Option, none, some, List, Bytes}
use lsmio.Config.{LsmioConfig}
use lsmio.Store.Opening.{Engine, opened, IsFaithful}
use lsmio.Store.Ldb.{Database, LdbStore}
use lsmio.Store.Ldb.Order.{IsReliable}
use lsmio.Store.Ldb.Opening as LdbOpening
use lsmio.Store.Rdb.Opening as RdbOpening
use lsmio.Store.Rdb.Opening.{WriteOptions, RdbStore}
use lsmio.Store.Rdb.Lives.{IsDurable}
use lsmio.Benchmark.{Benchmark}
use lsmio.Benchmark.Program.{Target, Readings, Iterated, path_of, gen_db_path, bench_iteration}
use lsmio.Benchmark.Program.Checks.{Contents}
use lsmio.Benchmark.Program.Passes.{IsShuffle, bench_iteration-IsPass}
use lsmio.Benchmark.Program.Sessions.{BackEnd, IsLasting, Session, program}
use lsmio.Benchmark.Program.Keeping.{IsIdle, IsWriting, IsReading, program-Keeps, new-IsIdle}
use lsmio.Benchmark.Program.Leveldb as Leveldb
use lsmio.Benchmark.Program.Rocksdb as Rocksdb

-- The path of a program's database.
unfoldable pub database_path : LsmioConfig → Bytes → Bytes → Bytes
database_path config dir_name file_name =
    gen_db_path (path_of dir_name file_name) config.always_flush config.use_bloom_filter

-- An iteration over stores that keep what is put.
lasting_iteration :
    {T F C : Type 0} (back_end : BackEnd T F) (IsOpen IsClosed : T → Type 0)
    (contents : T → Contents) (held : F → Contents) (format_06 : ℕ → Bytes)
    (key_count value_size ranks : ℕ) (shuffle : List ℕ → List ℕ) (times : Readings)
    (clock : Benchmark C) (files : F)
    → IsLasting back_end IsOpen IsClosed contents held
    → ((i j : ℕ) → format_06 i ≡ format_06 j → i ≡ j)
    → IsShuffle shuffle
    → 8 ≤ value_size
    → clock.is_started ≡ false
    → (it : Iterated C (Session T F)) × (bench_iteration
          (program back_end)
          format_06
          key_count
          value_size
          ranks
          shuffle
          times
          clock
          (record { store = none; files = files })
        ≡ some it)
      × ((it.exit_code ≡ 0)
          × (it.written.duration ≡ pos (times.write_stop - times.write_start))
          × (it.read.duration ≡ pos (times.read_stop - times.read_start)))
lasting_iteration back_end IsOpen IsClosed contents held format_06 key_count value_size ranks
      shuffle times clock files lasting injective permutes enough idle =
    let (it, ran, passed) =
      bench_iteration-IsPass (program back_end)
        (IsIdle back_end IsOpen IsClosed contents held lasting)
        (IsWriting back_end IsOpen IsClosed contents held lasting)
        (IsReading back_end IsOpen IsClosed contents held lasting) format_06 key_count value_size
        ranks shuffle times clock (record { store = none; files = files })
        (program-Keeps back_end IsOpen IsClosed contents held lasting) injective permutes enough
        idle (new-IsIdle back_end IsOpen IsClosed contents held lasting files) in
    (it, ran, (passed.no_failure, passed.write_time, passed.read_time))

-- BMLeveldb
abbrev pub leveldb_program :
    {F D : Type 0} (engine : Engine LdbOpening.Options F D) (database : Database D)
    (close_db : D → F) (config : LsmioConfig) (dir_name file_name : Bytes)
    → Target (Session (Option (LdbStore D)) F)
leveldb_program engine database close_db config dir_name file_name =
    program (
      Leveldb.ldb_back_end engine database close_db config
        (database_path config dir_name file_name))

-- BMRocksdb
abbrev pub rocksdb_program :
    {F D : Type 0} (engine : Engine RdbOpening.Options F D) (database : WriteOptions → Database D)
    (flush_memtable : D → Bool × D) (close_db : D → F) (config : LsmioConfig)
    (dir_name file_name : Bytes)
    → Target (Session (RdbStore D) F)
rocksdb_program engine database flush_memtable close_db config dir_name file_name = program (
    Rocksdb.rdb_back_end engine database flush_memtable close_db config
      (database_path config dir_name file_name))

module _ {F D C : Type 0} (config : LsmioConfig) (dir_name file_name : Bytes) where
  -- Over a LevelDB that opens and writes without failure and has its content in its files once
  -- it is closed: an iteration of the LevelDB benchmark returns the exit code zero and the two
  -- durations of the clock, for any configuration, directory and file name, earlier files,
  -- shuffle and number of keys, and values of at least eight bytes, if the clock is stopped and
  -- different numbers are formatted differently.
  pub leveldb_iteration-IsPass :
      (engine : Engine LdbOpening.Options F D) (database : Database D) (close_db : D → F)
      (held : F → Bytes → Option Bytes) (format_06 : ℕ → Bytes) (key_count value_size ranks : ℕ)
      (shuffle : List ℕ → List ℕ) (times : Readings) (clock : Benchmark C) (files : F)
      → IsReliable database
      → IsFaithful engine (database_path config dir_name file_name) database.get held
      → ((d : D) (k : Bytes) → held (close_db d) k ≡ database.get d k)
      → ((d : D) (k v : Bytes) → (database.put d k v).0 ≡ true)
      → ((over_write : Bool) (f : F)
          → (s : LdbStore D) × (LdbOpening.construct engine config over_write
                (database_path config dir_name file_name)
                f
              ≡ opened s))
      → ((i j : ℕ) → format_06 i ≡ format_06 j → i ≡ j)
      → IsShuffle shuffle
      → 8 ≤ value_size
      → clock.is_started ≡ false
      → (it : Iterated C (Session (Option (LdbStore D)) F)) × (bench_iteration
            (leveldb_program engine database close_db config dir_name file_name)
            format_06
            key_count
            value_size
            ranks
            shuffle
            times
            clock
            (record { store = none; files = files })
          ≡ some it)
        × ((it.exit_code ≡ 0)
            × (it.written.duration ≡ pos (times.write_stop - times.write_start))
            × (it.read.duration ≡ pos (times.read_stop - times.read_start)))
  leveldb_iteration-IsPass engine database close_db held format_06 key_count value_size ranks
        shuffle times clock files reliable faithful closes puts_well opens_well injective permutes
        enough idle =
      let path = database_path config dir_name file_name in
      lasting_iteration (Leveldb.ldb_back_end engine database close_db config path)
        (Leveldb.IsOpen engine database close_db config path)
        (Leveldb.IsClosed engine database close_db config path)
        (Leveldb.contents engine database close_db config path) held format_06 key_count value_size
        ranks shuffle times clock files
        (Leveldb.ldb_back_end-IsLasting engine database close_db config path held reliable faithful
          closes puts_well opens_well)
        injective permutes enough idle

  -- Over a RocksDB that is durable and opens, writes and flushes without failure: an iteration
  -- of the RocksDB benchmark returns the exit code zero and the two durations of the clock, for
  -- any configuration, directory and file name, earlier files, shuffle and number of keys, and
  -- values of at least eight bytes, if the clock is stopped and different numbers are formatted
  -- differently.
  pub rocksdb_iteration-IsPass :
      (engine : Engine RdbOpening.Options F D) (database : WriteOptions → Database D)
      (flush_memtable : D → Bool × D) (close_db : D → F) (read : D → Bytes → Option Bytes)
      (held : F → Bytes → Option Bytes) (format_06 : ℕ → Bytes) (key_count value_size ranks : ℕ)
      (shuffle : List ℕ → List ℕ) (times : Readings) (clock : Benchmark C) (files : F)
      → IsDurable engine database flush_memtable close_db
          (database_path config dir_name file_name)
          read
          held
      → ((d : D) → (flush_memtable d).0 ≡ true)
      → ((o : WriteOptions) (d : D) (k v : Bytes) → ((database o).put d k v).0 ≡ true)
      → ((over_write : Bool) (f : F)
          → (s : RdbStore D) × (RdbOpening.construct engine config over_write
                (database_path config dir_name file_name)
                f
              ≡ opened s))
      → ((i j : ℕ) → format_06 i ≡ format_06 j → i ≡ j)
      → IsShuffle shuffle
      → 8 ≤ value_size
      → clock.is_started ≡ false
      → (it : Iterated C (Session (RdbStore D) F)) × (bench_iteration
            (rocksdb_program engine database flush_memtable close_db config dir_name file_name)
            format_06
            key_count
            value_size
            ranks
            shuffle
            times
            clock
            (record { store = none; files = files })
          ≡ some it)
        × ((it.exit_code ≡ 0)
            × (it.written.duration ≡ pos (times.write_stop - times.write_start))
            × (it.read.duration ≡ pos (times.read_stop - times.read_start)))
  rocksdb_iteration-IsPass engine database flush_memtable close_db read held format_06 key_count
        value_size ranks shuffle times clock files durable flushes puts_well opens_well injective
        permutes enough idle =
      let path = database_path config dir_name file_name in
      lasting_iteration (Rocksdb.rdb_back_end engine database flush_memtable close_db config path)
        (Rocksdb.IsOpen engine database flush_memtable close_db config path)
        (Rocksdb.IsClosed engine database flush_memtable close_db config path)
        (Rocksdb.contents engine database flush_memtable close_db config path read held) held
        format_06 key_count value_size ranks shuffle times clock files
        (Rocksdb.rdb_back_end-IsLasting engine database flush_memtable close_db config path read
          held durable flushes puts_well opens_well)
        injective permutes enough idle

-- ===== src/Tests/Programs.antt =====
-- The theorems on the benchmark programs at concrete inputs.
use mathlib.Core.List.{reverse_perm}
use mathlib.Core.List.Perm
use lsmio.Base.{
  pos, ℕ, ◌-◌, ◌≡◌, refl, Bool, true, false, Option, none, some, Bytes, codes, reverse, arith,
  to_string, to_string-injective,
}
use lsmio.Config.{default_config}
use lsmio.Store.Ldb.{LdbStore}
use lsmio.Store.Ldb.Opening as LdbOpening
use lsmio.Store.Rdb.Opening as RdbOpening
use lsmio.Store.Rdb.Opening.{RdbStore}
use lsmio.Store.Opening.{opened, open_database}
use lsmio.Benchmark.{new}
use lsmio.Benchmark.Program.{Readings, Iterated, bench_iteration}
use lsmio.Benchmark.Program.Passes.{IsShuffle}
use lsmio.Benchmark.Program.Sessions.{Session, program}
use lsmio.Benchmark.Program.Leveldb.{ldb_back_end}
use lsmio.Benchmark.Program.Rocksdb.{rdb_back_end}
use lsmio.Benchmark.Program.Runs.{database_path, leveldb_iteration-IsPass, rocksdb_iteration-IsPass}
use lsmio.Tests.Instances.{Entries, in_memory, in_memory-IsReliable}
use lsmio.Tests.Openings.{disk_engine, disk_engine-IsFaithful, held, old_files, in_memory-IsDurable}

abbrev times : Readings
times = record { write_start = 10; write_stop = 25; read_start = 30; read_stop = 42 }

abbrev path : Bytes
path = database_path default_config (codes "/tmp") (codes "db")

reverse-IsShuffle : IsShuffle reverse
unfolding IsShuffle
reverse-IsShuffle order = Perm.symm (reverse_perm order)

ldb_opens :
    (over_write : Bool) (f : Entries)
    → (s : LdbStore Entries) × (LdbOpening.construct disk_engine default_config over_write path f
        ≡ opened s)
unfolding LdbOpening.construct open_database
ldb_opens true f = (_, refl)
ldb_opens false f = (_, refl)

rdb_opens :
    (over_write : Bool) (f : Entries)
    → (s : RdbStore Entries) × (RdbOpening.construct disk_engine default_config over_write path f
        ≡ opened s)
unfolding RdbOpening.construct open_database
rdb_opens true f = (_, refl)
rdb_opens false f = (_, refl)

leveldb_iteration_example :
    (it : Iterated ℕ (Session (Option (LdbStore Entries)) Entries)) × (bench_iteration
        (program (ldb_back_end disk_engine in_memory (λ d. d) default_config path))
        to_string
        3
        12
        1
        reverse
        times
        new
        (record { store = none; files = old_files })
      ≡ some it)
    × ((it.exit_code ≡ 0)
        × (it.written.duration ≡ pos (25 - 10))
        × (it.read.duration ≡ pos (42 - 30)))
leveldb_iteration_example =
    leveldb_iteration-IsPass default_config (codes "/tmp") (codes "db") disk_engine in_memory
      (λ d. d) held to_string 3 12 1 reverse times new old_files in_memory-IsReliable
      disk_engine-IsFaithful (λ d k. refl) (λ d k v. refl) ldb_opens to_string-injective
      reverse-IsShuffle (omega arith) refl

rocksdb_iteration_example :
    (it : Iterated ℕ (Session (RdbStore Entries) Entries)) × (bench_iteration
        (program
          (rdb_back_end disk_engine (λ o. in_memory) (λ d. (true, d)) (λ d. d) default_config path))
        to_string
        3
        12
        1
        reverse
        times
        new
        (record { store = none; files = old_files })
      ≡ some it)
    × ((it.exit_code ≡ 0)
        × (it.written.duration ≡ pos (25 - 10))
        × (it.read.duration ≡ pos (42 - 30)))
rocksdb_iteration_example =
    rocksdb_iteration-IsPass default_config (codes "/tmp") (codes "db") disk_engine (λ o. in_memory)
      (λ d. (true, d)) (λ d. d) held held to_string 3 12 1 reverse times new old_files
      in_memory-IsDurable (λ d. refl) (λ o d k v. refl) rdb_opens to_string-injective
      reverse-IsShuffle (omega arith) refl

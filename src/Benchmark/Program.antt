-- ===== src/Benchmark/Program.antt =====
-- BMBase, what the benchmark programs share: benchmark/bm_base.cpp and bm_base.hpp. The store under
-- test is a record of the virtual functions; `fmt::format("{:06}", n)` and `std::shuffle` are
-- parameters. MPI's barriers only wait and are left out, and the programs' options are arguments.
pub mod Checks
pub mod Passes
pub mod Sessions
pub mod Keeping
pub mod Leveldb
pub mod Rocksdb
pub mod Runs
use lsmio.Base.{
  ℤ, pos, negsuc, ℕ, zero, suc, ◌+◌, ◌-◌, ◌*◌, Bool, true, false, ◌&&◌, Option, none, some, List,
  [], ◌∷◌, ◌++◌, Bytes, codes, beq, ltb, ◌==◌, length, replicate, to_string, if◌then◌else◌,
}
use lsmio.Benchmark.{Benchmark, start, stop, duration}

-- `_keyPrefix`
abbrev pub key_prefix : Bytes
key_prefix = codes "benchmark:"

-- `_lsmioBMPath`
unfoldable pub path_of : Bytes → Bytes → Bytes
path_of dir_name file_name = if beq dir_name [] then file_name else dir_name ++ (b'/' ∷ file_name)

bit : Bool → ℕ
bit true = 1
bit false = 0

unfoldable pub gen_db_path : Bytes → Bool → Bool → Bytes
unfolding bit
gen_db_path path opt1 opt2 = path ++ (b':' ∷ to_string (bit opt1)) ++ (b':' ∷ to_string (bit opt2))

-- The virtual functions. `do_read` gives its status and what it leaves in the value; a preparation
-- gives `none` where it throws or ends the process. The results of the others are not used.
pub record Target (S : Type 0) : Type 0 where
  pub do_read : S → Bytes → Bool × Bytes × S
  pub do_write : S → Bytes → Bytes → Bool × S
  pub do_read_finalize : S → S
  pub do_write_finalize : S → S
  pub read_prepare : S → Option S
  pub read_cleanup : S → S
  pub write_prepare : S → Option S
  pub write_cleanup : S → S

-- `std::string(gConfigBM.valueSize - 8, 'a')`: a negative length throws.
unfoldable pub val_suffix : ℕ → Option Bytes
val_suffix value_size = if ltb value_size 8 then none else some (replicate (value_size - 8) b'a')

unfoldable pub value_of : Bytes → ℕ → Bytes
value_of suffix count = to_string count ++ (codes "::" ++ suffix)

-- `pRandomKeyIndex` before it is shuffled.
unfoldable pub indices : ℕ → ℕ → List ℕ
indices i zero = []
indices i (suc n) = i ∷ indices (suc i) n

-- A call of `addIteration` on the iterations' name, with a duration of -1 where it failed, the bytes, which
-- the code has as a double, and the operations.
pub record Measured : Type 0 where
  pub name : Bytes
  pub duration : ℤ
  pub bytes : ℕ
  pub ops : ℕ

-- What one of the two halves of an iteration gives: the keys that are left, the duration, the clock
-- and the store.
abbrev pub Timed : Type 0 → Type 0 → Type 0
Timed D S = ℕ × ℕ × Benchmark D × S

pub record Iterated (D S : Type 0) : Type 0 where
  pub exit_code : ℕ
  pub written : Measured
  pub read : Measured
  pub clock : Benchmark D
  pub store : S

-- The readings of the clock in an iteration.
pub record Readings : Type 0 where
  pub write_start : ℕ
  pub write_stop : ℕ
  pub read_start : ℕ
  pub read_stop : ℕ

infixl 5 ◌>>=◌
abbrev ◌>>=◌ {ℓ κ} : {A : Type ℓ} {B : Type κ} → Option A → (A → Option B) → Option B
none >>= f = none
some a >>= f = f a

-- The iteration of a half, with -1 as its duration where keys are left.
unfoldable pub measured : Bytes → ℕ → ℕ → ℕ → ℕ → Measured
measured name left time bytes key_count = record {
  name = name;
  duration = if left == 0 then pos time else negsuc 0;
  bytes = bytes;
  ops = key_count;
}

unfoldable pub failures : ℕ → ℕ
failures left = if left == 0 then 0 else 1

unfoldable pub key_of : (ℕ → Bytes) → ℕ → Bytes
key_of format_06 i = key_prefix ++ format_06 i

module _ {S : Type 0} (target : Target S) (format_06 : ℕ → Bytes) where
  -- The loops give `keyCount - count` at their end, the keys that are left.
  unfoldable pub write_keys : Bytes → ℕ → List ℕ → S → ℕ × S
  unfolding key_of value_of
  write_keys suffix count [] s = (0, s)
  write_keys suffix count (i ∷ order) s =
      let (success, s') = target.do_write s (key_of format_06 i) (value_of suffix count) in
      let rest = write_keys suffix (suc count) order s' in
      if success then rest else (length (i ∷ order), s')

  unfoldable pub read_keys : Bytes → ℕ → List ℕ → S → ℕ × S
  unfolding key_of value_of
  read_keys suffix count [] s = (0, s)
  read_keys suffix count (i ∷ order) s =
      let (success, value, s') = target.do_read s (key_of format_06 i) in
      let rest = read_keys suffix (suc count) order s' in
      if success && beq (value_of suffix count) value then rest else (length (i ∷ order), s')

  module _ {D : Type 0} where
    -- `none` is an exception, of the suffix or of the clock.
    unfoldable pub bench_write : ℕ → List ℕ → ℕ → ℕ → Benchmark D → S → Option (Timed D S)
    unfolding write_keys val_suffix start stop duration
    bench_write value_size order now later clock s = do
      suffix ← val_suffix value_size
      started ← start clock now
      let (left, s') = write_keys suffix 0 order s
      stopped ← stop started false later
      time ← duration stopped
      some (left, time, stopped, target.do_write_finalize s')

    unfoldable pub bench_read : ℕ → List ℕ → ℕ → ℕ → Benchmark D → S → Option (Timed D S)
    unfolding read_keys val_suffix start stop duration
    bench_read value_size order now later clock s = do
      suffix ← val_suffix value_size
      started ← start clock now
      let (left, s') = read_keys suffix 0 order s
      stopped ← stop started false later
      time ← duration stopped
      some (left, time, stopped, target.do_read_finalize s')

    -- `ranks` is `mpiSize` with MPI and 1 without.
    unfoldable pub bench_iteration :
        ℕ → ℕ → ℕ → (List ℕ → List ℕ) → Readings → Benchmark D → S → Option (Iterated D S)
    unfolding bench_write bench_read measured failures indices
    bench_iteration key_count value_size ranks shuffle times clock s = do
      let order = shuffle (indices 0 key_count)
      let bytes = key_count * value_size * ranks
      s1 ← target.write_prepare s
      (not_written, write_time, clock1, s2) ←
          bench_write value_size order times.write_start times.write_stop clock s1
      s3 ← target.read_prepare (target.write_cleanup s2)
      (not_read, read_time, clock2, s4) ←
          bench_read value_size order times.read_start times.read_stop clock1 s3
      some (record {
        exit_code = failures not_written + failures not_read;
        written = measured (codes "iwrite") not_written write_time bytes key_count;
        read = measured (codes "iread") not_read read_time bytes key_count;
        clock = clock2;
        store = target.read_cleanup s4;
      })

    -- The loop of `benchSuite`, one iteration after the other; the exit codes are dropped.
    unfoldable pub bench_suite :
        ℕ
        → ℕ
        → ℕ
        → List ((List ℕ → List ℕ) × Readings)
        → Benchmark D
        → S
        → Option (List Measured × Benchmark D × S)
    unfolding bench_iteration
    bench_suite key_count value_size ranks [] clock s = some ([], clock, s)
    bench_suite key_count value_size ranks ((shuffle, times) ∷ rounds) clock s = do
      it ← bench_iteration key_count value_size ranks shuffle times clock s
      (entries, clock', s') ← bench_suite key_count value_size ranks rounds it.clock it.store
      some (it.written ∷ it.read ∷ entries, clock', s')

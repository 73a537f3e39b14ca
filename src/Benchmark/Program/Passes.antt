-- ===== src/Benchmark/Program/Passes.antt =====
-- A benchmark over a store that keeps what is put finds every value again: benchIteration and
-- benchSuite of benchmark/bm_base.cpp.
use lsmio.Base.{
  pos, ℕ, zero, suc, ◌+◌, ◌-◌, ◌*◌, ◌≤◌, ◌<◌, ◌≡◌, refl, false, some, List, Bytes, codes, replicate,
  arith,
}
use mathlib.Core.Logic.{∥∥₁_elim}
use mathlib.Core.HLevel.{⊥_prop}
use mathlib.Core.List.{Memᴰ, Perm, Nodup, Nodup-cons, Nodup-nil}
use mathlib.Core.List.Perm
use mathlib.Core.List.Memᴰ
use lsmio.Benchmark.{Benchmark, start, stop, duration}
use lsmio.Benchmark.Program.{
  Target, Readings, Iterated, val_suffix, indices, write_keys, read_keys, measured, failures,
  bench_write, bench_read, bench_iteration,
}
use lsmio.Benchmark.Program.Checks.{
  Contents, Keeps, written-HoldsAll, write_keys-written, read_keys-Reading, read_keys-HoldsAll,
}

indices-later : (i j n : ℕ) → j < i → ¬ Memᴰ j (indices i n)
unfolding indices
indices-later i j zero h m = Memᴰ.not-nil m
indices-later i j (suc n) h (Memᴰ.head e) = omega (arith, e)
indices-later i j (suc n) h (Memᴰ.tail m) = indices-later (suc i) j n (omega arith) m

pub indices-Nodup : (i n : ℕ) → Nodup (indices i n)
unfolding indices
indices-Nodup i zero = Nodup-nil
indices-Nodup i (suc n) =
    Nodup-cons.1
      (λ m. ∥∥₁_elim m ⊥_prop (indices-later (suc i) i n (omega arith)), indices-Nodup (suc i) n)

-- The documented behaviour of `std::shuffle`.
unfoldable pub IsShuffle : (List ℕ → List ℕ) → Type 0
IsShuffle shuffle = (order : List ℕ) → Perm order (shuffle order)

shuffled-Nodup :
    (shuffle : List ℕ → List ℕ) (n : ℕ) → IsShuffle shuffle → Nodup (shuffle (indices 0 n))
unfolding IsShuffle
shuffled-Nodup shuffle n permutes = Perm.nodup (permutes (indices 0 n)) (indices-Nodup 0 n)

unfoldable pub suffix_of : ℕ → Bytes
suffix_of value_size = replicate (value_size - 8) b'a'

suffix-enough :
    (value_size : ℕ) → 8 ≤ value_size → val_suffix value_size ≡ some (suffix_of value_size)
unfolding val_suffix suffix_of
suffix-enough value_size enough = ground (arith)

module _ {S D : Type 0} (target : Target S) (format_06 : ℕ → Bytes) where
  -- The clock after a half.
  unfoldable pub timed_clock : Benchmark D → ℕ → ℕ → Benchmark D
  timed_clock clock now later = record clock {
    is_started = false;
    start_time = now;
    stop_time = later;
  }

  bench_write-keys :
      (value_size : ℕ) (order : List ℕ) (now later : ℕ) (clock : Benchmark D) (s : S)
      → 8 ≤ value_size
      → clock.is_started ≡ false
      → bench_write target format_06 value_size order now later clock s
        ≡ some (
          (write_keys target format_06 (suffix_of value_size) 0 order s).0,
          later - now,
          timed_clock clock now later,
          target.do_write_finalize (write_keys target format_06 (suffix_of value_size) 0 order s).1,
        )
  unfolding bench_write start stop duration timed_clock
  bench_write-keys value_size order now later clock s enough idle =
      rw (suffix-enough value_size enough, idle) refl

  bench_read-keys :
      (value_size : ℕ) (order : List ℕ) (now later : ℕ) (clock : Benchmark D) (s : S)
      → 8 ≤ value_size
      → clock.is_started ≡ false
      → bench_read target format_06 value_size order now later clock s
        ≡ some (
          (read_keys target format_06 (suffix_of value_size) 0 order s).0,
          later - now,
          timed_clock clock now later,
          target.do_read_finalize (read_keys target format_06 (suffix_of value_size) 0 order s).1,
        )
  unfolding bench_read start stop duration timed_clock
  bench_read-keys value_size order now later clock s enough idle =
      rw (suffix-enough value_size enough, idle) refl

  -- An iteration whose preparations succeed.
  bench_iteration-keys :
      (key_count value_size ranks : ℕ) (shuffle : List ℕ → List ℕ) (times : Readings)
      (clock : Benchmark D) (s s1 s3 : S) (left_to_write left_to_read : ℕ) (s2 s4 : S)
      → 8 ≤ value_size
      → clock.is_started ≡ false
      → target.write_prepare s ≡ some s1
      → write_keys target format_06 (suffix_of value_size) 0 (shuffle (indices 0 key_count)) s1
        ≡ (left_to_write, s2)
      → target.read_prepare (target.write_cleanup (target.do_write_finalize s2)) ≡ some s3
      → read_keys target format_06 (suffix_of value_size) 0 (shuffle (indices 0 key_count)) s3
        ≡ (left_to_read, s4)
      → bench_iteration target format_06 key_count value_size ranks shuffle times clock s
        ≡ some (record {
          exit_code = failures left_to_write + failures left_to_read;
          written =
              measured
                (codes "iwrite")
                left_to_write
                (times.write_stop - times.write_start)
                (key_count * value_size * ranks)
                key_count;
          read =
              measured
                (codes "iread")
                left_to_read
                (times.read_stop - times.read_start)
                (key_count * value_size * ranks)
                key_count;
          clock =
              timed_clock
                (timed_clock clock times.write_start times.write_stop)
                times.read_start
                times.read_stop;
          store = target.read_cleanup (target.do_read_finalize s4);
        })
  unfolding bench_iteration
  bench_iteration-keys key_count value_size ranks shuffle times clock s s1 s3 m n s2 s4 enough idle
        p1 p2 p3 p4 =
      let order = shuffle (indices 0 key_count) in
      rw
        (
          p1,
          bench_write-keys value_size order times.write_start times.write_stop clock s1 enough idle,
          p2,
          p3,
          bench_read-keys value_size order times.read_start times.read_stop
              (timed_clock clock times.write_start times.write_stop) s3 enough
              (unfold timed_clock in refl),
          p4,
        )
        refl

-- An iteration that passed: no failure, both durations measured, and all ready for the next one.
pub record IsPass {D S : Type 0} (Idle : S → Type 0) (times : Readings) (it : Iterated D S)
    : Type 0 where
  pub no_failure : it.exit_code ≡ 0
  pub write_time : it.written.duration ≡ pos (times.write_stop - times.write_start)
  pub read_time : it.read.duration ≡ pos (times.read_stop - times.read_start)
  pub is_stopped : it.clock.is_started ≡ false
  pub is_idle : Idle it.store

module _ {S D : Type 0} (target : Target S) (Idle : S → Type 0)
    (Writing Reading : S → Contents → Type 0) (format_06 : ℕ → Bytes) where
  -- On a store that keeps what is put, with any number of keys, values of at least eight bytes and
  -- any shuffle, an iteration ends: every write succeeds, every value is found again, the exit code
  -- is zero and both durations are those of the clock. `format_06` gives different texts.
  pub bench_iteration-IsPass :
      (key_count value_size ranks : ℕ) (shuffle : List ℕ → List ℕ) (times : Readings)
      (clock : Benchmark D) (s : S)
      → Keeps target Idle Writing Reading
      → ((i j : ℕ) → format_06 i ≡ format_06 j → i ≡ j)
      → IsShuffle shuffle
      → 8 ≤ value_size
      → clock.is_started ≡ false
      → Idle s
      → (it : Iterated D S) × (bench_iteration target format_06 key_count value_size ranks shuffle
            times clock s
          ≡ some it)
        × IsPass Idle times it
  bench_iteration-IsPass key_count value_size ranks shuffle times clock s keeps injective permutes
        enough idle ready =
      let order = shuffle (indices 0 key_count) in
      let suffix = suffix_of value_size in
      let (s1, p1, (c, w1)) = keeps.opens s ready in
      let (all_written, w2) =
        write_keys-written target Idle Writing Reading keeps format_06 suffix 0 order s1 c w1 in
      let (s3, p3, r3) = keeps.turns _ _ w2 in
      let holds =
        written-HoldsAll format_06 suffix injective 0 order c
          (shuffled-Nodup shuffle key_count permutes) in
      let all_read =
        (read_keys-HoldsAll target Idle Writing Reading keeps format_06 suffix 0 order s3 _ r3).1
          holds in
      let r4 =
        read_keys-Reading target Idle Writing Reading keeps format_06 suffix 0 order s3 _ r3 in
      (
        _,
        bench_iteration-keys target format_06 key_count value_size ranks shuffle times clock s s1 s3
            _ _ _ _ enough idle p1 refl p3 refl,
        record {
          no_failure = unfold failures in rw (all_written, all_read) refl;
          write_time = unfold measured in rw all_written refl;
          read_time = unfold measured in rw all_read refl;
          is_stopped = unfold timed_clock in refl;
          is_idle = keeps.closes _ _ r4;
        },
      )

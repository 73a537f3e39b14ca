-- ===== src/Benchmark.antt =====
-- Benchmark: lib/benchmark.cpp and include/lsmio/benchmark.hpp. The clock's readings are arguments, in
-- microseconds; doubles and their output are a parameter.
pub mod Clock
pub mod Extremes
pub mod Format
pub mod Program
use lsmio.Base.{
  ℤ, pos, ℕ, suc, ◌+◌, ◌-◌, Bool, true, false, Option, none, some, List, [], ◌∷◌, ◌++◌, Bytes,
  codes, beq, blt, ◌==◌, to_string, if◌then◌else◌,
}

-- The type double: literals, arithmetic, comparison, and `fmt::format` with two digits or none.
pub record Double (D : Type 0) : Type 0 where
  pub zero_double : D
  pub from_int : ℤ → D
  pub kibi : D
  pub add : D → D → D
  pub div : D → D → D
  pub less : D → D → Bool
  pub at_most : D → D → Bool
  pub fixed_2 : D → Bytes
  pub fixed_0 : D → Bytes

-- A duration of -1 stands for a benchmark that failed.
pub record Iteration (D : Type 0) : Type 0 where
  pub duration : ℤ
  pub bytes : D
  pub ops : D

-- `_start` and `_stop` are the epoch until they are set; `_iterations` is a multimap, in key order.
pub record Benchmark (D : Type 0) : Type 0 where
  pub is_started : Bool
  pub start_time : ℕ
  pub stop_time : ℕ
  pub iterations : List (Bytes × Iteration D)

module _ {D : Type 0} where
  abbrev pub new : Benchmark D
  new = record { is_started = false; start_time = 0; stop_time = 0; iterations = [] }

  -- `none` is an exception.
  unfoldable pub start : Benchmark D → ℕ → Option (Benchmark D)
  start b now =
      if b.is_started then none else some (record b { is_started = true; start_time = now })

  unfoldable pub stop : Benchmark D → Bool → ℕ → Option (Benchmark D)
  stop b idempotent now =
      if b.is_started
      then some (record b { is_started = false; stop_time = now })
      else if idempotent
      then some b
      else none

  unfoldable pub sofar : Benchmark D → ℕ → Option ℕ
  sofar b now = if b.is_started then some (now - b.start_time) else none

  unfoldable pub duration : Benchmark D → Option ℕ
  duration b = if b.is_started then none else some (b.stop_time - b.start_time)

  -- A multimap keeps entries of one key in the order of their insertion.
  unfoldable pub insert_multi :
      Bytes → Iteration D → List (Bytes × Iteration D) → List (Bytes × Iteration D)
  insert_multi k v [] = (k, v) ∷ []
  insert_multi k v ((j, w) ∷ m) =
      let rest = insert_multi k v m in if blt k j then (k, v) ∷ (j, w) ∷ m else (j, w) ∷ rest

  unfoldable pub add_iteration : Benchmark D → Bytes → ℤ → D → D → Benchmark D
  unfolding insert_multi
  add_iteration b name duration bytes ops = record b {
    iterations =
        insert_multi name (record { duration = duration; bytes = bytes; ops = ops }) b.iterations;
  }

  unfoldable pub clear_iterations : Benchmark D → Benchmark D
  clear_iterations b = record b { iterations = [] }

-- The out-parameters of `summaryIteration`, and its sum of the bandwidths.
pub record Summary (D : Type 0) : Type 0 where
  pub min : D
  pub mean : D
  pub max : D
  pub iterations : ℕ
  pub total_bytes : D
  pub total_ops : D
  pub total_bw : D

module _ {D : Type 0} (d : Double D) where
  unfoldable pub bandwidth : Iteration D → D
  bandwidth i = d.div (d.div (d.div i.bytes (d.from_int i.duration)) d.kibi) d.kibi

  abbrev pub no_summary : Summary D
  no_summary = record {
    min = d.zero_double;
    mean = d.zero_double;
    max = d.zero_double;
    iterations = 0;
    total_bytes = d.zero_double;
    total_ops = d.zero_double;
    total_bw = d.zero_double;
  }

  -- One round of the loop, for an entry of the name.
  unfoldable pub add_to_summary : Summary D → Iteration D → Summary D
  unfolding bandwidth
  add_to_summary s i =
      let bw = bandwidth i in
      let is_first = s.iterations == 0 in
      record s {
        min = if is_first then bw else if d.less bw s.min then bw else s.min;
        max =
            if is_first
            then bw
            else if d.less bw s.min
            then s.max
            else if d.less s.max bw
            then bw
            else s.max;
        iterations = suc s.iterations;
        total_bytes = d.add s.total_bytes i.bytes;
        total_ops = d.add s.total_ops i.ops;
        total_bw = d.add s.total_bw bw;
      }

  unfoldable pub sum_up : Bytes → Summary D → List (Bytes × Iteration D) → Summary D
  unfolding add_to_summary
  sum_up name s [] = s
  sum_up name s ((key, i) ∷ entries) =
      let rest = sum_up name (add_to_summary s i) entries in
      let skipped = sum_up name s entries in if beq key name then rest else skipped

  unfoldable pub with_mean : Summary D → Summary D
  with_mean s =
      if s.iterations == 0
      then s
      else record s { mean = d.div s.total_bw (d.from_int (pos s.iterations)) }

  unfoldable pub summary_iteration : Benchmark D → Bytes → Summary D
  unfolding sum_up with_mean
  summary_iteration b name = with_mean (sum_up name no_summary b.iterations)

-- ===== src/Tests/Engine.antt =====
-- The theorems on the configuration, the engine for ADIOS and the benchmarks at concrete inputs.
use lsmio.Base.{
  ℤ, pos, negsuc, suc, beq, last_lookup, ℕ, ◌+◌, ◌/◌, ◌≡◌, refl, false, ◌&&◌, none, some, List, [],
  ◌∷◌, ◌++◌, arith, Bytes, codes, All, length, ltb, leb, to_string, if◌then◌else◌,
}
use lsmio.Plugin.{Variable, variable_info, parse_info, write_values}
use lsmio.Plugin.Info.{IsBracketed, are_ints, parse_info-variable_info}
use lsmio.Benchmark.{Double, Benchmark, new, add_iteration, summary_iteration}
use lsmio.Plugin.Metadata.{Engine, reads, do_close, read_info, read_info-do_close}
use lsmio.Store.{meta_get}
use lsmio.Manager.{Manager, is_serve_local}
use lsmio.Tests.Instances.{Entries, map_store, map_store-IsMap}
use lsmio.Benchmark.Extremes.{IsStrictOrder, IsBetween, named, summary_iteration-IsBetween}

abbrev pub braces : List ℕ → Bytes
braces ds = b'{' ∷ (write_values to_string ds ++ b'}' ∷ [])

pub braces-IsBracketed : IsBracketed braces
braces-IsBracketed = record {
  left = b'{';
  right = b'}';
  left_plain = (λ e. omega (arith, e), λ e. omega (arith, e));
  right_plain = (λ e. omega (arith, e), λ e. omega (arith, e));
  shows = λ ds. refl;
}

abbrev matrix : Variable
matrix = record {
  name = codes "A";
  type_name = codes "double";
  shape = 4 ∷ 3000000000 ∷ [];
  start = 0 ∷ 0 ∷ [];
  count = 4 ∷ 1 ∷ [];
}

-- The shape has a dimension beyond the ints.
parse_info-variable_info_example : parse_info (variable_info braces matrix) ≡ (
    if are_ints matrix.shape && (are_ints matrix.start && are_ints matrix.count)
    then some matrix
    else none)
parse_info-variable_info_example =
    parse_info-variable_info braces matrix braces-IsBracketed (omega arith) (omega arith)

magnitude : ℤ → ℕ
magnitude (pos n) = n
magnitude (negsuc n) = suc n

-- Whole numbers in place of doubles.
abbrev whole : Double ℕ
whole = record {
  zero_double = 0;
  from_int = magnitude;
  kibi = 1;
  add = λ a b. a + b;
  div = λ a b. a / b;
  less = ltb;
  at_most = leb;
  fixed_2 = to_string;
  fixed_0 = to_string;
}

whole-IsStrictOrder : IsStrictOrder whole
whole-IsStrictOrder = record {
  irreflexive = λ a. ground arith;
  transitive = λ a b c h l. ground arith;
}

abbrev twice : Benchmark ℕ
twice = add_iteration (add_iteration new (codes "read") (pos 2) 10 1) (codes "read") (pos 2) 30 1

summary_iteration-IsBetween_example :
    ((summary_iteration whole twice (codes "read")).iterations
      ≡ length (named (codes "read") twice.iterations))
    × All
        (IsBetween whole whole-IsStrictOrder (summary_iteration whole twice (codes "read")))
        (named (codes "read") twice.iterations)
summary_iteration-IsBetween_example =
    summary_iteration-IsBetween whole whole-IsStrictOrder twice (codes "read")

abbrev pub alone : Manager
alone = record {
  is_shared = false;
  agg_rank = 0;
  agg_size = 1;
  always_flush = false;
  counter_write_bytes = 0;
  counter_read_bytes = 0;
  counter_write_ops = 0;
  counter_read_ops = 0;
}

abbrev reader : Engine Entries
reader = record { mode = reads; current_step = 0; lm = alone; db = [] }

abbrev pub vector : Variable
vector = record {
  name = codes "B";
  type_name = codes "float";
  shape = 8 ∷ [];
  start = 0 ∷ [];
  count = 8 ∷ [];
}

-- The engine was opened for reading, and writes.
read_info-do_close_example :
    read_info
      (meta_get map_store (do_close map_store braces reader (matrix ∷ vector ∷ [])).db vector.name)
    ≡ some vector
unfolding is_serve_local are_ints beq last_lookup
read_info-do_close_example =
    read_info-do_close map_store braces map_store-IsMap reader (matrix ∷ vector ∷ []) vector refl
      braces-IsBracketed refl (omega arith) (omega arith) refl

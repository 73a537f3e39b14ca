-- ===== src/Benchmark/Format.antt =====
-- The tables that a benchmark prints: `formatIterations` and `formatSummary`.
use lsmio.Base.{
  pos, ℕ, suc, ◌+◌, ◌*◌, ◌≡◌, ◌≢◌, refl, ap, ◌∙◌, Bool, true, false, List, [], ◌∷◌, ◌++◌, arith,
  Bytes, length, codes, All, beq, ◌==◌, to_string, to_string-All, IsDigit, if◌then◌else◌,
}
use lsmio.Benchmark.{Double, Iteration, Benchmark, Summary, bandwidth, summary_iteration}
use lsmio.Benchmark.Extremes.{named}

-- BM_HEADER
abbrev pub header : Bytes
header =
    codes "access,max(MiB)/s,min(MiB/s),mean(MiB/s),total(MiB),total(Ops),iteration"
    ++ (10
        ∷ (codes "------,----------,----------,-----------,-----------,----------,----------"
            ++ 10 ∷ []))

-- The two calls of `std::regex_replace`.
unfoldable pub remove_commas : Bytes → Bytes
remove_commas [] = []
remove_commas (c ∷ s) = let rest = remove_commas s in if c == b',' then rest else c ∷ rest

unfoldable pub colons_to_commas : Bytes → Bytes
colons_to_commas [] = []
colons_to_commas (c ∷ s) = (if c == b':' then b',' else c) ∷ colons_to_commas s

abbrev colon_before : Bytes → Bytes → Bytes
colon_before field rest = b':' ∷ (field ++ rest)

module _ {D : Type 0} (d : Double D) where
  mebi : D → D
  mebi bytes = d.div (d.div bytes (d.from_int (pos 1024))) (d.from_int (pos 1024))

  -- The line of one iteration.
  unfoldable pub iteration_line : Bytes → Iteration D → Bytes
  unfolding mebi
  iteration_line name i =
      let bw = d.fixed_2 (bandwidth d i) in
      name
      ++ colon_before bw (
          colon_before bw (
            colon_before bw (
              colon_before (d.fixed_2 (mebi i.bytes))
                (colon_before (d.fixed_0 i.ops) (codes ":1" ++ 10 ∷ [])))))

  unfoldable pub iteration_lines : Bytes → List (Bytes × Iteration D) → Bytes
  unfolding iteration_line
  iteration_lines name [] = []
  iteration_lines name ((key, i) ∷ entries) =
      let rest = iteration_lines name entries in
      if beq key name then iteration_line name i ++ rest else rest

  unfoldable pub format_iterations : Benchmark D → Bytes → Bytes
  unfolding iteration_lines
  format_iterations b name =
      colons_to_commas (remove_commas (header ++ iteration_lines name b.iterations))

  unfoldable pub summary_line : Bytes → Summary D → Bytes
  unfolding mebi
  summary_line name s =
      name
      ++ colon_before (d.fixed_2 s.max) (
          colon_before (d.fixed_2 s.min) (
            colon_before (d.fixed_2 s.mean) (
              colon_before (d.fixed_2 (mebi s.total_bytes))
                (colon_before (d.fixed_0 s.total_ops) (colon_before (to_string s.iterations) [])))))

  unfoldable pub format_summary : Benchmark D → Bytes → Bytes → Bytes
  unfolding summary_line
  format_summary b name sum_name =
      let s = summary_iteration d b name in
      if beq name []
      then header
      else if d.at_most s.total_bytes d.zero_double
      then name ++ (codes ", FAILED" ++ 10 ∷ [])
      else colons_to_commas
          (remove_commas (summary_line (if beq sum_name [] then name else sum_name) s))

-- How many fields a line has, by its commas.
unfoldable pub commas : Bytes → ℕ
commas [] = 0
commas (c ∷ s) = let rest = commas s in if c == b',' then suc rest else rest

-- No colon: what is printed fits one column.
abbrev pub IsCell : Bytes → Type 0
IsCell s = All (λ c. c ≢ b':') s

-- A line as it is printed.
abbrev printed : Bytes → Bytes
printed s = colons_to_commas (remove_commas s)

commas-append : (s t : Bytes) → commas (printed (s ++ t)) ≡ commas (printed s) + commas (printed t)
unfolding commas colons_to_commas remove_commas
commas-append [] t = omega arith
commas-append (c ∷ s) t = ground (arith, commas-append s t)

commas-cell : (s : Bytes) → IsCell s → commas (printed s) ≡ 0
unfolding commas colons_to_commas remove_commas
commas-cell [] h = refl
commas-cell (c ∷ s) h = ground (arith, commas-cell s h.1)

commas-colon :
    (field rest : Bytes)
    → IsCell field
    → commas (printed (colon_before field rest)) ≡ suc (commas (printed rest))
unfolding commas colons_to_commas remove_commas
commas-colon field rest h = ap suc (omega (arith, commas-append field rest, commas-cell field h))

pub commas-number : (n : ℕ) → IsCell (to_string n)
commas-number n = go (to_string n) (to_string-All n)
  where
    go : (s : Bytes) → All IsDigit s → IsCell s
    go [] h = tt
    go (c ∷ s) h = (λ e. omega (arith, e, h.0), go s h.1)

commas-header : commas (printed header) ≡ 0
unfolding commas colons_to_commas remove_commas
commas-header = refl

some-beq : (s : Bytes) → s ≢ [] → beq s [] ≡ false
unfolding beq
some-beq [] h = absurd (h refl)
some-beq (c ∷ s) h = refl

-- What `fmt::format` prints of a double has no colon.
abbrev pub PrintsCells : {D : Type 0} → Double D → Type 0
PrintsCells {D} d = (x : D) → IsCell (d.fixed_2 x) × IsCell (d.fixed_0 x)

module _ {D : Type 0} (d : Double D) (cells : PrintsCells d) (name : Bytes)
    (cell : IsCell name) where
  after_name : (rest : Bytes) → commas (printed (name ++ rest)) ≡ commas (printed rest)
  after_name rest = omega (arith, commas-append name rest, commas-cell name cell)

  commas-iteration_line : (i : Iteration D) → commas (printed (iteration_line d name i)) ≡ 6
  unfolding iteration_line
  commas-iteration_line i =
      after_name _
      ∙ commas-colon bw _ (cells _).0
      ∙ ap suc (
          commas-colon bw _ (cells _).0
          ∙ ap suc (
              commas-colon bw _ (cells _).0
              ∙ ap suc (
                  commas-colon (d.fixed_2 (mebi d i.bytes)) _ (cells _).0
                  ∙ ap suc (
                      commas-colon (d.fixed_0 i.ops) _ (cells _).1
                      ∙ ap suc (unfold commas colons_to_commas remove_commas in refl)))))
    where
      bw : Bytes
      bw = d.fixed_2 (bandwidth d i)

  commas-iteration_lines :
      (entries : List (Bytes × Iteration D))
      → commas (printed (iteration_lines d name entries)) ≡ 6 * length (named name entries)
  unfolding iteration_lines named
  commas-iteration_lines [] = unfold commas colons_to_commas remove_commas in refl
  commas-iteration_lines ((key, i) ∷ entries) =
      go (beq key name) (commas-iteration_lines entries)
        (commas-append (iteration_line d name i) (iteration_lines d name entries))
        (commas-iteration_line i)
    where
      go :
          (same : Bool)
          → commas (printed (iteration_lines d name entries)) ≡ 6 * length (named name entries)
          → commas (printed (iteration_line d name i ++ iteration_lines d name entries))
            ≡ commas (printed (iteration_line d name i))
              + commas (printed (iteration_lines d name entries))
          → commas (printed (iteration_line d name i)) ≡ 6
          → commas (
              printed (
                if same
                then iteration_line d name i ++ iteration_lines d name entries
                else iteration_lines d name entries))
            ≡ 6 * length (if same then i ∷ named name entries else named name entries)
      go true rest both one = omega (arith, rest, both, one)
      go false rest both one = rest

  commas-summary_line : (s : Summary D) → commas (printed (summary_line d name s)) ≡ 6
  unfolding summary_line
  commas-summary_line s =
      after_name _
      ∙ commas-colon (d.fixed_2 s.max) _ (cells _).0
      ∙ ap suc (
          commas-colon (d.fixed_2 s.min) _ (cells _).0
          ∙ ap suc (
              commas-colon (d.fixed_2 s.mean) _ (cells _).0
              ∙ ap suc (
                  commas-colon (d.fixed_2 (mebi d s.total_bytes)) _ (cells _).0
                  ∙ ap suc (
                      commas-colon (d.fixed_0 s.total_ops) _ (cells _).1
                      ∙ ap suc (
                          commas-colon (to_string s.iterations) [] (commas-number s.iterations)
                          ∙ ap suc (unfold commas colons_to_commas remove_commas in refl))))))

  -- If neither the name nor the printed numbers have a colon, formatIterations prints six commas
  -- for each iteration of the name and none for the header, although the header was made with
  -- twelve.
  pub commas-format_iterations :
      (b : Benchmark D)
      → (commas (format_iterations d b name) ≡ 6 * length (named name b.iterations))
        × (commas header ≡ 12)
  unfolding format_iterations
  commas-format_iterations b = (
    commas-append header (iteration_lines d name b.iterations)
        ∙ omega (arith, commas-header, commas-iteration_lines b.iterations),
    unfold commas in refl,
  )

  -- A summary with a positive sum of bytes has seven columns.
  pub commas-format_summary :
      (b : Benchmark D)
      → name ≢ []
      → d.at_most (summary_iteration d b name).total_bytes d.zero_double ≡ false
      → commas (format_summary d b name []) ≡ 6
  unfolding format_summary beq
  commas-format_summary b some_name positive =
      ap commas (
        ap (λ e. if e then header else if failed then failure else line) (some-beq name some_name)
        ∙ ap (λ e. if e then failure else line) positive)
      ∙ commas-summary_line (summary_iteration d b name)
    where
      failed : Bool
      failed = d.at_most (summary_iteration d b name).total_bytes d.zero_double

      failure : Bytes
      failure = name ++ (codes ", FAILED" ++ 10 ∷ [])

      line : Bytes
      line = printed (summary_line d name (summary_iteration d b name))

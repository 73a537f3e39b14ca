-- ===== src/Benchmark/Extremes.antt =====
-- The least and the greatest bandwidth of a summary.
use mathlib.Core.List.{append_assoc, append-nil}
use lsmio.Base.{
  suc, ◌<◌, ◌≡◌, refl, sym, ap, subst, Bool, true, false, List, [], ◌∷◌, ◌++◌, arith, Bytes, All,
  All-append, beq, length, length-append, ◌==◌, if_cases, if◌then◌else◌,
}
use lsmio.Benchmark.{
  Double, Iteration, Benchmark, Summary, bandwidth, no_summary, add_to_summary, sum_up,
  summary_iteration, with_mean,
}

-- The comparison orders its arguments strictly, as long as none is NaN.
pub record IsStrictOrder {D : Type 0} (d : Double D) : Type 0 where
  pub irreflexive : (a : D) → d.less a a ≡ false
  pub transitive : (a b c : D) → d.less a b ≡ true → d.less b c ≡ true → d.less a c ≡ true

module _ {D : Type 0} where
  -- The iterations of a name.
  unfoldable pub named : Bytes → List (Bytes × Iteration D) → List (Iteration D)
  named name [] = []
  named name ((key, i) ∷ entries) =
      let rest = named name entries in if beq key name then i ∷ rest else rest

module _ {D : Type 0} (d : Double D) (order : IsStrictOrder d) where
  -- The bandwidth lies between the extremes of the summary.
  abbrev pub IsBetween : Summary D → Iteration D → Type 0
  IsBetween s i = (d.less (bandwidth d i) s.min ≡ false) × (d.less s.max (bandwidth d i) ≡ false)

  -- `s` sums up the iterations `is`.
  record SumsUp (s : Summary D) (is : List (Iteration D)) : Type 0 where
    counted : s.iterations ≡ length is
    between : All (IsBetween s) is
    proper : 0 < s.iterations → d.less s.max s.min ≡ false

  widen :
      (s : Summary D) (is : List (Iteration D)) (low high : D)
      → ((i : Iteration D)
          → IsBetween s i
          → (d.less (bandwidth d i) low ≡ false) × (d.less high (bandwidth d i) ≡ false))
      → All (IsBetween s) is
      → All (λ i. (d.less (bandwidth d i) low ≡ false) × (d.less high (bandwidth d i) ≡ false)) is
  widen s [] low high f h = tt
  widen s (i ∷ is) low high f h = (f i h.0, widen s is low high f h.1)

  -- What is not less than `x` is not less than what lies below `x`, nor the other way round.
  stays_above : (c b x : D) → d.less c x ≡ false → d.less b x ≡ true → d.less c b ≡ false
  stays_above c b x h l = ground (arith, order.transitive c b x)

  stays_below : (c b x : D) → d.less x c ≡ false → d.less x b ≡ true → d.less b c ≡ false
  stays_below c b x h l = ground (arith, order.transitive x b c)

  add-first :
      (s : Summary D) (i : Iteration D)
      → s.iterations ≡ 0
      → SumsUp s []
      → SumsUp (add_to_summary d s i) (i ∷ [])
  unfolding add_to_summary
  add-first s i none_yet h = record {
    counted = ap suc none_yet;
    between = ground (arith, order.irreflexive (bandwidth d i));
    proper = λ _. ground (arith, order.irreflexive (bandwidth d i));
  }

  add-later :
      (s : Summary D) (is : List (Iteration D)) (i : Iteration D)
      → (s.iterations == 0) ≡ false
      → 0 < s.iterations
      → SumsUp s is
      → SumsUp (add_to_summary d s i) (is ++ i ∷ [])
  unfolding add_to_summary
  add-later s is i later some_yet h = record {
    counted = omega (arith, h.counted, length-append is (i ∷ []));
    between =
        All-append (IsBetween (add_to_summary d s i)) is (i ∷ [])
          (widen s is (add_to_summary d s i).min (add_to_summary d s i).max (λ j b. old_between j b)
            h.between)
          (new_between, tt);
    proper = λ _. new_proper;
  }
    where
      x : D
      x = bandwidth d i

      low : D
      low = if d.less x s.min then x else s.min

      high : D
      high = if d.less x s.min then s.max else if d.less s.max x then x else s.max

      order_before : d.less s.max s.min ≡ false
      order_before = h.proper some_yet

      old_low : (j : Iteration D) → IsBetween s j → d.less (bandwidth d j) low ≡ false
      old_low j b =
          if_cases (λ l. d.less (bandwidth d j) l ≡ false) (d.less x s.min) _ _
            (λ l. stays_above (bandwidth d j) x s.min b.0 l) (λ _. b.0)

      old_high : (j : Iteration D) → IsBetween s j → d.less high (bandwidth d j) ≡ false
      old_high j b =
          if_cases (λ g. d.less g (bandwidth d j) ≡ false) (d.less x s.min) _ _ (λ _. b.1)
            (λ _.
              if_cases (λ g. d.less g (bandwidth d j) ≡ false) (d.less s.max x) _ _
                (λ l. stays_below (bandwidth d j) x s.max b.1 l) (λ _. b.1))

      old_between :
          (j : Iteration D)
          → IsBetween s j
          → (d.less (bandwidth d j) (add_to_summary d s i).min ≡ false)
            × (d.less (add_to_summary d s i).max (bandwidth d j) ≡ false)
      old_between j b = ground (arith, later, old_low j b, old_high j b)

      new_between : IsBetween (add_to_summary d s i) i
      new_between = ground (arith, later, order.irreflexive x, stays_below s.min x s.max)

      new_proper : d.less (add_to_summary d s i).max (add_to_summary d s i).min ≡ false
      new_proper =
          ground (arith, later, order_before, order.irreflexive x, stays_above s.max x s.min)

  add-SumsUp :
      (s : Summary D) (is : List (Iteration D)) (i : Iteration D)
      → SumsUp s is
      → SumsUp (add_to_summary d s i) (is ++ i ∷ [])
  add-SumsUp s [] i h = add-first s i h.counted h
  add-SumsUp s (j ∷ is) i h =
      add-later s (j ∷ is) i (ground (arith, h.counted)) (omega (arith, h.counted)) h

  sum_up-SumsUp :
      (name : Bytes) (s : Summary D) (is : List (Iteration D))
      (entries : List (Bytes × Iteration D))
      → SumsUp s is
      → SumsUp (sum_up d name s entries) (is ++ named name entries)
  unfolding sum_up named
  sum_up-SumsUp name s is [] h = subst (SumsUp s) (sym (append-nil is)) h
  sum_up-SumsUp name s is ((key, i) ∷ entries) h =
      go (beq key name)
        (subst (SumsUp (sum_up d name (add_to_summary d s i) entries))
          (append_assoc is (i ∷ []) (named name entries))
          (sum_up-SumsUp name (add_to_summary d s i) (is ++ i ∷ []) entries (add-SumsUp s is i h)))
        (sum_up-SumsUp name s is entries h)
    where
      go :
          (same : Bool)
          → SumsUp (sum_up d name (add_to_summary d s i) entries) (is ++ (i ∷ named name entries))
          → SumsUp (sum_up d name s entries) (is ++ named name entries)
          → SumsUp
              (if same
                then sum_up d name (add_to_summary d s i) entries
                else sum_up d name s entries)
              (is ++ (if same then i ∷ named name entries else named name entries))
      go true counts skips = counts
      go false counts skips = skips

  with_mean-SumsUp :
      (s : Summary D) (is : List (Iteration D)) → SumsUp s is → SumsUp (with_mean d s) is
  unfolding with_mean
  with_mean-SumsUp s is h =
      if_cases (λ t. SumsUp t is) (s.iterations == 0) _ _ (λ _. h)
        (λ _. record { counted = h.counted; between = h.between; proper = h.proper })

  -- If the comparison of the doubles that occur is a strict order, the summary of a name counts
  -- its iterations, and no bandwidth of them is below its minimum or above its maximum.
  pub summary_iteration-IsBetween :
      (b : Benchmark D) (name : Bytes)
      → ((summary_iteration d b name).iterations ≡ length (named name b.iterations))
        × All (IsBetween (summary_iteration d b name)) (named name b.iterations)
  unfolding summary_iteration
  summary_iteration-IsBetween b name =
      let h =
        with_mean-SumsUp (sum_up d name (no_summary d) b.iterations) (named name b.iterations) (
          sum_up-SumsUp name (no_summary d) [] b.iterations
            (record { counted = refl; between = tt; proper = λ lt. absurd (omega (arith, lt)) })) in
      (h.counted, h.between)

-- ===== src/Benchmark/Program/Checks.antt =====
-- What the loops of benchmark/bm_base.cpp write and check, over a store that keeps what is put.
use lsmio.Base.{
  ℕ, suc, ◌≡◌, refl, sym, subst, ◌∙◌, ◌↔◌, Bool, true, false, ◌&&◌, Option, none, some, List, [],
  ◌∷◌, ◌++◌, Bytes, beq, beq_iff, beq_refl, length, if◌then◌else◌, if_cases, arith,
}
use mathlib.Core.List.{Mem, Nodup, Nodup-cons, mem-cons_self, mem-cons_of_mem}
use lsmio.Benchmark.Program.{Target, key_prefix, key_of, value_of, write_keys, read_keys}

-- What each key holds.
abbrev pub Contents : Type 0
Contents = Bytes → Option Bytes

unfoldable pub stored : Bytes → Bytes → Contents → Contents
stored k v c j = if beq k j then some v else c j

unfoldable pub found : {S : Type 0} → Bool × Bytes × S → Option Bytes
found (success, value, s) = if success then some value else none

-- A store as the benchmark relies on it: it takes every write, and once it is closed and opened for
-- reading, each read gives what was last written.
pub record Keeps {S : Type 0} (target : Target S) (Idle : S → Type 0)
    (Writing Reading : S → Contents → Type 0) : Type 0 where
  pub opens :
      (s : S)
      → Idle s
      → (s' : S) × (target.write_prepare s ≡ some s') × ((c : Contents) × Writing s' c)
  pub writes :
      (s : S) (c : Contents) (k v : Bytes)
      → Writing s c
      → ((target.do_write s k v).0 ≡ true) × Writing (target.do_write s k v).1 (stored k v c)
  pub turns :
      (s : S) (c : Contents)
      → Writing s c
      → (s' : S) × (target.read_prepare (target.write_cleanup (target.do_write_finalize s))
          ≡ some s')
        × Reading s' c
  pub reads :
      (s : S) (c : Contents) (k : Bytes)
      → Reading s c
      → (found (target.do_read s k) ≡ c k) × Reading (target.do_read s k).2 c
  pub closes :
      (s : S) (c : Contents) → Reading s c → Idle (target.read_cleanup (target.do_read_finalize s))

stored-same : (k v : Bytes) (c : Contents) → stored k v c k ≡ some v
unfolding stored
stored-same k v c = ground (arith, beq_refl k)

stored-other : (k v : Bytes) (c : Contents) (j : Bytes) → ¬ (k ≡ j) → stored k v c j ≡ c j
unfolding stored
stored-other k v c j differ = ground (arith, beq_iff k j)

module _ (format_06 : ℕ → Bytes) (suffix : Bytes) where
  -- What the keys hold after the writing loop.
  unfoldable pub written : ℕ → List ℕ → Contents → Contents
  written count [] c = c
  written count (i ∷ order) c =
      written (suc count) order (stored (key_of format_06 i) (value_of suffix count) c)

  -- Each key holds the value of its position.
  unfoldable pub HoldsAll : Contents → ℕ → List ℕ → Type 0
  HoldsAll c count [] = Unit
  HoldsAll c count (i ∷ order) =
      (c (key_of format_06 i) ≡ some (value_of suffix count)) × HoldsAll c (suc count) order

  module _ (injective : (i j : ℕ) → format_06 i ≡ format_06 j → i ≡ j) where
    prefix-cancel : (p a b : Bytes) → p ++ a ≡ p ++ b → a ≡ b
    prefix-cancel [] a b e = e
    prefix-cancel (x ∷ p) a b e = prefix-cancel p a b (cc)

    key_of-injective : (i j : ℕ) → key_of format_06 i ≡ key_of format_06 j → i ≡ j
    unfolding key_of
    key_of-injective i j e = injective i j (prefix-cancel key_prefix _ _ e)

    written-other :
        (count : ℕ) (order : List ℕ) (c : Contents) (i : ℕ)
        → ¬ Mem i order
        → written count order c (key_of format_06 i) ≡ c (key_of format_06 i)
    unfolding written
    written-other count [] c i out = refl
    written-other count (j ∷ order) c i out =
        let k = key_of format_06 j in
        let v = value_of suffix count in
        written-other (suc count) order (stored k v c) i (λ inside. out (mem-cons_of_mem j inside))
        ∙ stored-other k v c (key_of format_06 i) (λ same.
          out (subst (λ x. Mem i (x ∷ order)) (sym (key_of-injective j i same)) mem-cons_self))

    -- The writing loop leaves each key the value of its position.
    pub written-HoldsAll :
        (count : ℕ) (order : List ℕ) (c : Contents)
        → Nodup order
        → HoldsAll (written count order c) count order
    unfolding HoldsAll written
    written-HoldsAll count [] c distinct = tt
    written-HoldsAll count (i ∷ order) c distinct =
        let (out, rest) = Nodup-cons.0 distinct in
        (
          written-other (suc count) order _ i out ∙ stored-same _ _ c,
          written-HoldsAll (suc count) order _ rest,
        )

module _ {S : Type 0} (target : Target S) (Idle : S → Type 0)
    (Writing Reading : S → Contents → Type 0) (keeps : Keeps target Idle Writing Reading)
    (format_06 : ℕ → Bytes) (suffix : Bytes) where
  -- The writing loop leaves no key.
  pub write_keys-written :
      (count : ℕ) (order : List ℕ) (s : S) (c : Contents)
      → Writing s c
      → ((write_keys target format_06 suffix count order s).0 ≡ 0)
        × Writing
            (write_keys target format_06 suffix count order s).1
            (written format_06 suffix count order c)
  unfolding write_keys written
  write_keys-written count [] s c writing = (refl, writing)
  write_keys-written count (i ∷ order) s c writing =
      let (success, next) = keeps.writes s c (key_of format_06 i) (value_of suffix count) writing in
      let (none_left, rest) = write_keys-written (suc count) order _ _ next in
      rw success (none_left, rest)

  pub read_keys-Reading :
      (count : ℕ) (order : List ℕ) (s : S) (c : Contents)
      → Reading s c
      → Reading (read_keys target format_06 suffix count order s).1 c
  unfolding read_keys
  read_keys-Reading count [] s c reading = reading
  read_keys-Reading count (i ∷ order) s c reading =
      let k = key_of format_06 i in
      let next = (keeps.reads s c k reading).1 in
      if_cases (λ (r : ℕ × S). Reading r.1 c)
        ((target.do_read s k).0 && beq (value_of suffix count) (target.do_read s k).1) _ _
        (λ _. read_keys-Reading (suc count) order _ c next) (λ _. next)

  -- Whether a read gives the expected value.
  found_iff : (r : Bool × Bytes × S) (v : Bytes) → ((r.0 && beq v r.1) ≡ true) ↔ (found r ≡ some v)
  unfolding found
  found_iff (true, w, s) v = ground (arith, beq_iff v w)
  found_iff (false, w, s) v = ground (arith)

  -- A round leaves no key exactly if its own read is good and the rest leaves none.
  round_iff :
      (b : Bool) (rest : ℕ × S) (s : S) (n : ℕ) (P Q : Type 0)
      → (b ≡ true) ↔ P
      → (rest.0 ≡ 0) ↔ Q
      → ((if b then rest else (suc n, s)).0 ≡ 0) ↔ (P × Q)
  round_iff true rest s n P Q this that = (λ e. (this.0 refl, that.0 e), λ h. that.1 h.1)
  round_iff false rest s n P Q this that =
      (λ e. absurd (omega (arith, e)), λ h. absurd (ground (arith, this.1 h.0)))

  -- The reading loop leaves no key exactly if the store holds the value of every position.
  pub read_keys-HoldsAll :
      (count : ℕ) (order : List ℕ) (s : S) (c : Contents)
      → Reading s c
      → ((read_keys target format_06 suffix count order s).0 ≡ 0)
        ↔ HoldsAll format_06 suffix c count order
  unfolding read_keys HoldsAll
  read_keys-HoldsAll count [] s c reading = (λ _. tt, λ _. refl)
  read_keys-HoldsAll count (i ∷ order) s c reading =
      let k = key_of format_06 i in
      let v = value_of suffix count in
      let (value, next) = keeps.reads s c k reading in
      let r = target.do_read s k in
      let (hit, miss) = found_iff r v in
      round_iff (r.0 && beq v r.1) _ _ (length order) (c k ≡ some v) _
        (λ e. sym value ∙ hit e, λ e. miss (value ∙ e))
        (read_keys-HoldsAll (suc count) order r.2 c next)

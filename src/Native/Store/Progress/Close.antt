-- ===== src/Native/Store/Progress/Close.antt =====
-- `close` can always end.
use lsmio.Base.{
  ℕ, suc, ◌≡◌, refl, sym, ap, subst, ◌∙◌, true, false, ◌&&◌, none, some, List, [], ◌∷◌, ◌++◌, arith,
  Bytes, if_cases, if◌then◌else◌,
}
use lsmio.Native.Memtable
use lsmio.Native.Memtable.{Memtable}
use lsmio.Native.Sstable.{Flushed}
use lsmio.Native.Sstable.Fresh.{replenish}
use lsmio.Native.Store.{Store, rotate, begin_barrier, flush_memtable_to_l0}
use lsmio.Native.Store.Events.{
  replenishes, begins_close, joins, collects, drains, step, begin_close, join, collect, drain,
  after_drain, drain_oldest, is_drained, nothing_to_flush,
}
use lsmio.Native.Store.Tracked.{IsTracked}
use lsmio.Native.Store.Runs.{Runs, start, next, Runs-IsTracked}
use lsmio.Native.Store.Progress.{
  IsStocked, Returns, flush_memtable_to_l0-Returns, replenish_fills, files_for, Lull, Lulls,
}
use lsmio.Native.Store.Progress.Ends.{IsStocked-weaken, idle-Lulls, still_open}

files_for-suc : (ms : List Memtable) (n : ℕ) → files_for ms (suc n) ≡ suc (files_for ms n)
files_for-suc [] n = refl
files_for-suc (m ∷ ms) n = ap suc (files_for-suc ms n)

abbrev Closes : Store → Type 0
Closes s = (t : Store) × Runs s [] t × (is_drained t ≡ true)

module _ (s : Store) where
  -- With a file in the pool, `close` writes the last table.
  drain-Closes :
      (t : Store) (m : Memtable) (path : Bytes) (rest : List Bytes)
      → Runs s [] t
      → t.closing ≡ true
      → t.immutables ≡ m ∷ []
      → t.sstables.file_pool.pool ≡ path ∷ rest
      → IsStocked 0 t.sstables.file_pool
      → Closes s
  unfolding step drain drain_oldest after_drain Returns
  drain-Closes t m path rest r c e p h =
      go (flush_memtable_to_l0 t.sstables m true) refl
        (flush_memtable_to_l0-Returns 0 t.sstables m path rest p h)
    where
      go : (f : Flushed) → flush_memtable_to_l0 t.sstables m true ≡ f → Returns 0 f → Closes s
      go Flushed.throws q a = absurd a
      go Flushed.blocks q a = absurd a
      go (Flushed.returns b sstables) q a = (
        record t { immutables = []; sstables = sstables },
        next (drains true) r (refl, h.up)
            (ap (λ b. if b then drain_oldest t true t.immutables else none) c
              ∙ ap (drain_oldest t true) e
              ∙ ap (after_drain t []) q),
        c,
      )

  last-Closes :
      (t : Store) (m : Memtable)
      → Runs s [] t
      → t.closing ≡ true
      → t.immutables ≡ m ∷ []
      → IsStocked 1 t.sstables.file_pool
      → Closes s
  unfolding step
  last-Closes t m r c e h = go t.sstables.file_pool.pool refl
    where
      go : (pool : List Bytes) → t.sstables.file_pool.pool ≡ pool → Closes s
      go (path ∷ rest) p =
          drain-Closes t m path rest r c e p (IsStocked-weaken 0 t.sstables.file_pool h)
      go [] p =
          let filled = replenish_fills 0 t.sstables p h in
          drain-Closes (record t { sstables = replenish t.sstables true false }) m filled.1.0 []
            (next (replenishes true false) r (omega (arith, h.ids)) refl) c e filled.1.1 filled.0

  -- The thread is joined, and all tables but the active one are written.
  collected-Closes :
      (t : Store)
      → Runs s [] (record (begin_barrier t) { closing = true })
      → t.immutables ≡ []
      → IsStocked 1 t.sstables.file_pool
      → Closes s
  unfolding begin_barrier rotate
  collected-Closes t =
      if_cases
        (λ (u : Store).
          Runs s [] (record u { closing = true })
          → t.immutables ≡ []
          → IsStocked 1 t.sstables.file_pool
          → Closes s)
        (Memtable.empty t.active) _ _
        (λ _ r e h.
          (record t { closing = true }, r, ap (λ ms. elim ms [ [] ↦ true | ◌∷◌ m ms ↦ false ]) e))
        (λ _ r e h. last-Closes _ t.active r refl (ap (λ ms. ms ++ t.active ∷ []) e) h)

-- From a tracked store with its flush thread, a pool that is up, has a positive size and ids for
-- a file for each table and two more, there is a benign run that writes nothing and in which
-- close joins the thread and drains all tables.
pub close_ends :
    (s : Store)
    → IsTracked s
    → s.flush_thread_up ≡ true
    → IsStocked (suc (suc (files_for s.immutables 0))) s.sstables.file_pool
    → (t : Store) × Runs s [] t × (is_drained t ≡ true)
unfolding step begin_close join collect Lulls
close_ends s tracked up h =
    collected-Closes s parked
      (next collects (next joins idle tt joined) tt (
        ap (λ b. if b then none else some (record (begin_barrier parked) { closing = true }))
          is_open))
      l.tables l.stocked
  where
    began : Runs s [] (begin_close s)
    began = next begins_close start tt refl

    reached : (t : Store) × Runs s [] t × Lull (begin_close s) 1 [] t
    reached =
        idle-Lulls s (begin_close s) 1 began (Runs-IsTracked tracked began) up (
          subst (λ n. IsStocked (suc n) s.sstables.file_pool) (sym (files_for-suc s.immutables 0))
            h)

    t : Store
    t = reached.0

    idle : Runs s [] t
    idle = reached.1

    l : Lull (begin_close s) 1 [] t
    l = reached.2

    parked : Store
    parked = record t { flush_thread_up = false }

    nothing : nothing_to_flush t ≡ true
    nothing =
        ap
          (λ f. elim f [
            | none ↦ elim t.immutables [ [] ↦ true | ◌∷◌ m ms ↦ false ]
            | some m ↦ false
          ])
          l.landed
        ∙ ap (λ ms. elim ms [ [] ↦ true | ◌∷◌ m ms ↦ false ]) l.tables

    joined : join t ≡ some parked
    joined =
        ap (λ b. if b && (t.shutting_down && nothing_to_flush t) then some parked else none)
          (l.same_thread ∙ up)
        ∙ ap (λ b. if b && nothing_to_flush t then some parked else none) l.same_shutting_down
        ∙ ap (λ b. if b then some parked else none) nothing

    is_open : parked.closing ≡ false
    is_open = l.same_closing ∙ still_open s tracked up

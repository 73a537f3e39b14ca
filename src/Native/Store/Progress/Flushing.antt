-- ===== src/Native/Store/Progress/Flushing.antt =====
-- The flush thread flushes one table after the other, with the files that the worker makes.
use lsmio.Base.{ℕ, suc, ◌≡◌, refl, ap, ◌∙◌, true, false, none, some, List, [], ◌∷◌, arith, Bytes}
use lsmio.Native.Memtable.{Memtable}
use lsmio.Native.Sstable.{Flushed}
use lsmio.Native.Sstable.Fresh.{replenish}
use lsmio.Native.Store.{Store, done, after_flush, finish, flush_memtable_to_l0}
use lsmio.Native.Store.Events.{takes, finishes, replenishes, step}
use lsmio.Native.Store.Runs.{Runs, next}
use lsmio.Native.Store.Progress.{
  IsStocked, Returns, flush_memtable_to_l0-Returns, replenish_fills, files_for, Lull, Lulls,
  takes_table,
}

module _ (s : Store) where
  -- With a file in the pool, the flush of the table in flight ends.
  finish-Lulls :
      (n : ℕ) (t : Store) (m : Memtable) (path : Bytes) (rest : List Bytes)
      → Runs s [] t
      → t.in_flight ≡ some m
      → t.sstables.file_pool.pool ≡ path ∷ rest
      → IsStocked n t.sstables.file_pool
      → Lulls s t n t.immutables
  unfolding Lulls step finish after_flush Returns
  finish-Lulls n t m path rest r e p h =
      go (flush_memtable_to_l0 t.sstables m true) refl
        (flush_memtable_to_l0-Returns n t.sstables m path rest p h)
    where
      go :
          (f : Flushed)
          → flush_memtable_to_l0 t.sstables m true ≡ f
          → Returns n f
          → (u : Store) × Runs s [] u × Lull t n t.immutables u
      go Flushed.throws q a = absurd a
      go Flushed.blocks q a = absurd a
      go (Flushed.returns b sstables) q a = (
        done t sstables,
        next (finishes true) r (refl, h.up)
            (ap
                (λ f. elim f [
                  | none ↦ none
                  | some m ↦ after_flush t (flush_memtable_to_l0 t.sstables m true)
                ])
                e
              ∙ ap (after_flush t) q),
        record {
          landed = refl;
          flag = refl;
          tables = refl;
          same_active = refl;
          same_waiting = refl;
          same_thread = refl;
          same_closing = refl;
          same_shutting_down = refl;
          stocked = a;
        },
      )

  -- In any case the worker can make the file.
  pub flight-Lulls :
      (n : ℕ) (t : Store) (m : Memtable)
      → Runs s [] t
      → t.in_flight ≡ some m
      → IsStocked (suc n) t.sstables.file_pool
      → Lulls s t n t.immutables
  unfolding Lulls step
  flight-Lulls n t m r e h = go t.sstables.file_pool.pool refl
    where
      go :
          (pool : List Bytes)
          → t.sstables.file_pool.pool ≡ pool
          → (u : Store) × Runs s [] u × Lull t n t.immutables u
      go (path ∷ rest) p =
          finish-Lulls n t m path rest r e p
            (record { up = h.up; sized = h.sized; ids = omega (arith, h.ids) })
      go [] p =
          let filled = replenish_fills n t.sstables p h in
          let (u, ran, l) =
            finish-Lulls n (record t { sstables = replenish t.sstables true false }) m filled.1.0 []
              (next (replenishes true false) r (omega (arith, h.ids)) refl) e filled.1.1 filled.0 in
          (
            u,
            ran,
            record {
              landed = l.landed;
              flag = l.flag;
              tables = l.tables;
              same_active = l.same_active;
              same_waiting = l.same_waiting;
              same_thread = l.same_thread;
              same_closing = l.same_closing;
              same_shutting_down = l.same_shutting_down;
              stocked = l.stocked;
            },
          )

  pub Lulls-trans :
      (t u : Store) (n : ℕ) (ms : List Memtable)
      → Lull t n ms u
      → (l : ℕ) (ns : List Memtable) → Lulls s u l ns
      → Lulls s t l ns
  unfolding Lulls
  Lulls-trans t u n ms a l ns (v, r, b) = (
    v,
    r,
    record {
      landed = b.landed;
      flag = b.flag;
      tables = b.tables;
      same_active = b.same_active ∙ a.same_active;
      same_waiting = b.same_waiting ∙ a.same_waiting;
      same_thread = b.same_thread ∙ a.same_thread;
      same_closing = b.same_closing ∙ a.same_closing;
      same_shutting_down = b.same_shutting_down ∙ a.same_shutting_down;
      stocked = b.stocked;
    },
  )

  -- The flush thread takes and flushes one table after the other.
  pub tables-Lull :
      (n : ℕ) (ms : List Memtable) (t : Store)
      → Runs s [] t
      → t.flush_thread_up ≡ true
      → Lull t (files_for ms n) ms t
      → Lulls s t n []
  unfolding Lulls
  tables-Lull n [] t r up l = (t, r, l)
  tables-Lull n (m ∷ rest) t r up l =
      let taken = record t { immutables = rest; in_flight = some m; flush_in_progress = true } in
      let (u, ran, a) =
        flight-Lulls (files_for rest n) taken m
          (next takes r tt (takes_table t m rest up l.landed l.tables)) refl l.stocked in
      Lulls-trans t u (files_for rest n) rest
        (record {
          landed = a.landed;
          flag = a.flag;
          tables = a.tables;
          same_active = a.same_active;
          same_waiting = a.same_waiting;
          same_thread = a.same_thread;
          same_closing = a.same_closing;
          same_shutting_down = a.same_shutting_down;
          stocked = a.stocked;
        })
        n []
        (tables-Lull n rest u ran (a.same_thread ∙ up) (record {
          landed = a.landed;
          flag = a.flag;
          tables = a.tables;
          same_active = refl;
          same_waiting = refl;
          same_thread = refl;
          same_closing = refl;
          same_shutting_down = refl;
          stocked = a.stocked;
        }))

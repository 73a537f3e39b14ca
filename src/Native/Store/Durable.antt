-- ===== src/Native/Store/Durable.antt =====
-- What a write barrier waits for, and what is on disk when it returns.
use lsmio.Base.{
  ◌≡◌, refl, sym, ap, ◌∙◌, true, false, Option, none, some, List, [], ◌∷◌, arith, Bytes, or_else,
  last_lookup,
}
use lsmio.Native.Memtable
use lsmio.Native.Memtable.{Memtable}
use lsmio.Native.Sstable
use lsmio.Native.Sstable.{SstableManager, Flushed}
use lsmio.Native.Sstable.Flush.{empty_get}
use lsmio.Native.Store.{Store, barrier_done, tables_get}
use lsmio.Native.Store.Events.{is_drained}
use lsmio.Native.Store.Tracked.{IsTracked}
use lsmio.Native.Store.View.{view}
use lsmio.Native.Store.Runs.{Runs, Runs-Moves, Runs-IsTracked}
use lsmio.Native.Store.Runs.Writers.{IsSound}

idle_view :
    (t : Store) (k : Bytes)
    → t.in_flight ≡ none
    → t.immutables ≡ []
    → Memtable.empty t.active ≡ true
    → view t k ≡ Sstable.get t.sstables k
unfolding view tables_get
idle_view t k landed idle bare = ground (arith, empty_get t.active k bare)

pub no_tables : (t : Store) → barrier_done t ≡ true → t.immutables ≡ []
no_tables t e = go t.immutables refl
  where
    go : (ms : List Memtable) → t.immutables ≡ ms → t.immutables ≡ []
    go [] q = q
    go (m ∷ ms) q = ground arith

pub none_in_flight : (t : Store) → IsTracked t → barrier_done t ≡ true → t.in_flight ≡ none
none_in_flight t tracked e = go t.in_flight refl
  where
    go : (f : Option Memtable) → t.in_flight ≡ f → t.in_flight ≡ none
    go none q = q
    go (some m) q = ground (arith, tracked.flag, no_tables t e)

-- A run of benign steps from a sound and tracked store reaches a state in which the condition
-- that writeBarrier waits for holds and the active table is empty. Then the SSTables alone give,
-- for each key, what the run wrote last, the tombstone for a deletion, or else what the store
-- held before.
pub get-Runs_barrier :
    {s t : Store} {c : List (Bytes × Bytes)} (k : Bytes)
    → IsSound s
    → IsTracked s
    → Runs s c t
    → barrier_done t ≡ true
    → Memtable.empty t.active ≡ true
    → Sstable.get t.sstables k ≡ or_else (last_lookup k c) (view s k)
get-Runs_barrier {t} k h tracked r waited bare =
    sym
      (idle_view t k (none_in_flight t (Runs-IsTracked tracked r) waited) (no_tables t waited) bare)
    ∙ (Runs-Moves h tracked r).views k

is_drained_parts : (t : Store) → is_drained t ≡ true → (t.closing ≡ true) × (t.immutables ≡ [])
is_drained_parts t e = go t.immutables refl
  where
    go : (ms : List Memtable) → t.immutables ≡ ms → (t.closing ≡ true) × (t.immutables ≡ [])
    go [] q = ground arith
    go (m ∷ ms) q = ground arith

-- When `close` has left its loop, the SSTables alone give what was written last.
pub get-Runs_close :
    {s t : Store} {c : List (Bytes × Bytes)} (k : Bytes)
    → IsSound s
    → IsTracked s
    → Runs s c t
    → is_drained t ≡ true
    → Sstable.get t.sstables k ≡ or_else (last_lookup k c) (view s k)
get-Runs_close {t} k h tracked r drained =
    let after = Runs-IsTracked tracked r in
    let parts = is_drained_parts t drained in
    sym (
      idle_view t k (after.grounded (after.joined parts.0)) parts.1
        (ap (λ l. elim l [ [] ↦ true | ◌∷◌ x l ↦ false ]) (after.emptied parts.0)))
    ∙ (Runs-Moves h tracked r).views k

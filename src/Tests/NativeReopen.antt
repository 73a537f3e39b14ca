-- ===== src/Tests/NativeReopen.antt =====
-- The theorems about close and reopening at concrete inputs.
use mathlib.Core.Logic.{∥∥₁_elim}
use mathlib.Core.HLevel.{⊥_prop}
use mathlib.Core.List.{Memᴰ, Nodup-cons, Nodup-nil, not-mem-nil}
use lsmio.Base.{
  ◌≡◌, refl, sym, ap, subst, true, none, some, [], ◌∷◌, arith, Bytes, codes, beq, beq_iff, insert,
  blt, to_string, lookup, last_lookup, or_else, Bool-cases, inl, inr, if◌then◌else◌,
}
use lsmio.Native.Memtable
use lsmio.Native.FilePool
use lsmio.Native.FilePool.{Disk}
use lsmio.Native.FilePool.Names.{join-injective}
use lsmio.Native.Sstable
use lsmio.Native.Sstable.Fresh.{replenish}
use lsmio.Native.Sstable.Laid.{Laid}
use lsmio.Native.Sstable.Restart.{Lists, get-recover_Laid}
use lsmio.Native.Sstable.Recover.{recover_state}
use lsmio.Native.Store
use lsmio.Native.Store.{Store, visible, barrier_done}
use lsmio.Native.Store.Events
use lsmio.Native.Store.Events.{begins_close, joins, collects, drains, is_drained}
use lsmio.Native.Store.Tracked.{IsTracked}
use lsmio.Native.Store.View.{view}
use lsmio.Native.Store.Runs.{Runs, start, next, Runs-IsTracked}
use lsmio.Native.Store.Prefix.Barriers.{get_prefix-reopen_barrier}
use lsmio.Native.Store.Reopen.{reopen, get-reopen_barrier, Runs-Laid}
use lsmio.Native.Store.Sessions.{IsReady, Sessions, first, life, get-Sessions}
use lsmio.Native.Store.Progress.Ends.{write_barrier_ends}
use lsmio.Native.Store.Progress.Close.{close_ends}
use lsmio.Tests.NativeStore.{
  empty_sstables, fresh_store, fresh_store-IsSound, fresh_store-IsTracked, after, with_deletion,
  landed, values, to_deletion, to_landed,
}

abbrev name : Bytes
name = codes "L0-000000.sst"

abbrev path : Bytes
path = codes "db/L0-000000.sst"

held :
    (file : Bytes) (n : Bytes)
    → Memᴰ n (name ∷ [])
    → ¬ (lookup (FilePool.join (codes "db") n) ((path, file) ∷ []) ≡ none)
unfolding lookup FilePool.join beq
held file n (Memᴰ.head e) =
    subst (λ m. ¬ (lookup (FilePool.join (codes "db") m) ((path, file) ∷ []) ≡ none)) (sym e)
      (λ q. ground (arith, q))
held file n (Memᴰ.tail m) = absurd (not-mem-nil ∣ m ∣₁)

-- A directory with one file.
one_file : (file : Bytes) → Lists (codes "db") ((path, file) ∷ []) (name ∷ [])
one_file file = record {
  once = Nodup-cons.1 (not-mem-nil, Nodup-nil);
  complete = λ n. (
    λ m found. ∥∥₁_elim m ⊥_prop (λ d. held file n d found),
    λ found. elim (Bool-cases (beq path (FilePool.join (codes "db") n))) [
      | inl same ↦
          ∣ Memᴰ.head (
            sym (
              join-injective (codes "db") name n (unfold FilePool.join in (beq_iff _ _).0 same))) ∣₁
      | inr differ ↦
          absurd (found (unfold lookup in ap (λ b. if b then some file else none) differ))
    ],
  );
}

empty_sstables-Laid : Laid (codes "db") empty_sstables
unfolding FilePool.new Sstable.get Sstable.nodes_get last_lookup lookup
empty_sstables-Laid = (
  [],
  [],
  [],
  record {
    in_dir = refl;
    with_prefix = refl;
    with_suffix = refl;
    unallocated = refl;
    below = omega arith;
    listed = record { named = tt; ordered = omega arith; held = tt; only = λ p _. refl };
    pool_is = refl;
    bare = tt;
    settled = λ _. refl;
    answers = λ k. refl;
  },
)

abbrev closing : Store
closing = after with_deletion begins_close

abbrev joined : Store
joined = after closing joins

abbrev collected : Store
collected = after joined collects

abbrev drained : Store
drained = after collected (drains true)

to_drained : Runs fresh_store values drained
unfolding Store.new Events.step Store.batch_mutation Store.must_rotate Store.write_active
    Store.rotate Store.begin_barrier Store.take Store.finish Store.flush_memtable_to_l0 Memtable.add
    replenish FilePool.new FilePool.replenish FilePool.prepare FilePool.allocate
    Sstable.flush_memtable FilePool.acquire FilePool.hand_out Store.actual_value Events.begin_close
    Events.join Events.collect Events.drain Events.drain_oldest Events.after_drain
to_drained =
    next (drains true)
      (next collects (next joins (next begins_close to_deletion tt refl) tt refl) tt refl)
      (refl, refl) refl

landed-Lists : Lists (codes "db") landed.sstables.disk (name ∷ [])
unfolding Store.new Events.step Store.batch_mutation Store.must_rotate Store.write_active
    Store.rotate Store.begin_barrier Store.take Store.finish Store.flush_memtable_to_l0 Memtable.add
    replenish FilePool.new FilePool.replenish FilePool.prepare FilePool.allocate
    Sstable.flush_memtable FilePool.acquire FilePool.hand_out Store.actual_value Events.begin_close
    Events.join Events.collect Events.drain Events.drain_oldest Events.after_drain insert blt
    to_string beq
landed-Lists = one_file _

drained-Lists : Lists (codes "db") drained.sstables.disk (name ∷ [])
unfolding Store.new Events.step Store.batch_mutation Store.must_rotate Store.write_active
    Store.rotate Store.begin_barrier Store.take Store.finish Store.flush_memtable_to_l0 Memtable.add
    replenish FilePool.new FilePool.replenish FilePool.prepare FilePool.allocate
    Sstable.flush_memtable FilePool.acquire FilePool.hand_out Store.actual_value Events.begin_close
    Events.join Events.collect Events.drain Events.drain_oldest Events.after_drain insert blt
    to_string beq
drained-Lists = one_file _

fresh_store-IsReady : IsReady (codes "db") fresh_store
unfolding Store.new
fresh_store-IsReady = record {
  sound = fresh_store-IsSound;
  tracked = fresh_store-IsTracked;
  laid = empty_sstables-Laid;
}

get-reopen_barrier_example :
    Store.get (reopen (codes "db") (name ∷ []) landed.sstables.disk 64 2 2 0) (codes "k")
    ≡ visible (or_else (last_lookup (codes "k") values) (view fresh_store (codes "k")))
unfolding Store.new Events.step Store.batch_mutation Store.must_rotate Store.write_active
    Store.rotate Store.begin_barrier Store.take Store.finish Store.flush_memtable_to_l0 Memtable.add
    replenish FilePool.new FilePool.replenish FilePool.prepare FilePool.allocate
    Sstable.flush_memtable FilePool.acquire FilePool.hand_out Store.actual_value Events.begin_close
    Events.join Events.collect Events.drain Events.drain_oldest Events.after_drain
get-reopen_barrier_example =
    get-reopen_barrier (codes "db") (codes "k") (name ∷ []) 64 2 2 0 fresh_store-IsSound
      fresh_store-IsTracked empty_sstables-Laid to_landed refl refl landed-Lists

get_prefix-reopen_barrier_example :
    (Store.get_prefix (reopen (codes "db") (name ∷ []) landed.sstables.disk 64 2 2 0) (codes "k")).1
    ≡ (Store.get_prefix landed (codes "k")).1
unfolding Store.new Events.step Store.batch_mutation Store.must_rotate Store.write_active
    Store.rotate Store.begin_barrier Store.take Store.finish Store.flush_memtable_to_l0 Memtable.add
    replenish FilePool.new FilePool.replenish FilePool.prepare FilePool.allocate
    Sstable.flush_memtable FilePool.acquire FilePool.hand_out Store.actual_value Events.begin_close
    Events.join Events.collect Events.drain Events.drain_oldest Events.after_drain
get_prefix-reopen_barrier_example =
    get_prefix-reopen_barrier (codes "db") (codes "k") (name ∷ []) 64 2 2 0 fresh_store-IsSound
      fresh_store-IsTracked tt empty_sstables-Laid to_landed refl refl landed-Lists

with_deletion-IsTracked : IsTracked with_deletion
with_deletion-IsTracked = Runs-IsTracked fresh_store-IsTracked to_deletion

drained-Laid : Laid (codes "db") drained.sstables
unfolding Store.new
drained-Laid =
    Runs-Laid (codes "db") fresh_store-IsSound fresh_store-IsTracked empty_sstables-Laid to_drained

abbrev second_store : Store
second_store = reopen (codes "db") (name ∷ []) drained.sstables.disk 64 2 2 0

one_session : Sessions (codes "db") fresh_store values second_store
unfolding Store.new Events.step Store.batch_mutation Store.must_rotate Store.write_active
    Store.rotate Store.begin_barrier Store.take Store.finish Store.flush_memtable_to_l0 Memtable.add
    replenish FilePool.new FilePool.replenish FilePool.prepare FilePool.allocate
    Sstable.flush_memtable FilePool.acquire FilePool.hand_out Store.actual_value Events.begin_close
    Events.join Events.collect Events.drain Events.drain_oldest Events.after_drain
one_session = life (name ∷ []) 64 2 2 first to_drained refl drained-Lists

get-Sessions_example :
    Store.get second_store (codes "k")
    ≡ visible (or_else (last_lookup (codes "k") values) (view fresh_store (codes "k")))
unfolding reopen Store.new
get-Sessions_example = get-Sessions (codes "k") fresh_store-IsReady one_session start refl

write_barrier_ends_example :
    (t : Store) × Runs with_deletion [] t
    × (barrier_done t ≡ true)
    × (Memtable.empty t.active ≡ true)
    × (t.waiting ≡ with_deletion.waiting)
unfolding Store.new Events.step Store.batch_mutation Store.must_rotate Store.write_active
    Store.rotate Store.begin_barrier Store.take Store.finish Store.flush_memtable_to_l0 Memtable.add
    replenish FilePool.new FilePool.replenish FilePool.prepare FilePool.allocate
    Sstable.flush_memtable FilePool.acquire FilePool.hand_out Store.actual_value Events.begin_close
    Events.join Events.collect Events.drain Events.drain_oldest Events.after_drain
write_barrier_ends_example =
    write_barrier_ends with_deletion with_deletion-IsTracked refl
      (record { up = refl; sized = omega arith; ids = omega arith })

close_ends_example : (t : Store) × Runs with_deletion [] t × (is_drained t ≡ true)
unfolding Store.new Events.step Store.batch_mutation Store.must_rotate Store.write_active
    Store.rotate Store.begin_barrier Store.take Store.finish Store.flush_memtable_to_l0 Memtable.add
    replenish FilePool.new FilePool.replenish FilePool.prepare FilePool.allocate
    Sstable.flush_memtable FilePool.acquire FilePool.hand_out Store.actual_value Events.begin_close
    Events.join Events.collect Events.drain Events.drain_oldest Events.after_drain
close_ends_example =
    close_ends with_deletion with_deletion-IsTracked refl
      (record { up = refl; sized = omega arith; ids = omega arith })

get-recover_Laid_example :
    Sstable.get (recover_state (codes "db") (name ∷ []) drained.sstables.disk 2 0) (codes "k")
    ≡ Sstable.get drained.sstables (codes "k")
get-recover_Laid_example =
    get-recover_Laid (codes "db") drained.sstables (name ∷ []) 2 0 (codes "k") drained-Laid
      drained-Lists

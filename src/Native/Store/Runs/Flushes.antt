-- ===== src/Native/Store/Runs/Flushes.antt =====
-- What the flush thread and the file pool's worker do to the store, one step at a time.
use lsmio.Base.{
  ◌+◌, ◌<◌, ◌≡◌, refl, subst, Bool, true, false, Option, none, some, List, [], ◌∷◌, arith, Bytes,
  All, or_else, if_cases,
}
use lsmio.Native.Memtable
use lsmio.Native.Memtable.{Memtable}
use lsmio.Native.FilePool.{u64_mod}
use lsmio.Native.Sstable
use lsmio.Native.Sstable.{SstableManager, Flushed}
use lsmio.Native.Sstable.Flush.{
  Promise, flush_memtable-Promise, IsKept, flush_memtable-IsKept, empty_get,
}
use lsmio.Native.Sstable.Fresh.{
  IsFresh, StaysFresh, get-replenish, flush_memtable-StaysFresh, replenish, replenish-IsFresh,
}
use lsmio.Native.Store.{Store, take_oldest, take, done, after_flush, finish, flush_memtable_to_l0}
use lsmio.Native.Store.View.{view, immutables_get-cons}
use lsmio.Native.Store.Runs.Writers.{IsSmallTable, IsSmallFlight, IsSound, Moves, MovesIf, stays}

take_oldest-Moves :
    (s : Store) (ms : List Memtable)
    → s.immutables ≡ ms
    → s.in_flight ≡ none
    → IsSound s
    → MovesIf s [] (take_oldest s ms)
unfolding take_oldest
take_oldest-Moves s [] e n h = tt
take_oldest-Moves s (m ∷ rest) e n h =
    stays s _
      (record {
        fresh = h.fresh;
        small_active = h.small_active;
        small_immutables = small.1;
        small_flight = small.0;
        small_waiting = h.small_waiting;
      })
      (λ k. unfold view in ground (arith, immutables_get-cons m rest k))
  where
    small : All IsSmallTable (m ∷ rest)
    small = subst (All IsSmallTable) e h.small_immutables

pub take-Moves : (s : Store) → IsSound s → MovesIf s [] (take s)
unfolding take
take-Moves s h = go s.in_flight refl
  where
    go :
        (f : Option Memtable)
        → s.in_flight ≡ f
        → MovesIf s [] (elim f [ none ↦ take_oldest s s.immutables | some m ↦ none ])
    go none e = take_oldest-Moves s s.immutables refl e h
    go (some m) e = tt

done-Moves :
    (s : Store) (m : Memtable) (sstables : SstableManager)
    → s.in_flight ≡ some m
    → IsSound s
    → IsFresh sstables
    → ((k : Bytes) → Sstable.get sstables k ≡ or_else (Memtable.get m k) (Sstable.get s.sstables k))
    → Moves s [] (done s sstables)
done-Moves s m sstables e h f same =
    stays s _
      (record {
        fresh = f;
        small_active = h.small_active;
        small_immutables = h.small_immutables;
        small_flight = tt;
        small_waiting = h.small_waiting;
      })
      (λ k. unfold view in ground (arith, same k))

-- What a flush gives with a good stream and the pool up.
abbrev pub Outcome : SstableManager → Memtable → Flushed → Type 0
Outcome s m (Flushed.returns b t) =
    IsFresh t × ((k : Bytes) → Sstable.get t k ≡ or_else (Memtable.get m k) (Sstable.get s k))
Outcome s m Flushed.throws = ⊥
Outcome s m Flushed.blocks = Unit

flush_memtable-Outcome :
    (s : SstableManager) (m : Memtable) (r : Flushed)
    → s.file_pool.shutdown ≡ false
    → StaysFresh r
    → ((k : Bytes) → Promise s m k r)
    → IsKept r
    → Outcome s m r
flush_memtable-Outcome s m (Flushed.returns true t) up f p good = (f, p)
flush_memtable-Outcome s m (Flushed.returns false t) up f p good = absurd good
flush_memtable-Outcome s m Flushed.blocks up f p good = tt
flush_memtable-Outcome s m Flushed.throws up f p good = ground (arith, (p []).1)

pub flush_memtable_to_l0-Outcome :
    (s : SstableManager) (m : Memtable)
    → IsFresh s
    → IsSmallTable m
    → s.file_pool.shutdown ≡ false
    → Outcome s m (flush_memtable_to_l0 s m true)
unfolding flush_memtable_to_l0
flush_memtable_to_l0-Outcome s m f small up =
    if_cases (Outcome s m) (Memtable.empty m) _ _ (λ bare. (f, λ k. rw (empty_get m k bare)))
      (λ _.
        flush_memtable-Outcome s m (Sstable.flush_memtable s m true) up
          (flush_memtable-StaysFresh s m true f)
          (λ k. flush_memtable-Promise s m true k f.unused small) (flush_memtable-IsKept s m))

after_flush-Moves :
    (s : Store) (m : Memtable) (r : Flushed)
    → s.in_flight ≡ some m
    → IsSound s
    → Outcome s.sstables m r
    → MovesIf s [] (after_flush s r)
unfolding after_flush
after_flush-Moves s m (Flushed.returns b t) e h o = done-Moves s m t e h o.0 o.1
after_flush-Moves s m Flushed.blocks e h o = tt
after_flush-Moves s m Flushed.throws e h o = absurd o

pub finish-Moves :
    (s : Store) → IsSound s → s.sstables.file_pool.shutdown ≡ false → MovesIf s [] (finish s true)
unfolding finish
finish-Moves s h up = go s.in_flight refl
  where
    go :
        (f : Option Memtable)
        → s.in_flight ≡ f
        → MovesIf s [] (elim f [
          | none ↦ none
          | some m ↦ after_flush s (flush_memtable_to_l0 s.sstables m true)
        ])
    go none e = tt
    go (some m) e = after_flush-Moves s m (flush_memtable_to_l0 s.sstables m true) e h (
        flush_memtable_to_l0-Outcome s.sstables m h.fresh (subst IsSmallFlight e h.small_flight) up)

pub replenish-Moves :
    (s : Store) (opens stops : Bool)
    → s.sstables.file_pool.next_id + 1 < u64_mod
    → IsSound s
    → Moves s [] (record s { sstables = replenish s.sstables opens stops })
replenish-Moves s opens stops below h =
    stays s _
      (record {
        fresh = replenish-IsFresh s.sstables below h.fresh opens stops;
        small_active = h.small_active;
        small_immutables = h.small_immutables;
        small_flight = h.small_flight;
        small_waiting = h.small_waiting;
      })
      (λ k. unfold view in ground (arith, get-replenish s.sstables opens stops k h.fresh))

-- ===== src/Native/Store/Runs/Closes.antt =====
-- What `close` does to the store, one step at a time.
use lsmio.Base.{
  ◌≡◌, refl, subst, true, false, ◌&&◌, ◌||◌, none, List, [], ◌∷◌, arith, All, if_cases,
}
use lsmio.Native.Memtable.{Memtable}
use lsmio.Native.Sstable.{Flushed}
use lsmio.Native.Store.{Store, begin_barrier, flush_memtable_to_l0}
use lsmio.Native.Store.Events.{
  begin_close, nothing_to_flush, join, collect, after_drain, drain_oldest, drain,
}
use lsmio.Native.Store.Tracked.{IsTracked}
use lsmio.Native.Store.View.{view, immutables_get-cons}
use lsmio.Native.Store.Runs.Writers.{
  IsSmallTable, IsSound, Moves, MovesIf, stays, begin_barrier-Moves,
}
use lsmio.Native.Store.Runs.Flushes.{Outcome, flush_memtable_to_l0-Outcome}

pub begin_close-Moves : (s : Store) → IsSound s → Moves s [] (begin_close s)
unfolding begin_close view
begin_close-Moves s h =
    stays s _
      (record {
        fresh = h.fresh;
        small_active = h.small_active;
        small_immutables = h.small_immutables;
        small_flight = h.small_flight;
        small_waiting = h.small_waiting;
      })
      (λ k. refl)

pub join-Moves : (s : Store) → IsSound s → MovesIf s [] (join s)
unfolding join view
join-Moves s h =
    if_cases (MovesIf s []) (s.flush_thread_up && (s.shutting_down && nothing_to_flush s)) _ _
      (λ _.
        stays s _
          (record {
            fresh = h.fresh;
            small_active = h.small_active;
            small_immutables = h.small_immutables;
            small_flight = h.small_flight;
            small_waiting = h.small_waiting;
          })
          (λ k. refl))
      (λ _. tt)

collected-Moves : (s t : Store) → Moves s [] t → Moves s [] (record t { closing = true })
unfolding view
collected-Moves s t m = record {
  sound = record {
    fresh = m.sound.fresh;
    small_active = m.sound.small_active;
    small_immutables = m.sound.small_immutables;
    small_flight = m.sound.small_flight;
    small_waiting = m.sound.small_waiting;
  };
  views = m.views;
}

pub collect-Moves : (s : Store) → IsSound s → MovesIf s [] (collect s)
unfolding collect
collect-Moves s h =
    if_cases (MovesIf s []) (s.flush_thread_up || s.closing) _ _ (λ _. tt)
      (λ _. collected-Moves s (begin_barrier s) (begin_barrier-Moves s h))

after_drain-Moves :
    (s : Store) (m : Memtable) (rest : List Memtable) (r : Flushed)
    → s.immutables ≡ m ∷ rest
    → s.in_flight ≡ none
    → IsSound s
    → Outcome s.sstables m r
    → MovesIf s [] (after_drain s rest r)
unfolding after_drain
after_drain-Moves s m rest Flushed.throws e n h o = tt
after_drain-Moves s m rest Flushed.blocks e n h o = tt
after_drain-Moves s m rest (Flushed.returns b t) e n h o =
    stays s _
      (record {
        fresh = o.0;
        small_active = h.small_active;
        small_immutables = (subst (All IsSmallTable) e h.small_immutables).1;
        small_flight = h.small_flight;
        small_waiting = h.small_waiting;
      })
      (λ k. unfold view in ground (arith, immutables_get-cons m rest k, o.1 k))

drain_oldest-Moves :
    (s : Store) (ms : List Memtable)
    → s.immutables ≡ ms
    → s.in_flight ≡ none
    → IsSound s
    → s.sstables.file_pool.shutdown ≡ false
    → MovesIf s [] (drain_oldest s true ms)
unfolding drain_oldest
drain_oldest-Moves s [] e n h up = tt
drain_oldest-Moves s (m ∷ rest) e n h up =
    after_drain-Moves s m rest (flush_memtable_to_l0 s.sstables m true) e n h (
      flush_memtable_to_l0-Outcome s.sstables m h.fresh
        (subst (All IsSmallTable) e h.small_immutables).0 up)

pub drain-Moves :
    (s : Store)
    → IsSound s
    → IsTracked s
    → s.sstables.file_pool.shutdown ≡ false
    → MovesIf s [] (drain s true)
unfolding drain
drain-Moves s h tracked up =
    if_cases (MovesIf s []) s.closing _ _
      (λ c. drain_oldest-Moves s s.immutables refl (tracked.grounded (tracked.joined c)) h up)
      (λ _. tt)

-- ===== src/Native/Store/Runs.antt =====
-- Every run of writers, flush thread, file pool and barriers keeps what was written last.
pub mod Writers
pub mod Flushes
pub mod Closes
use lsmio.Base.{
  ℕ, zero, suc, ◌+◌, ◌<◌, ◌≡◌, refl, sym, ap, subst, ◌∙◌, ◌≢◌, Bool, true, false, ◌&&◌, Option,
  none, some, List, [], ◌∷◌, ◌++◌, arith, Bytes, beq, All, All-append, or_else, last_lookup,
  last_lookup-append, if_cases, if◌then◌else◌,
}
use lsmio.Native.Memtable
use lsmio.Native.Memtable.{Memtable}
use lsmio.Native.FilePool.{u64_mod}
use lsmio.Native.Sstable
use lsmio.Native.Sstable.{SstableManager, Flushed}
use lsmio.Native.Sstable.Format.Reads.{IsSmall}
use lsmio.Native.Sstable.Flush.{
  Promise, flush_memtable-Promise, IsKept, flush_memtable-IsKept, empty_get,
}
use lsmio.Native.Sstable.Fresh.{
  IsFresh, StaysFresh, get-replenish, flush_memtable-StaysFresh, replenish, replenish-IsFresh,
}
use lsmio.Native.Store.{
  Store, actual_value, pick, batch_mutation, resume, take, finish, get, visible,
}
use lsmio.Native.Store.Events.{
  Event, writes, resumes, takes, finishes, replenishes, begins_barrier, begins_close, joins,
  collects, drains, drain, step,
}
use lsmio.Native.Store.Steps.{HasIds, HasIdsFor, HoldsIf}
use lsmio.Native.Store.Tracked.{IsTracked, step-IsTracked}
use lsmio.Native.Store.View.{view, or_else_assoc, get-view}
use Writers.{
  IsSound, Moves, MovesIf, stays, written, picked, batch_mutation-Moves, resume-Moves,
  begin_barrier-Moves,
}
use Flushes.{take-Moves, finish-Moves, replenish-Moves}
use Closes.{begin_close-Moves, join-Moves, collect-Moves, drain-Moves}

-- What a step writes.
abbrev pub writes_of : Store → Event → List (Bytes × Bytes)
writes_of s (writes kind key value) = written s kind key value
writes_of s (resumes i) = picked (pick i s.waiting)
writes_of s _ = []

-- The disk takes what is written, strings fit their length fields, ids are left, and the pool is up.
abbrev pub IsBenign : Store → Event → Type 0
IsBenign s (writes kind key value) = IsSmall (key, actual_value kind value)
IsBenign s (finishes good) = (good ≡ true) × (s.sstables.file_pool.shutdown ≡ false)
IsBenign s (drains good) = (good ≡ true) × (s.sstables.file_pool.shutdown ≡ false)
IsBenign s (replenishes opens stops) = HasIds s
IsBenign s _ = Unit

pub IsBenign-HasIdsFor : (s : Store) (e : Event) → IsBenign s e → HasIdsFor s e
IsBenign-HasIdsFor s (writes kind key value) b = tt
IsBenign-HasIdsFor s (resumes i) b = tt
IsBenign-HasIdsFor s takes b = tt
IsBenign-HasIdsFor s (finishes good) b = tt
IsBenign-HasIdsFor s (replenishes opens stops) b = b
IsBenign-HasIdsFor s begins_barrier b = tt
IsBenign-HasIdsFor s begins_close b = tt
IsBenign-HasIdsFor s joins b = tt
IsBenign-HasIdsFor s collects b = tt
IsBenign-HasIdsFor s (drains good) b = tt

step-MovesIf :
    (s : Store) (e : Event)
    → IsSound s
    → IsTracked s
    → IsBenign s e
    → MovesIf s (writes_of s e) (step s e)
unfolding step
step-MovesIf s (writes kind key value) h tracked b =
    if_cases (MovesIf s (written s kind key value)) s.closing _ _ (λ _. tt)
      (λ _. batch_mutation-Moves s kind key value h b)
step-MovesIf s (resumes i) h tracked b =
    if_cases (MovesIf s (picked (pick i s.waiting))) s.closing _ _ (λ _. tt)
      (λ _. resume-Moves s i h)
step-MovesIf s takes h tracked b =
    if_cases (MovesIf s []) s.flush_thread_up _ _ (λ _. take-Moves s h) (λ _. tt)
step-MovesIf s (finishes good) h tracked b =
    subst (λ g. MovesIf s [] (finish s g)) (sym b.0) (finish-Moves s h b.1)
step-MovesIf s (replenishes opens stops) h tracked b = replenish-Moves s opens stops b h
step-MovesIf s begins_barrier h tracked b =
    if_cases (MovesIf s []) s.closing _ _ (λ _. tt) (λ _. begin_barrier-Moves s h)
step-MovesIf s begins_close h tracked b = begin_close-Moves s h
step-MovesIf s joins h tracked b = join-Moves s h
step-MovesIf s collects h tracked b = collect-Moves s h
step-MovesIf s (drains good) h tracked b =
    subst (λ g. MovesIf s [] (drain s g)) (sym b.0) (drain-Moves s h tracked b.1)

pub step-Moves :
    (s t : Store) (e : Event)
    → IsSound s
    → IsTracked s
    → IsBenign s e
    → step s e ≡ some t
    → Moves s (writes_of s e) t
step-Moves s t e h tracked b r = subst (MovesIf s (writes_of s e)) r (step-MovesIf s e h tracked b)

-- A run of benign steps, with all that it wrote, in order.
pub data Runs (s : Store) : List (Bytes × Bytes) → Store → Type 0 where
  start : Runs s [] s
  next :
      {c : List (Bytes × Bytes)} {t u : Store} (e : Event)
      → Runs s c t
      → IsBenign t e
      → step t e ≡ some u
      → Runs s (c ++ writes_of t e) u

pub Runs-IsTracked :
    {s t : Store} {c : List (Bytes × Bytes)} → IsTracked s → Runs s c t → IsTracked t
Runs-IsTracked h start = h
Runs-IsTracked h (next {t} e r b st) =
    subst (HoldsIf IsTracked) st
      (step-IsTracked t e (IsBenign-HasIdsFor t e b) (Runs-IsTracked h r))

-- After any run, each key has the value that was written last in the run, or its old value.
pub Runs-Moves :
    {s t : Store} {c : List (Bytes × Bytes)} → IsSound s → IsTracked s → Runs s c t → Moves s c t
Runs-Moves h tracked start = stays _ _ h (λ k. refl)
Runs-Moves {s} {t = u} h tracked (next {c} {t} e r b st) =
    let before = Runs-Moves h tracked r in
    let after = step-Moves t u e before.sound (Runs-IsTracked tracked r) b st in
    record {
      sound = after.sound;
      views = λ k.
          after.views k
          ∙ ap (or_else (last_lookup k (writes_of t e))) (before.views k)
          ∙ sym (or_else_assoc (last_lookup k (writes_of t e)) (last_lookup k c) (view s k))
          ∙ ap (λ o. or_else o (view s k)) (sym (last_lookup-append k c (writes_of t e)));
    }

-- After any run of benign steps (writers, woken writers, flush thread, file pool, barriers,
-- close) from a sound and tracked store, with no table in flight, `get` returns the value that
-- the run wrote last for the key, or what the store held before if it wrote none; a tombstone
-- reads as no value. Benign means that lengths fit 32 bits, file ids are left, and a flush gets
-- a good stream and a pool that is not shut down.
pub get-Runs :
    {s t : Store} {c : List (Bytes × Bytes)} (k : Bytes)
    → IsSound s
    → IsTracked s
    → Runs s c t
    → t.in_flight ≡ none
    → get t k ≡ visible (or_else (last_lookup k c) (view s k))
get-Runs {t} k h tracked r landed =
    get-view t k landed ∙ ap visible ((Runs-Moves h tracked r).views k)

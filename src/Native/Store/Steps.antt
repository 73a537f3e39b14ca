-- ===== src/Native/Store/Steps.antt =====
-- What every step keeps: a predicate on stores that the parts of the steps keep.
use lsmio.Base.{
  ◌+◌, ◌<◌, ◌≡◌, refl, ◌⊎◌, inl, inr, Bool, true, false, ◌&&◌, ◌||◌, Option, none, some, List, [],
  ◌∷◌, Bytes, arith, if_cases,
}
use lsmio.Native.Memtable
use lsmio.Native.Memtable.{Memtable}
use lsmio.Native.FilePool.{u64_mod}
use lsmio.Native.Sstable.{SstableManager, Flushed}
use lsmio.Native.Sstable.Fresh.{replenish}
use lsmio.Native.Store.{
  Store, MutationType, actual_value, rotate, write_active, is_full, must_rotate, enqueue,
  batch_mutation, pick, resume_with, resume, take_oldest, take, done, after_flush, finish,
  begin_barrier, flush_memtable_to_l0,
}
use lsmio.Native.Store.Events.{
  Event, writes, resumes, takes, finishes, replenishes, begins_barrier, begins_close, joins,
  collects, drains, begin_close, nothing_to_flush, join, collect, after_drain, drain_oldest, drain,
  step,
}

-- The flush of `m` ends with the SSTables `t`, or leaves them alone.
abbrev pub Lands : SstableManager → Memtable → SstableManager → Type 0
Lands sstables m t =
    (t ≡ sstables)
    ⊎ ((good : Bool) × (b : Bool) × (flush_memtable_to_l0 sstables m good ≡ Flushed.returns b t))

abbrev pub HoldsIf : (Store → Type 0) → Option Store → Type 0
HoldsIf P none = Unit
HoldsIf P (some s) = P s

-- Ids are left for the pool.
abbrev pub HasIds : Store → Type 0
HasIds s = s.sstables.file_pool.next_id + 1 < u64_mod

abbrev pub HasIdsFor : Store → Event → Type 0
HasIdsFor s (replenishes opens stops) = HasIds s
HasIdsFor s _ = Unit

pub record IsStable (Sound P : Store → Type 0) : Type 0 where
  pub rotated : (s : Store) → P s → s.closing ≡ false → P (rotate s)
  pub written : (s : Store) (k v : Bytes) → P s → s.closing ≡ false → P (write_active s k v)
  pub queued : (s : Store) (ws : List (Bytes × Bytes)) → P s → P (record s { waiting = ws })
  pub taken :
      (s : Store) (m : Memtable) (rest : List Memtable)
      → P s
      → s.flush_thread_up ≡ true
      → P (record s { immutables = rest; in_flight = some m; flush_in_progress = true })
  pub landed :
      (s : Store) (m : Memtable) (t : SstableManager)
      → Sound s
      → P s
      → s.in_flight ≡ some m
      → Lands s.sstables m t
      → P (done s t)
  pub replenished :
      (s : Store) (opens stops : Bool)
      → Sound s
      → P s
      → HasIds s
      → P (record s { sstables = replenish s.sstables opens stops })
  pub shut : (s : Store) → P s → P (begin_close s)
  pub parked : (s : Store) → P s → s.in_flight ≡ none → P (record s { flush_thread_up = false })
  pub collected :
      (s : Store)
      → P s
      → s.flush_thread_up ≡ false
      → Memtable.empty s.active ≡ true
      → P (record s { closing = true })
  pub drained :
      (s : Store) (m : Memtable) (rest : List Memtable) (t : SstableManager)
      → Sound s
      → P s
      → s.immutables ≡ m ∷ rest
      → Lands s.sstables m t
      → P (record s { immutables = rest; sstables = t })

module _ (Sound P : Store → Type 0) (stable : IsStable Sound P) where
  batch_mutation-keeps :
      (s : Store) (kind : MutationType) (key value : Bytes)
      → P s
      → s.closing ≡ false
      → P (batch_mutation s kind key value)
  unfolding batch_mutation enqueue
  batch_mutation-keeps s kind key value h up =
      if_cases P (must_rotate s key v) _ _
        (λ _.
          if_cases P (is_full s) _ _ (λ _. stable.queued s _ h)
            (λ _. stable.written (rotate s) key v (stable.rotated s h up) (unfold rotate in up)))
        (λ _. stable.written s key v h up)
    where
      v : Bytes
      v = actual_value kind value

  resume_with-keeps :
      (s : Store) (p : Option ((Bytes × Bytes) × List (Bytes × Bytes)))
      → P s
      → s.closing ≡ false
      → HoldsIf P (resume_with s p)
  unfolding resume_with
  resume_with-keeps s none h up = tt
  resume_with-keeps s (some ((k, v), rest)) h up =
      if_cases (HoldsIf P) (is_full s) _ _ (λ _. tt)
        (λ _.
          stable.written _ k v
            (stable.rotated (record s { waiting = rest }) (stable.queued s rest h) up)
            (unfold rotate in up))

  take_oldest-keeps :
      (s : Store) (ms : List Memtable)
      → P s
      → s.flush_thread_up ≡ true
      → HoldsIf P (take_oldest s ms)
  unfolding take_oldest
  take_oldest-keeps s [] h up = tt
  take_oldest-keeps s (m ∷ rest) h up = stable.taken s m rest h up

  take-keeps : (s : Store) → P s → s.flush_thread_up ≡ true → HoldsIf P (take s)
  unfolding take
  take-keeps s h up = go s.in_flight
    where
      go :
          (f : Option Memtable)
          → HoldsIf P (elim f [ none ↦ take_oldest s s.immutables | some m ↦ none ])
      go none = take_oldest-keeps s s.immutables h up
      go (some m) = tt

  finish-keeps : (s : Store) (good : Bool) → Sound s → P s → HoldsIf P (finish s good)
  unfolding finish after_flush
  finish-keeps s good sound h = go s.in_flight refl
    where
      ends :
          (m : Memtable) (r : Flushed)
          → s.in_flight ≡ some m
          → flush_memtable_to_l0 s.sstables m good ≡ r
          → HoldsIf P (after_flush s r)
      ends m (Flushed.returns b t) e r = stable.landed s m t sound h e (inr (good, b, r))
      ends m Flushed.throws e r = stable.landed s m s.sstables sound h e (inl refl)
      ends m Flushed.blocks e r = tt

      go :
          (f : Option Memtable)
          → s.in_flight ≡ f
          → HoldsIf P (elim f [
            | none ↦ none
            | some m ↦ after_flush s (flush_memtable_to_l0 s.sstables m good)
          ])
      go none e = tt
      go (some m) e = ends m (flush_memtable_to_l0 s.sstables m good) e refl

  begin_barrier-keeps : (s : Store) → P s → s.closing ≡ false → P (begin_barrier s)
  unfolding begin_barrier
  begin_barrier-keeps s h up =
      if_cases P (Memtable.empty s.active) _ _ (λ _. h) (λ _. stable.rotated s h up)

  idle_flight : (s : Store) → nothing_to_flush s ≡ true → s.in_flight ≡ none
  idle_flight s e = go s.in_flight refl
    where
      go : (f : Option Memtable) → s.in_flight ≡ f → s.in_flight ≡ none
      go none q = q
      go (some m) q = ground arith

  join-keeps : (s : Store) → P s → HoldsIf P (join s)
  unfolding join
  join-keeps s h =
      if_cases (HoldsIf P) (s.flush_thread_up && (s.shutting_down && nothing_to_flush s)) _ _
        (λ c. stable.parked s h (idle_flight s (ground arith))) (λ _. tt)

  collect-keeps : (s : Store) → P s → HoldsIf P (collect s)
  unfolding collect begin_barrier rotate
  collect-keeps s h =
      if_cases (HoldsIf P) (s.flush_thread_up || s.closing) _ _ (λ _. tt)
        (λ c.
          if_cases (λ (t : Store). P (record t { closing = true })) (Memtable.empty s.active) _ _
            (λ bare. stable.collected s h (ground arith) bare)
            (λ _.
              stable.collected (rotate s) (stable.rotated s h (ground arith)) (ground arith) refl))

  drain_oldest-keeps :
      (s : Store) (good : Bool) (ms : List Memtable)
      → Sound s
      → P s
      → s.immutables ≡ ms
      → HoldsIf P (drain_oldest s good ms)
  unfolding drain_oldest after_drain
  drain_oldest-keeps s good [] sound h e = tt
  drain_oldest-keeps s good (m ∷ rest) sound h e = go (flush_memtable_to_l0 s.sstables m good) refl
    where
      go :
          (r : Flushed)
          → flush_memtable_to_l0 s.sstables m good ≡ r
          → HoldsIf P (after_drain s rest r)
      go (Flushed.returns b t) q = stable.drained s m rest t sound h e (inr (good, b, q))
      go Flushed.throws q = tt
      go Flushed.blocks q = tt

  pub step-keeps : (s : Store) (e : Event) → Sound s → HasIdsFor s e → P s → HoldsIf P (step s e)
  unfolding step
  step-keeps s (writes kind key value) sound b h =
      if_cases (HoldsIf P) s.closing _ _ (λ _. tt)
        (λ up. batch_mutation-keeps s kind key value h up)
  step-keeps s (resumes i) sound b h =
      if_cases (HoldsIf P) s.closing _ _ (λ _. tt)
        (λ up. unfold resume in resume_with-keeps s (pick i s.waiting) h up)
  step-keeps s takes sound b h =
      if_cases (HoldsIf P) s.flush_thread_up _ _ (λ up. take-keeps s h up) (λ _. tt)
  step-keeps s (finishes good) sound b h = finish-keeps s good sound h
  step-keeps s (replenishes opens stops) sound b h = stable.replenished s opens stops sound h b
  step-keeps s begins_barrier sound b h =
      if_cases (HoldsIf P) s.closing _ _ (λ _. tt) (λ up. begin_barrier-keeps s h up)
  step-keeps s begins_close sound b h = stable.shut s h
  step-keeps s joins sound b h = join-keeps s h
  step-keeps s collects sound b h = collect-keeps s h
  step-keeps s (drains good) sound b h =
      unfold drain in
      if_cases (HoldsIf P) s.closing _ _ (λ _. drain_oldest-keeps s good s.immutables sound h refl)
        (λ _. tt)

-- ===== src/Native/Store/Prefix/Barriers.antt =====
-- What getPrefix lists after a write barrier, in the running store and in a store opened later.
use mathlib.Core.List.{foldl}
use lsmio.Base.{
  ℕ, ◌≡◌, refl, sym, subst, ap, ◌∙◌, Bool, true, none, List, [], ◌∷◌, Bytes, starts_with, All,
  lookup, or_else, last_lookup, inl, inr, if_cases, if◌then◌else◌,
}
use lsmio.Native.Memtable
use lsmio.Native.Memtable.{Memtable}
use lsmio.Native.FilePool
use lsmio.Native.FilePool.{Disk, FilePool}
use lsmio.Native.Sstable.{L0Index, SstableManager, Flushed, flush_to, flush_memtable, write_table}
use lsmio.Native.Sstable.Index.Strict.{index_of-IsStrict}
use lsmio.Native.Sstable.Format.{offsets_from}
use lsmio.Native.Sstable.Scan.{IsOrdered}
use lsmio.Native.Sstable.Fresh.{replenish, after_round}
use lsmio.Native.Sstable.Laid.{Laid}
use lsmio.Native.Sstable.Recover.{
  recover_state, recover_node, recover_nodes, sort_files, found_files,
}
use lsmio.Native.Sstable.Restart.{Lists}
use lsmio.Native.Store
use lsmio.Native.Store.{
  Store, rotate, write_active, barrier_done, visible, get_prefix, flush_memtable_to_l0,
}
use lsmio.Native.Store.Events.{begin_close}
use lsmio.Native.Store.Steps.{IsStable, HoldsIf, Lands, step-keeps}
use lsmio.Native.Store.Tracked.{IsTracked}
use lsmio.Native.Store.View.{view}
use lsmio.Native.Store.Runs.{
  Runs, start, next, Runs-Moves, Runs-IsTracked, IsBenign-HasIdsFor, get-Runs,
}
use lsmio.Native.Store.Runs.Writers.{IsSound}
use lsmio.Native.Store.Durable.{no_tables, none_in_flight}
use lsmio.Native.Store.Reopen.{reopen, get-reopen_barrier}
use lsmio.Native.Store.Prefix.{get_prefix-get}
use lsmio.Native.Store.Prefix.Listing.{get_prefix-IsAscending, IsAscending-ext}

abbrev OrderedIf : Flushed → Type 0
OrderedIf (Flushed.returns b t) = All IsOrdered t.head
OrderedIf Flushed.blocks = Unit
OrderedIf Flushed.throws = Unit

flush_to-OrderedIf :
    (s : SstableManager) (m : Memtable) (good : Bool) (a : FilePool.Acquired)
    → All IsOrdered s.head
    → OrderedIf (flush_to s m good a)
unfolding flush_to write_table
flush_to-OrderedIf s m good FilePool.Acquired.blocked h = tt
flush_to-OrderedIf s m good FilePool.Acquired.shutting_down h = tt
flush_to-OrderedIf s m good (FilePool.Acquired.got path fp) h =
    if_cases OrderedIf good _ _ (λ _. (index_of-IsStrict (offsets_from 0 m.entries), h)) (λ _. h)

flush-OrderedIf :
    (s : SstableManager) (m : Memtable) (good : Bool)
    → All IsOrdered s.head
    → OrderedIf (flush_memtable_to_l0 s m good)
unfolding flush_memtable_to_l0 flush_memtable
flush-OrderedIf s m good h =
    if_cases OrderedIf (Memtable.empty m) _ _ (λ _. h)
      (λ _.
        if_cases OrderedIf (Memtable.empty m) _ _ (λ _. h)
          (λ _. flush_to-OrderedIf s m good (FilePool.acquire s.file_pool) h))

-- The indexes of all tables on disk are in order.
abbrev pub IsIndexed : Store → Type 0
IsIndexed s = All IsOrdered s.sstables.head

Lands-IsOrdered :
    (s : SstableManager) (m : Memtable) (t : SstableManager)
    → All IsOrdered s.head
    → Lands s m t
    → All IsOrdered t.head
Lands-IsOrdered s m t h (inl e) = subst (λ (u : SstableManager). All IsOrdered u.head) (sym e) h
Lands-IsOrdered s m t h (inr (good, b, e)) = subst OrderedIf e (flush-OrderedIf s m good h)

replenish-IsOrdered :
    (s : SstableManager) (opens stops : Bool)
    → All IsOrdered s.head
    → All IsOrdered (replenish s opens stops).head
unfolding replenish
replenish-IsOrdered s opens stops h = go (FilePool.replenish s.file_pool s.disk opens stops)
  where
    go : (r : FilePool.Round) → All IsOrdered (after_round s r).head
    go (FilePool.Round.ended fp disk) = h
    go FilePool.Round.waits = h
    go (FilePool.Round.goes_on fp disk) = h

IsIndexed-IsStable : IsStable IsSound IsIndexed
unfolding rotate write_active begin_close
IsIndexed-IsStable = record {
  rotated = λ s h up. h;
  written = λ s k v h up. h;
  queued = λ s ws h. h;
  taken = λ s m rest h up. h;
  landed = λ s m t sound h e l. Lands-IsOrdered s.sstables m t h l;
  replenished = λ s opens stops sound h ids. replenish-IsOrdered s.sstables opens stops h;
  shut = λ s h. h;
  parked = λ s h landed. h;
  collected = λ s h down bare. h;
  drained = λ s m rest t sound h e l. Lands-IsOrdered s.sstables m t h l;
}

pub Runs-IsIndexed :
    {s t : Store} {c : List (Bytes × Bytes)}
    → IsSound s
    → IsTracked s
    → IsIndexed s
    → Runs s c t
    → IsIndexed t
Runs-IsIndexed sound tracked h start = h
Runs-IsIndexed sound tracked h (next {t} e r b st) = subst (HoldsIf IsIndexed) st (
    step-keeps IsSound IsIndexed IsIndexed-IsStable t e (Runs-Moves sound tracked r).sound
      (IsBenign-HasIdsFor t e b) (Runs-IsIndexed sound tracked h r))

recover_nodes-IsOrdered :
    (disk : Disk) (files : List (ℕ × Bytes)) (head : List L0Index)
    → All IsOrdered head
    → All IsOrdered (foldl (λ nodes file. recover_node disk file ∷ nodes) head files)
unfolding recover_node
recover_nodes-IsOrdered disk [] head h = h
recover_nodes-IsOrdered disk ((id, path) ∷ files) head h =
    recover_nodes-IsOrdered disk files _ (index_of-IsStrict _, h)

pub reopen-IsIndexed :
    (dir : Bytes) (names : List Bytes) (disk : Disk) (buffer_size buffers size pre_allocation : ℕ)
    → IsIndexed (reopen dir names disk buffer_size buffers size pre_allocation)
unfolding reopen Store.new recover_state recover_nodes
reopen-IsIndexed dir names disk buffer_size buffers size pre_allocation =
    recover_nodes-IsOrdered disk (sort_files (found_files dir names)) [] tt

-- A benign run from a sound and tracked store whose indexes are in order reaches a state in
-- which the condition of writeBarrier holds. Then getPrefix lists a key with the prefix with
-- what the run wrote last for it, or else what the store held before, unless that is the
-- tombstone, and lists no key without the prefix.
pub get_prefix-Runs_barrier :
    {s t : Store} {c : List (Bytes × Bytes)} (p j : Bytes)
    → IsSound s
    → IsTracked s
    → IsIndexed s
    → Runs s c t
    → barrier_done t ≡ true
    → lookup j (get_prefix t p).1
      ≡ (if starts_with p j then visible (or_else (last_lookup j c) (view s j)) else none)
get_prefix-Runs_barrier {t} p j sound tracked indexed r waited =
    get_prefix-get t p j (no_tables t waited) (Runs-IsIndexed sound tracked indexed r)
    ∙ ap (λ o. if starts_with p j then o else none)
        (get-Runs j sound tracked r (none_in_flight t (Runs-IsTracked tracked r) waited))

-- After a benign run from a sound and tracked store that is laid out and whose indexes are in
-- order, up to a state in which the condition of writeBarrier holds and the active table is
-- empty, a store opened on the files of that state lists for every prefix the very list that the
-- running store lists; the files may be found in any order.
pub get_prefix-reopen_barrier :
    {s t : Store} {c : List (Bytes × Bytes)} (dir p : Bytes) (names : List Bytes)
    (buffer_size buffers size pre_allocation : ℕ)
    → IsSound s
    → IsTracked s
    → IsIndexed s
    → Laid dir s.sstables
    → Runs s c t
    → barrier_done t ≡ true
    → Memtable.empty t.active ≡ true
    → Lists dir t.sstables.disk names
    → (get_prefix (reopen dir names t.sstables.disk buffer_size buffers size pre_allocation) p).1
      ≡ (get_prefix t p).1
get_prefix-reopen_barrier {t} dir p names buffer_size buffers size pre_allocation sound tracked
      indexed laid r waited bare lists =
    let again = reopen dir names t.sstables.disk buffer_size buffers size pre_allocation in
    IsAscending-ext (get_prefix again p).1 (get_prefix t p).1 (get_prefix-IsAscending again p)
      (get_prefix-IsAscending t p)
      (λ j.
        get_prefix-get again p j (unfold reopen Store.new in refl)
          (reopen-IsIndexed dir names t.sstables.disk buffer_size buffers size pre_allocation)
        ∙ ap (λ o. if starts_with p j then o else none)
            (get-reopen_barrier dir j names buffer_size buffers size pre_allocation sound tracked
              laid r waited bare lists)
        ∙ sym (get_prefix-Runs_barrier p j sound tracked indexed r waited))

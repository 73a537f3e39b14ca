-- ===== src/Native/Store/Reopen.antt =====
-- A store opened again on the directory of an earlier one: recovery, after any run.
use lsmio.Base.{
  ℕ, ◌≡◌, refl, sym, ap, subst, ◌∙◌, Bool, true, none, List, [], ltb, if◌then◌else◌, Bytes, All,
  lookup, or_else, inl, inr, last_lookup, if_cases,
}
use lsmio.Config.{LsmioConfig}
use lsmio.Native.Memtable
use lsmio.Native.Memtable.{Memtable}
use lsmio.Native.FilePool.{Disk}
use lsmio.Native.Sstable
use lsmio.Native.Sstable.{SstableManager, Flushed}
use lsmio.Native.Sstable.Laid.{Laid}
use lsmio.Native.Sstable.Laid.Flush.{LaidIf, flush_memtable-Laid}
use lsmio.Native.Sstable.Laid.Replenish.{replenish-Laid}
use lsmio.Native.Sstable.Recover.{recover_state, found_files, sort_files, recover_nodes}
use lsmio.Native.Sstable.Restart.{Lists, get-recover_Laid}
use lsmio.Native.Store
use lsmio.Native.Store.{
  Store, rotate, write_active, barrier_done, visible, tables_get, flush_memtable_to_l0,
}
use lsmio.Native.Store.Events.{begin_close, is_drained}
use lsmio.Native.Store.Steps.{IsStable, HoldsIf, Lands, step-keeps}
use lsmio.Native.Store.Tracked.{IsTracked}
use lsmio.Native.Store.View.{view}
use lsmio.Native.Store.Runs.{Runs, start, next, Runs-Moves, IsBenign-HasIdsFor}
use lsmio.Native.Store.Runs.Writers.{IsSound, IsSmallTable, IsSmallFlight}
use lsmio.Native.Store.Durable.{get-Runs_barrier, get-Runs_close}

module _ (dir : Bytes) where
  flush_memtable_to_l0-LaidIf :
      (s : Store) (m : Memtable) (good : Bool)
      → IsSound s
      → IsSmallTable m
      → Laid dir s.sstables
      → LaidIf dir (flush_memtable_to_l0 s.sstables m good)
  unfolding flush_memtable_to_l0
  flush_memtable_to_l0-LaidIf s m good sound small h =
      if_cases (LaidIf dir) (Memtable.empty m) _ _ (λ _. h)
        (λ _. flush_memtable-Laid dir s.sstables m good h sound.fresh small)

  Lands-Laid :
      (s : Store) (m : Memtable) (t : SstableManager)
      → IsSound s
      → IsSmallTable m
      → Laid dir s.sstables
      → Lands s.sstables m t
      → Laid dir t
  Lands-Laid s m t sound small h (inl e) = subst (Laid dir) (sym e) h
  Lands-Laid s m t sound small h (inr (good, b, e)) =
      subst (LaidIf dir) e (flush_memtable_to_l0-LaidIf s m good sound small h)

  IsLaidOut : Store → Type 0
  IsLaidOut s = Laid dir s.sstables

  IsLaidOut-IsStable : IsStable IsSound IsLaidOut
  unfolding IsLaidOut rotate write_active begin_close
  IsLaidOut-IsStable = record {
    rotated = λ s h up. h;
    written = λ s k v h up. h;
    queued = λ s ws h. h;
    taken = λ s m rest h up. h;
    landed =
        λ s m t sound h e l. Lands-Laid s m t sound (subst IsSmallFlight e sound.small_flight) h l;
    replenished =
        λ s opens stops sound h ids. replenish-Laid dir s.sstables opens stops ids sound.fresh h;
    shut = λ s h. h;
    parked = λ s h landed. h;
    collected = λ s h down bare. h;
    drained = λ s m rest t sound h e l.
        Lands-Laid s m t sound (subst (All IsSmallTable) e sound.small_immutables).0 h l;
  }

  pub Runs-Laid :
      {s t : Store} {c : List (Bytes × Bytes)}
      → IsSound s
      → IsTracked s
      → Laid dir s.sstables
      → Runs s c t
      → Laid dir t.sstables
  unfolding IsLaidOut
  Runs-Laid sound tracked h start = h
  Runs-Laid sound tracked h (next {t} e r b st) = subst (HoldsIf IsLaidOut) st (
      step-keeps IsSound IsLaidOut IsLaidOut-IsStable t e (Runs-Moves sound tracked r).sound
        (IsBenign-HasIdsFor t e b) (Runs-Laid sound tracked h r))

-- A store with recovered SSTables, on the directory that holds the files `names`.
unfoldable pub reopen : Bytes → List Bytes → Disk → ℕ → ℕ → ℕ → ℕ → Store
reopen dir names disk buffer_size buffers size pre_allocation =
    Store.new buffer_size buffers (recover_state dir names disk size pre_allocation)

-- The constructor. With `overWrite` the directory is removed first; the tuning only logs.
unfoldable pub construct : LsmioConfig → Bool → Bytes → List Bytes → Disk → Store
unfolding reopen
construct config over_write dir names disk =
    let bytes =
      if ltb 0 config.write_buffer_size then config.write_buffer_size else Store.default_bytes in
    let pre_allocation = if config.pre_allocate then bytes else 0 in
    let found = if over_write then [] else names in
    let left = if over_write then [] else disk in
    reopen dir found left config.write_buffer_size config.write_buffer_number config.file_pool_size
      pre_allocation

-- An overwritten database is empty, whatever was there.
get-construct_overwritten :
    (config : LsmioConfig) (dir key : Bytes) (names : List Bytes) (disk : Disk)
    → Store.get (construct config true dir names disk) key ≡ none
unfolding construct reopen Store.get Store.new tables_get Memtable.get lookup recover_state
    found_files sort_files recover_nodes Sstable.get Sstable.nodes_get
get-construct_overwritten config dir key names disk = refl

get-reopen :
    (dir k : Bytes) (names : List Bytes) (s : SstableManager)
    (buffer_size buffers size pre_allocation : ℕ)
    → Laid dir s
    → Lists dir s.disk names
    → Store.get (reopen dir names s.disk buffer_size buffers size pre_allocation) k
      ≡ visible (Sstable.get s k)
unfolding reopen Store.get Store.new tables_get Memtable.get lookup
get-reopen dir k names s buffer_size buffers size pre_allocation h lists =
    ap visible (get-recover_Laid dir s names size pre_allocation k h lists)

-- After a benign run from a sound and tracked store that is laid out, up to a state in which the
-- condition of writeBarrier holds and the active table is empty, a store opened on the files of
-- that state gives for each key what the run wrote last, or what the first store held; the files
-- may be listed in any order.
pub get-reopen_barrier :
    {s t : Store} {c : List (Bytes × Bytes)} (dir k : Bytes) (names : List Bytes)
    (buffer_size buffers size pre_allocation : ℕ)
    → IsSound s
    → IsTracked s
    → Laid dir s.sstables
    → Runs s c t
    → barrier_done t ≡ true
    → Memtable.empty t.active ≡ true
    → Lists dir t.sstables.disk names
    → Store.get (reopen dir names t.sstables.disk buffer_size buffers size pre_allocation) k
      ≡ visible (or_else (last_lookup k c) (view s k))
get-reopen_barrier {t} dir k names buffer_size buffers size pre_allocation sound tracked laid r
      waited bare lists =
    get-reopen dir k names t.sstables buffer_size buffers size pre_allocation
      (Runs-Laid dir sound tracked laid r) lists
    ∙ ap visible (get-Runs_barrier k sound tracked r waited bare)

-- A store closed and opened again gives what was written last.
pub get-reopen_close :
    {s t : Store} {c : List (Bytes × Bytes)} (dir k : Bytes) (names : List Bytes)
    (buffer_size buffers size pre_allocation : ℕ)
    → IsSound s
    → IsTracked s
    → Laid dir s.sstables
    → Runs s c t
    → is_drained t ≡ true
    → Lists dir t.sstables.disk names
    → Store.get (reopen dir names t.sstables.disk buffer_size buffers size pre_allocation) k
      ≡ visible (or_else (last_lookup k c) (view s k))
get-reopen_close {t} dir k names buffer_size buffers size pre_allocation sound tracked laid r
      drained lists =
    get-reopen dir k names t.sstables buffer_size buffers size pre_allocation
      (Runs-Laid dir sound tracked laid r) lists
    ∙ ap visible (get-Runs_close k sound tracked r drained)

-- ===== src/Native/Store.antt =====
-- LSMIOStoreNative: lib/manager/store/native/store_native.cpp and its header. What one thread does
-- while it holds `_state_mutex` is one step; a wait on a condition variable ends a step.
pub mod Events
pub mod Steps
pub mod Tracked
pub mod View
pub mod Flight
pub mod Prefix
pub mod Runs
pub mod Durable
pub mod Reopen
pub mod Sessions
pub mod Progress
use mathlib.Core.List.{filter}
use lsmio.Base.{
  ℕ, zero, suc, ◌+◌, ◌*◌, ◌%◌, Bool, true, false, not, ◌&&◌, ◌||◌, Option, none, some, List, [],
  ◌∷◌, ◌++◌, reverse, Bytes, beq, ltb, leb, length, lookup, member, or_else, if◌then◌else◌,
}
use lsmio.Native.Memtable
use lsmio.Native.Memtable.{Memtable, Found, tombstone, size_mod}
use lsmio.Native.Sstable
use lsmio.Native.Sstable.{SstableManager, Flushed}

-- The front of `_immutable_memtables` is the head of the list, the oldest table. `in_flight` is the
-- table that the flush thread has taken; `waiting` are the writers that wait for room, each with
-- its key and value. `flush_thread_up` says that the flush thread is not joined, `closing` that
-- `close` has taken the active table away.
pub record Store : Type 0 where
  pub max_bytes : ℕ
  pub max_immutables : ℕ
  pub active : Memtable
  pub immutables : List Memtable
  pub in_flight : Option Memtable
  pub flush_in_progress : Bool
  pub shutting_down : Bool
  pub flush_thread_up : Bool
  pub closing : Bool
  pub waiting : List (Bytes × Bytes)
  pub sstables : SstableManager

-- The sizes that the constructor takes from the configuration.
abbrev pub default_bytes : ℕ
default_bytes = 32 * 1024 * 1024

unfoldable pub new : ℕ → ℕ → SstableManager → Store
new write_buffer_size write_buffer_number sstables = record {
  max_bytes = if ltb 0 write_buffer_size then write_buffer_size else default_bytes;
  max_immutables = if ltb 0 write_buffer_number then write_buffer_number else 4;
  active = Memtable.new;
  immutables = [];
  in_flight = none;
  flush_in_progress = false;
  shutting_down = false;
  flush_thread_up = true;
  closing = false;
  waiting = [];
  sstables = sstables;
}

pub data MutationType : Type 0 where
  put : MutationType
  del : MutationType

-- What is stored for a mutation.
unfoldable pub actual_value : MutationType → Bytes → Bytes
actual_value put value = value
actual_value del value = tombstone

-- The active table is full, and not empty.
unfoldable pub must_rotate : Store → Bytes → Bytes → Bool
must_rotate s key value =
    let entry_size = (length key + length value) % size_mod in
    ltb s.max_bytes ((s.active.size_bytes + entry_size) % size_mod) && ltb 0 s.active.size_bytes

abbrev pub is_full : Store → Bool
is_full s = leb s.max_immutables (length s.immutables)

unfoldable pub rotate : Store → Store
rotate s = record s { active = Memtable.new; immutables = s.immutables ++ s.active ∷ [] }

unfoldable pub write_active : Store → Bytes → Bytes → Store
write_active s key value = record s { active = Memtable.add s.active key value }

unfoldable pub enqueue : Store → Bytes → Bytes → Store
enqueue s key value = record s { waiting = s.waiting ++ (key, value) ∷ [] }

-- `_batchMutation` up to its return, or to its wait for room.
unfoldable pub batch_mutation : Store → MutationType → Bytes → Bytes → Store
unfolding must_rotate rotate write_active enqueue
batch_mutation s kind key value =
    let v = actual_value kind value in
    if must_rotate s key v
    then if is_full s then enqueue s key v else write_active (rotate s) key v
    else write_active s key v

-- One of several waiting writers, and the others.
unfoldable pub pick : ℕ → List (Bytes × Bytes) → Option ((Bytes × Bytes) × List (Bytes × Bytes))
pick i [] = none
pick zero (w ∷ ws) = some (w, ws)
pick (suc i) (w ∷ ws) = elim (pick i ws) [ none ↦ none | some (x, rest) ↦ some (x, w ∷ rest) ]

resume_with : Store → Option ((Bytes × Bytes) × List (Bytes × Bytes)) → Option Store
resume_with s none = none
resume_with s (some ((key, value), rest)) =
    if is_full s then none else some (write_active (rotate (record s { waiting = rest })) key value)

-- A waiting writer, any of them, goes on once there is room: it rotates and writes.
unfoldable pub resume : Store → ℕ → Option Store
unfolding resume_with rotate write_active pick
resume s i = resume_with s (pick i s.waiting)

take_oldest : Store → List Memtable → Option Store
take_oldest s [] = none
take_oldest s (m ∷ rest) =
    some (record s { immutables = rest; in_flight = some m; flush_in_progress = true })

-- The flush thread, free, takes the oldest immutable table.
unfoldable pub take : Store → Option Store
unfolding take_oldest
take s = elim s.in_flight [ none ↦ take_oldest s s.immutables | some m ↦ none ]

abbrev done : Store → SstableManager → Store
done s sstables = record s { sstables = sstables; in_flight = none; flush_in_progress = false }

after_flush : Store → Flushed → Option Store
after_flush s (Flushed.returns b sstables) = some (done s sstables)
after_flush s Flushed.throws = some (done s s.sstables)
after_flush s Flushed.blocks = none

-- `FlushMemtableToL0`, which drops the result of the flush.
unfoldable pub flush_memtable_to_l0 : SstableManager → Memtable → Bool → Flushed
flush_memtable_to_l0 sstables m good =
    if Memtable.empty m
    then Flushed.returns true sstables
    else Sstable.flush_memtable sstables m good

-- The flush thread ends the flush of its table; an exception is printed and dropped.
unfoldable pub finish : Store → Bool → Option Store
unfolding after_flush flush_memtable_to_l0
finish s good = elim s.in_flight [
  | none ↦ none
  | some m ↦ after_flush s (flush_memtable_to_l0 s.sstables m good)
]

-- `writeBarrier` up to its wait, and the condition that it waits for.
unfoldable pub begin_barrier : Store → Store
unfolding rotate
begin_barrier s = if Memtable.empty s.active then s else rotate s

abbrev pub barrier_done : Store → Bool
barrier_done s = elim s.immutables [ [] ↦ not s.flush_in_progress | _ ↦ false ]

unfoldable pub tables_get : List Memtable → Bytes → Option Bytes
tables_get [] key = none
tables_get (m ∷ ms) key = or_else (Memtable.get m key) (tables_get ms key)

-- A tombstone is no value.
abbrev pub visible : Option Bytes → Option Bytes
visible none = none
visible (some value) = if beq value tombstone then none else some value

-- The active table, the immutable ones from the newest to the oldest, and the SSTables.
unfoldable pub get : Store → Bytes → Option Bytes
unfolding tables_get
get s key = visible (
    or_else (Memtable.get s.active key)
      (or_else (tables_get (reverse s.immutables) key) (Sstable.get s.sstables key)))

unfoldable pub scan_tables : List Memtable → Bytes → Found → Found
scan_tables [] prefix f = f
scan_tables (m ∷ ms) prefix f = scan_tables ms prefix (Memtable.scan m prefix f)

-- The results that are not marked as deleted, in key order.
unfoldable pub live_results : List (Bytes × Bytes) → List Bytes → List (Bytes × Bytes)
live_results [] deleted = []
live_results ((key, value) ∷ l) deleted =
    let rest = live_results l deleted in if member key deleted then rest else (key, value) ∷ rest

abbrev not_empty {ℓ} : {A : Type ℓ} → List A → Bool
not_empty [] = false
not_empty (x ∷ l) = true

unfoldable pub scan_all : Store → Bytes → Found
unfolding scan_tables
scan_all s prefix =
    Sstable.scan s.sstables prefix
      (scan_tables (reverse s.immutables) prefix (Memtable.scan s.active prefix Memtable.nothing))

unfoldable pub get_prefix : Store → Bytes → Bool × List (Bytes × Bytes)
unfolding scan_all live_results
get_prefix s prefix =
    let f = scan_all s prefix in (not_empty f.results, live_results f.results f.deleted_keys)

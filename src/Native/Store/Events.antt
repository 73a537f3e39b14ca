-- ===== src/Native/Store/Events.antt =====
-- LSMIOStoreNative::close, and the steps of all threads of a store:
-- lib/manager/store/native/store_native.cpp. A step that waits for its condition is no step.
use lsmio.Base.{
  ℕ, Bool, true, false, ◌&&◌, ◌||◌, Option, none, some, List, [], ◌∷◌, Bytes, if◌then◌else◌,
}
use lsmio.Native.Memtable.{Memtable}
use lsmio.Native.Sstable.{Flushed}
use lsmio.Native.Sstable.Fresh.{replenish}
use lsmio.Native.Store.{
  Store, MutationType, batch_mutation, resume, take, finish, begin_barrier, flush_memtable_to_l0,
}

-- `close` sets `_shutting_down`; the exchange of a second call fails, and nothing changes.
unfoldable pub begin_close : Store → Store
begin_close s = record s { shutting_down = true }

-- There is no table for the flush thread: none in its hands, none in the list.
abbrev pub nothing_to_flush : Store → Bool
nothing_to_flush s = elim s.in_flight [
  | none ↦ elim s.immutables [ [] ↦ true | _ ↦ false ]
  | some m ↦ false
]

-- The flush thread returns from `FlushWorkLoop`, and `close` joins it.
unfoldable pub join : Store → Option Store
join s =
    if s.flush_thread_up && (s.shutting_down && nothing_to_flush s)
    then some (record s { flush_thread_up = false })
    else none

-- `close`, past the join, takes the lock and moves the active table to the others.
unfoldable pub collect : Store → Option Store
unfolding begin_barrier
collect s =
    if s.flush_thread_up || s.closing
    then none
    else some (record (begin_barrier s) { closing = true })

unfoldable pub after_drain : Store → List Memtable → Flushed → Option Store
after_drain s rest (Flushed.returns b sstables) =
    some (record s { immutables = rest; sstables = sstables })
after_drain s rest Flushed.throws = none
after_drain s rest Flushed.blocks = none

unfoldable pub drain_oldest : Store → Bool → List Memtable → Option Store
drain_oldest s good [] = none
drain_oldest s good (m ∷ rest) = after_drain s rest (flush_memtable_to_l0 s.sstables m good)

-- A round of the loop of `close`; here an exception ends the program.
unfoldable pub drain : Store → Bool → Option Store
unfolding drain_oldest after_drain flush_memtable_to_l0
drain s good = if s.closing then drain_oldest s good s.immutables else none

-- `close` has left its loop.
abbrev pub is_drained : Store → Bool
is_drained s = elim s.immutables [ [] ↦ s.closing | _ ↦ false ]

-- What the threads and their environment can do.
pub data Event : Type 0 where
  writes : MutationType → Bytes → Bytes → Event
  resumes : ℕ → Event
  takes : Event
  finishes : Bool → Event
  replenishes : Bool → Bool → Event
  begins_barrier : Event
  begins_close : Event
  joins : Event
  collects : Event
  drains : Bool → Event

-- Clients make no calls once `close` has moved the active table.
unfoldable pub step : Store → Event → Option Store
unfolding batch_mutation resume take finish begin_barrier begin_close join collect drain
step s (writes kind key value) = if s.closing then none else some (batch_mutation s kind key value)
step s (resumes i) = if s.closing then none else resume s i
step s takes = if s.flush_thread_up then take s else none
step s (finishes good) = finish s good
step s (replenishes opens stops) = some (record s { sstables = replenish s.sstables opens stops })
step s begins_barrier = if s.closing then none else some (begin_barrier s)
step s begins_close = some (begin_close s)
step s joins = join s
step s collects = collect s
step s (drains good) = drain s good

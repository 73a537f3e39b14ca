-- ===== src/Tests/NativeStore.antt =====
-- The native store's theorems at concrete inputs.
use lsmio.Base.{
  ◌≡◌, refl, true, false, Option, none, some, List, [], ◌∷◌, arith, Bytes, codes, beq, lookup,
  last_lookup, or_else, starts_with, if◌then◌else◌,
}
use lsmio.Native.Memtable
use lsmio.Native.Memtable.{Memtable, tombstone}
use lsmio.Native.FilePool
use lsmio.Native.FileCloser
use lsmio.Native.Sstable
use lsmio.Native.Sstable.{SstableManager}
use lsmio.Native.Sstable.Fresh.{replenish}
use lsmio.Native.Store
use lsmio.Native.Store.{Store, put, del, visible, batch_mutation, take, finish, begin_barrier}
use lsmio.Native.Store.Events
use lsmio.Native.Store.Events.{Event, writes, takes, finishes, replenishes, begins_barrier, step}
use lsmio.Native.Store.Tracked.{IsTracked}
use lsmio.Native.Store.View.{view}
use lsmio.Native.Store.Flight.{get_in_flight}
use lsmio.Native.Store.Runs.{Runs, start, next, get-Runs}
use lsmio.Native.Store.Runs.Writers.{IsSound}
use lsmio.Native.Store.Durable.{get-Runs_barrier}
use lsmio.Native.Store.Prefix.{last_get, lookup-get_prefix}
use lsmio.Native.Store.Prefix.Barriers.{get_prefix-Runs_barrier}

abbrev pub empty_sstables : SstableManager
empty_sstables = record {
  head = [];
  file_pool = FilePool.new (codes "db") (codes "L0-") (codes ".sst") 2 0 0;
  file_closer = FileCloser.new 2;
  disk = [];
}

abbrev pub fresh_store : Store
fresh_store = Store.new 64 2 empty_sstables

pub fresh_store-IsSound : IsSound fresh_store
unfolding FilePool.new Store.new
fresh_store-IsSound = record {
  fresh = record { unused = tt; distinct = tt; old_head = tt; old_pool = tt };
  small_active = tt;
  small_immutables = tt;
  small_flight = tt;
  small_waiting = tt;
}

pub fresh_store-IsTracked : IsTracked fresh_store
unfolding Store.new
fresh_store-IsTracked = record {
  flag = refl;
  grounded = λ _. refl;
  joined = λ e. absurd (ground (arith, e));
  emptied = λ _. refl;
}

abbrev pub or_fresh : Option Store → Store
or_fresh none = fresh_store
or_fresh (some s) = s

abbrev pub after : Store → Event → Store
after s e = or_fresh (step s e)

abbrev pub stocked : Store
stocked = after fresh_store (replenishes true false)

abbrev pub with_value : Store
with_value = after stocked (writes put (codes "k") (codes "v"))

abbrev pub with_deletion : Store
with_deletion = after with_value (writes del (codes "j") [])

abbrev pub rotated : Store
rotated = after with_deletion begins_barrier

abbrev pub flying : Store
flying = after rotated takes

abbrev pub landed : Store
landed = after flying (finishes true)

abbrev pub values : List (Bytes × Bytes)
values = (codes "k", codes "v") ∷ (codes "j", tombstone) ∷ []

to_stocked : Runs fresh_store [] stocked
unfolding Store.new Events.step Store.batch_mutation Store.must_rotate Store.write_active
    Store.rotate Store.begin_barrier Store.take Store.finish Store.flush_memtable_to_l0 Memtable.add
    replenish FilePool.new FilePool.replenish FilePool.prepare FilePool.allocate
    Sstable.flush_memtable FilePool.acquire FilePool.hand_out Store.actual_value
to_stocked = next (replenishes true false) start (omega arith) refl

to_value : Runs fresh_store ((codes "k", codes "v") ∷ []) with_value
unfolding Store.new Events.step Store.batch_mutation Store.must_rotate Store.write_active
    Store.rotate Store.begin_barrier Store.take Store.finish Store.flush_memtable_to_l0 Memtable.add
    replenish FilePool.new FilePool.replenish FilePool.prepare FilePool.allocate
    Sstable.flush_memtable FilePool.acquire FilePool.hand_out Store.actual_value
to_value = next (writes put (codes "k") (codes "v")) to_stocked (omega arith) refl

pub to_deletion : Runs fresh_store values with_deletion
unfolding Store.new Events.step Store.batch_mutation Store.must_rotate Store.write_active
    Store.rotate Store.begin_barrier Store.take Store.finish Store.flush_memtable_to_l0 Memtable.add
    replenish FilePool.new FilePool.replenish FilePool.prepare FilePool.allocate
    Sstable.flush_memtable FilePool.acquire FilePool.hand_out Store.actual_value
to_deletion = next (writes del (codes "j") []) to_value (omega arith) refl

to_rotated : Runs fresh_store values rotated
unfolding Store.new Events.step Store.batch_mutation Store.must_rotate Store.write_active
    Store.rotate Store.begin_barrier Store.take Store.finish Store.flush_memtable_to_l0 Memtable.add
    replenish FilePool.new FilePool.replenish FilePool.prepare FilePool.allocate
    Sstable.flush_memtable FilePool.acquire FilePool.hand_out Store.actual_value
to_rotated = next begins_barrier to_deletion tt refl

pub to_flying : Runs fresh_store values flying
unfolding Store.new Events.step Store.batch_mutation Store.must_rotate Store.write_active
    Store.rotate Store.begin_barrier Store.take Store.finish Store.flush_memtable_to_l0 Memtable.add
    replenish FilePool.new FilePool.replenish FilePool.prepare FilePool.allocate
    Sstable.flush_memtable FilePool.acquire FilePool.hand_out Store.actual_value
to_flying = next takes to_rotated tt refl

pub to_landed : Runs fresh_store values landed
unfolding Store.new Events.step Store.batch_mutation Store.must_rotate Store.write_active
    Store.rotate Store.begin_barrier Store.take Store.finish Store.flush_memtable_to_l0 Memtable.add
    replenish FilePool.new FilePool.replenish FilePool.prepare FilePool.allocate
    Sstable.flush_memtable FilePool.acquire FilePool.hand_out Store.actual_value
to_landed = next (finishes true) to_flying (refl, refl) refl

get-Runs_example :
    Store.get landed (codes "k")
    ≡ visible (or_else (last_lookup (codes "k") values) (view fresh_store (codes "k")))
unfolding Store.new Events.step Store.batch_mutation Store.must_rotate Store.write_active
    Store.rotate Store.begin_barrier Store.take Store.finish Store.flush_memtable_to_l0 Memtable.add
    replenish FilePool.new FilePool.replenish FilePool.prepare FilePool.allocate
    Sstable.flush_memtable FilePool.acquire FilePool.hand_out Store.actual_value
get-Runs_example = get-Runs (codes "k") fresh_store-IsSound fresh_store-IsTracked to_landed refl

get-Runs_barrier_example :
    Sstable.get landed.sstables (codes "j")
    ≡ or_else (last_lookup (codes "j") values) (view fresh_store (codes "j"))
unfolding Store.new Events.step Store.batch_mutation Store.must_rotate Store.write_active
    Store.rotate Store.begin_barrier Store.take Store.finish Store.flush_memtable_to_l0 Memtable.add
    replenish FilePool.new FilePool.replenish FilePool.prepare FilePool.allocate
    Sstable.flush_memtable FilePool.acquire FilePool.hand_out Store.actual_value
get-Runs_barrier_example =
    get-Runs_barrier (codes "j") fresh_store-IsSound fresh_store-IsTracked to_landed refl refl

get_in_flight_example :
    (a : Store) × (b : Store) × (c : Store) × (step fresh_store (writes put (codes "k") (codes "v"))
      ≡ some a)
    × (Store.get a (codes "k") ≡ visible (some (codes "v")))
    × (step a begins_barrier ≡ some b)
    × (step b takes ≡ some c)
    × (Store.get c (codes "k") ≡ visible (Sstable.get empty_sstables (codes "k")))
    × ((d : Store)
        → step c (finishes true) ≡ some d
        → Store.get d (codes "k") ≡ visible (some (codes "v")))
unfolding FilePool.new
get_in_flight_example =
    get_in_flight 64 2 empty_sstables (codes "k") (codes "v") fresh_store-IsSound
      fresh_store-IsTracked (omega arith) refl

-- Two tables in memory hold the key: "v" is in the immutable one, "new" in the active one.
abbrev overwritten : Store
overwritten = after rotated (writes put (codes "k") (codes "new"))

lookup-get_prefix_example :
    lookup (codes "k") (Store.get_prefix overwritten (codes "k")).1 ≡ some (codes "v")
unfolding Store.new Events.step Store.batch_mutation Store.must_rotate Store.write_active
    Store.rotate Store.begin_barrier Store.take Store.finish Store.flush_memtable_to_l0 Memtable.add
    replenish FilePool.new FilePool.replenish FilePool.prepare FilePool.allocate
    Sstable.flush_memtable FilePool.acquire FilePool.hand_out Store.actual_value last_get
    Memtable.get lookup starts_with beq
lookup-get_prefix_example = lookup-get_prefix overwritten (codes "k") (codes "k") tt

get_prefix-Runs_barrier_example : lookup (codes "k") (Store.get_prefix landed (codes "k")).1 ≡ (
    if starts_with (codes "k") (codes "k")
    then visible (or_else (last_lookup (codes "k") values) (view fresh_store (codes "k")))
    else none)
unfolding Store.new Events.step Store.batch_mutation Store.must_rotate Store.write_active
    Store.rotate Store.begin_barrier Store.take Store.finish Store.flush_memtable_to_l0 Memtable.add
    replenish FilePool.new FilePool.replenish FilePool.prepare FilePool.allocate
    Sstable.flush_memtable FilePool.acquire FilePool.hand_out Store.actual_value
get_prefix-Runs_barrier_example =
    get_prefix-Runs_barrier (codes "k") (codes "k") fresh_store-IsSound fresh_store-IsTracked tt
      to_landed refl

-- ===== src/Native/Store/Flight.antt =====
-- What `get` sees of a key while its table is on the way to disk.
use lsmio.Base.{
  ℕ, ◌≡◌, refl, ◌∙◌, Bool, true, false, Option, none, some, [], ◌∷◌, arith, Bytes, beq_refl, lookup,
  last_lookup,
}
use lsmio.Native.Memtable
use lsmio.Native.Memtable.{Memtable, tombstone}
use lsmio.Native.Sstable
use lsmio.Native.Sstable.{SstableManager, Flushed}
use lsmio.Native.Sstable.Format.Reads.{IsSmall}
use lsmio.Native.Store
use lsmio.Native.Store.{
  Store, put, actual_value, must_rotate, write_active, rotate, batch_mutation, begin_barrier, take,
  finish, after_flush, flush_memtable_to_l0, get, tables_get, visible,
}
use lsmio.Native.Store.Events.{writes, takes, finishes, begins_barrier, step}
use lsmio.Native.Store.Runs.{start, next, get-Runs}
use lsmio.Native.Store.Runs.Writers.{IsSound}
use lsmio.Native.Store.Tracked.{IsTracked}

after_flush-landed : (s d : Store) (r : Flushed) → after_flush s r ≡ some d → d.in_flight ≡ none
unfolding after_flush
after_flush-landed s d (Flushed.returns b sstables) e = ground (arith, e)
after_flush-landed s d Flushed.throws e = ground (arith, e)
after_flush-landed s d Flushed.blocks e = absurd (ground (arith, e))

finish-landed : (s d : Store) (good : Bool) → finish s good ≡ some d → d.in_flight ≡ none
unfolding finish
finish-landed s d good e = go s.in_flight e
  where
    go :
        (o : Option Memtable)
        → (elim o [ none ↦ none | some m ↦ after_flush s (flush_memtable_to_l0 s.sstables m good) ])
          ≡ some d
        → d.in_flight ≡ none
    go none h = absurd (ground (arith, h))
    go (some m) h = after_flush-landed s d (flush_memtable_to_l0 s.sstables m good) h

module _ (size number : ℕ) (sstables : SstableManager) (key value : Bytes) where
  -- The store after the write, after the rotation of a barrier, and with the table taken.
  abbrev written : Store
  written = record (Store.new size number sstables) { active = Memtable.add Memtable.new key value }

  abbrev rotated : Store
  rotated = record written {
    active = Memtable.new;
    immutables = Memtable.add Memtable.new key value ∷ [];
  }

  abbrev flying : Store
  flying = record rotated {
    immutables = [];
    in_flight = some (Memtable.add Memtable.new key value);
    flush_in_progress = true;
  }

  step-writes : step (Store.new size number sstables) (writes put key value) ≡ some written
  unfolding step batch_mutation must_rotate write_active actual_value Store.new
  step-writes = ground arith

  step-barrier : step written begins_barrier ≡ some rotated
  unfolding step begin_barrier rotate Memtable.add Store.new
  step-barrier = refl

  step-takes : step rotated takes ≡ some flying
  unfolding step take Store.new
  step-takes = refl

  get-written : get written key ≡ visible (some value)
  unfolding get Memtable.get Memtable.add lookup
  get-written = ground (arith, beq_refl key)

  get-flying : get flying key ≡ visible (Sstable.get sstables key)
  unfolding get Memtable.get lookup tables_get Store.new
  get-flying = refl

-- On a new store that is sound and tracked, with its pool not shut down, and for a key and value
-- that fit their length fields: a put is seen by get at once; then a barrier starts and the
-- flush thread takes the table, and get gives what the SSTables held before for the key, nothing
-- or an older value; once the flush has ended with a good stream, get gives the value of the put
-- again. A tombstone reads as no value.
pub get_in_flight :
    (size number : ℕ) (sstables : SstableManager) (key value : Bytes)
    → IsSound (Store.new size number sstables)
    → IsTracked (Store.new size number sstables)
    → IsSmall (key, value)
    → sstables.file_pool.shutdown ≡ false
    → (a : Store) × (b : Store) × (c : Store) × (step
          (Store.new size number sstables)
          (writes put key value)
        ≡ some a)
      × (get a key ≡ visible (some value))
      × (step a begins_barrier ≡ some b)
      × (step b takes ≡ some c)
      × (get c key ≡ visible (Sstable.get sstables key))
      × ((d : Store) → step c (finishes true) ≡ some d → get d key ≡ visible (some value))
unfolding actual_value last_lookup step Store.new
get_in_flight size number sstables key value sound tracked small up = (
  written size number sstables key value,
  rotated size number sstables key value,
  flying size number sstables key value,
  step-writes size number sstables key value,
  get-written size number sstables key value,
  step-barrier size number sstables key value,
  step-takes size number sstables key value,
  get-flying size number sstables key value,
  λ d ends.
      get-Runs key sound tracked
        (next (finishes true)
          (next takes
            (next begins_barrier
              (next (writes put key value) start small (step-writes size number sstables key value))
              tt (step-barrier size number sstables key value))
            tt (step-takes size number sstables key value))
          (refl, up) ends)
        (finish-landed (flying size number sstables key value) d true ends)
      ∙ ground (arith, beq_refl key),
)

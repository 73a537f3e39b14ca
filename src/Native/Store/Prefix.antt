-- ===== src/Native/Store/Prefix.antt =====
-- What getPrefix lists, key by key.
pub mod Listing
pub mod Barriers
use lsmio.Base.{
  ◌≡◌, Option, All, none, some, List, [], ◌∷◌, reverse, arith, Bytes, beq_iff, starts_with, lookup,
  member, or_else, if◌then◌else◌,
}
use lsmio.Native.Memtable
use lsmio.Native.Memtable.{Memtable, Found, tombstone, nothing}
use lsmio.Native.Memtable.Scan.{SeenAs, scan-SeenAs}
use lsmio.Native.Sstable
use lsmio.Native.Sstable.{SstableManager}
use lsmio.Native.Sstable.Scan.{IsOrdered, scan-SeenAs as disk_scan-SeenAs}
use lsmio.Native.Store
use lsmio.Native.Store.{Store, tables_get, scan_tables, live_results, scan_all, get_prefix, visible}

-- The value of a key in the last table of the list that has the key.
unfoldable pub last_get : List Memtable → Bytes → Option Bytes
last_get [] key = none
last_get (m ∷ ms) key = or_else (last_get ms key) (Memtable.get m key)

SeenAs-or_else :
    (p j : Bytes) (o o' : Option Bytes) (f g h : Found)
    → SeenAs p j o f g
    → SeenAs p j o' g h
    → SeenAs p j (or_else o' o) f h
SeenAs-or_else p j o none f g h first next = ground arith
SeenAs-or_else p j o (some v) f g h first next = ground arith

scan_tables-SeenAs :
    (p j : Bytes) (ms : List Memtable) (f : Found)
    → SeenAs p j (last_get ms j) f (scan_tables ms p f)
unfolding scan_tables last_get
scan_tables-SeenAs p j [] f = ground arith
scan_tables-SeenAs p j (m ∷ ms) f =
    SeenAs-or_else p j (Memtable.get m j) (last_get ms j) f (Memtable.scan m p f)
      (scan_tables ms p (Memtable.scan m p f)) (scan-SeenAs m p j f)
      (scan_tables-SeenAs p j ms (Memtable.scan m p f))

lookup-live_results :
    (l : List (Bytes × Bytes)) (deleted : List Bytes) (j : Bytes)
    → lookup j (live_results l deleted) ≡ (if member j deleted then none else lookup j l)
unfolding live_results lookup
lookup-live_results [] deleted j = ground arith
lookup-live_results ((k, v) ∷ l) deleted j =
    ground (arith, beq_iff k j, lookup-live_results l deleted j)

seen_live :
    (p j : Bytes) (o : Option Bytes) (f : Found)
    → SeenAs p j o nothing f
    → lookup j (live_results f.results f.deleted_keys)
      ≡ (if starts_with p j then visible o else none)
unfolding lookup member
seen_live p j o f seen = ground (arith, lookup-live_results f.results f.deleted_keys j)

live_tables-SeenAs :
    (s : SstableManager) (p j : Bytes) (o : Option Bytes) (f : Found)
    → SeenAs p j o nothing f
    → All IsOrdered s.head
    → SeenAs p j (or_else o (Sstable.get s j)) nothing (Sstable.scan s p f)
unfolding lookup member
live_tables-SeenAs s p j none f seen ordered = ground (arith, disk_scan-SeenAs s p j f ordered)
live_tables-SeenAs s p j (some v) f seen ordered = ground (arith, disk_scan-SeenAs s p j f ordered)

-- If the indexes of the SSTables are in order, getPrefix lists a key that has the prefix with
-- the value of the oldest of the tables in memory that hold the key, or if none does with the
-- value that the SSTables give it, unless that is the tombstone, and lists no key without the
-- prefix.
pub lookup-get_prefix :
    (s : Store) (p j : Bytes)
    → All IsOrdered s.sstables.head
    → lookup j (get_prefix s p).1 ≡ (
        if starts_with p j
        then visible
            (or_else (last_get (s.active ∷ reverse s.immutables) j) (Sstable.get s.sstables j))
        else none)
unfolding get_prefix scan_all
lookup-get_prefix s p j ordered =
    let tables = s.active ∷ reverse s.immutables in
    seen_live p j (or_else (last_get tables j) (Sstable.get s.sstables j)) (scan_all s p) (
      live_tables-SeenAs s.sstables p j (last_get tables j) (scan_tables tables p nothing)
        (scan_tables-SeenAs p j tables nothing) ordered)

-- While there is no immutable table, getPrefix lists for each key with the prefix what `get`
-- reads, and no other key.
pub get_prefix-get :
    (s : Store) (p j : Bytes)
    → s.immutables ≡ []
    → All IsOrdered s.sstables.head
    → lookup j (get_prefix s p).1 ≡ (if starts_with p j then Store.get s j else none)
unfolding Store.get last_get tables_get
get_prefix-get s p j no_immutables ordered =
    rw (lookup-get_prefix s p j ordered, no_immutables) (ground arith)

-- ===== src/Native/Memtable/Scan.antt =====
-- A scan agrees with `get`, key by key.
use mathlib.Core.List.{foldl}
use lsmio.Base.{
  ◌≡◌, Bool, Option, none, some, List, [], ◌∷◌, arith, Bytes, beq, beq_iff, starts_with, lookup,
  last_lookup, lookup-insert, lookup-erase, member, member-set_insert, member-set_erase,
  if◌then◌else◌,
}
use lsmio.Native.Memtable.{Memtable, Found, tombstone, get, scan_entry, scan}
use lsmio.Native.Memtable.Lookup.{get-last_lookup}

-- What a table that holds `o` for a key leaves of an older result `old` for it.
abbrev pub shown : Option Bytes → Option Bytes → Option Bytes
shown none old = old
shown (some v) old = if beq v tombstone then none else some v

abbrev pub hidden : Option Bytes → Bool → Bool
hidden none old = old
hidden (some v) old = beq v tombstone

-- The result for one key after the newer value `o` is met, where the key has the prefix.
abbrev pub SeenAs : Bytes → Bytes → Option Bytes → Found → Found → Type 0
SeenAs prefix j o f g =
    (lookup j g.results
      ≡ (if starts_with prefix j then shown o (lookup j f.results) else lookup j f.results))
    × (member j g.deleted_keys ≡ (
        if starts_with prefix j
        then hidden o (member j f.deleted_keys)
        else member j f.deleted_keys))

scan_entry-SeenAs :
    (p k v j : Bytes) (f : Found)
    → SeenAs p j (if beq k j then some v else none) f (scan_entry p f (k, v))
unfolding scan_entry
scan_entry-SeenAs p k v j f = ground (
  arith,
  beq_iff k j,
  lookup-insert k j v f.results,
  lookup-erase k j f.results,
  member-set_insert k j f.deleted_keys,
  member-set_erase k j f.deleted_keys,
)

entries-SeenAs :
    (p j : Bytes) (es : List (Bytes × Bytes)) (f : Found)
    → SeenAs p j (last_lookup j es) f (foldl (scan_entry p) f es)
unfolding last_lookup
entries-SeenAs p j [] f = ground arith
entries-SeenAs p j ((k, v) ∷ es) f =
    ground (arith, scan_entry-SeenAs p k v j f, entries-SeenAs p j es (scan_entry p f (k, v)))

-- After the scan of a table, a key with the prefix that the table holds shows the value that
-- `get` reads, or is gone and marked as deleted if that is the tombstone; any other key keeps
-- its result and its mark.
pub scan-SeenAs : (m : Memtable) (p j : Bytes) (f : Found) → SeenAs p j (get m j) f (scan m p f)
unfolding scan
scan-SeenAs m p j f = rw (get-last_lookup m j) (entries-SeenAs p j m.entries f)

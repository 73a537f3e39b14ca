-- ===== src/Native/Sstable/Scan.antt =====
-- The scan of the tables on disk agrees with their lookup, key by key.
use lsmio.Base.{
  ◌≡◌, sym, subst, or_else, true, inl, inr, Bool-cases, Option, none, some, List, [], ◌∷◌, arith,
  Bytes, beq, beq_iff, starts_with, All, lookup, lookup-insert, member-set_insert, if◌then◌else◌,
}
use lsmio.Native.Memtable.{Found}
use lsmio.Native.Memtable.Scan.{SeenAs}
use lsmio.Native.FilePool.{Disk}
use lsmio.Native.Sstable.Index.{Entry, lower_bound}
use lsmio.Native.Sstable.Index.Sorted.{From}
use lsmio.Native.Sstable.Index.Lookup.{find_offset-lookup}
use lsmio.Native.Sstable.Index.Strict.{
  IsStrict, IsStrict-IsSorted, lookup-Beyond, lookup-prefix_ended, lookup-lower_bound,
  lower_bound-IsStrict, lower_bound-From,
}
use lsmio.Native.Sstable.Read.{nodes_get-cons}
use lsmio.Native.Sstable.{
  L0Index, SstableManager, read_value, node_get, nodes_get, visit, is_new, scan_offsets, scan_nodes,
  get, scan,
}

-- What a source that holds `o` adds for the key: nothing, if the key has a result or a mark.
abbrev pub if_new : Bytes → Found → Option Bytes → Option Bytes
if_new j f o = if is_new j f then o else none

abbrev entry_get : Disk → Bytes → List Entry → Bytes → Option Bytes
entry_get disk path l j = elim (lookup j l) [ none ↦ none | some o ↦ read_value disk path o j ]

visit-SeenAs :
    (p k j : Bytes) (o : Option Bytes) (f : Found)
    → starts_with p k ≡ true
    → SeenAs p j (if beq k j then if_new j f o else none) f (if is_new k f then visit k o f else f)
unfolding visit
visit-SeenAs p k j none f w = ground arith
visit-SeenAs p k j (some v) f w =
    ground (arith, beq_iff k j, lookup-insert k j v f.results, member-set_insert k j f.deleted_keys)

-- The entries from the prefix on, in a list of increasing keys.
scan_offsets-SeenAs :
    (disk : Disk) (path p j : Bytes) (l : List Entry) (f : Found)
    → IsStrict l
    → From p l
    → SeenAs p j (if_new j f (entry_get disk path l j)) f (scan_offsets disk path p l f)
unfolding scan_offsets lookup
scan_offsets-SeenAs disk path p j [] f s b = ground arith
scan_offsets-SeenAs disk path p j ((k, o) ∷ l) f s b = elim (Bool-cases (starts_with p k)) [
  | inl here ↦ rw here (
      ground (
        arith,
        beq_iff k j,
        lookup-Beyond k l s.0,
        visit-SeenAs p k j (read_value disk path o k) f here,
        scan_offsets-SeenAs disk path p j l
            (if is_new k f then visit k (read_value disk path o k) f else f) s.1 b.1,
      ))
  | inr ended ↦ rw ended (ground (arith, beq_iff k j, lookup-prefix_ended p k j l b.0 ended s.0))
]

-- The index of a node holds each key once, in order.
abbrev pub IsOrdered : L0Index → Type 0
IsOrdered node = IsStrict node.offsets

node-SeenAs :
    (disk : Disk) (node : L0Index) (p j : Bytes) (f : Found)
    → IsOrdered node
    → SeenAs p j
        (if_new j f (node_get disk node j))
        f
        (scan_offsets disk node.path p (lower_bound p node.offsets) f)
unfolding node_get
node-SeenAs disk node p j f s =
    let sorted = IsStrict-IsSorted node.offsets s in
    ground (
      arith,
      find_offset-lookup j node.offsets sorted,
      lookup-lower_bound p j node.offsets,
      scan_offsets-SeenAs disk node.path p j (lower_bound p node.offsets) f
          (lower_bound-IsStrict p node.offsets s) (lower_bound-From p node.offsets sorted),
    )

if_new-or_else :
    (p j : Bytes) (o o' : Option Bytes) (f g h : Found)
    → SeenAs p j (if_new j f o) f g
    → SeenAs p j (if_new j g o') g h
    → SeenAs p j (if_new j f (or_else o o')) f h
if_new-or_else p j none o' f g h first next = ground arith
if_new-or_else p j (some v) o' f g h first next = ground arith

scan_nodes-SeenAs :
    (disk : Disk) (p j : Bytes) (nodes : List L0Index) (f : Found)
    → All IsOrdered nodes
    → SeenAs p j (if_new j f (nodes_get disk nodes j)) f (scan_nodes disk p nodes f)
unfolding scan_nodes nodes_get
scan_nodes-SeenAs disk p j [] f s = ground arith
scan_nodes-SeenAs disk p j (node ∷ older) f s =
    let g = scan_offsets disk node.path p (lower_bound p node.offsets) f in
    let step =
      if_new-or_else p j (node_get disk node j) (nodes_get disk older j) f g
        (scan_nodes disk p older g) (node-SeenAs disk node p j f s.0)
        (scan_nodes-SeenAs disk p j older g s.1) in
    subst (λ o. SeenAs p j (if_new j f o) f (scan_nodes disk p older g))
      (sym (nodes_get-cons disk j node older)) step

-- The scan of the SSTables gives a key with the prefix that has neither a result nor a mark the
-- value that `get` reads from them, or the mark if that is the tombstone; any other key keeps its
-- result and its mark.
pub scan-SeenAs :
    (s : SstableManager) (p j : Bytes) (f : Found)
    → All IsOrdered s.head
    → SeenAs p j (if_new j f (get s j)) f (scan s p f)
unfolding scan get
scan-SeenAs s p j f ordered = scan_nodes-SeenAs s.disk p j s.head f ordered

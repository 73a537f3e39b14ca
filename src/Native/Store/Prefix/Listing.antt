-- ===== src/Native/Store/Prefix/Listing.antt =====
-- The list that getPrefix returns is in key order, each key once.
use mathlib.Core.List.{foldl}
use lsmio.Base.{
  ◌≡◌, refl, sym, subst, lookup, Bool-cases, inl, inr, true, none, some, Option, List, [], ◌∷◌,
  arith, reverse, Bytes, beq, beq_iff, blt, blt_total, starts_with, erase, if_cases, Below,
  IsAscending, Below-down, insert-IsAscending, lookup-Below, lookup_first,
}
use lsmio.Native.Memtable
use lsmio.Native.Memtable.{Memtable, Found, nothing, scan_entry}
use lsmio.Native.Sstable
use lsmio.Native.Sstable.{L0Index, read_value, visit, is_new, scan_offsets, scan_nodes}
use lsmio.Native.Sstable.Index.{Entry, lower_bound}
use lsmio.Native.FilePool.{Disk}
use lsmio.Native.Store.{Store, scan_tables, live_results, scan_all, get_prefix}

Below-erase : (a k : Bytes) (l : List (Bytes × Bytes)) → Below a l → Below a (erase k l)
unfolding erase
Below-erase a k [] b = tt
Below-erase a k ((j, w) ∷ l) b = ground (arith, Below-erase a k l b.1)

erase-IsAscending : (k : Bytes) (l : List (Bytes × Bytes)) → IsAscending l → IsAscending (erase k l)
unfolding erase
erase-IsAscending k [] s = tt
erase-IsAscending k ((j, w) ∷ l) s =
    ground (arith, Below-erase j k l s.0, erase-IsAscending k l s.1)

abbrev Lists : Found → Type 0
Lists f = IsAscending f.results

entries-Lists :
    (p : Bytes) (es : List (Bytes × Bytes)) (f : Found)
    → Lists f
    → Lists (foldl (scan_entry p) f es)
unfolding scan_entry
entries-Lists p [] f h = h
entries-Lists p ((k, v) ∷ es) f h =
    entries-Lists p es (scan_entry p f (k, v))
      (ground (arith, erase-IsAscending k f.results h, insert-IsAscending k v f.results h))

tables-Lists : (p : Bytes) (ms : List Memtable) (f : Found) → Lists f → Lists (scan_tables ms p f)
unfolding scan_tables Memtable.scan
tables-Lists p [] f h = h
tables-Lists p (m ∷ ms) f h =
    tables-Lists p ms (Memtable.scan m p f) (entries-Lists p m.entries f h)

visit-Lists : (k : Bytes) (o : Option Bytes) (f : Found) → Lists f → Lists (visit k o f)
unfolding visit
visit-Lists k none f h = h
visit-Lists k (some v) f h = ground (arith, insert-IsAscending k v f.results h)

offsets-Lists :
    (disk : Disk) (path p : Bytes) (l : List Entry) (f : Found)
    → Lists f
    → Lists (scan_offsets disk path p l f)
unfolding scan_offsets
offsets-Lists disk path p [] f h = h
offsets-Lists disk path p ((k, o) ∷ l) f h =
    if_cases Lists (starts_with p k) _ _
      (λ _. offsets-Lists disk path p l _ (
        if_cases Lists (is_new k f) _ _ (λ _. visit-Lists k (read_value disk path o k) f h)
          (λ _. h)))
      (λ _. h)

nodes-Lists :
    (disk : Disk) (p : Bytes) (nodes : List L0Index) (f : Found)
    → Lists f
    → Lists (scan_nodes disk p nodes f)
unfolding scan_nodes
nodes-Lists disk p [] f h = h
nodes-Lists disk p (node ∷ older) f h =
    nodes-Lists disk p older _ (offsets-Lists disk node.path p (lower_bound p node.offsets) f h)

Below-live_results :
    (k : Bytes) (l : List (Bytes × Bytes)) (deleted : List Bytes)
    → Below k l
    → Below k (live_results l deleted)
unfolding live_results
Below-live_results k [] deleted b = tt
Below-live_results k ((j, v) ∷ l) deleted b = ground (arith, Below-live_results k l deleted b.1)

live_results-IsAscending :
    (l : List (Bytes × Bytes)) (deleted : List Bytes)
    → IsAscending l
    → IsAscending (live_results l deleted)
unfolding live_results
live_results-IsAscending [] deleted s = tt
live_results-IsAscending ((k, v) ∷ l) deleted s =
    ground (arith, Below-live_results k l deleted s.0, live_results-IsAscending l deleted s.1)

-- getPrefix lists each key at most once, in increasing order, whatever the tables hold.
pub get_prefix-IsAscending : (s : Store) (p : Bytes) → IsAscending (get_prefix s p).1
unfolding get_prefix scan_all Sstable.scan
get_prefix-IsAscending s p =
    live_results-IsAscending (scan_all s p).results (scan_all s p).deleted_keys (
      nodes-Lists s.sstables.disk p s.sstables.head _
        (tables-Lists p (s.active ∷ reverse s.immutables) nothing tt))

-- A key below the first one is not there.
lookup_before :
    (k j v : Bytes) (l : List (Bytes × Bytes))
    → blt k j ≡ true
    → Below j l
    → lookup k ((j, v) ∷ l) ≡ none
lookup_before k j v l h b = lookup-Below k ((j, v) ∷ l) (h, Below-down k j l h b)

same_first :
    (j k v w : Bytes) (l m : List (Bytes × Bytes))
    → Below j l
    → Below k m
    → ((i : Bytes) → lookup i ((j, v) ∷ l) ≡ lookup i ((k, w) ∷ m))
    → j ≡ k
same_first j k v w l m bl bm h = elim (Bool-cases (beq j k)) [
  | inl same ↦ (beq_iff j k).0 same
  | inr differ ↦ elim (Bool-cases (blt j k)) [
    | inl less ↦ absurd (ground (arith, h j, lookup_first j v l, lookup_before j k w m less bm))
    | inr more ↦ absurd (
        ground
          (arith, h k, lookup_first k w m, lookup_before k j v l (blt_total j k differ more) bl))
  ]
]

same_rest :
    (j v w : Bytes) (l m : List (Bytes × Bytes))
    → Below j l
    → Below j m
    → ((i : Bytes) → lookup i ((j, v) ∷ l) ≡ lookup i ((j, w) ∷ m))
    → (i : Bytes) → lookup i l ≡ lookup i m
unfolding lookup
same_rest j v w l m bl bm h i =
    ground (arith, h i, beq_iff j i, lookup-Below j l bl, lookup-Below j m bm)

-- Lists in order that give every key the same value are equal.
pub IsAscending-ext :
    (l m : List (Bytes × Bytes))
    → IsAscending l
    → IsAscending m
    → ((k : Bytes) → lookup k l ≡ lookup k m)
    → l ≡ m
IsAscending-ext [] [] sl sm h = refl
IsAscending-ext [] ((k, w) ∷ m) sl sm h =
    absurd (unfold lookup in ground (arith, h k, lookup_first k w m))
IsAscending-ext ((j, v) ∷ l) [] sl sm h =
    absurd (unfold lookup in ground (arith, h j, lookup_first j v l))
IsAscending-ext ((j, v) ∷ l) ((k, w) ∷ m) sl sm h =
    let same = same_first j k v w l m sl.0 sm.0 h in
    let below = subst (λ i. Below i m) (sym same) sm.0 in
    let equal =
      subst (λ i. (a : Bytes) → lookup a ((j, v) ∷ l) ≡ lookup a ((i, w) ∷ m)) (sym same) h in
    let rest = IsAscending-ext l m sl.1 sm.1 (same_rest j v w l m sl.0 below equal) in
    ground (arith, equal j, lookup_first j v l, lookup_first j w m)

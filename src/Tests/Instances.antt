-- ===== src/Tests/Instances.antt =====
-- A database that is a map in memory, to run the back ends on.
use lsmio.Base.{
  ◌≡◌, refl, sym, ap, ◌∙◌, true, Option, none, some, List, [], ◌∷◌, arith, Bytes, beq, lookup,
  insert, erase, lookup-insert, lookup-erase, last_lookup, or_else, blt, if◌then◌else◌,
}
use lsmio.Store.{LsmioStore}
use lsmio.Store.Laws.{IsMap}
use lsmio.Store.Ldb.{Database, Mutation}
use lsmio.Store.Ldb.Order.{IsReliable, updated, updated-or_else}
use lsmio.Store.Rdb.{rdb_store, rdb_store-IsMap}

abbrev pub Entries : Type 0
Entries = List (Bytes × Bytes)

unfoldable pub apply : Mutation → Entries → Entries
apply (key, none) d = erase key d
apply (key, some value) d = insert key value d

unfoldable pub apply_all : List Mutation → Entries → Entries
unfolding apply
apply_all [] d = d
apply_all (m ∷ ms) d = apply_all ms (apply m d)

unfoldable pub from_key : Bytes → Entries → Entries
from_key key [] = []
from_key key ((j, v) ∷ d) = let rest = from_key key d in if blt j key then rest else (j, v) ∷ d

abbrev pub in_memory : Database Entries
in_memory = record {
  get = λ d key. lookup key d;
  put = λ d key value. (true, insert key value d);
  delete = λ d key. (true, erase key d);
  write = λ d ms. (true, apply_all ms d);
  entries_from = λ d key. (true, from_key key d);
}

lookup-apply :
    (k j : Bytes) (v : Option Bytes) (d : Entries)
    → lookup j (apply (k, v) d)
      ≡ updated (or_else none (if beq k j then some v else none)) (lookup j d)
unfolding apply updated
lookup-apply k j none d = lookup-erase k j d ∙ ground arith
lookup-apply k j (some v) d = lookup-insert k j v d ∙ ground arith

lookup-apply_all :
    (ms : List Mutation) (d : Entries) (k : Bytes)
    → lookup k (apply_all ms d) ≡ updated (last_lookup k ms) (lookup k d)
unfolding apply_all last_lookup
lookup-apply_all [] d k = unfold updated in refl
lookup-apply_all ((j, v) ∷ ms) d k =
    lookup-apply_all ms (apply (j, v) d) k
    ∙ ap (updated (last_lookup k ms)) (lookup-apply j k v d)
    ∙ sym (updated-or_else (last_lookup k ms) (if beq j k then some v else none) (lookup k d))

pub in_memory-IsReliable : IsReliable in_memory
in_memory-IsReliable = record {
  get-put = λ d k j v. lookup-insert k j v d;
  get-delete = λ d k j. lookup-erase k j d;
  get-write = λ d ms k. lookup-apply_all ms d k;
}

abbrev pub map_store : LsmioStore Entries
map_store = rdb_store in_memory (λ d. (true, d))

pub map_store-IsMap : IsMap map_store some
map_store-IsMap = rdb_store-IsMap in_memory (λ d. (true, d)) in_memory-IsReliable (λ d k. refl)

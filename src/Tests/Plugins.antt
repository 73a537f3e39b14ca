-- ===== src/Tests/Plugins.antt =====
-- The theorems on the engine's variables at concrete inputs.
use lsmio.Base.{
  ◌≡◌, refl, ap, ◌∙◌, Bool, true, false, Option, none, some, List, [], ◌∷◌, ◌++◌, arith, Bytes,
  codes, beq, beq_iff, blt, blt_ge_trans, blt_irrefl, Below-down, lookup-Below, Below, IsAscending,
  insert-IsAscending, insert, lookup, lookup-insert, to_string, last_lookup, value_from,
  if◌then◌else◌,
}
use lsmio.Config.{default_config}
use lsmio.Store.{LsmioStore, meta_prefix}
use lsmio.Store.Laws.{IsMap}
use lsmio.Store.Ldb.{Database}
use lsmio.Store.Ldb.Prefixes.{IsOrdered}
use lsmio.Store.Opening.{Opened, opened, aborts, open_database}
use lsmio.Store.Rdb.{rdb_store, rdb_store-IsMap, rdb_store-IsListing}
use lsmio.Store.Rdb.Opening.{RdbStore, construct}
use lsmio.Manager.{is_serve_local}
use lsmio.Manager.Setup.{Mpi}
use lsmio.Plugin.{Variable, stoi}
use lsmio.Plugin.Info.{are_ints}
use lsmio.Plugin.Metadata.{Engine, writes, reads, do_close}
use lsmio.Plugin.Access.{
  Put, synchronous, deferred, put_all, write_variable, read_variable, read_variable-put_all,
}
use lsmio.Plugin.Init.{Parameters}
use lsmio.Plugin.Opening.{IsPersistent, init_engine, init_engine-do_close}
use lsmio.Tests.Instances.{
  Entries, from_key, in_memory, in_memory-IsReliable, map_store, map_store-IsMap,
}
use lsmio.Tests.Openings.{disk_engine, held}
use lsmio.Tests.Engine.{alone, braces, braces-IsBracketed, vector}

-- A database whose iterator goes through its keys in order.
unfoldable sorted : Entries → Entries
sorted [] = []
sorted ((k, v) ∷ d) = insert k v (sorted d)

abbrev ordered_memory : Database Entries
ordered_memory = record in_memory { entries_from = λ d key. (true, from_key key (sorted d)) }

sorted-IsAscending : (d : Entries) → IsAscending (sorted d)
unfolding sorted
sorted-IsAscending [] = tt
sorted-IsAscending ((k, v) ∷ d) = insert-IsAscending k v (sorted d) (sorted-IsAscending d)

lookup-sorted : (d : Entries) (k : Bytes) → lookup k (sorted d) ≡ lookup k d
unfolding sorted lookup
lookup-sorted [] k = refl
lookup-sorted ((j, v) ∷ d) k = lookup-insert j k v (sorted d) ∙ ground (arith, lookup-sorted d k)

Below-from_key : (a k : Bytes) (l : Entries) → Below a l → Below a (from_key k l)
unfolding from_key
Below-from_key a k [] h = tt
Below-from_key a k ((j, v) ∷ l) h = ground (arith, h.0, h.1, Below-from_key a k l h.1)

from_key-IsAscending : (k : Bytes) (l : Entries) → IsAscending l → IsAscending (from_key k l)
unfolding from_key
from_key-IsAscending k [] s = tt
from_key-IsAscending k ((j, v) ∷ l) s =
    ground (arith, s.0, from_key-IsAscending k l s.1, Below-from_key j k l s.0)

lookup-from_key :
    (k j : Bytes) (l : Entries)
    → IsAscending l
    → lookup j (from_key k l) ≡ (if blt j k then none else lookup j l)
unfolding from_key lookup
lookup-from_key k j [] s = ground arith
lookup-from_key k j ((i, v) ∷ l) s = ground (
  arith,
  beq_iff i j,
  lookup-from_key k j l s.1,
  blt_ge_trans j i k,
  blt_irrefl j,
  Below-down j i l,
  lookup-Below j l,
  s.0,
)

ordered_memory-IsOrdered : IsOrdered ordered_memory
ordered_memory-IsOrdered = record {
  ascending = λ d k. from_key-IsAscending k (sorted d) (sorted-IsAscending d);
  lookup-entries_from = λ d k j.
      lookup-from_key k j (sorted d) (sorted-IsAscending d)
      ∙ ap (λ o. if blt j k then none else o) (lookup-sorted d j);
}

abbrev plugin_store : LsmioStore Entries
plugin_store = rdb_store ordered_memory (λ d. (true, d))

plugin_store-IsMap : IsMap plugin_store some
plugin_store-IsMap =
    rdb_store-IsMap ordered_memory (λ d. (true, d))
      (record {
        get-put = λ d k j v. in_memory-IsReliable.get-put d k j v;
        get-delete = λ d k j. in_memory-IsReliable.get-delete d k j;
        get-write = λ d ms k. in_memory-IsReliable.get-write d ms k;
      })
      (λ d k. refl)

-- The constructor of the RocksDB store.
database_of : Opened (RdbStore Entries) → Option Entries
database_of (opened t) = t.db
database_of aborts = none

abbrev open_rdb : Bool → Bytes → Entries → Option Entries
open_rdb over_write path f = database_of (construct disk_engine default_config over_write path f)

open_rdb-same : (path : Bytes) (f : Entries) → open_rdb false path f ≡ some f
unfolding construct open_database database_of
open_rdb-same path f = refl

plugin_store-IsPersistent : IsPersistent plugin_store open_rdb (λ s. s) held
plugin_store-IsPersistent = record {
  reopens = λ path f. (f, open_rdb-same path f);
  get-open_store = λ path f s k e. ground (arith, open_rdb-same path f, e);
  held-close_store = λ s k. refl;
}

abbrev no_groups : Mpi
no_groups = record { split_shared = λ p. p; split_colour = λ colour p. p }

abbrev parameters : Parameters
parameters = record {
  dir_name = codes "out";
  file_name = codes "f.bp";
  aggregation_type = [];
  aggregator_ratio = [];
}

abbrev writer : Engine Entries
writer = record { mode = writes; current_step = 0; lm = alone; db = [] }

init_engine-do_close_example :
    (r : Engine Entries) × (found : List (Bytes × Variable)) × (init_engine plugin_store open_rdb
        no_groups default_config parameters reads
        (do_close plugin_store braces writer (vector ∷ [])).db
      ≡ some (r, found))
    × (lookup (meta_prefix ++ vector.name) found ≡ some vector)
unfolding lookup beq is_serve_local are_ints last_lookup
init_engine-do_close_example =
    init_engine-do_close plugin_store braces open_rdb (λ s. s) held no_groups default_config
      parameters writer (vector ∷ []) vector plugin_store-IsMap
      (rdb_store-IsListing ordered_memory (λ d. (true, d)) ordered_memory-IsOrdered)
      braces-IsBracketed plugin_store-IsPersistent refl (λ r. refl)
      ((omega arith, omega arith, refl), tt) refl refl

-- A put of another variable comes between.
abbrev other_put : Put
other_put = record { name = codes "C"; text = codes "7"; launch = deferred }

read_variable-put_all_example :
    read_variable map_store stoi
      (put_all map_store
        (write_variable map_store to_string writer (codes "B") (1 ∷ 20 ∷ []) synchronous)
        (other_put ∷ []))
      (codes "B")
    ≡ some (1 ∷ 20 ∷ [])
unfolding to_string stoi beq is_serve_local value_from
read_variable-put_all_example =
    read_variable-put_all map_store map_store-IsMap to_string stoi writer (codes "B") (1 ∷ 20 ∷ [])
      synchronous (other_put ∷ []) refl (refl, tt) (λ e. cc e)
      (((omega arith, λ e. cc e), refl), (((omega arith, λ e. cc e), refl), tt))

-- ===== src/Tests/BackEnds.antt =====
-- The theorems on the LevelDB store and the stream at concrete inputs.
use lsmio.Base.{
  ◌≡◌, ◌≤◌, refl, Bool, true, false, none, some, List, [], ◌∷◌, arith, Bytes, codes, map, length,
}
use lsmio.Store.{MutationType, put, del}
use lsmio.Store.Ldb
use lsmio.Store.Ldb.{LdbStore, mutation, mutations_of, batch_mutation, barrier}
use lsmio.Store.Ldb.Order.{Call, run}
use lsmio.Store.Ldb.Bounds.{batch_size-run}
use lsmio.Manager.{Manager}
use lsmio.Posix.{Stream, tellp, seekp, read_all, write_all}
use lsmio.Posix.Pieces.{read_all-write_all}
use lsmio.Tests.Instances.{Entries, in_memory, map_store, map_store-IsMap}

abbrev call : MutationType → Bytes → Bytes → Bool → Call
call kind key value flush = record { kind = kind; key = key; value = value; flush = flush }

-- A batched put, a batched deletion of the same key, and a flushed put of another.
abbrev calls : List Call
calls =
    call put (codes "a") (codes "1") false
    ∷ call del (codes "a") [] false
    ∷ call put (codes "b") (codes "2") true
    ∷ []

batch_size-run_example :
    ((run in_memory (Ldb.new 3 100 []) calls).batch_size
      ≡ length (mutations_of (run in_memory (Ldb.new 3 100 []) calls).batch))
    × (length (mutations_of (run in_memory (Ldb.new 3 100 []) calls).batch) ≤ 3)
batch_size-run_example = batch_size-run in_memory 3 100 [] calls (omega arith) (omega arith)

-- The manager of one process alone.
abbrev alone : Manager
alone = record {
  is_shared = false;
  agg_rank = 0;
  agg_size = 1;
  always_flush = false;
  counter_write_bytes = 0;
  counter_read_bytes = 0;
  counter_write_ops = 0;
  counter_read_ops = 0;
}

abbrev stream : Stream Entries
stream = record {
  file_path = codes "f";
  file_map = (codes "f", 5) ∷ [];
  lm = some (alone, []);
  initializing = false;
  cleaning = false;
}

abbrev pieces : List Bytes
pieces = codes "abc" ∷ codes "d" ∷ codes "efgh" ∷ []

read_all-write_all_example :
    (f' : Stream Entries) × (write_all map_store pieces stream ≡ some f')
    × (elim (seekp f' (tellp stream) true) [
      | none ↦ none
      | some g ↦ read_all map_store (map length pieces) g
    ]
        ≡ some pieces)
read_all-write_all_example =
    read_all-write_all map_store stream alone [] pieces map_store-IsMap refl refl
      ((omega arith, refl), ((omega arith, refl), ((omega arith, refl), tt)))

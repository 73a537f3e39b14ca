-- ===== src/Store/Ldb.antt =====
-- LSMIOStoreLDB: lib/manager/store/store_ldb.cpp and its header. LevelDB is a parameter: the calls of
-- `leveldb::DB` that the store makes, each with its status, over a state of the database. The
-- calls are those of one thread: the code reads `_batch` and the counters, and counts, outside the
-- `_batchMutex`, so that calls that overlap are not steps of this model.
pub mod Order
pub mod Prefixes
pub mod Bounds
pub mod Opening
pub mod Lives
use lsmio.Base.{
  ℕ, ◌+◌, ◌%◌, ◌^◌, Bool, true, false, ◌&&◌, ◌||◌, Option, none, some, List, [], ◌∷◌, ◌++◌, Bytes,
  starts_with, leb, length, if◌then◌else◌,
}
use lsmio.Store.{LsmioStore, MutationType, put, del, barrier_by_stop}

-- A mutation of a write batch: the key, and the value or none for a deletion.
abbrev pub Mutation : Type 0
Mutation = Bytes × Option Bytes

-- `entries_from` gives the entries that an iterator meets after `Seek`, and its status at the end.
pub record Database (D : Type 0) : Type 0 where
  pub get : D → Bytes → Option Bytes
  pub put : D → Bytes → Bytes → Bool × D
  pub delete : D → Bytes → Bool × D
  pub write : D → List Mutation → Bool × D
  pub entries_from : D → Bytes → Bool × List (Bytes × Bytes)

pub record LdbStore (D : Type 0) : Type 0 where
  pub max_batch_size : ℕ
  pub max_batch_bytes : ℕ
  pub batch : Option (List Mutation)
  pub batch_size : ℕ
  pub batch_bytes : ℕ
  pub db : D

-- The counters are 32-bit.
abbrev pub uint_mod : ℕ
uint_mod = 2 ^ 32

unfoldable pub mutation : MutationType → Bytes → Bytes → Mutation
mutation put key value = (key, some value)
mutation del key value = (key, none)

unfoldable pub has_batch : Option (List Mutation) → Bool
has_batch none = false
has_batch (some ms) = true

unfoldable pub mutations_of : Option (List Mutation) → List Mutation
mutations_of none = []
mutations_of (some ms) = ms

-- The entries of an iterator while the key has the prefix.
unfoldable pub while_prefix : Bytes → List (Bytes × Bytes) → List (Bytes × Bytes)
while_prefix prefix [] = []
while_prefix prefix ((key, value) ∷ l) =
    let rest = while_prefix prefix l in if starts_with prefix key then (key, value) ∷ rest else []

module _ {D : Type 0} where
  unfoldable pub new : ℕ → ℕ → D → LdbStore D
  new max_batch_size max_batch_bytes db = record {
    max_batch_size = max_batch_size;
    max_batch_bytes = max_batch_bytes;
    batch = none;
    batch_size = 0;
    batch_bytes = 0;
    db = db;
  }

  unfoldable pub start_batch : LdbStore D → Bool × LdbStore D
  unfolding has_batch
  start_batch s = if has_batch s.batch then (false, s) else (true, record s { batch = some [] })

  -- The batch, a new one if there is none, with one more mutation.
  unfoldable pub add_to_batch : LdbStore D → Mutation → ℕ → LdbStore D
  add_to_batch s m bytes = record s {
    batch = some (mutations_of s.batch ++ m ∷ []);
    batch_size = (s.batch_size + 1) % uint_mod;
    batch_bytes = (s.batch_bytes + bytes) % uint_mod;
  }

  -- The batch reached a limit of the configuration.
  unfoldable pub is_full : LdbStore D → ℕ → Bool
  is_full s bytes =
      leb s.max_batch_size ((s.batch_size + 1) % uint_mod)
      || leb s.max_batch_bytes ((s.batch_bytes + bytes) % uint_mod)

module _ {D : Type 0} (database : Database D) where
  unfoldable pub get : LdbStore D → Bytes → Option Bytes
  get s key = database.get s.db key

  unfoldable pub get_prefix : LdbStore D → Bytes → Bool × List (Bytes × Bytes)
  get_prefix s key =
      let (status, entries) = database.entries_from s.db key in (status, while_prefix key entries)

  unfoldable pub stop_batch : LdbStore D → Bool × LdbStore D
  unfolding has_batch mutations_of
  stop_batch s =
      let (status, db) = database.write s.db (mutations_of s.batch) in
      if has_batch s.batch
      then (status, record s { batch = none; batch_size = 0; batch_bytes = 0; db = db })
      else (false, s)

  -- `_db->Put` or `_db->Delete`
  unfoldable pub write_through : LdbStore D → MutationType → Bytes → Bytes → Bool × LdbStore D
  write_through s put key value =
      let (status, db) = database.put s.db key value in (status, record s { db = db })
  write_through s del key value =
      let (status, db) = database.delete s.db key in (status, record s { db = db })

  -- The batch is written before a mutation that goes to the database at once, and before one that
  -- would fill it.
  unfoldable pub settle : LdbStore D → LdbStore D
  unfolding has_batch stop_batch
  settle s = if has_batch s.batch then (stop_batch s).1 else s

  unfoldable pub make_room : LdbStore D → ℕ → LdbStore D
  unfolding has_batch is_full stop_batch
  make_room s bytes = if has_batch s.batch && is_full s bytes then (stop_batch s).1 else s

  unfoldable pub batch_mutation :
      LdbStore D → MutationType → Bytes → Bytes → Bool → Bool × LdbStore D
  unfolding settle make_room write_through add_to_batch
  batch_mutation s kind key value flush =
      if flush || leb s.max_batch_size (length value)
      then write_through (settle s) kind key value
      else (
        true,
        add_to_batch (make_room s (length value)) (mutation kind key value) (length value),
      )

  unfoldable pub barrier : LdbStore D → Bool × LdbStore D
  unfolding stop_batch
  barrier s = (true, (stop_batch s).1)

  -- The destructor and `close` write what is left and give the database up.
  unfoldable pub close : Option (LdbStore D) → Option D
  unfolding barrier
  close none = none
  close (some s) = some (barrier s).1.db

  abbrev pub ldb_store : LsmioStore (LdbStore D)
  ldb_store = record {
    get = get;
    get_prefix = get_prefix;
    batch_mutation = batch_mutation;
    stop_batch = stop_batch;
    read_barrier = barrier;
    write_barrier = barrier;
  }

-- ===== src/Store/Ldb/Bounds.antt =====
-- The size of a LevelDB store's batch.
use lsmio.Base.{
  ℕ, List, subst, ◌^◌, ◌≡◌, ◌≤◌, ◌<◌, refl, Bool, ◌&&◌, ◌||◌, [], ◌∷◌, Bytes, if_cases, leb, length,
  length-append, arith,
}
use lsmio.Store.{MutationType, put, del}
use lsmio.Store.Ldb
use lsmio.Store.Ldb.Order.{Call, run}
use lsmio.Store.Ldb.{
  Mutation, Database, LdbStore, mutation, has_batch, mutations_of, add_to_batch, is_full,
  stop_batch, write_through, batch_mutation, settle, make_room,
}

-- The counter counts the batch, which keeps to the configured limit.
pub record IsBounded {D : Type 0} (size : ℕ) (s : LdbStore D) : Type 0 where
  pub kept : s.max_batch_size ≡ size
  pub positive : 0 < s.max_batch_size
  pub int_limit : s.max_batch_size < 2 ^ 31
  pub counted : s.batch_size ≡ length (mutations_of s.batch)
  pub within : length (mutations_of s.batch) ≤ s.max_batch_size

module _ {D : Type 0} (database : Database D) (size : ℕ) where
  stop_batch-IsBounded :
      (s : LdbStore D) → IsBounded size s → IsBounded size (stop_batch database s).1
  unfolding stop_batch mutations_of
  stop_batch-IsBounded s h =
      if_cases {A = Bool × LdbStore D} (λ r. IsBounded size r.1) (has_batch s.batch) _ _
        (λ _. record {
          kept = h.kept;
          positive = h.positive;
          int_limit = h.int_limit;
          counted = refl;
          within = omega arith;
        })
        (λ _. h)

  write_through-IsBounded :
      (s : LdbStore D) (kind : MutationType) (key value : Bytes)
      → IsBounded size s
      → IsBounded size (write_through database s kind key value).1
  unfolding write_through
  write_through-IsBounded s put key value h = record {
    kept = h.kept;
    positive = h.positive;
    int_limit = h.int_limit;
    counted = h.counted;
    within = h.within;
  }
  write_through-IsBounded s del key value h = record {
    kept = h.kept;
    positive = h.positive;
    int_limit = h.int_limit;
    counted = h.counted;
    within = h.within;
  }

  add_to_batch-IsBounded :
      (s : LdbStore D) (m : Mutation) (bytes : ℕ)
      → IsBounded size s
      → length (mutations_of s.batch) < s.max_batch_size
      → IsBounded size (add_to_batch s m bytes)
  unfolding add_to_batch mutations_of
  add_to_batch-IsBounded s m bytes h room = record {
    kept = h.kept;
    positive = h.positive;
    int_limit = h.int_limit;
    counted = ground (arith, length-append (mutations_of s.batch) (m ∷ []));
    within = ground (arith, length-append (mutations_of s.batch) (m ∷ []));
  }

  make_room-lt :
      (s : LdbStore D) (bytes : ℕ)
      → IsBounded size s
      → length (mutations_of (make_room database s bytes).batch)
        < (make_room database s bytes).max_batch_size
  unfolding make_room is_full stop_batch mutations_of has_batch
  make_room-lt s bytes h = ground arith

  settle-IsBounded : (s : LdbStore D) → IsBounded size s → IsBounded size (settle database s)
  unfolding settle
  settle-IsBounded s h =
      if_cases {A = LdbStore D} (IsBounded size) (has_batch s.batch) _ _
        (λ _. stop_batch-IsBounded s h) (λ _. h)

  make_room-IsBounded :
      (s : LdbStore D) (bytes : ℕ) → IsBounded size s → IsBounded size (make_room database s bytes)
  unfolding make_room
  make_room-IsBounded s bytes h =
      if_cases {A = LdbStore D} (IsBounded size) (has_batch s.batch && is_full s bytes) _ _
        (λ _. stop_batch-IsBounded s h) (λ _. h)

  batch_mutation-IsBounded :
      (s : LdbStore D) (kind : MutationType) (key value : Bytes) (flush : Bool)
      → IsBounded size s
      → IsBounded size (batch_mutation database s kind key value flush).1
  unfolding batch_mutation
  batch_mutation-IsBounded s kind key value flush h =
      if_cases {A = Bool × LdbStore D} (λ r. IsBounded size r.1)
        (flush || leb s.max_batch_size (length value)) _ _
        (λ _. write_through-IsBounded (settle database s) kind key value (settle-IsBounded s h))
        (λ _.
          add_to_batch-IsBounded (make_room database s (length value)) (mutation kind key value)
            (length value) (make_room-IsBounded s (length value) h)
            (make_room-lt s (length value) h))

  run-IsBounded :
      (s : LdbStore D) (calls : List Call)
      → IsBounded size s
      → IsBounded size (run database s calls)
  unfolding run
  run-IsBounded s [] h = h
  run-IsBounded s (c ∷ calls) h =
      run-IsBounded (batch_mutation database s c.kind c.key c.value c.flush).1 calls
        (batch_mutation-IsBounded s c.kind c.key c.value c.flush h)

-- With a batch limit that is positive and fits an int: after any calls of put and del that one
-- thread makes one after the other on a new store, flushed or not, the counter is the number of
-- batched mutations, and that number is within the limit, whatever the database does.
pub batch_size-run :
    {D : Type 0} (database : Database D) (size bytes : ℕ) (d : D) (calls : List Call)
    → 0 < size
    → size < 2 ^ 31
    → ((run database (Ldb.new size bytes d) calls).batch_size
        ≡ length (mutations_of (run database (Ldb.new size bytes d) calls).batch))
      × (length (mutations_of (run database (Ldb.new size bytes d) calls).batch) ≤ size)
unfolding Ldb.new mutations_of
batch_size-run database size bytes d calls positive fits =
    let start : IsBounded size (Ldb.new size bytes d) = record {
      kept = refl;
      positive = positive;
      int_limit = fits;
      counted = refl;
      within = omega arith;
    } in
    let end = run-IsBounded database size (Ldb.new size bytes d) calls start in
    (
      end.counted,
      subst (λ n. length (mutations_of (run database (Ldb.new size bytes d) calls).batch) ≤ n)
          end.kept end.within,
    )

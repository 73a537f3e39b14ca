-- ===== src/Store/Ldb/Order.antt =====
-- The mutations of a LevelDB store reach the database in the order of the calls.
use lsmio.Base.{
  ◌≡◌, refl, Bool, true, false, Option, none, some, List, [], ◌∷◌, Bytes, beq, if◌then◌else◌,
  if_cases, leb, length, ◌&&◌, ◌||◌, ℕ, map, last_lookup, last_lookup-append, or_else, arith, ◌∙◌,
  ap, sym,
}
use lsmio.Store.{MutationType, put, del}
use lsmio.Store.Ldb
use lsmio.Store.Ldb.{
  Mutation, Database, LdbStore, mutation, has_batch, mutations_of, add_to_batch, is_full,
  stop_batch, write_through, settle, make_room, batch_mutation, barrier,
}

-- What a key holds after an update of it, or after none.
unfoldable pub updated : Option (Option Bytes) → Option Bytes → Option Bytes
updated none old = old
updated (some new) old = new

-- LevelDB as it documents its calls, while no write fails: a read sees the writes before it, and a
-- batch is applied in order.
pub record IsReliable {D : Type 0} (database : Database D) : Type 0 where
  pub get-put :
      (d : D) (k j v : Bytes)
      → database.get (database.put d k v).1 j ≡ (if beq k j then some v else database.get d j)
  pub get-delete :
      (d : D) (k j : Bytes)
      → database.get (database.delete d k).1 j ≡ (if beq k j then none else database.get d j)
  pub get-write :
      (d : D) (ms : List Mutation) (k : Bytes)
      → database.get (database.write d ms).1 k ≡ updated (last_lookup k ms) (database.get d k)

-- A call of `_batchMutation`.
pub record Call : Type 0 where
  pub kind : MutationType
  pub key : Bytes
  pub value : Bytes
  pub flush : Bool

unfoldable pub mutation_of : Call → Mutation
mutation_of c = mutation c.kind c.key c.value

module _ {D : Type 0} (database : Database D) where
  unfoldable pub run : LdbStore D → List Call → LdbStore D
  run s [] = s
  run s (c ∷ cs) = run (batch_mutation database s c.kind c.key c.value c.flush).1 cs

  -- What the key holds once the batch is written.
  unfoldable pub promised : LdbStore D → Bytes → Option Bytes
  promised s k = updated (last_lookup k (mutations_of s.batch)) (database.get s.db k)

pub updated-or_else :
    (new old : Option (Option Bytes)) (d : Option Bytes)
    → updated (or_else new old) d ≡ updated new (updated old d)
unfolding updated
updated-or_else none old d = refl
updated-or_else (some v) old d = refl

pub updated-if :
    (b : Bool) (new old : Option Bytes)
    → updated (or_else none (if b then some new else none)) old ≡ (if b then new else old)
unfolding updated
updated-if true new old = refl
updated-if false new old = refl

no_mutations : (b : Option (List Mutation)) → has_batch b ≡ false → mutations_of b ≡ []
unfolding has_batch mutations_of
no_mutations none e = refl
no_mutations (some ms) e = ground arith

module _ {D : Type 0} (database : Database D) where
  stop_batch-clear : (s : LdbStore D) → mutations_of (stop_batch database s).1.batch ≡ []
  unfolding stop_batch mutations_of
  stop_batch-clear s =
      if_cases {A = Bool × LdbStore D} (λ r. mutations_of r.1.batch ≡ []) (has_batch s.batch) _ _
        (λ _. refl) (λ e. no_mutations s.batch e)

  settle-clear : (s : LdbStore D) → mutations_of (settle database s).batch ≡ []
  unfolding settle
  settle-clear s =
      if_cases {A = LdbStore D} (λ r. mutations_of r.batch ≡ []) (has_batch s.batch) _ _
        (λ _. stop_batch-clear s) (λ e. no_mutations s.batch e)

  write_through-batch :
      (s : LdbStore D) (kind : MutationType) (key value : Bytes)
      → (write_through database s kind key value).1.batch ≡ s.batch
  unfolding write_through
  write_through-batch s put key value = refl
  write_through-batch s del key value = refl

  promised-clear :
      (s : LdbStore D) (k : Bytes)
      → mutations_of s.batch ≡ []
      → promised database s k ≡ database.get s.db k
  unfolding promised updated last_lookup
  promised-clear s k clear = rw clear

module _ {D : Type 0} (database : Database D) (reliable : IsReliable database) where
  pub promised-stop_batch :
      (s : LdbStore D) (k : Bytes)
      → promised database (stop_batch database s).1 k ≡ promised database s k
  unfolding promised stop_batch updated last_lookup mutations_of
  promised-stop_batch s k =
      if_cases {A = Bool × LdbStore D}
        (λ r.
          updated (last_lookup k (mutations_of r.1.batch)) (database.get r.1.db k)
          ≡ promised database s k)
        (has_batch s.batch) _ _ (λ _. reliable.get-write s.db (mutations_of s.batch) k) (λ _. refl)

  promised-add_to_batch :
      (s : LdbStore D) (m : Mutation) (bytes : ℕ) (k : Bytes)
      → promised database (add_to_batch s m bytes) k
        ≡ updated (last_lookup k (m ∷ [])) (promised database s k)
  unfolding promised add_to_batch mutations_of
  promised-add_to_batch s m bytes k = rw (
    last_lookup-append k (mutations_of s.batch) (m ∷ []),
    updated-or_else (last_lookup k (m ∷ [])) (last_lookup k (mutations_of s.batch)),
  )

  get-write_through :
      (s : LdbStore D) (kind : MutationType) (key value k : Bytes)
      → database.get (write_through database s kind key value).1.db k
        ≡ updated (last_lookup k (mutation kind key value ∷ [])) (database.get s.db k)
  unfolding write_through last_lookup mutation
  get-write_through s put key value k =
      reliable.get-put s.db key k value
      ∙ sym (updated-if (beq key k) (some value) (database.get s.db k))
  get-write_through s del key value k =
      reliable.get-delete s.db key k ∙ sym (updated-if (beq key k) none (database.get s.db k))

  promised-settle :
      (s : LdbStore D) (k : Bytes) → promised database (settle database s) k ≡ promised database s k
  unfolding settle
  promised-settle s k =
      if_cases (λ r. promised database r k ≡ promised database s k) (has_batch s.batch) _ _
        (λ _. promised-stop_batch s k) (λ _. refl)

  promised-make_room :
      (s : LdbStore D) (bytes : ℕ) (k : Bytes)
      → promised database (make_room database s bytes) k ≡ promised database s k
  unfolding make_room
  promised-make_room s bytes k =
      if_cases (λ r. promised database r k ≡ promised database s k)
        (has_batch s.batch && is_full s bytes) _ _ (λ _. promised-stop_batch s k) (λ _. refl)

  promised-write_through :
      (s : LdbStore D) (kind : MutationType) (key value k : Bytes)
      → mutations_of s.batch ≡ []
      → promised database (write_through database s kind key value).1 k
        ≡ updated (last_lookup k (mutation kind key value ∷ [])) (promised database s k)
  promised-write_through s kind key value k clear =
      promised-clear database (write_through database s kind key value).1 k
        (ap mutations_of (write_through-batch database s kind key value) ∙ clear)
      ∙ get-write_through s kind key value k
      ∙ ap (updated (last_lookup k (mutation kind key value ∷ [])))
          (sym (promised-clear database s k clear))

  pub promised-batch_mutation :
      (s : LdbStore D) (c : Call) (k : Bytes)
      → promised database (batch_mutation database s c.kind c.key c.value c.flush).1 k
        ≡ updated (last_lookup k (mutation_of c ∷ [])) (promised database s k)
  unfolding batch_mutation mutation_of
  promised-batch_mutation s c k =
      let m = mutation c.kind c.key c.value in
      let room = make_room database s (length c.value) in
      if_cases {A = Bool × LdbStore D}
        (λ r. promised database r.1 k ≡ updated (last_lookup k (m ∷ [])) (promised database s k))
        (c.flush || leb s.max_batch_size (length c.value)) _ _
        (λ _.
          promised-write_through (settle database s) c.kind c.key c.value k
            (settle-clear database s)
          ∙ ap (updated (last_lookup k (m ∷ []))) (promised-settle s k))
        (λ _.
          promised-add_to_batch room m (length c.value) k
          ∙ ap (updated (last_lookup k (m ∷ []))) (promised-make_room s (length c.value) k))

  promised-run :
      (s : LdbStore D) (cs : List Call) (k : Bytes)
      → promised database (run database s cs) k
        ≡ updated (last_lookup k (map mutation_of cs)) (promised database s k)
  unfolding run updated last_lookup
  promised-run s [] k = refl
  promised-run s (c ∷ cs) k =
      promised-run (batch_mutation database s c.kind c.key c.value c.flush).1 cs k
      ∙ ap (updated (last_lookup k (map mutation_of cs))) (promised-batch_mutation s c k)
      ∙ sym (
          updated-or_else (last_lookup k (map mutation_of cs)) (last_lookup k (mutation_of c ∷ []))
            (promised database s k))

  -- Over a LevelDB whose writes succeed and are seen in order: after any calls of put and del,
  -- flushed or batched, a barrier leaves in the database, for each key, what the last call on it
  -- wrote, or else what the batch and the database held before.
  pub get-run :
      (s : LdbStore D) (cs : List Call) (k : Bytes)
      → Ldb.get database (barrier database (run database s cs)).1 k
        ≡ updated (last_lookup k (map mutation_of cs)) (promised database s k)
  unfolding Ldb.get barrier
  get-run s cs k =
      let end = run database s cs in
      sym (promised-clear database (stop_batch database end).1 k (stop_batch-clear database end))
      ∙ promised-stop_batch end k
      ∙ promised-run s cs k

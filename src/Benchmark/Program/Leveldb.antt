-- ===== src/Benchmark/Program/Leveldb.antt =====
-- The program benchmark/bm_leveldb.cpp over lib/manager/store/store_ldb.cpp.
use lsmio.Base.{
  ◌≡◌, refl, sym, ap, subst, ◌∙◌, Bool, true, false, ◌||◌, Option, none, some, [], Bytes, beq,
  if◌then◌else◌, if_cases, length, leb, last_lookup, arith,
}
use lsmio.Config.{LsmioConfig}
use lsmio.Store.{put}
use lsmio.Store.Ldb
use lsmio.Store.Ldb.{
  Database, LdbStore, barrier, batch_mutation, close, stop_batch, mutation, mutations_of, settle,
  write_through,
}
use lsmio.Store.Ldb.Order.{
  IsReliable, promised, updated, updated-if, mutation_of, run, get-run, promised-batch_mutation,
  promised-stop_batch,
}
use lsmio.Store.Ldb.Opening.{Options, options_of, construct, construct-opened}
use lsmio.Store.Ldb.Lives.{filed}
use lsmio.Store.Opening.{Engine, opened, IsFaithful, get-open_database}
use lsmio.Benchmark.Program.Checks.{Contents}
use lsmio.Benchmark.Program.Sessions.{BackEnd, IsLasting, store_in, store_in-opened}

module _ {F D : Type 0} (engine : Engine Options F D) (database : Database D) (close_db : D → F)
    (config : LsmioConfig) (path : Bytes) where
  -- A store is `none` once its database is closed.
  get : Option (LdbStore D) → Bytes → Option Bytes
  get none key = none
  get (some s) key = Ldb.get database s key

  put_flushed : Option (LdbStore D) → Bytes → Bytes → Bool × Option (LdbStore D)
  put_flushed none key value = (false, none)
  put_flushed (some s) key value =
      let (status, s') = batch_mutation database s put key value config.always_flush in
      (status, some s')

  write_barrier : Option (LdbStore D) → Option (LdbStore D)
  write_barrier none = none
  write_barrier (some s) = some (barrier database s).1

  made : Option (LdbStore D) → Option (Option (LdbStore D))
  made none = none
  made (some s) = some (some s)

  -- The calls of BMLeveldb.
  unfoldable pub ldb_back_end : BackEnd (Option (LdbStore D)) F
  unfolding get put_flushed write_barrier filed made store_in
  ldb_back_end = record {
    construct = λ over_write f. made (store_in (construct engine config over_write path f));
    get = get;
    put = put_flushed;
    write_barrier = write_barrier;
    close = λ t. (filed engine database close_db (close database t), none);
  }

  pub IsOpen : Option (LdbStore D) → Type 0
  IsOpen t = (s : LdbStore D) × (t ≡ some s)

  pub IsClosed : Option (LdbStore D) → Type 0
  IsClosed t = t ≡ none

  -- What the database holds once the batch is written.
  unfoldable pub contents : Option (LdbStore D) → Contents
  contents none k = none
  contents (some s) k = promised database s k

  made-some :
      (o : Option (LdbStore D)) (t : Option (LdbStore D))
      → made o ≡ some t
      → (s : LdbStore D) × (o ≡ some s) × (t ≡ some s)
  unfolding made
  made-some none t e = absurd (ground (arith, e))
  made-some (some s) t e = (s, refl, cc)

  -- What holds of every open store holds of an open store.
  at_open :
      (P : Option (LdbStore D) → Type 0)
      → ((s : LdbStore D) → P (some s))
      → (t : Option (LdbStore D)) → IsOpen t
      → P t
  unfolding IsOpen
  at_open P all t (s, same) = subst P (sym same) (all s)

  module _ (reliable : IsReliable database) where
    contents-put_flushed :
        (s : LdbStore D) (k v j : Bytes)
        → contents (put_flushed (some s) k v).1 j
          ≡ (if beq k j then some v else promised database s j)
    unfolding contents put_flushed mutation_of mutation last_lookup
    contents-put_flushed s k v j =
        promised-batch_mutation database reliable s
          (record { kind = put; key = k; value = v; flush = config.always_flush }) j
        ∙ updated-if (beq k j) (some v) (promised database s j)

    status-put_flushed :
        ((d : D) (k v : Bytes) → (database.put d k v).0 ≡ true)
        → (s : LdbStore D) (k v : Bytes) → (put_flushed (some s) k v).0 ≡ true
    unfolding put_flushed batch_mutation write_through
    status-put_flushed puts_well s k v =
        if_cases {A = Bool × LdbStore D} (λ r. r.0 ≡ true)
          (config.always_flush || leb s.max_batch_size (length v)) _ _
          (λ _. puts_well (settle database s).db k v) (λ _. refl)

    -- The barrier before `close` and the one in it leave what was promised.
    get-barriers :
        (s : LdbStore D) (k : Bytes)
        → database.get (barrier database (barrier database s).1).1.db k ≡ promised database s k
    unfolding barrier run Ldb.get updated last_lookup
    get-barriers s k =
        get-run database reliable (stop_batch database s).1 [] k
        ∙ promised-stop_batch database reliable s k

  module _ (held : F → Bytes → Option Bytes) where
    -- A LevelDB that opens and writes without failure keeps what is put, flushed or batched.
    pub ldb_back_end-IsLasting :
        IsReliable database
        → IsFaithful engine path database.get held
        → ((d : D) (k : Bytes) → held (close_db d) k ≡ database.get d k)
        → ((d : D) (k v : Bytes) → (database.put d k v).0 ≡ true)
        → ((over_write : Bool) (f : F)
            → (s : LdbStore D) × (construct engine config over_write path f ≡ opened s))
        → IsLasting ldb_back_end IsOpen IsClosed contents held
    unfolding ldb_back_end IsOpen IsClosed contents close Ldb.get Ldb.new
    ldb_back_end-IsLasting reliable faithful closes puts_well opens_well = record {
      constructs = λ over_write f.
          let (s, built) = opens_well over_write f in
          (some s, ap (λ o. made (store_in o)) built, (s, refl));
      get-construct = λ f t k e.
          let (s, given, same) = made-some _ t e in
          let (d, found, fresh) =
            construct-opened engine config false path f s
              (store_in-opened (construct engine config false path f) s given) in
          ap (λ u. get u k) same
          ∙ ap (λ u. Ldb.get database u k) fresh
          ∙ get-open_database engine path database.get held (options_of config) false f d k faithful
              found;
      puts = λ t k v.
          at_open (λ u. ((put_flushed u k v).0 ≡ true) × IsOpen (put_flushed u k v).1)
            (λ s. (status-put_flushed reliable puts_well s k v, (_, refl))) t;
      contents-put = λ t k v j.
          at_open
            (λ u. contents (put_flushed u k v).1 j ≡ (if beq k j then some v else contents u j))
            (λ s. contents-put_flushed reliable s k v j) t;
      closes = λ t.
          at_open
            (λ u.
              (f : F) × (filed engine database close_db (close database (write_barrier u)) ≡ some f)
              × ((k : Bytes) → held f k ≡ contents u k)
              × (◌≡◌ {A = Option (LdbStore D)} none none))
            (λ s. (_, refl, λ k. closes _ k ∙ get-barriers reliable s k, refl)) t;
      close-again = λ t closed. rw closed refl;
    }

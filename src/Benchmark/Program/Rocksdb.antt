-- ===== src/Benchmark/Program/Rocksdb.antt =====
-- The program benchmark/bm_rocksdb.cpp over lib/manager/store/store_rdb.cpp.
use lsmio.Base.{
  ◌≡◌, refl, sym, ap, subst, ◌∙◌, Bool, true, false, Option, none, some, Bytes, beq, if◌then◌else◌,
}
use lsmio.Config.{LsmioConfig}
use lsmio.Store.{put}
use lsmio.Store.Ldb.{Database}
use lsmio.Store.Opening.{Engine, opened, get-open_database}
use lsmio.Store.Rdb
use lsmio.Store.Rdb.Opening.{
  Options, WriteOptions, RdbStore, options_of, write_options_of, write_options_of-IsAccepted,
  construct, construct-opened, close,
}
use lsmio.Store.Rdb.Lives.{IsDurable}
use lsmio.Benchmark.Program.Checks.{Contents}
use lsmio.Benchmark.Program.Sessions.{BackEnd, IsLasting, store_in, store_in-opened}

module _ {F D : Type 0} (engine : Engine Options F D) (database : WriteOptions → Database D)
    (flush_memtable : D → Bool × D) (close_db : D → F) (config : LsmioConfig) (path : Bytes) where
  get : RdbStore D → Bytes → Option Bytes
  get t key = elim t.db [ none ↦ none | some d ↦ (database t.write_options).get d key ]

  put_flushed : RdbStore D → Bytes → Bytes → Bool × RdbStore D
  put_flushed t key value = elim t.db [
    | none ↦ (false, t)
    | some d ↦
        let (status, d') =
          Rdb.batch_mutation (database t.write_options) flush_memtable d put key value
            config.always_flush in
        (status, record t { db = some d' })
  ]

  write_barrier : RdbStore D → RdbStore D
  write_barrier t = elim t.db [
    | none ↦ t
    | some d ↦ record t {
      db = some (Rdb.write_barrier (database t.write_options) flush_memtable d).1;
    }
  ]

  -- The calls of BMRocksdb; each of its stores has the options of the one configuration.
  unfoldable pub rdb_back_end : BackEnd (RdbStore D) F
  unfolding get put_flushed write_barrier store_in
  rdb_back_end = record {
    construct = λ over_write f. store_in (construct engine config over_write path f);
    get = get;
    put = put_flushed;
    write_barrier = write_barrier;
    close = close flush_memtable close_db;
  }

  opened_with : D → RdbStore D
  opened_with d = record { write_options = write_options_of config; db = some d }

  pub IsOpen : RdbStore D → Type 0
  IsOpen t = (d : D) × (t ≡ opened_with d)

  pub IsClosed : RdbStore D → Type 0
  IsClosed t = t.db ≡ none

  -- What holds of every open store holds of an open store.
  at_open :
      (P : RdbStore D → Type 0) → ((d : D) → P (opened_with d)) → (t : RdbStore D) → IsOpen t → P t
  unfolding IsOpen
  at_open P all t (d, same) = subst P (sym same) (all d)

  module _ (read : D → Bytes → Option Bytes) (held : F → Bytes → Option Bytes) where
    unfoldable pub contents : RdbStore D → Contents
    contents t k = elim t.db [ none ↦ none | some d ↦ read d k ]

    -- A durable RocksDB that opens and writes and flushes without failure keeps what is put.
    pub rdb_back_end-IsLasting :
        IsDurable engine database flush_memtable close_db path read held
        → ((d : D) → (flush_memtable d).0 ≡ true)
        → ((o : WriteOptions) (d : D) (k v : Bytes) → ((database o).put d k v).0 ≡ true)
        → ((over_write : Bool) (f : F)
            → (t : RdbStore D) × (construct engine config over_write path f ≡ opened t))
        → IsLasting rdb_back_end IsOpen IsClosed contents held
    unfolding rdb_back_end IsOpen IsClosed contents opened_with Rdb.batch_mutation close
    rdb_back_end-IsLasting durable flushes puts_well opens_well = record {
      constructs = λ over_write f.
          let (t, made) = opens_well over_write f in
          let (d, _, same) = construct-opened engine config over_write path f t made in
          (t, ap store_in made, (d, same));
      get-construct = λ f t k made.
          let (d, found, same) =
            construct-opened engine config false path f t
              (store_in-opened (construct engine config false path f) t made) in
          ap (λ u. get u k) same
          ∙ durable.same_get (write_options_of config) d k
          ∙ get-open_database engine path read held (options_of config) false f d k durable.faithful
              found;
      puts = λ t k v.
          at_open (λ u. ((put_flushed u k v).0 ≡ true) × IsOpen (put_flushed u k v).1)
            (λ d. (puts_well (write_options_of config) d k v, (_, refl))) t;
      contents-put = λ t k v j.
          at_open
            (λ u. contents (put_flushed u k v).1 j ≡ (if beq k j then some v else contents u j))
            (λ d.
              let o = write_options_of config in
              sym (durable.same_get o _ j)
              ∙ (durable.reliable o (write_options_of-IsAccepted config)).get-put d k j v
              ∙ ap (λ r. if beq k j then some v else r) (durable.same_get o d j))
            t;
      closes = λ t.
          at_open
            (λ u.
              (f : F) × ((close flush_memtable close_db (write_barrier u)).0 ≡ some f)
              × ((k : Bytes) → held f k ≡ contents u k)
              × IsClosed (close flush_memtable close_db (write_barrier u)).1)
            (λ d.
              let flushed = (flush_memtable d).1 in
              (
                close_db (flush_memtable flushed).1,
                refl,
                λ k.
                    durable.held-close_db flushed k (flushes flushed)
                    ∙ durable.get-flush flushed k
                    ∙ durable.get-flush d k,
                refl,
              ))
            t;
      close-again = λ t closed. rw closed refl;
    }

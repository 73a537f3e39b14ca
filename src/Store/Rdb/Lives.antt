-- ===== src/Store/Rdb/Lives.antt =====
-- A RocksDB store from its constructor to `close`, and opened again.
use lsmio.Base.{
  ◌≡◌, refl, sym, ap, ◌∙◌, Bool, true, Option, none, some, List, [], ◌∷◌, Bytes, beq, map,
  last_lookup, if◌then◌else◌,
}
use lsmio.Config.{LsmioConfig}
use lsmio.Store.{MutationType, put, del}
use lsmio.Store.Ldb.{Database, mutation}
use lsmio.Store.Ldb.Order.{IsReliable, Call, mutation_of, updated, updated-or_else, updated-if}
use lsmio.Store.Opening.{Engine, Opened, opened, aborts, IsFaithful, get-open_database}
use lsmio.Store.Rdb
use lsmio.Store.Rdb.Opening.{
  Options, WriteOptions, RdbStore, IsAccepted, options_of, write_options_of,
  write_options_of-IsAccepted, construct, construct-opened, close,
}

module _ {F D : Type 0} (engine : Engine Options F D) (database : WriteOptions → Database D)
    (flush_memtable : D → Bool × D) (close_db : D → F) where
  -- A call of `put` or `del`; `none` is the null pointer of a closed store.
  unfoldable pub mutate : RdbStore D → Call → Option (RdbStore D)
  mutate s c = elim s.db [
    | none ↦ none
    | some d ↦
        let (status, d') =
          Rdb.batch_mutation (database s.write_options) flush_memtable d c.kind c.key c.value
            c.flush in
        some (record s { db = some d' })
  ]

  run_from : Option (RdbStore D) → (RdbStore D → Option (RdbStore D)) → Option (RdbStore D)
  run_from none rest = none
  run_from (some s) rest = rest s

  pub run : RdbStore D → List Call → Option (RdbStore D)
  unfolding mutate run_from
  run s [] = some s
  run s (c ∷ cs) = run_from (mutate s c) (λ t. run t cs)

  closed : Option (RdbStore D) → Option F
  closed none = none
  closed (some s) = (close flush_memtable close_db s).0

  used : Opened (RdbStore D) → List Call → Option F
  used aborts calls = none
  used (opened s) calls = closed (run s calls)

  -- The files that a store leaves which is opened, gets some calls and is closed.
  unfoldable pub life : LsmioConfig → Bool → Bytes → F → List Call → Option F
  unfolding closed used
  life config over_write path f calls = used (construct engine config over_write path f) calls

  -- What the documents of RocksDB say: a read is that of the database whatever the options, writes
  -- with accepted options are seen, and a flushed and closed database is in its files.
  pub record IsDurable (path : Bytes) (get : D → Bytes → Option Bytes)
      (held : F → Bytes → Option Bytes) : Type 0 where
    pub faithful : IsFaithful engine path get held
    pub reliable : (o : WriteOptions) → IsAccepted o → IsReliable (database o)
    pub same_get : (o : WriteOptions) (d : D) (k : Bytes) → (database o).get d k ≡ get d k
    pub get-flush : (d : D) (k : Bytes) → get (flush_memtable d).1 k ≡ get d k
    pub held-close_db :
        (d : D) (k : Bytes)
        → (flush_memtable d).0 ≡ true
        → held (close_db (flush_memtable d).1) k ≡ get (flush_memtable d).1 k

  -- The database after some calls.
  mutated : WriteOptions → D → List Call → D
  mutated o d [] = d
  mutated o d (c ∷ cs) =
      mutated o (Rdb.batch_mutation (database o) flush_memtable d c.kind c.key c.value c.flush).1 cs

  run-mutated :
      (o : WriteOptions) (d : D) (cs : List Call)
      → run (record { write_options = o; db = some d }) cs
        ≡ some (record { write_options = o; db = some (mutated o d cs) })
  unfolding run mutated
  run-mutated o d [] = refl
  run-mutated o d (c ∷ cs) =
      run-mutated o
        (Rdb.batch_mutation (database o) flush_memtable d c.kind c.key c.value c.flush).1 cs

  get-batch_mutation :
      (o : WriteOptions) (d : D) (kind : MutationType) (key value k : Bytes) (flush : Bool)
      → IsReliable (database o)
      → (database o).get (Rdb.batch_mutation (database o) flush_memtable d kind key value flush).1 k
        ≡ updated (last_lookup k (mutation kind key value ∷ [])) ((database o).get d k)
  unfolding Rdb.batch_mutation last_lookup mutation
  get-batch_mutation o d put key value k flush reliable =
      reliable.get-put d key k value
      ∙ sym (updated-if (beq key k) (some value) ((database o).get d k))
  get-batch_mutation o d del key value k flush reliable =
      reliable.get-delete d key k ∙ sym (updated-if (beq key k) none ((database o).get d k))

  get-mutated :
      (o : WriteOptions) (d : D) (cs : List Call) (k : Bytes)
      → IsReliable (database o)
      → (database o).get (mutated o d cs) k
        ≡ updated (last_lookup k (map mutation_of cs)) ((database o).get d k)
  unfolding mutated mutation_of updated last_lookup
  get-mutated o d [] k reliable = refl
  get-mutated o d (c ∷ cs) k reliable =
      get-mutated o
        (Rdb.batch_mutation (database o) flush_memtable d c.kind c.key c.value c.flush).1 cs k
        reliable
      ∙ ap (updated (last_lookup k (map mutation_of cs)))
          (get-batch_mutation o d c.kind c.key c.value k c.flush reliable)
      ∙ sym (
          updated-or_else (last_lookup k (map mutation_of cs)) (last_lookup k (mutation_of c ∷ []))
            ((database o).get d k))

module _ {F D : Type 0} (engine : Engine Options F D) (database : WriteOptions → Database D)
    (flush_memtable : D → Bool × D) (close_db : D → F) where
  life-opened :
      (config : LsmioConfig) (over_write : Bool) (path : Bytes) (f : F) (calls : List Call) (d : D)
      → construct engine config over_write path f
        ≡ opened (record { write_options = write_options_of config; db = some d })
      → life engine database flush_memtable close_db config over_write path f calls
        ≡ some (
            close_db
              (flush_memtable (
                mutated engine database flush_memtable close_db
                  (write_options_of config)
                  d
                  calls)).1)
  unfolding life used closed close
  life-opened config over_write path f calls d e = rw (
    e,
    used,
    run-mutated engine database flush_memtable close_db (write_options_of config) d calls,
  )

  -- Over a RocksDB that is durable and whose flushes succeed: a store that is constructed, with
  -- any configuration, takes any calls of put and del, and is closed, leaves files that hold for
  -- each key what the last call on it wrote, or else what the files held before, or nothing if
  -- they were overwritten.
  pub held-life_flushed :
      (config : LsmioConfig) (over_write : Bool) (path : Bytes) (f : F) (calls : List Call)
      (s : RdbStore D) (get : D → Bytes → Option Bytes) (held : F → Bytes → Option Bytes)
      → IsDurable engine database flush_memtable close_db path get held
      → ((d : D) → (flush_memtable d).0 ≡ true)
      → construct engine config over_write path f ≡ opened s
      → (files : F) × (life engine database flush_memtable close_db config over_write path f calls
          ≡ some files)
        × ((k : Bytes)
            → held files k
              ≡ updated
                  (last_lookup k (map mutation_of calls))
                  (if over_write then none else held f k))
  held-life_flushed config over_write path f calls s get held durable flushes e =
      let (d, found, same) = construct-opened engine config over_write path f s e in
      let o = write_options_of config in
      let end = mutated engine database flush_memtable close_db o d calls in
      (
        close_db (flush_memtable end).1,
        life-opened config over_write path f calls d (e ∙ ap opened same),
        λ k.
            durable.held-close_db end k (flushes end)
            ∙ durable.get-flush end k
            ∙ sym (durable.same_get o end k)
            ∙ get-mutated engine database flush_memtable close_db o d calls k
                (durable.reliable o (write_options_of-IsAccepted config))
            ∙ ap (updated (last_lookup k (map mutation_of calls))) (
                durable.same_get o d k
                ∙ get-open_database engine path get held (options_of config) over_write f d k
                    durable.faithful found),
      )

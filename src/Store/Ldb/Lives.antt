-- ===== src/Store/Ldb/Lives.antt =====
-- A LevelDB store from its constructor to `close`, and opened again.
use lsmio.Base.{
  ℕ, ◌≡◌, refl, ap, ◌∙◌, Bool, Option, none, some, List, Bytes, map, last_lookup, if◌then◌else◌,
}
use lsmio.Config.{LsmioConfig}
use lsmio.Store.Ldb
use lsmio.Store.Ldb.{Database, LdbStore, barrier, close, mutations_of}
use lsmio.Store.Ldb.Order.{IsReliable, Call, mutation_of, updated, promised, run, get-run}
use lsmio.Store.Ldb.Opening.{Options, options_of, construct, construct-opened}
use lsmio.Store.Opening.{Engine, Opened, opened, aborts, IsFaithful, get-open_database}

module _ {F D : Type 0} (engine : Engine Options F D) (database : Database D)
    (close_db : D → F) where
  unfoldable pub filed : Option D → Option F
  filed none = none
  filed (some d) = some (close_db d)

  used : Opened (LdbStore D) → List Call → Option F
  used aborts calls = none
  used (opened s) calls = filed (close database (some (run database s calls)))

  -- The files that a store leaves which is opened, gets some calls and is closed.
  unfoldable pub life : LsmioConfig → Bool → Bytes → F → List Call → Option F
  unfolding filed used
  life config over_write path f calls = used (construct engine config over_write path f) calls

  pub promised-new :
      (size bytes : ℕ) (d : D) (k : Bytes)
      → promised database (Ldb.new size bytes d) k ≡ database.get d k
  unfolding promised Ldb.new mutations_of last_lookup updated
  promised-new size bytes d k = refl

  -- Over a LevelDB whose writes succeed and are in its files once it is closed: a store that is
  -- constructed, with any configuration, takes any calls of put and del one after the other,
  -- flushed or batched, and is closed, leaves files that hold for each key what the last call on
  -- it wrote, or else what the files held before, or nothing if they were overwritten.
  pub held-life :
      (config : LsmioConfig) (over_write : Bool) (path : Bytes) (f : F) (calls : List Call)
      (s : LdbStore D) (held : F → Bytes → Option Bytes)
      → IsReliable database
      → IsFaithful engine path database.get held
      → ((d : D) (k : Bytes) → held (close_db d) k ≡ database.get d k)
      → construct engine config over_write path f ≡ opened s
      → (files : F) × (life config over_write path f calls ≡ some files)
        × ((k : Bytes)
            → held files k
              ≡ updated
                  (last_lookup k (map mutation_of calls))
                  (if over_write then none else held f k))
  unfolding life used filed close
  held-life config over_write path f calls s held reliable faithful closes e =
      let (d, found, same) = construct-opened engine config over_write path f s e in
      let new = Ldb.new config.async_batch_size config.async_batch_bytes d in
      let end = (barrier database (run database s calls)).1.db in
      (
        close_db end,
        rw e refl,
        λ k.
            closes end k
            ∙ unfold Ldb.get in
              get-run database reliable s calls k
              ∙ ap
                  (λ (t : LdbStore D).
                    updated (last_lookup k (map mutation_of calls)) (promised database t k))
                  same
              ∙ ap (updated (last_lookup k (map mutation_of calls))) (
                  promised-new config.async_batch_size config.async_batch_bytes d k
                  ∙ get-open_database engine path database.get held (options_of config) over_write f
                      d k faithful found),
      )

-- ===== src/Store/Opening.antt =====
-- How the constructors of the LevelDB and RocksDB stores open a database, in
-- lib/manager/store/store_ldb.cpp and store_rdb.cpp; the databases are parameters.
use lsmio.Base.{
  ◌≡◌, refl, ◌∙◌, ◌⊎◌, inl, inr, Bool, true, false, Option, none, some, Bytes, arith, if◌then◌else◌,
}

-- What a constructor asks of the database's library and of the file system: `DB::Open` with its
-- status and handle, `DestroyDB` and `remove_all`. `F` is the state of the files.
pub record Engine (O F D : Type 0) : Type 0 where
  pub open_db : O → Bytes → F → Bool × Option D
  pub destroy_db : Bytes → O → F → Bool × F
  pub remove_all : Bytes → F → F

-- A constructor gives a database, or logs at FATAL, which ends the process.
pub data Opened (D : Type 0) : Type 0 where
  opened : D → Opened D
  aborts : Opened D

module _ {O F D : Type 0} (engine : Engine O F D) where
  removed : Bytes → Bool × F → Option F
  removed path (false, f) = none
  removed path (true, f) = some (engine.remove_all path f)

  -- `dbCleanup`; `none` if it aborts.
  unfoldable pub db_cleanup : O → Bytes → F → Option F
  unfolding removed
  db_cleanup options path f = removed path (engine.destroy_db path options f)

  checked : Bool × Option D → Opened D
  checked (false, d) = aborts
  checked (true, none) = aborts
  checked (true, some d) = opened d

  open_cleaned : O → Bytes → Option F → Opened D
  open_cleaned options path none = aborts
  open_cleaned options path (some f) = checked (engine.open_db options path f)

  -- The end of the constructors: with `overWrite` what is there goes first.
  unfoldable pub open_database : O → Bool → Bytes → F → Opened D
  unfolding db_cleanup checked open_cleaned
  open_database options over_write path f =
      open_cleaned options path (if over_write then db_cleanup options path f else some f)

  -- The files that a constructor opens the database on.
  pub record Opens (options : O) (over_write : Bool) (path : Bytes) (f g : F) (d : D) : Type 0 where
    pub left :
        ((over_write ≡ false) × (g ≡ f))
        ⊎ ((over_write ≡ true)
            × (f' : F) × (engine.destroy_db path options f ≡ (true, f'))
            × (g ≡ engine.remove_all path f'))
    pub found : engine.open_db options path g ≡ (true, some d)

  checked-opened : (r : Bool × Option D) (d : D) → checked r ≡ opened d → r ≡ (true, some d)
  unfolding checked
  checked-opened (false, o) d e = absurd (ground (arith, e))
  checked-opened (true, none) d e = absurd (ground (arith, e))
  checked-opened (true, some x) d e = ground (arith, e)

  -- A constructor that returns has opened the files that were there, or what the cleanup left.
  pub open_database-Opens :
      (options : O) (over_write : Bool) (path : Bytes) (f : F) (d : D)
      → open_database options over_write path f ≡ opened d
      → (g : F) × Opens options over_write path f g d
  unfolding open_database open_cleaned db_cleanup removed
  open_database-Opens options false path f d e =
      (f, record { left = inl (refl, refl); found = checked-opened _ d e })
  open_database-Opens options true path f d e = go (engine.destroy_db path options f) refl e
    where
      go :
          (r : Bool × F)
          → engine.destroy_db path options f ≡ r
          → open_cleaned options path (removed path r) ≡ opened d
          → (g : F) × Opens options true path f g d
      go (false, f') q h = absurd (ground (arith, h))
      go (true, f') q h = (
        engine.remove_all path f',
        record { left = inr (refl, f', q, refl); found = checked-opened _ d h },
      )

-- The libraries as they document these calls: a database that is opened holds what its files
-- hold, and one that is destroyed holds nothing.
pub record IsFaithful {O F D : Type 0} (engine : Engine O F D) (path : Bytes)
    (get : D → Bytes → Option Bytes) (held : F → Bytes → Option Bytes) : Type 0 where
  pub get-open_db :
      (options : O) (f : F) (d : D) (k : Bytes)
      → engine.open_db options path f ≡ (true, some d)
      → get d k ≡ held f k
  pub held-destroy_db :
      (options : O) (f g : F) (k : Bytes)
      → engine.destroy_db path options f ≡ (true, g)
      → held g k ≡ none
  pub held-remove_all :
      (f : F) (k : Bytes) → held f k ≡ none → held (engine.remove_all path f) k ≡ none

-- An overwritten database starts empty, any other with what its files hold.
pub get-open_database :
    {O F D : Type 0} (engine : Engine O F D) (path : Bytes) (get : D → Bytes → Option Bytes)
    (held : F → Bytes → Option Bytes) (options : O) (over_write : Bool) (f : F) (d : D) (k : Bytes)
    → IsFaithful engine path get held
    → open_database engine options over_write path f ≡ opened d
    → get d k ≡ (if over_write then none else held f k)
get-open_database {F} engine path get held options over_write f d k faithful e =
    let (g, opens) = open_database-Opens engine options over_write path f d e in
    faithful.get-open_db options g d k opens.found ∙ go g opens.left
  where
    go :
        (g : F)
        → ((over_write ≡ false) × (g ≡ f))
          ⊎ ((over_write ≡ true)
              × (f' : F) × (engine.destroy_db path options f ≡ (true, f'))
              × (g ≡ engine.remove_all path f'))
        → held g k ≡ (if over_write then none else held f k)
    go g (inl (kept, same)) = rw (kept, same) refl
    go g (inr (fresh, f', destroyed, same)) =
        rw (fresh, same)
          (faithful.held-remove_all f' k (faithful.held-destroy_db options f f' k destroyed))

-- ===== src/Tests/Openings.antt =====
-- The theorems on opening and closing databases at concrete inputs.
use lsmio.Base.{
  ◌≡◌, refl, Bool, true, false, Option, none, some, List, [], ◌∷◌, Bytes, codes, map, lookup,
  last_lookup, if◌then◌else◌, arith, ◌*◌,
}
use lsmio.Config.{default_config}
use lsmio.Store.{put, del}
use lsmio.Store.Opening.{Engine, open_database, IsFaithful}
use lsmio.Store.Ldb
use lsmio.Store.Ldb.Opening as LdbOpening
use lsmio.Store.Ldb.Lives as LdbLives
use lsmio.Store.Ldb.Order.{Call, updated, mutation_of}
use lsmio.Store.Rdb.Opening as RdbOpening
use lsmio.Store.Rdb.Lives as RdbLives
use lsmio.Tests.Instances.{Entries, in_memory, in_memory-IsReliable}

-- A file system that holds one database.
abbrev pub disk_engine : {O : Type 0} → Engine O Entries Entries
disk_engine = record {
  open_db = λ options path f. (true, some f);
  destroy_db = λ path options f. (true, []);
  remove_all = λ path f. [];
}

abbrev pub held : Entries → Bytes → Option Bytes
held f k = lookup k f

abbrev pub old_files : Entries
old_files = (codes "a", codes "0") ∷ (codes "b", codes "1") ∷ []

abbrev calls : List Call
calls =
    record { kind = put; key = codes "a"; value = codes "2"; flush = false }
    ∷ record { kind = del; key = codes "b"; value = []; flush = true }
    ∷ []

same_files :
    (f d : Entries) (k : Bytes)
    → ◌≡◌ {A = Bool × Option Entries} (true, some f) (true, some d)
    → lookup k d ≡ lookup k f
same_files f d k e = ground (arith, e)

no_files :
    (g : Entries) (k : Bytes) → ◌≡◌ {A = Bool × Entries} (true, []) (true, g) → lookup k g ≡ none
unfolding lookup
no_files g k e = ground (arith, e)

pub disk_engine-IsFaithful :
    {O : Type 0} {path : Bytes} → IsFaithful (disk_engine {O = O}) path held held
unfolding lookup
disk_engine-IsFaithful = record {
  get-open_db = λ options f d k e. same_files f d k e;
  held-destroy_db = λ options f g k e. no_files g k e;
  held-remove_all = λ f k e. refl;
}

held-life_example :
    (files : Entries) × (LdbLives.life disk_engine in_memory
        (λ d. d)
        default_config
        false
        (codes "db")
        old_files
        calls
      ≡ some files)
    × ((k : Bytes)
        → held files k
          ≡ updated
              (last_lookup k (map mutation_of calls))
              (if false then none else held old_files k))
unfolding LdbOpening.construct open_database
held-life_example =
    LdbLives.held-life disk_engine in_memory (λ d. d) default_config false (codes "db") old_files
      calls (Ldb.new 512 (32 * 1024 * 1024) old_files) held in_memory-IsReliable
      disk_engine-IsFaithful (λ d k. refl) refl

pub in_memory-IsDurable :
    {path : Bytes}
    → RdbLives.IsDurable disk_engine (λ o. in_memory) (λ d. (true, d)) (λ d. d) path held held
in_memory-IsDurable = record {
  faithful = disk_engine-IsFaithful;
  reliable = λ o accepted. in_memory-IsReliable;
  same_get = λ o d k. refl;
  get-flush = λ d k. refl;
  held-close_db = λ d k e. refl;
}

held-life_flushed_example :
    (files : Entries) × (RdbLives.life disk_engine
        (λ o. in_memory)
        (λ d. (true, d))
        (λ d. d)
        default_config
        true
        (codes "db")
        old_files
        calls
      ≡ some files)
    × ((k : Bytes)
        → held files k
          ≡ updated
              (last_lookup k (map mutation_of calls))
              (if true then none else held old_files k))
unfolding RdbOpening.construct open_database RdbOpening.write_options_of
held-life_flushed_example =
    RdbLives.held-life_flushed disk_engine (λ o. in_memory) (λ d. (true, d)) (λ d. d) default_config
      true (codes "db") old_files calls
      (record { write_options = record { disable_wal = true; sync = false }; db = some [] }) held
      held in_memory-IsDurable (λ d. refl) refl

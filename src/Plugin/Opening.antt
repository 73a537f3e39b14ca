-- ===== src/Plugin/Opening.antt =====
-- `LsmioPlugin::Init` of lib/adios-plugin/lsmio_plugin.cpp as a whole, in a process alone: the manager
-- with its store, and for reading the variables.
use lsmio.Base.{
  ℕ, ◌≡◌, refl, ◌∙◌, Bool, false, Option, none, some, List, [], Bytes, beq, lookup, last_lookup,
  map, All, ◌++◌,
}
use lsmio.Config.{LsmioConfig}
use lsmio.Store.{LsmioStore, meta_prefix}
use lsmio.Store.Laws.{IsMap, IsListing}
use lsmio.Manager.{Manager, is_serve_local}
use lsmio.Manager.Setup.{
  Mpi, no_comm, init, init_world, start_role, manager_of, role_of, world_of, db_dir_of, path_in,
}
use lsmio.Plugin.{Variable}
use lsmio.Plugin.Info.{IsBracketed}
use lsmio.Plugin.Metadata.{OpenMode, reads, writes, appends, Engine, do_close, by_name}
use lsmio.Plugin.Init.{
  Parameters, Construction, construction, over_writes, found_variables, IsPlainVariable,
  found_variables-IsLeft,
}

infixl 5 ◌>>=◌
abbrev ◌>>=◌ {ℓ κ} : {A : Type ℓ} {B : Type κ} → Option A → (A → Option B) → Option B
none >>= f = none
some a >>= f = f a

abbrev pub new_engine : {S : Type 0} → OpenMode → Manager → S → Engine S
new_engine mode lm s = record { mode = mode; current_step = 0; lm = lm; db = s }

-- `open_store` is the constructor of the store of the configured type: with or without `overWrite`,
-- its path and the files; `none` if it ends the process.
module _ {S F : Type 0} (store : LsmioStore S) (open_store : Bool → Bytes → F → Option S) where
  -- The manager that `Init` constructs without MPI, and its store.
  unfoldable pub construct_manager : Mpi → LsmioConfig → Construction → F → Option (Manager × S)
  construct_manager mpi config c f = do
    r ← init mpi config no_comm c.db_name c.db_dir
    s ← open_store c.over_write r.db_path f
    some (r.manager, s)

  -- The variables are asked for in the mode for reading only.
  unfoldable pub variables_for : Engine S → OpenMode → Option (List (Bytes × Variable))
  variables_for e reads = found_variables store e
  variables_for e writes = some []
  variables_for e appends = some []

  with_variables :
      Engine S → Option (List (Bytes × Variable)) → Option (Engine S × List (Bytes × Variable))
  with_variables e none = none
  with_variables e (some vars) = some (e, vars)

  initialized : OpenMode → Option (Manager × S) → Option (Engine S × List (Bytes × Variable))
  initialized mode none = none
  initialized mode (some (lm, s)) =
      let e = new_engine mode lm s in with_variables e (variables_for e mode)

  -- `Init`, with the variables that it adds; `none` if it throws.
  unfoldable pub init_engine :
      Mpi → LsmioConfig → Parameters → OpenMode → F → Option (Engine S × List (Bytes × Variable))
  unfolding construct_manager variables_for with_variables initialized
  init_engine mpi config p mode f = do
    c ← construction p mode false
    initialized mode (construct_manager mpi config c f)

-- What the stores promise of their files: a store that is opened on files without overwriting holds
-- what the files hold, and one that is closed leaves in its files what it held.
pub record IsPersistent {S F : Type 0} (store : LsmioStore S)
    (open_store : Bool → Bytes → F → Option S) (close_store : S → F)
    (held : F → Bytes → Option Bytes) : Type 0 where
  pub reopens : (path : Bytes) (f : F) → (s : S) × (open_store false path f ≡ some s)
  pub get-open_store :
      (path : Bytes) (f : F) (s : S) (k : Bytes)
      → open_store false path f ≡ some s
      → store.get s k ≡ held f k
  pub held-close_store : (s : S) (k : Bytes) → held (close_store s) k ≡ store.get s k

module _ {S F : Type 0} (store : LsmioStore S) (show : List ℕ → Bytes)
    (open_store : Bool → Bytes → F → Option S) (close_store : S → F)
    (held : F → Bytes → Option Bytes) where
  reading : Parameters → Construction
  reading p = record {
    db_name = p.file_name;
    db_dir = p.dir_name;
    over_write = false;
    agg_type = none;
  }

  construction-reads :
      (p : Parameters) → beq p.file_name [] ≡ false → construction p reads false ≡ some (reading p)
  unfolding construction over_writes reading
  construction-reads p named = rw named refl

  construct_manager-opened :
      (mpi : Mpi) (config : LsmioConfig) (p : Parameters) (f : F) (s : S)
      → open_store false (path_in p.dir_name p.file_name) f ≡ some s
      → construct_manager store open_store mpi config (reading p) f
        ≡ some (manager_of config (role_of mpi config none), s)
  unfolding construct_manager reading init init_world start_role role_of world_of db_dir_of
  construct_manager-opened mpi config p f s opens = rw opens refl

  -- In a process alone, over stores that are maps, list what they hold, and keep it in their
  -- files when they are closed and opened without overwriting: DoClose has put the metadata of
  -- variables, whose names and types have no semicolon and whose dimensions are below 2^31, into
  -- a store that had no metadata, and the store is closed. Then Init for reading on these files,
  -- under any directory and non-empty file name, ends, and adds each variable that is the last
  -- of its name, if ADIOS prints dimensions as decimal numbers with commas between them and one
  -- byte on each side.
  pub init_engine-do_close :
      (mpi : Mpi) (config : LsmioConfig) (p : Parameters) (e : Engine S) (vars : List Variable)
      (v : Variable) (laws : IsMap store some) (listing : IsListing store)
      (brackets : IsBracketed show)
      → IsPersistent store open_store close_store held
      → is_serve_local e.lm ≡ false
      → ((r : Bytes) → store.get e.db (meta_prefix ++ r) ≡ none)
      → All IsPlainVariable vars
      → last_lookup v.name (map by_name vars) ≡ some v
      → beq p.file_name [] ≡ false
      → (r : Engine S) × (found : List (Bytes × Variable)) × (init_engine store open_store mpi
            config p reads
            (close_store (do_close store show e vars).db)
          ≡ some (r, found))
        × (lookup (meta_prefix ++ v.name) found ≡ some v)
  unfolding init_engine variables_for with_variables initialized
  init_engine-do_close mpi config p e vars v laws listing brackets lasting alone bare plain last
        named =
      let files = close_store (do_close store show e vars).db in
      let (s, opens) = lasting.reopens (path_in p.dir_name p.file_name) files in
      let made = construct_manager-opened mpi config p files s opens in
      let reader = new_engine reads (manager_of config (role_of mpi config none)) s in
      let (found, parses, has) =
        found_variables-IsLeft store show laws listing brackets e vars s reader v
          (record {
            alone = alone;
            bare = bare;
            plain = plain;
            same = λ k.
                lasting.get-open_store (path_in p.dir_name p.file_name) files s k opens
                ∙ lasting.held-close_store (do_close store show e vars).db k;
          })
          refl last in
      (reader, found, rw (construction-reads p named, made, parses) refl, has)

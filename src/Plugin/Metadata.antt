-- ===== src/Plugin/Metadata.antt =====
-- The metadata that a step or the end of the engine writes: `WriteVarsFromIO`, `EndStep` and `DoClose`
-- of lib/adios-plugin/lsmio_plugin.cpp, on a rank with a store of its own.
use lsmio.Base.{
  ℕ, ◌+◌, ◌≡◌, ◌≢◌, refl, ap, ◌∙◌, Bool, true, false, ◌&&◌, Option, none, some, List, [], ◌∷◌, ◌++◌,
  map, arith, Bytes, All, beq, last_lookup, if◌then◌else◌,
}
use lsmio.Store
use lsmio.Store.{LsmioStore, meta_prefix}
use lsmio.Store.Laws.{IsMap}
use lsmio.Manager.{Manager, is_serve_local, ranked_key, meta_put_local, count_write}
use lsmio.Plugin.{Variable, variable_info, parse_info, semicolon}
use lsmio.Plugin.Info.{IsBracketed, are_ints, parse_info-variable_info}

pub data OpenMode : Type 0 where
  reads : OpenMode
  writes : OpenMode
  appends : OpenMode

-- The engine: its mode, its step, and the manager with its store.
pub record Engine (S : Type 0) : Type 0 where
  pub mode : OpenMode
  pub current_step : ℕ
  pub lm : Manager
  pub db : S

module _ {S : Type 0} (store : LsmioStore S) (show : List ℕ → Bytes) where
  put_info : Engine S → Bytes → Bool × S × Manager → Engine S
  put_info e key (ok, s, m) = record e { lm = m; db = s }

  -- `vars` are the variables of the IO that have one of ADIOS's standard types, in the order of its
  -- map, up to the first that `InquireVariable` does not give, where the code returns; the writes
  -- are not synchronous.
  unfoldable pub write_vars_from_io : Engine S → List Variable → Engine S
  unfolding put_info
  write_vars_from_io e [] = e
  write_vars_from_io e (v ∷ vars) =
      write_vars_from_io
        (put_info e v.name (meta_put_local store e.lm e.db v.name (variable_info show v) false))
        vars

  abbrev pub perform_puts : Engine S → List Variable → Engine S
  perform_puts e vars = write_vars_from_io e vars

  unfoldable pub end_step : Engine S → List Variable → Engine S
  end_step e vars =
      let written : Engine S = elim e.mode [
        | reads ↦ e
        | writes ↦ perform_puts e vars
        | appends ↦ perform_puts e vars
      ] in
      record written { current_step = written.current_step + 1 }

  -- `DoClose` up to the `close` of the manager, in every mode.
  abbrev pub do_close : Engine S → List Variable → Engine S
  do_close e vars = perform_puts e vars

abbrev pub by_name : Variable → Bytes × Variable
by_name v = (v.name, v)

-- The same bytes in front change no comparison.
pub beq-meta_prefix : (a b : Bytes) → beq (meta_prefix ++ a) (meta_prefix ++ b) ≡ beq a b
unfolding beq
beq-meta_prefix a b = refl

pub alone_key :
    (m : Manager) (rank : ℕ) (key : Bytes) → is_serve_local m ≡ false → ranked_key m rank key ≡ key
unfolding ranked_key
alone_key m rank key h = ground arith

-- What a reader makes of the metadata of a name.
abbrev pub read_info : Option Bytes → Option Variable
read_info none = none
read_info (some info) = parse_info info

module _ {S : Type 0} (store : LsmioStore S) (show : List ℕ → Bytes) (laws : IsMap store some) where
  abbrev pub held : Option Variable → Option Bytes → Option Bytes
  held none old = old
  held (some v) old = some (variable_info show v)

  -- After the writes, the metadata of a name is that of its last variable.
  pub meta_get-write_vars_from_io :
      (e : Engine S) (vars : List Variable) (key : Bytes)
      → is_serve_local e.lm ≡ false
      → store.get (write_vars_from_io store show e vars).db (meta_prefix ++ key)
        ≡ held (last_lookup key (map by_name vars)) (store.get e.db (meta_prefix ++ key))
  unfolding write_vars_from_io put_info meta_put_local count_write last_lookup is_serve_local
      Store.meta_put Store.put_value
  meta_get-write_vars_from_io e [] key alone = refl
  meta_get-write_vars_from_io e (v ∷ vars) key alone =
      meta_get-write_vars_from_io after vars key alone
      ∙ ap (held (last_lookup key (map by_name vars))) one
      ∙ ground arith
    where
      after : Engine S
      after =
          put_info store show e v.name
            (meta_put_local store e.lm e.db v.name (variable_info show v) false)

      one : store.get after.db (meta_prefix ++ key) ≡ (
          if beq v.name key
          then some (variable_info show v)
          else store.get e.db (meta_prefix ++ key))
      one =
          laws.get-put e.db (meta_prefix ++ ranked_key e.lm e.lm.agg_rank v.name)
            (meta_prefix ++ key) (variable_info show v) false
          ∙ ap (λ b. if b then some (variable_info show v) else store.get e.db (meta_prefix ++ key))
              (beq-meta_prefix (ranked_key e.lm e.lm.agg_rank v.name) key
                ∙ ap (λ k. beq k key) (alone_key e.lm e.lm.agg_rank v.name alone))

  -- On a rank that serves no other, over a store that is a map: after DoClose has put the
  -- metadata, in whatever mode the engine was opened, also for reading, the metadata under the
  -- name of a variable that is the last of its name is read back as that variable, if ADIOS
  -- prints dimensions as decimal numbers with commas between them and one byte on each side,
  -- name and type have no semicolon, and the dimensions are below 2^31.
  pub read_info-do_close :
      (e : Engine S) (vars : List Variable) (v : Variable)
      → is_serve_local e.lm ≡ false
      → IsBracketed show
      → last_lookup v.name (map by_name vars) ≡ some v
      → All (λ c. c ≢ semicolon) v.name
      → All (λ c. c ≢ semicolon) v.type_name
      → are_ints v.shape && (are_ints v.start && are_ints v.count) ≡ true
      → read_info (Store.meta_get store (do_close store show e vars).db v.name) ≡ some v
  unfolding Store.meta_get
  read_info-do_close e vars v alone brackets last name type_name ints =
      ap read_info (
        meta_get-write_vars_from_io e vars v.name alone
        ∙ ap (λ o. held o (store.get e.db (meta_prefix ++ v.name))) last)
      ∙ parse_info-variable_info show v brackets name type_name
      ∙ ap (λ b. if b then some v else none) ints

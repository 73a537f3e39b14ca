-- ===== src/Plugin/Init.antt =====
-- `LsmioPlugin::Init` of lib/adios-plugin/lsmio_plugin.cpp: the manager that it constructs, and the
-- variables that it finds when it opens for reading.
use lsmio.Base.{
  ℕ, ◌≡◌, ◌≢◌, refl, sym, subst, or_else, ap, ◌∙◌, Bool, true, false, ◌&&◌, Option, none, some,
  List, [], ◌∷◌, ◌++◌, map, arith, Bytes, All, beq, lookup, last_lookup, starts_with,
  starts_with-append, if◌then◌else◌,
}
use lsmio.Config.{MpiAggType}
use lsmio.Store
use lsmio.Store.{LsmioStore, meta_prefix}
use lsmio.Store.Laws.{IsMap, IsListing}
use lsmio.Manager.{is_serve_local, meta_get_all_local}
use lsmio.Plugin.{Variable, agg_type_of, all_some, parse_info, variable_info, semicolon}
use lsmio.Plugin.Info.{IsBracketed, are_ints, parse_info-variable_info}
use lsmio.Plugin.Metadata.{
  OpenMode, reads, writes, appends, Engine, do_close, by_name, held, meta_get-write_vars_from_io,
}

-- The parameters of the engine, empty where they are not given.
pub record Parameters : Type 0 where
  pub dir_name : Bytes
  pub file_name : Bytes
  pub aggregation_type : Bytes
  pub aggregator_ratio : Bytes

-- The constructor call: with MPI it gets the communicator, and the aggregation type is set first.
pub record Construction : Type 0 where
  pub db_name : Bytes
  pub db_dir : Bytes
  pub over_write : Bool
  pub agg_type : Option MpiAggType

unfoldable pub over_writes : OpenMode → Bool
over_writes reads = false
over_writes writes = true
over_writes appends = false

constructs : Parameters → OpenMode → Option MpiAggType → Option Construction
constructs p mode none = none
constructs p mode (some t) = some (record {
  db_name = p.file_name;
  db_dir = p.dir_name;
  over_write = over_writes mode;
  agg_type = some t;
})

-- `none` if it throws: no file name, or an aggregation type that is not known.
unfoldable pub construction : Parameters → OpenMode → Bool → Option Construction
unfolding constructs over_writes
construction p mode is_mpi =
    if beq p.file_name []
    then none
    else if is_mpi
    then constructs p mode (agg_type_of p.aggregation_type p.aggregator_ratio)
    else some (record {
      db_name = p.file_name;
      db_dir = p.dir_name;
      over_write = over_writes mode;
      agg_type = none;
    })

module _ {S : Type 0} (store : LsmioStore S) where
  -- The metadata that `metaGetAll` lists, by key.
  unfoldable pub listed : Engine S → List (Bytes × Bytes)
  listed e = (meta_get_all_local store e.lm e.db [] []).1

  parsed : Bytes × Bytes → Option (Bytes × Variable)
  parsed (key, value) = elim (parse_info value) [ none ↦ none | some v ↦ some (key, v) ]

  -- The variables in the list; `none` if one of them cannot be parsed, which throws.
  unfoldable pub found_variables : Engine S → Option (List (Bytes × Variable))
  unfolding listed parsed
  found_variables e = all_some (map parsed (listed e))

prefix_rest : (p k : Bytes) → starts_with p k ≡ true → (r : Bytes) × (k ≡ p ++ r)
unfolding starts_with
prefix_rest [] k h = (k, refl)
prefix_rest (c ∷ p) [] h = absurd (ground (arith, h))
prefix_rest (c ∷ p) (d ∷ k) h =
    let (r, e) = prefix_rest p k (ground (arith, h)) in (r, ground (arith, e, h))

-- The variable of the metadata can be written and read back.
abbrev pub IsPlainVariable : Variable → Type 0
IsPlainVariable v =
    All (λ c. c ≢ semicolon) v.name
    × All (λ c. c ≢ semicolon) v.type_name
    × (are_ints v.shape && (are_ints v.start && are_ints v.count) ≡ true)

abbrev HasPlain : Option Variable → Type 0
HasPlain none = Unit
HasPlain (some v) = IsPlainVariable v

last_lookup-plain :
    (k : Bytes) (vars : List Variable)
    → All IsPlainVariable vars
    → HasPlain (last_lookup k (map by_name vars))
unfolding last_lookup
last_lookup-plain k [] h = tt
last_lookup-plain k (v ∷ vars) h =
    go (last_lookup k (map by_name vars)) (beq v.name k) (last_lookup-plain k vars h.1)
  where
    go :
        (o : Option Variable) (b : Bool)
        → HasPlain o
        → HasPlain (or_else o (if b then some v else none))
    go none true h' = h.0
    go none false h' = tt
    go (some w) b h' = h'

parse_plain :
    (show : List ℕ → Bytes) (v : Variable)
    → IsBracketed show
    → IsPlainVariable v
    → parse_info (variable_info show v) ≡ some v
parse_plain show v brackets plain =
    parse_info-variable_info show v brackets plain.0 plain.1
    ∙ ap (λ b. if b then some v else none) plain.2

abbrev parse_of : Option Bytes → Option Variable
parse_of none = none
parse_of (some value) = parse_info value

parse_all :
    {S : Type 0} (store : LsmioStore S) (l : List (Bytes × Bytes))
    → All (λ e. (v : Variable) × (parse_info e.1 ≡ some v)) l
    → (found : List (Bytes × Variable)) × (all_some (map (parsed store) l) ≡ some found)
      × ((k : Bytes) → lookup k found ≡ parse_of (lookup k l))
unfolding all_some parsed lookup
parse_all store [] h = ([], refl, λ k. refl)
parse_all store ((k, value) ∷ l) h =
    let (found, e, same) = parse_all store l h.1 in
    ((k, h.0.0) ∷ found, ground (arith, e, h.0.1), λ j. ground (arith, same j, h.0.1))

module _ {S : Type 0} (store : LsmioStore S) (show : List ℕ → Bytes) (laws : IsMap store some)
    (listing : IsListing store) (brackets : IsBracketed show) (writer : Engine S)
    (vars : List Variable) (s : S) where
  -- The engine has put the metadata of its variables into a store that had none, and `s` holds what
  -- that store holds.
  pub record IsLeft : Type 0 where
    pub alone : is_serve_local writer.lm ≡ false
    pub bare : (r : Bytes) → store.get writer.db (meta_prefix ++ r) ≡ none
    pub plain : All IsPlainVariable vars
    pub same : (k : Bytes) → store.get s k ≡ store.get (do_close store show writer vars).db k

  get-meta :
      (r : Bytes)
      → IsLeft
      → store.get s (meta_prefix ++ r)
        ≡ held store show laws (last_lookup r (map by_name vars)) none
  get-meta r left =
      left.same (meta_prefix ++ r)
      ∙ meta_get-write_vars_from_io store show laws writer vars r left.alone
      ∙ ap (held store show laws (last_lookup r (map by_name vars))) (left.bare r)

  entry_parses :
      (k value : Bytes)
      → IsLeft
      → starts_with meta_prefix k ≡ true
      → store.get s k ≡ some value
      → (v : Variable) × (parse_info value ≡ some v)
  entry_parses k value left prefixed found =
      let (r, same) = prefix_rest meta_prefix k prefixed in
      go (last_lookup r (map by_name vars)) (last_lookup-plain r vars left.plain)
        (sym (get-meta r left) ∙ ap (store.get s) (sym same) ∙ found)
    where
      go :
          (o : Option Variable)
          → HasPlain o
          → held store show laws o none ≡ some value
          → (v : Variable) × (parse_info value ≡ some v)
      go none p q = absurd (ground (arith, q))
      go (some v) p q = (v, ap parse_of (sym q) ∙ parse_plain show v brackets p)

  all_parse :
      (l : List (Bytes × Bytes))
      → IsLeft
      → All (λ p. (starts_with meta_prefix p.0 ≡ true) × (store.get s p.0 ≡ some p.1)) l
      → All (λ p. (v : Variable) × (parse_info p.1 ≡ some v)) l
  all_parse [] left h = tt
  all_parse ((k, value) ∷ l) left h = (entry_parses k value left h.0.0 h.0.1, all_parse l left h.1)

  -- An engine on that store parses all metadata that it lists, and finds each variable that is the
  -- last of its name.
  pub found_variables-IsLeft :
      (reader : Engine S) (v : Variable)
      → IsLeft
      → reader.db ≡ s
      → last_lookup v.name (map by_name vars) ≡ some v
      → (found : List (Bytes × Variable)) × (found_variables store reader ≡ some found)
        × (lookup (meta_prefix ++ v.name) found ≡ some v)
  unfolding found_variables listed meta_get_all_local Store.meta_get_all
  found_variables-IsLeft reader v left on last =
      let l = (store.get_prefix s meta_prefix).1 in
      let key = meta_prefix ++ v.name in
      let (found, parses, same) =
        parse_all store l (all_parse l left (listing.holds s meta_prefix)) in
      let holds = get-meta v.name left ∙ ap (λ o. held store show laws o none) last in
      (
        found,
        ap (λ t. all_some (map (parsed store) (store.get_prefix t meta_prefix).1)) on ∙ parses,
        same key
            ∙ ap parse_of (
                listing.lists s meta_prefix key (variable_info show v)
                  (starts_with-append meta_prefix v.name) holds)
            ∙ parse_plain show v brackets
                (subst HasPlain last (last_lookup-plain v.name vars left.plain)),
      )

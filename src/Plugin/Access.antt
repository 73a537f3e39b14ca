-- ===== src/Plugin/Access.antt =====
-- `DoPutSync`, `DoPutDeferred`, `DoGetSync` and `DoGetDeferred` of lib/adios-plugin/lsmio_plugin.cpp,
-- over ReadVariable and WriteVariable of lsmio_plugin.tcc, on a rank with a store of its own.
use lsmio.Base.{
  ℕ, ◌≡◌, ◌≢◌, refl, ap, ◌∙◌, Bool, true, false, Option, some, List, [], ◌∷◌, ◌^◌, ◌<◌, Bytes, All,
  beq, beq_refl, length, to_string, if◌then◌else◌,
}
use lsmio.Store
use lsmio.Store.{LsmioStore}
use lsmio.Store.Laws.{IsMap}
use lsmio.Manager.{Manager, is_serve_local, ranked_key, put_local, get_local, count_write, written}
use lsmio.Plugin.{write_values, read_values, read_chars, read_shorts, comma_split, comma}
use lsmio.Plugin.Metadata.{Engine, alone_key}
use lsmio.Plugin.Values.{
  Reads, read_values-write_values, read_chars-write_values, read_shorts-write_values,
}

-- `Mode::Sync` and `Mode::Deferred`; only the flag of the manager's put depends on it.
pub data Launch : Type 0 where
  synchronous : Launch
  deferred : Launch

unfoldable pub is_sync : Launch → Bool
is_sync synchronous = true
is_sync deferred = false

abbrev pub show_char : ℕ → Bytes
show_char c = c ∷ []

module _ {S : Type 0} (store : LsmioStore S) where
  put_done : Engine S → Bool × S × Manager → Engine S
  put_done e (ok, s, m) = record e { lm = m; db = s }

  get_done : Engine S → Bool × Bytes × Manager → Bytes × Engine S
  get_done e (ok, value, m) = (value, record e { lm = m })

  -- The calls of the manager's put and get; whether they succeed is dropped.
  unfoldable pub put_text : Engine S → Bytes → Bytes → Bool → Engine S
  unfolding put_done
  put_text e name text flush = put_done e (put_local store e.lm e.db name text flush)

  unfoldable pub get_text : Engine S → Bytes → Bytes → Bytes × Engine S
  unfolding get_done
  get_text e name old = get_done e (get_local store e.lm e.db name old)

  unfoldable pub write_variable :
      {T : Type 0} → (T → Bytes) → Engine S → Bytes → List T → Launch → Engine S
  unfolding is_sync put_text
  write_variable show e name values launch =
      put_text e name (write_values show values) (is_sync launch)

  -- A string is stored as it is.
  unfoldable pub write_string : Engine S → Bytes → Bytes → Launch → Engine S
  unfolding is_sync put_text
  write_string e name value launch = put_text e name value (is_sync launch)

  -- What a get sets of the caller's values; `none` if it throws or reads past the fields. As many
  -- values are set as there are fields.
  unfoldable pub read_variable :
      {T : Type 0} → (Bytes → Option T) → Engine S → Bytes → Option (List T)
  unfolding get_text
  read_variable string_to e name = read_values string_to (get_text e name []).0

  unfoldable pub read_string : Engine S → Bytes → Bytes → Bytes
  unfolding get_text
  read_string e name old = (get_text e name old).0

  -- Of the characters and the short integers, as many as the selection has.
  unfoldable pub read_characters : ℕ → Engine S → Bytes → Option (List ℕ)
  unfolding get_text
  read_characters size e name = read_chars size (comma_split [] (get_text e name []).0)

  unfoldable pub read_short_integers : ℕ → Engine S → Bytes → Option (List ℕ)
  unfolding get_text
  read_short_integers size e name = read_shorts size (comma_split [] (get_text e name []).0)

-- A put of any variable: its name, the text of its values, and whether it is synchronous.
pub record Put : Type 0 where
  pub name : Bytes
  pub text : Bytes
  pub launch : Launch

unfoldable pub put_all : {S : Type 0} → LsmioStore S → Engine S → List Put → Engine S
put_all store e [] = e
put_all store e (p ∷ puts) = put_all store (put_text store e p.name p.text (is_sync p.launch)) puts

abbrev pub AreOfOthers : Bytes → List Put → Type 0
AreOfOthers name = All (λ p. beq p.name name ≡ false)

module _ {S : Type 0} (store : LsmioStore S) (laws : IsMap store some) where
  get_text-lem :
      (e : Engine S) (name old : Bytes)
      → is_serve_local e.lm ≡ false
      → (get_text store e name old).0 ≡ written (store.get e.db name) old
  unfolding get_text get_done get_local
  get_text-lem e name old alone =
      ap (λ k. written (store.get e.db k) old) (alone_key e.lm e.lm.agg_rank name alone)

  get-put_text :
      (e : Engine S) (name other text : Bytes) (flush : Bool)
      → is_serve_local e.lm ≡ false
      → store.get (put_text store e name text flush).db other
        ≡ (if beq name other then some text else store.get e.db other)
  unfolding put_text put_done put_local Store.put_value
  get-put_text e name other text flush alone =
      laws.get-put e.db (ranked_key e.lm e.lm.agg_rank name) other text flush
      ∙ ap (λ k. if beq k other then some text else store.get e.db other)
          (alone_key e.lm e.lm.agg_rank name alone)

  put_text-alone :
      (e : Engine S) (name text : Bytes) (flush : Bool)
      → is_serve_local e.lm ≡ false
      → is_serve_local (put_text store e name text flush).lm ≡ false
  unfolding put_text put_done put_local count_write is_serve_local
  put_text-alone e name text flush alone = alone

  -- Puts of other names change nothing of a name.
  get-put_all :
      (e : Engine S) (name : Bytes) (puts : List Put)
      → is_serve_local e.lm ≡ false
      → AreOfOthers name puts
      → (is_serve_local (put_all store e puts).lm ≡ false)
        × (store.get (put_all store e puts).db name ≡ store.get e.db name)
  unfolding put_all
  get-put_all e name [] alone others = (alone, refl)
  get-put_all e name (p ∷ puts) alone others =
      let after = put_text store e p.name p.text (is_sync p.launch) in
      let (still, same) =
        get-put_all after name puts (put_text-alone e p.name p.text (is_sync p.launch) alone)
          others.1 in
      (
        still,
        same
            ∙ get-put_text e p.name name p.text (is_sync p.launch) alone
            ∙ ap (λ b. if b then some p.text else store.get e.db name) others.0,
      )

  -- The text of a name is read back after puts of other names.
  pub get_text-put_all :
      (e : Engine S) (name text old : Bytes) (flush : Bool) (puts : List Put)
      → is_serve_local e.lm ≡ false
      → AreOfOthers name puts
      → (get_text store (put_all store (put_text store e name text flush) puts) name old).0 ≡ text
  get_text-put_all e name text old flush puts alone others =
      let after = put_text store e name text flush in
      let (still, same) =
        get-put_all after name puts (put_text-alone e name text flush alone) others in
      get_text-lem (put_all store after puts) name old still
      ∙ ap (λ o. written o old)
          (same
            ∙ get-put_text e name name text flush alone
            ∙ ap (λ b. if b then some text else store.get e.db name) (beq_refl name))

  -- On a rank that serves no other, over a store that is a map: at least one value, each printed
  -- as a nonempty string without commas that reads back as the value, is put under a name,
  -- synchronously or not; then, whatever is put under other names, a get of the name gives the
  -- values in order.
  pub read_variable-put_all :
      {T : Type 0} (show : T → Bytes) (string_to : Bytes → Option T) (e : Engine S) (name : Bytes)
      (vs : List T) (launch : Launch) (puts : List Put)
      → is_serve_local e.lm ≡ false
      → AreOfOthers name puts
      → vs ≢ []
      → All (Reads show string_to) vs
      → read_variable store string_to
          (put_all store (write_variable store show e name vs launch) puts)
          name
        ≡ some vs
  unfolding read_variable write_variable
  read_variable-put_all show string_to e name vs launch puts alone others some_value reads =
      ap (read_values string_to)
        (get_text-put_all e name (write_values show vs) [] (is_sync launch) puts alone others)
      ∙ read_values-write_values show string_to vs some_value reads

  read_string-put_all :
      (e : Engine S) (name value old : Bytes) (launch : Launch) (puts : List Put)
      → is_serve_local e.lm ≡ false
      → AreOfOthers name puts
      → read_string store (put_all store (write_string store e name value launch) puts) name old
        ≡ value
  unfolding read_string write_string
  read_string-put_all e name value old launch puts alone others =
      get_text-put_all e name value old (is_sync launch) puts alone others

  read_characters-put_all :
      (e : Engine S) (name cs : Bytes) (launch : Launch) (puts : List Put)
      → is_serve_local e.lm ≡ false
      → AreOfOthers name puts
      → All (λ c. c ≢ comma) cs
      → read_characters store
          (length cs)
          (put_all store (write_variable store show_char e name cs launch) puts)
          name
        ≡ some cs
  unfolding read_characters write_variable
  read_characters-put_all e name cs launch puts alone others plain =
      ap (λ text. read_chars (length cs) (comma_split [] text))
        (get_text-put_all e name (write_values show_char cs) [] (is_sync launch) puts alone others)
      ∙ read_chars-write_values cs plain

  -- On a rank that serves no other, over a store that is a map: unsigned short integers that are
  -- put under a name are given back in order by a get for as many, whatever is put under other
  -- names meanwhile.
  pub read_short_integers-put_all :
      (e : Engine S) (name : Bytes) (ns : List ℕ) (launch : Launch) (puts : List Put)
      → is_serve_local e.lm ≡ false
      → AreOfOthers name puts
      → All (λ n. n < 2 ^ 16) ns
      → read_short_integers store
          (length ns)
          (put_all store (write_variable store to_string e name ns launch) puts)
          name
        ≡ some ns
  unfolding read_short_integers write_variable
  read_short_integers-put_all e name ns launch puts alone others small =
      ap (λ text. read_shorts (length ns) (comma_split [] text))
        (get_text-put_all e name (write_values to_string ns) [] (is_sync launch) puts alone others)
      ∙ read_shorts-write_values ns small

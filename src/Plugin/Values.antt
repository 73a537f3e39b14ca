-- ===== src/Plugin/Values.antt =====
-- The values of a variable are read back as they were written.
use mathlib.Core.List.{append_assoc, append-nil}
use lsmio.Base.{
  ℕ, ◌^◌, ◌<◌, ◌≡◌, ◌≢◌, refl, sym, ap, ◌∙◌, true, false, Option, none, some, List, [], ◌∷◌, ◌++◌,
  map, arith, Bytes, All, IsDigit, to_string, to_string-All, length, if◌then◌else◌,
}
use lsmio.Plugin.{
  comma, comma_split, last_field, all_some, write_values, has_comma, read_values, read_chars,
  read_shorts,
}
use lsmio.Plugin.Numbers.{stoi-to_string, to_string-nonempty}

abbrev pub IsField : Bytes → Type 0
IsField s = All (λ c. c ≢ comma) s × (s ≢ [])

comma_split-last :
    (field s : Bytes) → All (λ c. c ≢ comma) s → comma_split field s ≡ last_field (field ++ s)
unfolding comma_split
comma_split-last field [] h = ap last_field (sym (append-nil field))
comma_split-last field (c ∷ s) h =
    ground (arith, comma_split-last (field ++ c ∷ []) s h.1, append_assoc field (c ∷ []) s)

comma_split-append :
    (field x s : Bytes)
    → All (λ c. c ≢ comma) x
    → comma_split field (x ++ comma ∷ s) ≡ (field ++ x) ∷ comma_split [] s
unfolding comma_split
comma_split-append field [] s h = ap (λ l. l ∷ comma_split [] s) (sym (append-nil field))
comma_split-append field (c ∷ x) s h =
    ground (arith, comma_split-append (field ++ c ∷ []) x s h.1, append_assoc field (c ∷ []) x)

last_field-nonempty : (s : Bytes) → s ≢ [] → last_field s ≡ s ∷ []
unfolding last_field
last_field-nonempty [] h = absurd (h refl)
last_field-nonempty (c ∷ s) h = refl

has_comma-none : (s : Bytes) → All (λ c. c ≢ comma) s → has_comma s ≡ false
unfolding has_comma
has_comma-none [] h = refl
has_comma-none (c ∷ s) h = ground (arith, has_comma-none s h.1)

has_comma-append : (x s : Bytes) → has_comma (x ++ comma ∷ s) ≡ true
unfolding has_comma
has_comma-append [] s = refl
has_comma-append (c ∷ x) s = ground (arith, has_comma-append x s)

module _ {T : Type 0} (show : T → Bytes) where
  -- The fields are the values.
  comma_split-write_values :
      (vs : List T)
      → All (λ v. IsField (show v)) vs
      → comma_split [] (write_values show vs) ≡ map show vs
  unfolding write_values
  comma_split-write_values [] h = unfold comma_split in refl
  comma_split-write_values (v ∷ []) h =
      comma_split-last [] (show v) h.0.0 ∙ last_field-nonempty (show v) h.0.1
  comma_split-write_values (v ∷ (w ∷ vs)) h =
      comma_split-append [] (show v) (write_values show (w ∷ vs)) h.0.0
      ∙ ap (◌∷◌ (show v)) (comma_split-write_values (w ∷ vs) h.1)

  -- `string_to` reads what `show` prints.
  abbrev pub Reads : (Bytes → Option T) → T → Type 0
  Reads string_to v = IsField (show v) × (string_to (show v) ≡ some v)

  all_some-map :
      (string_to : Bytes → Option T) (vs : List T)
      → All (Reads string_to) vs
      → all_some (map string_to (map show vs)) ≡ some vs
  unfolding all_some
  all_some-map string_to [] h = refl
  all_some-map string_to (v ∷ vs) h = ground (arith, h.0.1, all_some-map string_to vs h.1)

  Reads-IsField :
      (string_to : Bytes → Option T) (vs : List T)
      → All (Reads string_to) vs
      → All (λ v. IsField (show v)) vs
  Reads-IsField string_to [] h = tt
  Reads-IsField string_to (v ∷ vs) h = (h.0.0, Reads-IsField string_to vs h.1)

  -- At least one value, each printed as a nonempty string without commas that reads back as the
  -- value, is read back from the written list in order.
  pub read_values-write_values :
      (string_to : Bytes → Option T) (vs : List T)
      → vs ≢ []
      → All (Reads string_to) vs
      → read_values string_to (write_values show vs) ≡ some vs
  unfolding read_values write_values
  read_values-write_values string_to [] some_value h = absurd (some_value refl)
  read_values-write_values string_to (v ∷ []) some_value h =
      ap
        (λ b.
          if b
          then all_some (map string_to (comma_split [] (show v)))
          else all_some (string_to (show v) ∷ []))
        (has_comma-none (show v) h.0.0.0)
      ∙ all_some-map string_to (v ∷ []) h
  read_values-write_values string_to (v ∷ (w ∷ vs)) some_value h =
      ap
        (λ b.
          if b
          then all_some (map string_to (comma_split [] (write_values show (v ∷ (w ∷ vs)))))
          else all_some (string_to (write_values show (v ∷ (w ∷ vs))) ∷ []))
        (has_comma-append (show v) (write_values show (w ∷ vs)))
      ∙ ap (λ fields. all_some (map string_to fields))
          (comma_split-write_values (v ∷ (w ∷ vs)) (Reads-IsField string_to (v ∷ (w ∷ vs)) h))
      ∙ all_some-map string_to (v ∷ (w ∷ vs)) h

abbrev char_field : ℕ → Bytes
char_field c = c ∷ []

chars-IsField : (cs : Bytes) → All (λ c. c ≢ comma) cs → All (λ c. IsField (char_field c)) cs
chars-IsField [] h = tt
chars-IsField (c ∷ cs) h = (((h.0, tt), λ e. ground (arith, e)), chars-IsField cs h.1)

read_chars-map : (cs : Bytes) → read_chars (length cs) (map char_field cs) ≡ some cs
unfolding read_chars
read_chars-map [] = refl
read_chars-map (c ∷ cs) =
    ap (λ rest. elim rest [ none ↦ none | some l ↦ some (c ∷ l) ]) (read_chars-map cs)

-- Characters other than the comma are read back.
pub read_chars-write_values :
    (cs : Bytes)
    → All (λ c. c ≢ comma) cs
    → read_chars (length cs) (comma_split [] (write_values char_field cs)) ≡ some cs
read_chars-write_values cs h =
    ap (read_chars (length cs)) (comma_split-write_values char_field cs (chars-IsField cs h))
    ∙ read_chars-map cs

digits-IsField : (s : Bytes) → All IsDigit s → All (λ c. c ≢ comma) s
digits-IsField [] h = tt
digits-IsField (c ∷ s) h = (λ e. omega (arith, e, h.0), digits-IsField s h.1)

numbers-IsField : (ns : List ℕ) → All (λ n. IsField (to_string n)) ns
numbers-IsField [] = tt
numbers-IsField (n ∷ ns) =
    ((digits-IsField (to_string n) (to_string-All n), to_string-nonempty n), numbers-IsField ns)

read_shorts-map :
    (ns : List ℕ) → All (λ n. n < 2 ^ 16) ns → read_shorts (length ns) (map to_string ns) ≡ some ns
unfolding read_shorts
read_shorts-map [] h = refl
read_shorts-map (n ∷ ns) h = ground (arith, stoi-to_string n, read_shorts-map ns h.1)

-- Unsigned short integers are read back.
pub read_shorts-write_values :
    (ns : List ℕ)
    → All (λ n. n < 2 ^ 16) ns
    → read_shorts (length ns) (comma_split [] (write_values to_string ns)) ≡ some ns
read_shorts-write_values ns h =
    ap (read_shorts (length ns)) (comma_split-write_values to_string ns (numbers-IsField ns))
    ∙ read_shorts-map ns h

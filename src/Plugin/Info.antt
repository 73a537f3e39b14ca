-- ===== src/Plugin/Info.antt =====
-- The metadata of a variable is read back as it was written, as far as its dimensions are ints.
use mathlib.Core.List.{append_assoc, append-nil}
use lsmio.Base.{
  ℕ, ◌-◌, ◌^◌, ◌<◌, ◌≡◌, ◌≢◌, refl, sym, ap, subst, ◌∙◌, Bool, true, false, ◌&&◌, none, some, List,
  [], ◌∷◌, ◌++◌, map, arith, ◌⊎◌, inl, inr, Bytes, All, All-append, IsDigit, to_string,
  to_string-All, length, length-append, take, drop, take-append, ltb, if◌then◌else◌,
}
use lsmio.Plugin.{
  comma, semicolon, all_fields, all_some, write_values, convert_str_to_dims, stoi, Variable,
  variable_info, until, with_dims, parse_info,
}
use lsmio.Plugin.Numbers.{stoi-to_string, to_string-nonempty}

-- What reading relies on: dimensions are printed as numbers with commas between them and one
-- byte around, and these bytes are no separators.
pub record IsBracketed (show : List ℕ → Bytes) : Type 0 where
  pub left : ℕ
  pub right : ℕ
  pub left_plain : (left ≢ semicolon) × (left ≢ 10)
  pub right_plain : (right ≢ semicolon) × (right ≢ 10)
  pub shows : (ds : List ℕ) → show ds ≡ left ∷ (write_values to_string ds ++ right ∷ [])

-- All dimensions fit an int.
unfoldable pub are_ints : List ℕ → Bool
are_ints [] = true
are_ints (d ∷ ds) = let rest = are_ints ds in if ltb d (2 ^ 31) then rest else false

all_fields-last :
    (field s : Bytes) → All (λ c. c ≢ comma) s → all_fields comma field s ≡ (field ++ s) ∷ []
unfolding all_fields
all_fields-last field [] h = ap (λ f. f ∷ []) (sym (append-nil field))
all_fields-last field (c ∷ s) h =
    ground (arith, all_fields-last (field ++ c ∷ []) s h.1, append_assoc field (c ∷ []) s)

all_fields-append :
    (field x s : Bytes)
    → All (λ c. c ≢ comma) x
    → all_fields comma field (x ++ comma ∷ s) ≡ (field ++ x) ∷ all_fields comma [] s
unfolding all_fields
all_fields-append field [] s h = ap (λ l. l ∷ all_fields comma [] s) (sym (append-nil field))
all_fields-append field (c ∷ x) s h =
    ground (arith, all_fields-append (field ++ c ∷ []) x s h.1, append_assoc field (c ∷ []) x)

digits-plain : (d : ℕ) → ((d < 48) ⊎ (57 < d)) → (s : Bytes) → All IsDigit s → All (λ c. c ≢ d) s
digits-plain d out [] h = tt
digits-plain d out (c ∷ s) h = (λ e. ground (arith, e, h.0, out), digits-plain d out s h.1)

number-plain : (d : ℕ) → ((d < 48) ⊎ (57 < d)) → (n : ℕ) → All (λ c. c ≢ d) (to_string n)
number-plain d out n = digits-plain d out (to_string n) (to_string-All n)

all_fields-write_values :
    (d : ℕ) (ds : List ℕ)
    → all_fields comma [] (write_values to_string (d ∷ ds)) ≡ map to_string (d ∷ ds)
unfolding write_values
all_fields-write_values d [] =
    all_fields-last [] (to_string d) (number-plain comma (inl (omega arith)) d)
all_fields-write_values d (e ∷ ds) =
    all_fields-append [] (to_string d) (write_values to_string (e ∷ ds))
      (number-plain comma (inl (omega arith)) d)
    ∙ ap (◌∷◌ (to_string d)) (all_fields-write_values e ds)

all_some-stoi :
    (ds : List ℕ) → all_some (map stoi (map to_string ds)) ≡ (if are_ints ds then some ds else none)
unfolding all_some are_ints
all_some-stoi [] = refl
all_some-stoi (d ∷ ds) = ground (arith, stoi-to_string d, all_some-stoi ds)

dims_body :
    (left right : ℕ) (body : Bytes)
    → let str = left ∷ (body ++ right ∷ []) in take (length str - 2) (drop 1 str) ≡ body
dims_body left right body =
    ap (λ n. take n (body ++ right ∷ [])) (omega (arith, length-append body (right ∷ [])))
    ∙ take-append body (right ∷ [])

convert-body :
    (left right : ℕ) (body : Bytes)
    → body ≢ []
    → convert_str_to_dims (left ∷ (body ++ right ∷ []))
      ≡ all_some (map stoi (all_fields comma [] body))
unfolding convert_str_to_dims
convert-body left right [] h = absurd (h refl)
convert-body left right (c ∷ body) h =
    ap
      (λ b.
        if b
        then all_some (map stoi (all_fields comma [] (take (length str - 2) (drop 1 str))))
        else some [])
      long
    ∙ ap (λ s. all_some (map stoi (all_fields comma [] s))) (dims_body left right (c ∷ body))
  where
    str : Bytes
    str = left ∷ ((c ∷ body) ++ right ∷ [])

    long : ltb 2 (length str) ≡ true
    long = ground (arith, length-append body (right ∷ []))

body-nonempty : (d : ℕ) (ds : List ℕ) → write_values to_string (d ∷ ds) ≢ []
unfolding write_values
body-nonempty d [] e = to_string-nonempty d e
body-nonempty d (x ∷ ds) e = go (to_string d) e
  where
    go : (s : Bytes) → s ++ (comma ∷ write_values to_string (x ∷ ds)) ≢ []
    go [] q = ground (arith, q)
    go (c ∷ s) q = ground (arith, q)

-- Dimensions are read back if all are ints, and else the read throws.
pub convert_str_to_dims-show :
    (show : List ℕ → Bytes) (ds : List ℕ)
    → IsBracketed show
    → convert_str_to_dims (show ds) ≡ (if are_ints ds then some ds else none)
convert_str_to_dims-show show [] h =
    ap convert_str_to_dims (h.shows []) ∙ unfold convert_str_to_dims write_values are_ints in refl
convert_str_to_dims-show show (d ∷ ds) h =
    ap convert_str_to_dims (h.shows (d ∷ ds))
    ∙ convert-body h.left h.right (write_values to_string (d ∷ ds)) (body-nonempty d ds)
    ∙ ap (λ fields. all_some (map stoi fields)) (all_fields-write_values d ds)
    ∙ all_some-stoi (d ∷ ds)

until-append : (d : ℕ) (x s : Bytes) → All (λ c. c ≢ d) x → until d (x ++ d ∷ s) ≡ (x, s)
unfolding until
until-append d [] s h = ground arith
until-append d (c ∷ x) s h = ground (arith, until-append d x s h.1)

until-end : (d : ℕ) (x : Bytes) → All (λ c. c ≢ d) x → until d x ≡ (x, [])
unfolding until
until-end d [] h = refl
until-end d (c ∷ x) h = ground (arith, until-end d x h.1)

dims-plain :
    (d : ℕ) (ds : List ℕ) → ((d < 44) ⊎ (57 < d)) → All (λ c. c ≢ d) (write_values to_string ds)
unfolding write_values
dims-plain d [] out = tt
dims-plain d (e ∷ []) out = number-plain d (ground (arith, out)) e
dims-plain d (e ∷ (f ∷ ds)) out =
    All-append (λ c. c ≢ d) (to_string e) (comma ∷ write_values to_string (f ∷ ds))
      (number-plain d (ground (arith, out)) e)
      (λ q. ground (arith, q, out), dims-plain d (f ∷ ds) out)

show-plain :
    (show : List ℕ → Bytes) (d : ℕ) (ds : List ℕ) (h : IsBracketed show)
    → h.left ≢ d
    → h.right ≢ d
    → ((d < 44) ⊎ (57 < d))
    → All (λ c. c ≢ d) (show ds)
show-plain show d ds h l r out = subst (All (λ c. c ≢ d)) (sym (h.shows ds)) (
  l,
  All-append (λ c. c ≢ d) (write_values to_string ds) (h.right ∷ []) (dims-plain d ds out) (r, tt),
)

with_dims-ints :
    (name type_name : Bytes) (shape start count : List ℕ)
    → with_dims name type_name
        (if are_ints shape then some shape else none)
        (if are_ints start then some start else none)
        (if are_ints count then some count else none)
      ≡ (if are_ints shape && (are_ints start && are_ints count)
          then some (record {
            name = name;
            type_name = type_name;
            shape = shape;
            start = start;
            count = count;
          })
          else none)
unfolding with_dims
with_dims-ints name type_name shape start count = ground arith

-- If ADIOS prints dimensions as decimal numbers with commas between them and one byte on each
-- side, and name and type have no semicolon, then the metadata of a variable is read back as it
-- was written if all dimensions are below 2^31, and else the read throws.
pub parse_info-variable_info :
    (show : List ℕ → Bytes) (v : Variable)
    → IsBracketed show
    → All (λ c. c ≢ semicolon) v.name
    → All (λ c. c ≢ semicolon) v.type_name
    → parse_info (variable_info show v)
      ≡ (if are_ints v.shape && (are_ints v.start && are_ints v.count) then some v else none)
unfolding parse_info variable_info
parse_info-variable_info show v h n t =
    rw
      (
        until-append semicolon v.name _ n,
        until-append semicolon v.type_name _ t,
        until-append semicolon (show v.shape) _ (plain v.shape),
        until-append semicolon (show v.start) _ (plain v.start),
        until-end 10 (show v.count)
            (show-plain show 10 v.count h h.left_plain.1 h.right_plain.1 (inl (omega arith))),
        convert_str_to_dims-show show v.shape h,
        convert_str_to_dims-show show v.start h,
        convert_str_to_dims-show show v.count h,
      )
      (with_dims-ints v.name v.type_name v.shape v.start v.count)
  where
    plain : (ds : List ℕ) → All (λ c. c ≢ semicolon) (show ds)
    plain ds = show-plain show semicolon ds h h.left_plain.0 h.right_plain.0 (inr (omega arith))

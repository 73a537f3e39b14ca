-- ===== src/Plugin.antt =====
-- LsmioPlugin, the engine for ADIOS: lib/adios-plugin/lsmio_plugin.cpp and .tcc. What ADIOS prints
-- and parses is a parameter.
pub mod Numbers
pub mod Values
pub mod Info
pub mod Metadata
pub mod Access
pub mod Init
pub mod Opening
use lsmio.Base.{
  ℕ, zero, suc, ◌-◌, ◌%◌, ◌^◌, Bool, true, false, ◌&&◌, ◌||◌, Option, none, some, List, [], ◌∷◌,
  ◌++◌, map, Bytes, codes, beq, ltb, leb, ◌==◌, length, take, drop, value_from, to_string,
  if◌then◌else◌,
}
use lsmio.Config.{MpiAggType, shared, entire, entire_serial, split}
use lsmio.Native.Sstable.Recover.{skip_space, leading_digits}

abbrev pub comma : ℕ
comma = b','

abbrev pub semicolon : ℕ
semicolon = b';'

-- The loop `while (ss.good())` of `std::getline`: every field, also an empty last one.
unfoldable pub all_fields : ℕ → Bytes → Bytes → List Bytes
all_fields d field [] = field ∷ []
all_fields d field (c ∷ s) =
    let ended = field ∷ all_fields d [] s in
    let longer = all_fields d (field ++ c ∷ []) s in if c == d then ended else longer

unfoldable pub last_field : Bytes → List Bytes
last_field [] = []
last_field (c ∷ field) = (c ∷ field) ∷ []

-- `commaSplit`, behind the part `field` of the first: the loop ends where nothing is left to read,
-- so an empty last field is lost.
unfoldable pub comma_split : Bytes → Bytes → List Bytes
unfolding last_field
comma_split field [] = last_field field
comma_split field (c ∷ s) =
    let ended = field ∷ comma_split [] s in
    let longer = comma_split (field ++ c ∷ []) s in if c == comma then ended else longer

-- `std::stoi`, made a `size_t` or an `unsigned short` by the caller: digits, with the sign; `none`
-- if it throws.
unfoldable pub int_from : Bool → Bytes → Option ℕ
int_from negative [] = none
int_from negative (c ∷ s) =
    let n = value_from 0 (c ∷ s) in
    if negative
    then if leb n (2 ^ 31) then some ((2 ^ 64 - n) % 2 ^ 64) else none
    else if ltb n (2 ^ 31)
    then some n
    else none

unfoldable pub stoi_signed : Bytes → Option ℕ
stoi_signed [] = none
stoi_signed (c ∷ s) =
    if c == b'-'
    then int_from true (leading_digits s)
    else if c == b'+'
    then int_from false (leading_digits s)
    else int_from false (leading_digits (c ∷ s))

unfoldable pub stoi : Bytes → Option ℕ
unfolding stoi_signed int_from skip_space leading_digits
stoi s = stoi_signed (skip_space s)

-- All results, unless one is missing.
unfoldable pub all_some {ℓ} : {A : Type ℓ} → List (Option A) → Option (List A)
all_some [] = some []
all_some (o ∷ os) =
    let rest = all_some os in
    elim o [ none ↦ none | some a ↦ elim rest [ none ↦ none | some l ↦ some (a ∷ l) ] ]

-- `none` is an exception of `std::stoi`.
unfoldable pub convert_str_to_dims : Bytes → Option (List ℕ)
unfolding all_fields stoi all_some
convert_str_to_dims str =
    if ltb 2 (length str)
    then all_some (map stoi (all_fields comma [] (take (length str - 2) (drop 1 str))))
    else some []

-- What the parameters of the engine choose; `none` if the constructor throws.
unfoldable pub agg_type_of : Bytes → Bytes → Option MpiAggType
agg_type_of aggregation_type aggregator_ratio =
    if beq aggregation_type [] || beq aggregation_type (codes "twolevelshm")
    then some shared
    else if beq aggregation_type (codes "everyonewritesserial")
    then some entire_serial
    else if beq aggregation_type (codes "everyonewrites") || beq aggregation_type (codes "auto")
    then some (if beq aggregator_ratio (codes "2") then split else entire)
    else none

pub record Variable : Type 0 where
  pub name : Bytes
  pub type_name : Bytes
  pub shape : List ℕ
  pub start : List ℕ
  pub count : List ℕ

-- `WriteVariableInfo`; `show` is ADIOS's output of dimensions.
unfoldable pub variable_info : (List ℕ → Bytes) → Variable → Bytes
variable_info show v =
    v.name
    ++ (semicolon
        ∷ (v.type_name
            ++ (semicolon
                ∷ (show v.shape ++ (semicolon ∷ (show v.start ++ (semicolon ∷ show v.count)))))))

-- `std::getline`: what stands before the delimiter, and what is left.
unfoldable pub until : ℕ → Bytes → Bytes × Bytes
until d [] = ([], [])
until d (c ∷ s) = let (before, after) = until d s in if c == d then ([], s) else (c ∷ before, after)

unfoldable pub with_dims :
    Bytes → Bytes → Option (List ℕ) → Option (List ℕ) → Option (List ℕ) → Option Variable
with_dims name type_name none start count = none
with_dims name type_name (some shape) none count = none
with_dims name type_name (some shape) (some start) none = none
with_dims name type_name (some shape) (some start) (some count) =
    some
      (record { name = name; type_name = type_name; shape = shape; start = start; count = count })

-- What `Init` reads from the metadata of a variable.
unfoldable pub parse_info : Bytes → Option Variable
unfolding until with_dims convert_str_to_dims
parse_info value =
    let (name, s) = until semicolon value in
    let (type_name, s₁) = until semicolon s in
    let (shape, s₂) = until semicolon s₁ in
    let (start, s₃) = until semicolon s₂ in
    let (count, _) = until 10 s₃ in
    with_dims name type_name (convert_str_to_dims shape) (convert_str_to_dims start)
      (convert_str_to_dims count)

-- `WriteVariable`; `show` is `operator<<` of the values' type.
unfoldable pub write_values {ℓ} : {T : Type ℓ} → (T → Bytes) → List T → Bytes
write_values show [] = []
write_values show (v ∷ vs) =
    let rest = comma ∷ write_values show vs in elim vs [ [] ↦ show v | _ ↦ show v ++ rest ]

unfoldable pub has_comma : Bytes → Bool
has_comma [] = false
has_comma (c ∷ s) = (c == comma) || has_comma s

-- `ReadVariable`: the values that it sets; `string_to` is ADIOS's `StringTo`, which may throw.
unfoldable pub read_values {ℓ} : {T : Type ℓ} → (Bytes → Option T) → Bytes → Option (List T)
unfolding comma_split all_some has_comma
read_values string_to vals =
    if has_comma vals
    then all_some (map string_to (comma_split [] vals))
    else all_some (string_to vals ∷ [])

-- The first byte of a field, which ends with a zero byte.
abbrev pub first_byte : Bytes → ℕ
first_byte [] = 0
first_byte (c ∷ s) = c

-- `ReadVariable` of characters: the first byte of each of `n` fields; `none` is a read past the end.
unfoldable pub read_chars : ℕ → List Bytes → Option (List ℕ)
read_chars zero fields = some []
read_chars (suc n) [] = none
read_chars (suc n) (field ∷ fields) =
    let rest = read_chars n fields in
    elim rest [ none ↦ none | some cs ↦ some (first_byte field ∷ cs) ]

-- `ReadVariable` of short integers.
unfoldable pub read_shorts : ℕ → List Bytes → Option (List ℕ)
unfolding stoi
read_shorts zero fields = some []
read_shorts (suc n) [] = none
read_shorts (suc n) (field ∷ fields) =
    let rest = read_shorts n fields in
    elim (stoi field) [
      | none ↦ none
      | some v ↦ elim rest [ none ↦ none | some vs ↦ some (v % 2 ^ 16 ∷ vs) ]
    ]

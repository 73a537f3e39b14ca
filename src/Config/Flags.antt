-- ===== src/Config/Flags.antt =====
-- LSMIOHelper of lib/lsmio.cpp: the flags that are set.
use lsmio.Base.{
  ◌≡◌, refl, ap, ◌∙◌, Bool, true, false, Option, none, some, List, [], ◌∷◌, arith, Bytes, beq,
  beq_iff, lookup, insert, erase, lookup-insert, lookup-erase, if_cases, if◌then◌else◌,
}

-- `_LSMIOconfigMap`
abbrev pub FlagMap : Type 0
FlagMap = List (Bytes × Bool)

unfoldable pub get_flag : FlagMap → Bytes → Bool
get_flag flags key = elim (lookup key flags) [ none ↦ false | some value ↦ true ]

unfoldable pub set_flag : FlagMap → Bytes → Bool → FlagMap
set_flag flags key value =
    if value
    then insert key true flags
    else elim (lookup key flags) [ none ↦ flags | some old ↦ erase key flags ]

get-set :
    (flags : FlagMap) (key other : Bytes) (value : Bool)
    → get_flag (set_flag flags key value) other
      ≡ (if beq key other then value else get_flag flags other)
unfolding get_flag set_flag
get-set flags key other true = ground (arith, lookup-insert key other true flags)
get-set flags key other false = go (lookup key flags) refl
  where
    go :
        (o : Option Bool)
        → lookup key flags ≡ o
        → get_flag (elim o [ none ↦ flags | some old ↦ erase key flags ]) other
          ≡ (if beq key other then false else get_flag flags other)
    go none e =
        if_cases (λ b. get_flag flags other ≡ b) (beq key other) _ _
          (λ same. ground (arith, (beq_iff key other).0 same, e)) (λ _. refl)
    go (some old) e = ground (arith, lookup-erase key other flags)

unfoldable pub set_flags : FlagMap → List (Bytes × Bool) → FlagMap
set_flags flags [] = flags
set_flags flags ((key, value) ∷ calls) = set_flags (set_flag flags key value) calls

-- What the last call for the key set.
unfoldable pub last_set : Bytes → Bool → List (Bytes × Bool) → Bool
last_set key old [] = old
last_set key old ((k, value) ∷ calls) = last_set key (if beq k key then value else old) calls

-- After any calls of setFlag, getFlag gives for each key what the last call for it set, or what
-- it gave before if there was none.
pub get_flag-set_flags :
    (flags : FlagMap) (calls : List (Bytes × Bool)) (key : Bytes)
    → get_flag (set_flags flags calls) key ≡ last_set key (get_flag flags key) calls
unfolding set_flags last_set
get_flag-set_flags flags [] key = refl
get_flag-set_flags flags ((k, value) ∷ calls) key =
    get_flag-set_flags (set_flag flags k value) calls key
    ∙ ap (λ old. last_set key old calls) (get-set flags k key value)

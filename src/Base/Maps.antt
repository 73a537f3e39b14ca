-- ===== src/Base/Maps.antt =====
-- `std::map<std::string, V>` as an association list in key order, and `std::set<std::string>`.
use mathlib.Core.Path.{◌≡◌, refl}
use mathlib.Core.Bool.{Bool, true, false}
use mathlib.Core.Option.{Option, none, some}
use mathlib.Core.List.{List, [], ◌∷◌, ◌++◌, reverse, reverse-cons}
use native.Mathlib.Omega.{arith}
use lsmio.Base.Tests.{if◌then◌else◌, or_else}
use lsmio.Base.Strings.{Bytes, beq, beq_iff}
use lsmio.Base.Order.{blt}

module _ {ℓ} {V : Type ℓ} where
  -- The first entry of the key.
  unfoldable pub lookup : Bytes → List (Bytes × V) → Option V
  lookup k [] = none
  lookup k ((j, v) ∷ m) = if beq j k then some v else lookup k m

  -- `m[k] = v`
  unfoldable pub insert : Bytes → V → List (Bytes × V) → List (Bytes × V)
  insert k v [] = (k, v) ∷ []
  insert k v ((j, w) ∷ m) =
      let rest = insert k v m in
      if blt k j then (k, v) ∷ (j, w) ∷ m else if beq j k then (k, v) ∷ m else (j, w) ∷ rest

  -- `m.erase(k)`
  unfoldable pub erase : Bytes → List (Bytes × V) → List (Bytes × V)
  erase k [] = []
  erase k ((j, w) ∷ m) = let rest = erase k m in if beq j k then rest else (j, w) ∷ rest

  pub lookup-insert :
      (k j : Bytes) (v : V) (m : List (Bytes × V))
      → lookup j (insert k v m) ≡ (if beq k j then some v else lookup j m)
  unfolding lookup insert
  lookup-insert k j v [] = refl
  lookup-insert k j v ((i, w) ∷ m) =
      ground (arith, beq_iff k j, beq_iff i k, beq_iff i j, lookup-insert k j v m)

  pub lookup-erase :
      (k j : Bytes) (m : List (Bytes × V))
      → lookup j (erase k m) ≡ (if beq k j then none else lookup j m)
  unfolding lookup erase
  lookup-erase k j [] = ground arith
  lookup-erase k j ((i, w) ∷ m) =
      ground (arith, beq_iff k j, beq_iff i k, beq_iff i j, lookup-erase k j m)

-- Membership is all that is read of a set.
unfoldable pub member : Bytes → List Bytes → Bool
member k [] = false
member k (j ∷ s) = if beq j k then true else member k s

unfoldable pub set_insert : Bytes → List Bytes → List Bytes
set_insert k s = if member k s then s else k ∷ s

unfoldable pub set_erase : Bytes → List Bytes → List Bytes
set_erase k [] = []
set_erase k (j ∷ s) = let rest = set_erase k s in if beq j k then rest else j ∷ rest

pub member-set_insert :
    (k j : Bytes) (s : List Bytes)
    → member j (set_insert k s) ≡ (if beq k j then true else member j s)
unfolding set_insert member
member-set_insert k j s = ground (arith, beq_iff k j)

pub member-set_erase :
    (k j : Bytes) (s : List Bytes)
    → member j (set_erase k s) ≡ (if beq k j then false else member j s)
unfolding member set_erase
member-set_erase k j [] = ground arith
member-set_erase k j (i ∷ s) =
    ground (arith, beq_iff k j, beq_iff i k, beq_iff i j, member-set_erase k j s)

module _ {ℓ} {V : Type ℓ} where
  -- The value of the last entry of the key: what a scan from the back finds first.
  unfoldable pub last_lookup : Bytes → List (Bytes × V) → Option V
  last_lookup k [] = none
  last_lookup k ((j, v) ∷ m) = or_else (last_lookup k m) (if beq j k then some v else none)

  pub lookup-append :
      (k : Bytes) (l m : List (Bytes × V)) → lookup k (l ++ m) ≡ or_else (lookup k l) (lookup k m)
  unfolding lookup
  lookup-append k [] m = refl
  lookup-append k ((j, v) ∷ l) m = ground (arith, lookup-append k l m)

  pub lookup-reverse : (k : Bytes) (l : List (Bytes × V)) → lookup k (reverse l) ≡ last_lookup k l
  unfolding lookup last_lookup
  lookup-reverse k [] = refl
  lookup-reverse k ((j, v) ∷ l) =
      rw (reverse-cons (j, v) l, lookup-append k (reverse l) ((j, v) ∷ []), lookup-reverse k l)

  pub last_lookup-append :
      (k : Bytes) (l m : List (Bytes × V))
      → last_lookup k (l ++ m) ≡ or_else (last_lookup k m) (last_lookup k l)
  unfolding last_lookup
  last_lookup-append k [] m = ground arith
  last_lookup-append k ((j, v) ∷ l) m = ground (arith, last_lookup-append k l m)

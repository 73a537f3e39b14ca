-- ===== src/Base/Ascending.antt =====
-- The order of a `std::map` in an association list.
use mathlib.Core.Path.{◌≡◌, refl}
use mathlib.Core.Bool.{true}
use mathlib.Core.Option.{none, some}
use mathlib.Core.List.{List, [], ◌∷◌}
use native.Mathlib.Omega.{arith}
use lsmio.Base.Lists.{All}
use lsmio.Base.Strings.{Bytes, beq_iff, beq_refl}
use lsmio.Base.Order.{blt, blt_irrefl, blt_trans, blt_total}
use lsmio.Base.Maps.{lookup, insert}

abbrev pub Below : Bytes → List (Bytes × Bytes) → Type 0
Below k = All (λ e. blt k e.0 ≡ true)

-- Each key once, in the order of `std::map`.
abbrev pub IsAscending : List (Bytes × Bytes) → Type 0
IsAscending [] = Unit
IsAscending (e ∷ l) = Below e.0 l × IsAscending l

pub Below-down : (a b : Bytes) (l : List (Bytes × Bytes)) → blt a b ≡ true → Below b l → Below a l
Below-down a b [] h f = tt
Below-down a b ((k, o) ∷ l) h f = (blt_trans a b k h f.0, Below-down a b l h f.1)

pub Below-insert :
    (a k v : Bytes) (l : List (Bytes × Bytes)) → blt a k ≡ true → Below a l → Below a (insert k v l)
unfolding insert
Below-insert a k v [] h b = (h, tt)
Below-insert a k v ((j, w) ∷ l) h b = ground (arith, Below-insert a k v l h b.1)

pub insert-IsAscending :
    (k v : Bytes) (l : List (Bytes × Bytes)) → IsAscending l → IsAscending (insert k v l)
unfolding insert
insert-IsAscending k v [] s = (tt, tt)
insert-IsAscending k v ((j, w) ∷ l) s = ground (
  arith,
  beq_iff j k,
  blt_total k j,
  beq_iff k j,
  Below-down k j l,
  Below-insert j k v l,
  insert-IsAscending k v l s.1,
)

pub lookup-Below : (k : Bytes) (l : List (Bytes × Bytes)) → Below k l → lookup k l ≡ none
unfolding lookup
lookup-Below k [] b = refl
lookup-Below k ((j, v) ∷ l) b = ground (arith, beq_iff j k, blt_irrefl k, lookup-Below k l b.1)

pub lookup_first : (k v : Bytes) (l : List (Bytes × Bytes)) → lookup k ((k, v) ∷ l) ≡ some v
unfolding lookup
lookup_first k v l = rw (beq_refl k)

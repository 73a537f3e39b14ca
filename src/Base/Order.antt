-- ===== src/Base/Order.antt =====
-- The order of `std::string`: lexicographic on unsigned bytes.
use mathlib.Core.Path.{◌≡◌, refl}
use mathlib.Core.Bool.{Bool, true, false}
use mathlib.Core.List.{[], ◌∷◌}
use native.Mathlib.Omega.{arith}
use lsmio.Base.Tests.{ltb, ◌==◌, if◌then◌else◌}
use lsmio.Base.Strings.{Bytes, beq, starts_with}

unfoldable pub blt : Bytes → Bytes → Bool
blt s [] = false
blt [] (b ∷ bs) = true
blt (a ∷ as') (b ∷ bs) = if ltb a b then true else if a == b then blt as' bs else false

pub blt_irrefl : (a : Bytes) → blt a a ≡ false
unfolding blt
blt_irrefl [] = refl
blt_irrefl (a ∷ as') = ground (arith, blt_irrefl as')

pub blt_trans : (a b c : Bytes) → blt a b ≡ true → blt b c ≡ true → blt a c ≡ true
unfolding blt
blt_trans a [] c h k = ground arith
blt_trans a (y ∷ b) [] h k = ground arith
blt_trans [] (y ∷ b) (z ∷ c) h k = refl
blt_trans (x ∷ a) (y ∷ b) (z ∷ c) h k = ground (arith, blt_trans a b c)

-- Of two different strings one is less.
pub blt_total : (a b : Bytes) → beq a b ≡ false → blt a b ≡ false → blt b a ≡ true
unfolding blt beq
blt_total [] [] h k = ground arith
blt_total [] (y ∷ b) h k = ground arith
blt_total (x ∷ a) [] h k = refl
blt_total (x ∷ a) (y ∷ b) h k = ground (arith, blt_total a b)

-- From the first string at or above a prefix on, those that have the prefix come first.
pub prefix_below : (p s : Bytes) → starts_with p s ≡ true → blt s p ≡ false
unfolding blt starts_with
prefix_below [] [] h = refl
prefix_below [] (c ∷ s) h = refl
prefix_below (x ∷ p) [] h = ground arith
prefix_below (x ∷ p) (c ∷ s) h = ground (arith, prefix_below p s)

pub prefix_ended :
    (p s t : Bytes)
    → blt s p ≡ false
    → starts_with p s ≡ false
    → blt t s ≡ false
    → starts_with p t ≡ false
unfolding blt starts_with
prefix_ended [] s t h k l = ground arith
prefix_ended (x ∷ p) [] t h k l = ground arith
prefix_ended (x ∷ p) (c ∷ s) [] h k l = refl
prefix_ended (x ∷ p) (c ∷ s) (d ∷ t) h k l = ground (arith, prefix_ended p s t)

pub blt_asym : (a b : Bytes) → blt a b ≡ true → blt b a ≡ false
unfolding blt
blt_asym [] [] h = refl
blt_asym [] (y ∷ b) h = refl
blt_asym (x ∷ a) [] h = ground arith
blt_asym (x ∷ a) (y ∷ b) h = ground (arith, blt_asym a b)

-- `a` is not less than `b`, and `b` not less than `c`.
pub blt_ge_trans : (a b c : Bytes) → blt a b ≡ false → blt b c ≡ false → blt a c ≡ false
unfolding blt
blt_ge_trans a b [] h k = refl
blt_ge_trans a [] (z ∷ c) h k = ground arith
blt_ge_trans [] (y ∷ b) (z ∷ c) h k = ground arith
blt_ge_trans (x ∷ a) (y ∷ b) (z ∷ c) h k = ground (arith, blt_ge_trans a b c)

-- ===== src/Native/Sstable/Index/Strict.antt =====
-- The index holds each key once, in increasing order, and the keys with a prefix stand together.
use lsmio.Base.{
  ◌≡◌, refl, true, false, none, List, [], ◌∷◌, arith, Bytes, beq, beq_iff, blt, blt_irrefl,
  blt_asym, blt_trans, blt_total, starts_with, prefix_below, prefix_ended, All, lookup,
}
use lsmio.Native.Sstable.Index.{Entry, unique_after, unique, sort, index_of, lower_bound}
use lsmio.Native.Sstable.Index.Sorted.{From, From-down, IsSorted, sort-IsSorted}

-- All keys of the list are greater than `k`.
abbrev pub Beyond : Bytes → List Entry → Type 0
Beyond k = All (λ e. blt k e.0 ≡ true)

abbrev pub IsStrict : List Entry → Type 0
IsStrict [] = Unit
IsStrict (e ∷ l) = Beyond e.0 l × IsStrict l

Beyond-down : (a b : Bytes) (l : List Entry) → blt a b ≡ true → Beyond b l → Beyond a l
Beyond-down a b [] h f = tt
Beyond-down a b ((k, o) ∷ l) h f = (blt_trans a b k h f.0, Beyond-down a b l h f.1)

next_key : (k j : Bytes) → blt j k ≡ false → beq k j ≡ false → blt k j ≡ true
next_key k j h d = ground (arith, blt_total j k, beq_iff k j, beq_iff j k)

unique_after-IsStrict :
    (k : Bytes) (l : List Entry)
    → From k l
    → IsSorted l
    → Beyond k (unique_after k l) × IsStrict (unique_after k l)
unfolding unique_after
unique_after-IsStrict k [] f s = (tt, tt)
unique_after-IsStrict k ((j, o) ∷ l) f s =
    let (beyond, strict) = unique_after-IsStrict j l s.0 s.1 in
    ground (
      arith,
      unique_after-IsStrict k l f.1 s.1,
      next_key k j f.0,
      Beyond-down k j (unique_after j l),
      beyond,
      strict,
    )

pub index_of-IsStrict : (offsets : List Entry) → IsStrict (index_of offsets)
unfolding index_of unique
index_of-IsStrict offsets = go (sort offsets) (sort-IsSorted offsets)
  where
    go : (l : List Entry) → IsSorted l → IsStrict (unique l)
    go [] s = tt
    go ((j, o) ∷ l) s = unique_after-IsStrict j l s.0 s.1

pub Beyond-From : (k : Bytes) (l : List Entry) → Beyond k l → From k l
Beyond-From k [] b = tt
Beyond-From k ((j, o) ∷ l) b = (blt_asym k j b.0, Beyond-From k l b.1)

pub IsStrict-IsSorted : (l : List Entry) → IsStrict l → IsSorted l
IsStrict-IsSorted [] s = tt
IsStrict-IsSorted ((k, o) ∷ l) s = (Beyond-From k l s.0, IsStrict-IsSorted l s.1)

pub lookup-Beyond : (k : Bytes) (l : List Entry) → Beyond k l → lookup k l ≡ none
unfolding lookup
lookup-Beyond k [] b = refl
lookup-Beyond k ((j, o) ∷ l) b = ground (arith, beq_iff j k, blt_irrefl k, lookup-Beyond k l b.1)

-- No key with the prefix stands behind a key at or above the prefix that lacks it.
pub lookup-prefix_ended :
    (p k j : Bytes) (l : List Entry)
    → blt k p ≡ false
    → starts_with p k ≡ false
    → Beyond k l
    → starts_with p j ≡ true
    → lookup j l ≡ none
unfolding lookup
lookup-prefix_ended p k j [] h e b w = refl
lookup-prefix_ended p k j ((i, o) ∷ l) h e b w = ground (
  arith,
  beq_iff i j,
  prefix_ended p k i h e (blt_asym k i b.0),
  lookup-prefix_ended p k j l h e b.1 w,
)

-- `std::lower_bound` at the prefix skips no key with the prefix.
pub lookup-lower_bound :
    (p j : Bytes) (l : List Entry)
    → starts_with p j ≡ true
    → lookup j (lower_bound p l) ≡ lookup j l
unfolding lookup lower_bound
lookup-lower_bound p j [] w = refl
lookup-lower_bound p j ((k, o) ∷ l) w =
    ground (arith, beq_iff k j, prefix_below p j w, lookup-lower_bound p j l w)

pub lower_bound-IsStrict : (p : Bytes) (l : List Entry) → IsStrict l → IsStrict (lower_bound p l)
unfolding lower_bound
lower_bound-IsStrict p [] s = tt
lower_bound-IsStrict p ((k, o) ∷ l) s = ground (arith, lower_bound-IsStrict p l s.1)

pub lower_bound-From : (p : Bytes) (l : List Entry) → IsSorted l → From p (lower_bound p l)
unfolding lower_bound
lower_bound-From p [] s = tt
lower_bound-From p ((k, o) ∷ l) s = ground (arith, lower_bound-From p l s.1, From-down p k l, s.0)

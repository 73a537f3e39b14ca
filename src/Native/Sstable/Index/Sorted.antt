-- ===== src/Native/Sstable/Index/Sorted.antt =====
-- The index is in key order.
use lsmio.Base.{
  ◌≡◌, true, false, inl, inr, List, [], ◌∷◌, arith, Bytes, beq_iff, blt, blt_irrefl, blt_asym,
  blt_ge_trans, All, Bool-cases,
}
use lsmio.Native.Sstable.Index.{
  Entry, entry_less, sort_insert, sort, unique_after, unique, index_of,
}

-- No key of the list is less than `k`.
abbrev pub From : Bytes → List Entry → Type 0
From k = All (λ e. blt e.0 k ≡ false)

abbrev pub IsSorted : List Entry → Type 0
IsSorted [] = Unit
IsSorted (e ∷ l) = From e.0 l × IsSorted l

pub From-down : (a b : Bytes) (l : List Entry) → blt b a ≡ false → From b l → From a l
From-down a b [] h f = tt
From-down a b ((k, o) ∷ l) h f = (blt_ge_trans k b a f.0 h, From-down a b l h f.1)

-- The entry that the comparator puts first has no greater key.
less_le : (e f : Entry) → entry_less e f ≡ true → blt f.0 e.0 ≡ false
unfolding entry_less
less_le (j, o) (k, p) h = ground (arith, beq_iff j k, blt_irrefl j, blt_asym j k)

not_less_le : (e f : Entry) → entry_less e f ≡ false → blt e.0 f.0 ≡ false
unfolding entry_less
not_less_le (j, o) (k, p) h = ground (arith, beq_iff j k, blt_irrefl j)

From-sort_insert :
    (a : Bytes) (e : Entry) (l : List Entry)
    → blt e.0 a ≡ false
    → From a l
    → From a (sort_insert e l)
unfolding sort_insert
From-sort_insert a e [] h f = (h, tt)
From-sort_insert a e (x ∷ l) h f = ground (arith, From-sort_insert a e l h f.1)

sort_insert-IsSorted : (e : Entry) (l : List Entry) → IsSorted l → IsSorted (sort_insert e l)
unfolding sort_insert
sort_insert-IsSorted e [] s = (tt, tt)
sort_insert-IsSorted e (f ∷ l) s = elim (Bool-cases (entry_less e f)) [
  | inl first ↦ let le = less_le e f first in rw first ((le, From-down e.0 f.0 l le s.0), s)
  | inr later ↦
      rw later (From-sort_insert f.0 e l (not_less_le e f later) s.0, sort_insert-IsSorted e l s.1)
]

pub sort-IsSorted : (l : List Entry) → IsSorted (sort l)
unfolding sort
sort-IsSorted [] = tt
sort-IsSorted (e ∷ l) = sort_insert-IsSorted e (sort l) (sort-IsSorted l)

From-unique_after : (a k : Bytes) (l : List Entry) → From a l → From a (unique_after k l)
unfolding unique_after
From-unique_after a k [] f = tt
From-unique_after a k ((j, o) ∷ l) f =
    ground (arith, From-unique_after a k l f.1, From-unique_after a j l f.1)

unique_after-IsSorted : (k : Bytes) (l : List Entry) → IsSorted l → IsSorted (unique_after k l)
unfolding unique_after
unique_after-IsSorted k [] s = tt
unique_after-IsSorted k ((j, o) ∷ l) s = ground (
  arith,
  unique_after-IsSorted k l s.1,
  unique_after-IsSorted j l s.1,
  From-unique_after j j l s.0,
)

pub unique-IsSorted : (l : List Entry) → IsSorted l → IsSorted (unique l)
unfolding unique
unique-IsSorted [] s = tt
unique-IsSorted ((j, o) ∷ l) s = (From-unique_after j j l s.0, unique_after-IsSorted j l s.1)

pub index_of-IsSorted : (l : List Entry) → IsSorted (index_of l)
unfolding index_of
index_of-IsSorted l = unique-IsSorted (sort l) (sort-IsSorted l)

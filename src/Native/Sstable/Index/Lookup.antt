-- ===== src/Native/Sstable/Index/Lookup.antt =====
-- A binary search of the index finds the newest record of a key.
use lsmio.Base.{
  ℕ, ◌<◌, ◌≡◌, refl, ◌∙◌, Bool, true, false, Option, none, some, List, [], ◌∷◌, arith, Bytes, beq,
  beq_iff, blt, blt_irrefl, blt_total, All, lookup, last_lookup, or_else, ltb, if◌then◌else◌,
}
use lsmio.Native.Sstable.Index.{
  Entry, entry_less, sort_insert, sort, unique_after, unique, index_of, find_offset,
}
use lsmio.Native.Sstable.Index.Sorted.{From, IsSorted, sort-IsSorted, index_of-IsSorted}

lookup_below : (k j : Bytes) (l : List Entry) → blt k j ≡ true → From j l → lookup k l ≡ none
unfolding lookup
lookup_below k j [] h f = refl
lookup_below k j ((i, o) ∷ l) h f = ground (arith, beq_iff i k, lookup_below k j l h f.1)

pub find_offset-lookup : (k : Bytes) (l : List Entry) → IsSorted l → find_offset k l ≡ lookup k l
unfolding find_offset lookup
find_offset-lookup k [] s = refl
find_offset-lookup k ((j, o) ∷ l) s = ground (
  arith,
  beq_iff j k,
  blt_irrefl k,
  blt_total j k,
  lookup_below k j l,
  find_offset-lookup k l s.1,
)

lookup-unique_after :
    (k j : Bytes) (l : List Entry) → beq j k ≡ false → lookup k (unique_after j l) ≡ lookup k l
unfolding unique_after lookup
lookup-unique_after k j [] h = refl
lookup-unique_after k j ((i, o) ∷ l) h =
    ground (arith, beq_iff j i, lookup-unique_after k j l h, lookup-unique_after k i l)

-- Dropping later entries of the same key changes no lookup.
pub lookup-unique : (k : Bytes) (l : List Entry) → lookup k (unique l) ≡ lookup k l
unfolding unique lookup
lookup-unique k [] = refl
lookup-unique k ((j, o) ∷ l) = ground (arith, lookup-unique_after k j l)

-- The greater of two offsets, where there are two.
abbrev newer : ℕ → Option ℕ → Option ℕ
newer o none = some o
newer o (some p) = if ltb p o then some o else some p

lookup-sort_insert :
    (k j : Bytes) (o : ℕ) (l : List Entry)
    → IsSorted l
    → lookup k (sort_insert (j, o) l) ≡ (if beq j k then newer o (lookup k l) else lookup k l)
unfolding sort_insert entry_less lookup
lookup-sort_insert k j o [] s = ground arith
lookup-sort_insert k j o ((i, p) ∷ l) s = ground (
  arith,
  beq_iff j k,
  beq_iff i k,
  beq_iff j i,
  lookup_below k i l,
  lookup-sort_insert k j o l s.1,
)

-- Records are written one behind the other, so their offsets grow.
abbrev pub IsIncreasing : List Entry → Type 0
IsIncreasing [] = Unit
IsIncreasing (e ∷ l) = All (λ f. e.1 < f.1) l × IsIncreasing l

abbrev Above : ℕ → Option ℕ → Type 0
Above b none = Unit
Above b (some o) = b < o

Above-or_else : (b : ℕ) (r s : Option ℕ) → Above b r → Above b s → Above b (or_else r s)
Above-or_else b none s hr hs = hs
Above-or_else b (some o) s hr hs = hr

last_lookup-Above :
    (k : Bytes) (b : ℕ) (l : List Entry) → All (λ f. b < f.1) l → Above b (last_lookup k l)
unfolding last_lookup
last_lookup-Above k b [] a = tt
last_lookup-Above k b ((j, p) ∷ l) a =
    Above-or_else b (last_lookup k l) (if beq j k then some p else none)
      (last_lookup-Above k b l a.1) (here (beq j k))
  where
    here : (t : Bool) → Above b (if t then some p else none)
    here true = a.0
    here false = tt

newer-Above : (o : ℕ) (r : Option ℕ) → Above o r → newer o r ≡ or_else r (some o)
newer-Above o none h = refl
newer-Above o (some p) h = ground arith

lookup-sort : (k : Bytes) (l : List Entry) → IsIncreasing l → lookup k (sort l) ≡ last_lookup k l
unfolding sort last_lookup
lookup-sort k [] i = unfold lookup in refl
lookup-sort k ((j, o) ∷ l) i =
    rw (lookup-sort_insert k j o (sort l) (sort-IsSorted l), lookup-sort k l i.1)
      (rw (newer-Above o (last_lookup k l) (last_lookup-Above k o l i.0)) (ground arith))

-- For a list of entries whose offsets increase, sorting, std::unique and std::lower_bound find
-- for every key the offset of its last entry.
pub find_offset-index_of :
    (k : Bytes) (l : List Entry) → IsIncreasing l → find_offset k (index_of l) ≡ last_lookup k l
unfolding index_of
find_offset-index_of k l i =
    find_offset-lookup k (index_of l) (index_of-IsSorted l)
    ∙ lookup-unique k (sort l)
    ∙ lookup-sort k l i

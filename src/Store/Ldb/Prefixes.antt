-- ===== src/Store/Ldb/Prefixes.antt =====
-- What getPrefix of the LevelDB and RocksDB stores lists, over an iterator that goes through the keys
-- in order.
use lsmio.Base.{
  ◌≡◌, ap, ◌∙◌, true, false, none, some, List, [], ◌∷◌, Bytes, arith, beq_iff, blt, blt_irrefl,
  starts_with, prefix_below, prefix_ended, lookup, All, Below, IsAscending, lookup_first, blt_asym,
  if◌then◌else◌, Bool-cases, inl, inr,
}
use lsmio.Store.Ldb.{Database, while_prefix}

-- As LevelDB and RocksDB document `Seek` and `Next`.
pub record IsOrdered {D : Type 0} (database : Database D) : Type 0 where
  pub ascending : (d : D) (k : Bytes) → IsAscending (database.entries_from d k).1
  pub lookup-entries_from :
      (d : D) (k j : Bytes)
      → lookup j (database.entries_from d k).1 ≡ (if blt j k then none else database.get d j)

Below-found :
    (j k v : Bytes) (l : List (Bytes × Bytes)) → Below j l → lookup k l ≡ some v → blt j k ≡ true
unfolding lookup
Below-found j k v [] b h = absurd (ground (arith, h))
Below-found j k v ((i, w) ∷ l) b h = ground (arith, h, b.0, beq_iff i k, Below-found j k v l b.1)

-- What is found further down is found.
lookup-behind :
    (j v k w : Bytes) (l : List (Bytes × Bytes))
    → Below j l
    → lookup k l ≡ some w
    → lookup k ((j, v) ∷ l) ≡ some w
unfolding lookup
lookup-behind j v k w l b h = ground (arith, h, Below-found j k w l b, beq_iff j k, blt_irrefl j)

module _ (p : Bytes) where
  Lists : List (Bytes × Bytes) → List (Bytes × Bytes) → Type 0
  Lists all = All (λ e. (starts_with p e.0 ≡ true) × (lookup e.0 all ≡ some e.1))

  Below-while_prefix :
      (k : Bytes) (l : List (Bytes × Bytes)) → Below k l → Below k (while_prefix p l)
  unfolding while_prefix
  Below-while_prefix k [] b = tt
  Below-while_prefix k ((j, v) ∷ l) b = ground (arith, Below-while_prefix k l b.1)

  Lists-behind :
      (j v : Bytes) (all l : List (Bytes × Bytes))
      → Below j l
      → Lists all l
      → Lists ((j, v) ∷ all) l
  unfolding Lists lookup
  Lists-behind j v all [] b h = tt
  Lists-behind j v all ((k, w) ∷ l) b h = (
    (h.0.0, ground (arith, b.0, beq_iff j k, blt_irrefl j, h.0.1)),
    Lists-behind j v all l b.1 h.1,
  )

  while_prefix-Lists : (l : List (Bytes × Bytes)) → IsAscending l → Lists l (while_prefix p l)
  unfolding while_prefix Lists
  while_prefix-Lists [] s = tt
  while_prefix-Lists ((j, v) ∷ l) s = elim (Bool-cases (starts_with p j)) [
    | inl yes' ↦ rw yes' (
      (yes', lookup_first j v l),
      Lists-behind j v l (while_prefix p l) (Below-while_prefix j l s.0) (while_prefix-Lists l s.1),
    )
    | inr other ↦ rw other tt
  ]

  lookup-while_prefix :
      (k v : Bytes) (l : List (Bytes × Bytes))
      → IsAscending l
      → All (λ e. blt e.0 p ≡ false) l
      → starts_with p k ≡ true
      → lookup k l ≡ some v
      → lookup k (while_prefix p l) ≡ some v
  unfolding while_prefix lookup
  lookup-while_prefix k v [] s from has h = h
  lookup-while_prefix k v ((j, w) ∷ l) s from has h = ground (
    arith,
    h,
    beq_iff j k,
    lookup-while_prefix k v l s.1 from.1 has,
    Below-found j k v l s.0,
    blt_asym j k,
    prefix_ended p j k from.0,
  )

-- A list in which no key below `k` is found has none.
not_below :
    (k : Bytes) (l : List (Bytes × Bytes))
    → IsAscending l
    → ((j v : Bytes) → lookup j l ≡ some v → blt j k ≡ false)
    → All (λ e. blt e.0 k ≡ false) l
not_below k [] s h = tt
not_below k ((j, v) ∷ l) s h = (
  h j v (lookup_first j v l),
  not_below k l s.1 (λ i w found. h i w (lookup-behind j v i w l s.0 found)),
)

module _ {D : Type 0} (database : Database D) (ordered : IsOrdered database) where
  held_at :
      (d : D) (k j v : Bytes)
      → lookup j (database.entries_from d k).1 ≡ some v
      → (blt j k ≡ false) × (database.get d j ≡ some v)
  held_at d k j v h = ground (arith, h, ordered.lookup-entries_from d k j)

  all_held :
      (d : D) (p : Bytes) (l : List (Bytes × Bytes))
      → Lists p (database.entries_from d p).1 l
      → All (λ e. (starts_with p e.0 ≡ true) × (database.get d e.0 ≡ some e.1)) l
  unfolding Lists
  all_held d p [] h = tt
  all_held d p ((k, v) ∷ l) h = ((h.0.0, (held_at d p k v h.0.1).1), all_held d p l h.1)

  pub while_prefix-holds :
      (d : D) (p : Bytes)
      → All
          (λ e. (starts_with p e.0 ≡ true) × (database.get d e.0 ≡ some e.1))
          (while_prefix p (database.entries_from d p).1)
  while_prefix-holds d p =
      all_held d p _ (while_prefix-Lists p (database.entries_from d p).1 (ordered.ascending d p))

  pub while_prefix-lists :
      (d : D) (p k v : Bytes)
      → starts_with p k ≡ true
      → database.get d k ≡ some v
      → lookup k (while_prefix p (database.entries_from d p).1) ≡ some v
  while_prefix-lists d p k v has h =
      let l = (database.entries_from d p).1 in
      lookup-while_prefix p k v l (ordered.ascending d p)
        (not_below p l (ordered.ascending d p) (λ j w found. (held_at d p j w found).0)) has
        (ordered.lookup-entries_from d p k
          ∙ ap (λ b. if b then none else database.get d k) (prefix_below p k has)
          ∙ h)

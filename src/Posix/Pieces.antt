-- ===== src/Posix/Pieces.antt =====
-- What is written in pieces is read back in the same pieces.
use lsmio.Base.{
  ℕ, ◌+◌, ◌≡◌, ◌<◌, refl, sym, ap, subst, ◌∙◌, Bool, true, false, Option, none, some, List, [], ◌∷◌,
  arith, Bytes, beq_refl, length, lookup-insert, All, map,
}
use lsmio.Store.{LsmioStore, put, put_value}
use lsmio.Store.Laws.{IsMap}
use lsmio.Manager.{
  Manager, ranked_key, is_serve_local, count_read, count_write, get_local, put_local,
}
use lsmio.Posix.{
  Stream, gen_key, tellp, move_to, read, write, read_with, write_with, with_lm, seekp, read_all,
  write_all, read_on,
}
use lsmio.Posix.Keys.{beq-gen_key}

ranked_key-alone : (m : Manager) (r : ℕ) (k : Bytes) → m.is_shared ≡ false → ranked_key m r k ≡ k
unfolding ranked_key is_serve_local
ranked_key-alone m r k alone = ground arith

tellp-move_to : {S : Type 0} (f : Stream S) (n : ℕ) → tellp (move_to f n) ≡ n
unfolding tellp move_to
tellp-move_to f n = rw (lookup-insert f.file_path f.file_path n f.file_map, beq_refl f.file_path)

module _ {S : Type 0} (store : LsmioStore S) where
  -- The pieces stand in the store one after the other, from the offset `n` of the path on.
  pub Holds : S → Bytes → ℕ → List Bytes → Type 0
  Holds s path n [] = Unit
  Holds s path n (v ∷ vs) = (store.get s (gen_key path n) ≡ some v) × Holds s path (n + length v) vs

  -- The store after the pieces are put.
  pub stored_all : S → Bytes → Bool → ℕ → List Bytes → S
  stored_all s path flush n [] = s
  stored_all s path flush n (v ∷ vs) =
      stored_all (store.batch_mutation s put (gen_key path n) v flush).1 path flush (n + length v)
        vs

  read-held :
      (f : Stream S) (m : Manager) (s : S) (v : Bytes)
      → f.lm ≡ some (m, s)
      → m.is_shared ≡ false
      → store.get s (gen_key f.file_path (tellp f)) ≡ some v
      → read store f (length v)
        ≡ (move_to (with_lm f (count_read m (length v), s)) (tellp f + length v), some v)
  unfolding read read_with get_local
  read-held f m s v ready alone held =
      ap (λ o. elim o [ none ↦ (f, none) | some lm ↦ read_with store f lm (length v) ]) ready
      ∙ rw (ranked_key-alone m m.agg_rank (gen_key f.file_path (tellp f)) alone, held)
          (ground arith)

  read_all-Holds :
      (f : Stream S) (m : Manager) (s : S) (n : ℕ) (vs : List Bytes)
      → f.lm ≡ some (m, s)
      → m.is_shared ≡ false
      → tellp f ≡ n
      → Holds s f.file_path n vs
      → read_all store (map length vs) f ≡ some vs
  unfolding read_all read_on Holds move_to count_read
  read_all-Holds f m s n [] ready alone at held = refl
  read_all-Holds f m s n (v ∷ vs) ready alone at held =
      let f' = move_to (with_lm f (count_read m (length v), s)) (tellp f + length v) in
      let rest =
        read_all-Holds f' (count_read m (length v)) s (n + length v) vs refl alone
          (tellp-move_to _ (tellp f + length v) ∙ ap (λ o. o + length v) at) held.1 in
      rw (
        read-held f m s v ready alone
            (subst (λ o. store.get s (gen_key f.file_path o) ≡ some v) (sym at) held.0),
        rest,
      )

  get-stored_all :
      {shown : Bytes → Option Bytes} (s : S) (path : Bytes) (flush : Bool) (n o : ℕ)
      (vs : List Bytes)
      → IsMap store shown
      → o < n
      → store.get (stored_all s path flush n vs) (gen_key path o) ≡ store.get s (gen_key path o)
  unfolding stored_all
  get-stored_all s path flush n o [] is_map below = refl
  get-stored_all s path flush n o (v ∷ vs) is_map below =
      get-stored_all (store.batch_mutation s put (gen_key path n) v flush).1 path flush
        (n + length v) o vs is_map (omega arith)
      ∙ is_map.get-put s (gen_key path n) (gen_key path o) v flush
      ∙ rw (beq-gen_key path path n o) (ground (arith, beq_refl path))

  -- A piece that has a byte and that the store shows as it is.
  abbrev pub IsPiece : (Bytes → Option Bytes) → Bytes → Type 0
  IsPiece shown v = (0 < length v) × (shown v ≡ some v)

  stored_all-Holds :
      {shown : Bytes → Option Bytes} (s : S) (path : Bytes) (flush : Bool) (n : ℕ) (vs : List Bytes)
      → IsMap store shown
      → All (IsPiece shown) vs
      → Holds (stored_all s path flush n vs) path n vs
  unfolding stored_all Holds
  stored_all-Holds s path flush n [] is_map pieces = tt
  stored_all-Holds s path flush n (v ∷ vs) is_map pieces =
      let put_one = (store.batch_mutation s put (gen_key path n) v flush).1 in
      (
        get-stored_all put_one path flush (n + length v) n vs is_map (omega arith)
            ∙ is_map.get-put s (gen_key path n) (gen_key path n) v flush
            ∙ rw (beq_refl (gen_key path n)) pieces.0.1,
        stored_all-Holds put_one path flush (n + length v) vs is_map pieces.1,
      )

  write-ready :
      (f : Stream S) (m : Manager) (s : S) (n : ℕ) (v : Bytes)
      → f.lm ≡ some (m, s)
      → m.is_shared ≡ false
      → tellp f ≡ n
      → write store f v
        ≡ some (
            move_to
              (with_lm f (
                count_write m (length v),
                (store.batch_mutation s put (gen_key f.file_path n) v m.always_flush).1,
              ))
              (n + length v))
  unfolding write write_with put_local put_value
  write-ready f m s n v ready alone at =
      ap (λ o. elim o [ none ↦ none | some lm ↦ some (write_with store f lm v) ]) ready
      ∙ rw (ranked_key-alone m m.agg_rank (gen_key f.file_path (tellp f)) alone, at)

  -- Writing the pieces returns, and ends at the stream `f'`.
  pub record IsWritten (f : Stream S) (m : Manager) (s : S) (n : ℕ) (vs : List Bytes)
      (f' : Stream S) (last : Manager) : Type 0 where
    pub runs : write_all store vs f ≡ some f'
    pub same_path : f'.file_path ≡ f.file_path
    pub still_ready : f'.lm ≡ some (last, stored_all s f.file_path m.always_flush n vs)
    pub still_alone : last.is_shared ≡ false

  write_all-IsWritten :
      (f : Stream S) (m : Manager) (s : S) (n : ℕ) (vs : List Bytes)
      → f.lm ≡ some (m, s)
      → m.is_shared ≡ false
      → tellp f ≡ n
      → (f' : Stream S) × (last : Manager) × IsWritten f m s n vs f' last
  unfolding write_all stored_all move_to count_write
  write_all-IsWritten f m s n [] ready alone at =
      (f, m, record { runs = refl; same_path = refl; still_ready = ready; still_alone = alone })
  write_all-IsWritten f m s n (v ∷ vs) ready alone at =
      let s1 = (store.batch_mutation s put (gen_key f.file_path n) v m.always_flush).1 in
      let m1 = count_write m (length v) in
      let f1 = move_to (with_lm f (m1, s1)) (n + length v) in
      let (f', last, h) =
        write_all-IsWritten f1 m1 s1 (n + length v) vs refl alone
          (tellp-move_to (with_lm f (m1, s1)) (n + length v)) in
      (
        f',
        last,
        record {
          runs =
              ap (λ o. elim o [ none ↦ none | some g ↦ write_all store vs g ])
                (write-ready f m s n v ready alone at)
              ∙ h.runs;
          same_path = h.same_path;
          still_ready = h.still_ready;
          still_alone = h.still_alone;
        },
      )

  -- On an initialized stream whose manager is not shared, over a store that is a map, pieces
  -- that each have a byte and that the store shows unchanged are written at any position without
  -- a throw; after seeking back, reads of the same lengths give them back in order.
  pub read_all-write_all :
      {shown : Bytes → Option Bytes} (f : Stream S) (m : Manager) (s : S) (vs : List Bytes)
      → IsMap store shown
      → f.lm ≡ some (m, s)
      → m.is_shared ≡ false
      → All (IsPiece shown) vs
      → (f' : Stream S) × (write_all store vs f ≡ some f')
        × (elim (seekp f' (tellp f) true) [
          | none ↦ none
          | some g ↦ read_all store (map length vs) g
        ]
            ≡ some vs)
  unfolding seekp move_to
  read_all-write_all f m s vs is_map ready alone pieces =
      let (f', last, h) = write_all-IsWritten f m s (tellp f) vs ready alone refl in
      let held = stored_all-Holds s f.file_path m.always_flush (tellp f) vs is_map pieces in
      let there = stored_all s f.file_path m.always_flush (tellp f) vs in
      (
        f',
        h.runs,
        read_all-Holds (move_to f' (tellp f)) last there (tellp f) vs h.still_ready h.still_alone
            (tellp-move_to f' (tellp f))
            (subst (λ p. Holds there p (tellp f) vs) (sym h.same_path) held),
      )

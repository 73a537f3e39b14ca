-- ===== src/Native/Sstable/Laid/Flush.antt =====
-- A flush keeps the layout of tables, pool and disk.
use mathlib.Core.List.{append-nil}
use lsmio.Base.{
  ℕ, ◌<◌, ◌≡◌, refl, sym, ap, subst, ◌∙◌, Bool, false, none, some, List, [], ◌∷◌, ◌++◌, map, arith,
  Bytes, beq, All, All-append, lookup, lookup-insert, beq_refl, drop-all, or_else, last_lookup,
  last_lookup-append, length, drop, if_cases,
}
use lsmio.Native.Memtable
use lsmio.Native.Memtable.{Memtable}
use lsmio.Native.Memtable.Lookup.{get-last_lookup}
use lsmio.Native.FilePool
use lsmio.Native.FilePool.{Disk, FilePool, path_of, u64_mod}
use lsmio.Native.FilePool.Order.{Ids}
use lsmio.Native.Sstable.Format.{serialize}
use lsmio.Native.Sstable.Format.Reads.{IsSmall}
use lsmio.Native.Sstable.Recover.Tables.{Table, IsOn, entries_of}
use lsmio.Native.Sstable.{
  SstableManager, Flushed, write_over, contents, write_table, flush_to, flush_memtable, get,
}
use lsmio.Native.Sstable.Read.{IsUnused}
use lsmio.Native.Sstable.Fresh.{IsFresh}
use lsmio.Native.Sstable.Flush.{get-write_table}
use lsmio.Native.Sstable.Laid.{IsNamed, id_of, path_at, IsLaid, Laid, IsOther, All-split, others}

-- The table's file with other entries.
abbrev refilled : Table → List (Bytes × Bytes) → Table
refilled w es = record { id = w.id; path = w.path; entries = es }

module _ {κ} (P : Table → Type κ) where
  All-move :
      (xs : List Table) (w w' : Table) (ys : List Table)
      → All P (xs ++ w ∷ ys)
      → P w'
      → All P ((xs ++ w' ∷ []) ++ ys)
  All-move [] w w' ys h h' = (h', h.1)
  All-move (x ∷ xs) w w' ys h h' = (h.0, All-move xs w w' ys h.1 h')

  All-moved :
      (xs : List Table) (w w' : Table) (ys : List Table)
      → All P ((xs ++ w' ∷ []) ++ ys)
      → P w
      → All P (xs ++ w ∷ ys)
  All-moved [] w w' ys h h' = (h', h.1)
  All-moved (x ∷ xs) w w' ys h h' = (h.0, All-moved xs w w' ys h.1 h')

ids_move :
    (xs : List Table) (w : Table) (es : List (Bytes × Bytes)) (ys : List Table)
    → map id_of ((xs ++ refilled w es ∷ []) ++ ys) ≡ map id_of (xs ++ w ∷ ys)
ids_move [] w es ys = refl
ids_move (x ∷ xs) w es ys = ap (◌∷◌ x.id) (ids_move xs w es ys)

IsOn-other :
    (disk disk' : Disk) (path : Bytes) (ts : List Table)
    → ((p : Bytes) → beq path p ≡ false → lookup p disk' ≡ lookup p disk)
    → All (IsOther path) ts
    → All (IsOn disk) ts
    → All (IsOn disk') ts
IsOn-other disk disk' path [] same other on = tt
IsOn-other disk disk' path (t ∷ ts) same other on =
    ((same t.path other.0 ∙ on.0.0, on.0.1), IsOn-other disk disk' path ts same other.1 on.1)

entries_of-snoc :
    (ts : List Table) (t : Table) (k : Bytes)
    → last_lookup k (entries_of (ts ++ t ∷ []))
      ≡ or_else (last_lookup k t.entries) (last_lookup k (entries_of ts))
unfolding last_lookup
entries_of-snoc [] t k = ap (last_lookup k) (append-nil t.entries) ∙ ground arith
entries_of-snoc (x ∷ ts) t k = ground (
  arith,
  entries_of-snoc ts t k,
  last_lookup-append k x.entries (entries_of (ts ++ t ∷ [])),
  last_lookup-append k x.entries (entries_of ts),
)

module _ (dir : Bytes) (s : SstableManager) (flushed : List Table) (w : Table)
    (ws stray : List Table) (es : List (Bytes × Bytes)) (v : IsLaid dir s flushed (w ∷ ws) stray)
    (small : All IsSmall es) where
  -- The pool's first file becomes a table.
  IsLaid-refilled :
      (t : SstableManager)
      → t.file_pool ≡ record s.file_pool { pool = map path_at ws }
      → lookup w.path t.disk ≡ some (serialize es)
      → ((p : Bytes) → beq w.path p ≡ false → lookup p t.disk ≡ lookup p s.disk)
      → ((k : Bytes) → get t k ≡ or_else (last_lookup k es) (get s k))
      → IsLaid dir t (flushed ++ refilled w es ∷ []) ws stray
  IsLaid-refilled t pool at same gets =
      let (front, back, _) =
        others dir flushed w (ws ++ stray) 0 s.file_pool.next_id v.listed.named v.listed.ordered in
      let (on_front, on_rest) = All-split (IsOn s.disk) flushed (w ∷ (ws ++ stray)) v.listed.held in
      record {
        in_dir = ap (λ (fp : FilePool). fp.directory) pool ∙ v.in_dir;
        with_prefix = ap (λ (fp : FilePool). fp.prefix) pool ∙ v.with_prefix;
        with_suffix = ap (λ (fp : FilePool). fp.suffix) pool ∙ v.with_suffix;
        unallocated = ap (λ (fp : FilePool). fp.pre_allocation_size) pool ∙ v.unallocated;
        below = subst (λ (fp : FilePool). fp.next_id < u64_mod) (sym pool) v.below;
        listed = record {
          named =
              All-move (IsNamed dir) flushed w (refilled w es) (ws ++ stray) v.listed.named
                (All-split (IsNamed dir) flushed (w ∷ (ws ++ stray)) v.listed.named).1.0;
          ordered =
              subst
                (λ (fp : FilePool).
                  Ids 0 fp.next_id (map id_of ((flushed ++ refilled w es ∷ []) ++ (ws ++ stray))))
                (sym pool)
                (subst (Ids 0 s.file_pool.next_id) (sym (ids_move flushed w es (ws ++ stray)))
                  v.listed.ordered);
          held =
              All-append (IsOn t.disk) (flushed ++ refilled w es ∷ []) (ws ++ stray)
                (All-append (IsOn t.disk) flushed (refilled w es ∷ [])
                  (IsOn-other s.disk t.disk w.path flushed same front on_front) ((at, small), tt))
                (IsOn-other s.disk t.disk w.path (ws ++ stray) same back on_rest.1);
          only = λ p h.
              let differs =
                (All-split (λ (u : Table). beq u.path p ≡ false) flushed (refilled w es ∷ [])
                  (All-split (λ (u : Table). beq u.path p ≡ false) (flushed ++ refilled w es ∷ [])
                    (ws ++ stray) h).0).1.0 in
              same p differs
              ∙ v.listed.only p (
                  All-moved (λ u. beq u.path p ≡ false) flushed w (refilled w es) (ws ++ stray) h
                    differs);
        };
        pool_is = ap (λ (fp : FilePool). fp.pool) pool;
        bare = v.bare.1;
        settled = λ up. v.settled (sym (ap (λ (fp : FilePool). fp.shutdown) pool) ∙ up);
        answers = λ k.
            gets k
            ∙ ap (or_else (last_lookup k es)) (v.answers k)
            ∙ sym (entries_of-snoc flushed (refilled w es) k);
      }

abbrev pub LaidIf : Bytes → Flushed → Type 0
LaidIf dir (Flushed.returns b s) = Laid dir s
LaidIf dir Flushed.blocks = Unit
LaidIf dir Flushed.throws = Unit

empty_file : (disk : Disk) (w : Table) → IsOn disk w → w.entries ≡ [] → lookup w.path disk ≡ some []
unfolding serialize
empty_file disk w on bare = on.0 ∙ ap (λ es. some (serialize es)) bare

drop-nil : (n : ℕ) → drop {A = ℕ} n [] ≡ []
drop-nil n = drop-all n [] (omega arith)

-- What is written to an empty file is all that it holds.
written_file :
    (disk : Disk) (w : Table) (written : Bytes)
    → IsOn disk w
    → w.entries ≡ []
    → write_over (contents disk w.path) written ≡ written
unfolding write_over
written_file disk w written on bare =
    ap (λ o. written ++ drop (length written) (elim o [ none ↦ [] | some file ↦ file ]))
      (empty_file disk w on bare)
    ∙ ap (◌++◌ written) (drop-nil (length written))
    ∙ append-nil written

hand_out-LaidIf :
    (dir : Bytes) (s : SstableManager) (m : Memtable) (good : Bool)
    (flushed waiting stray : List Table)
    → IsLaid dir s flushed waiting stray
    → IsFresh s
    → All IsSmall m.entries
    → LaidIf dir (flush_to s m good (FilePool.hand_out s.file_pool (map path_at waiting)))
unfolding flush_to FilePool.hand_out write_table get last_lookup serialize
hand_out-LaidIf dir s m good flushed [] stray v fresh small =
    if_cases (λ a. LaidIf dir (flush_to s m good a)) s.file_pool.shutdown _ _ (λ _. tt) (λ _. tt)
hand_out-LaidIf dir s m good flushed (w ∷ ws) stray v fresh small =
    let on = (All-split (IsOn s.disk) flushed (w ∷ (ws ++ stray)) v.listed.held).1.0 in
    let unused = subst (All (λ path. IsUnused path s.head)) v.pool_is fresh.unused in
    let fp = record s.file_pool { pool = map path_at ws } in
    if_cases (LaidIf dir) good _ _
      (λ _. (
        flushed ++ refilled w m.entries ∷ [],
        ws,
        stray,
        IsLaid-refilled dir s flushed w ws stray m.entries v small (write_table s w.path fp m) refl
            (lookup-insert w.path w.path _ s.disk
              ∙ rw (beq_refl w.path)
                  (ap some (written_file s.disk w (serialize m.entries) on v.bare.0)))
            (λ p differs. lookup-insert w.path p _ s.disk ∙ ground arith)
            (λ k.
              get-write_table s w.path fp m k unused.0 small
              ∙ ap (λ o. or_else o (get s k)) (get-last_lookup m k)),
      ))
      (λ _. (
        flushed ++ refilled w [] ∷ [],
        ws,
        stray,
        IsLaid-refilled dir s flushed w ws stray [] v tt (record s { file_pool = fp }) refl
            (empty_file s.disk w on v.bare.0) (λ p _. refl) (λ k. refl),
      ))

-- A flush that returns, with a good stream or not, leaves tables, pool and disk laid out.
pub flush_memtable-Laid :
    (dir : Bytes) (s : SstableManager) (m : Memtable) (good : Bool)
    → Laid dir s
    → IsFresh s
    → All IsSmall m.entries
    → LaidIf dir (flush_memtable s m good)
unfolding flush_memtable FilePool.acquire
flush_memtable-Laid dir s m good (flushed, waiting, stray, v) fresh small =
    if_cases (LaidIf dir) (Memtable.empty m) _ _ (λ _. (flushed, waiting, stray, v))
      (λ _.
        subst (λ pool. LaidIf dir (flush_to s m good (FilePool.hand_out s.file_pool pool)))
          (sym v.pool_is) (hand_out-LaidIf dir s m good flushed waiting stray v fresh small))

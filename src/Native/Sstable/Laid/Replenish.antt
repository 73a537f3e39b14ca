-- ===== src/Native/Sstable/Laid/Replenish.antt =====
-- The pool's worker keeps the layout of tables, pool and disk.
use mathlib.Core.List.{append_assoc, append-nil, map-append}
use lsmio.Base.{
  ℕ, suc, ◌+◌, ◌%◌, ◌<◌, ◌≡◌, refl, sym, ap₂, subst, ◌∙◌, Bool, true, false, List, [], ◌∷◌, ◌++◌,
  map, arith, Bytes, beq, All, All-append, lookup, insert, lookup-insert, beq_refl, length, ltb,
  if_cases, if◌then◌else◌, Bool-cases, inl, inr,
}
use lsmio.Native.FilePool
use lsmio.Native.FilePool.{Disk, FilePool, path_of, u64_mod}
use lsmio.Native.FilePool.Order.{Ids}
use lsmio.Native.Sstable.Format.{serialize}
use lsmio.Native.Sstable.Recover.Tables.{Table, IsOn}
use lsmio.Native.Sstable.{SstableManager, get}
use lsmio.Native.Sstable.Fresh.{IsFresh, replenish, get-replenish, after_round}
use lsmio.Native.Sstable.Laid.{
  table_path, IsNamed, id_of, path_at, IsListed, IsLaid, Laid, All-split, Ids-below, other_path,
  beq_comm,
}

abbrev IsBare : Table → Type 0
IsBare t = t.entries ≡ []

Ids-snoc : (lo n : ℕ) (is : List ℕ) → Ids lo n is → Ids lo (n + 1) (is ++ n ∷ [])
Ids-snoc lo n [] h = (h, omega arith)
Ids-snoc lo n (i ∷ is) h = (h.0, Ids-snoc (suc i) n is h.1)

Ids-mono : (lo n : ℕ) (is : List ℕ) → Ids lo n is → Ids lo (n + 1) is
Ids-mono lo n [] h = omega arith
Ids-mono lo n (i ∷ is) h = (h.0, Ids-mono (suc i) n is h.1)

Ids-All : (lo n : ℕ) (ts : List Table) → Ids lo n (map id_of ts) → All (λ (t : Table). t.id < n) ts
Ids-All lo n [] h = tt
Ids-All lo n (t ∷ ts) h =
    (omega (arith, Ids-below (suc t.id) n (map id_of ts) h.1), Ids-All (suc t.id) n ts h.1)

module _ (dir : Bytes) (disk : Disk) (n : ℕ) where
  -- The worker's new file.
  abbrev new_file : Table
  new_file = record { id = n; path = table_path dir n; entries = [] }

  abbrev with_file : Disk
  with_file = insert (table_path dir n) [] disk

  new_held :
      (ts : List Table)
      → All (IsNamed dir) ts
      → All (λ (t : Table). t.id < n) ts
      → All (IsOn disk) ts
      → All (IsOn with_file) ts
  new_held [] named less on = tt
  new_held (t ∷ ts) named less on = (
    (
      lookup-insert (table_path dir n) t.path [] disk
          ∙ rw (beq_comm t.path (table_path dir n) (other_path dir t new_file named.0 refl less.0))
              on.0.0,
      on.0.1,
    ),
    new_held ts named.1 less.1 on.1,
  )

  IsListed-new :
      (ts : List Table)
      → IsListed dir disk n ts
      → IsListed dir with_file (n + 1) (ts ++ new_file ∷ [])
  unfolding serialize
  IsListed-new ts v = record {
    named = All-append (IsNamed dir) ts (new_file ∷ []) v.named (refl, tt);
    ordered =
        subst (Ids 0 (n + 1)) (sym (map-append id_of ts (new_file ∷ [])))
          (Ids-snoc 0 n (map id_of ts) v.ordered);
    held =
        All-append (IsOn with_file) ts (new_file ∷ [])
          (new_held ts v.named (Ids-All 0 n ts v.ordered) v.held)
          (
            (
              lookup-insert (table_path dir n) (table_path dir n) [] disk
                  ∙ rw (beq_refl (table_path dir n)),
              tt,
            ),
            tt,
          );
    only = λ p h.
        let (front, last) = All-split (λ (t : Table). beq t.path p ≡ false) ts (new_file ∷ []) h in
        lookup-insert (table_path dir n) p [] disk ∙ rw last.0 (v.only p front);
  }

module _ (dir : Bytes) (s : SstableManager) (flushed waiting : List Table)
    (v : IsLaid dir s flushed waiting []) (below : s.file_pool.next_id + 1 < u64_mod)
    (fresh : IsFresh s) where
  abbrev made : Table
  made = new_file dir s.disk s.file_pool.next_id

  abbrev next : ℕ
  next = (s.file_pool.next_id + 1) % u64_mod

  abbrev worker_path : Bytes
  worker_path =
      path_of s.file_pool.directory s.file_pool.prefix s.file_pool.suffix s.file_pool.next_id

  worker_path-eq : worker_path ≡ table_path dir s.file_pool.next_id
  worker_path-eq = cc (v.in_dir, v.with_prefix, v.with_suffix)

  prepared : Disk
  prepared = FilePool.prepare s.file_pool worker_path s.disk

  prepared-eq : prepared ≡ with_file dir s.disk s.file_pool.next_id
  unfolding FilePool.prepare prepared
  prepared-eq =
      ap₂
        (λ size path.
          if ltb 0 size
          then insert path (FilePool.allocate size (lookup path s.disk)) s.disk
          else insert path [] s.disk)
        v.unallocated worker_path-eq

  next-eq : next ≡ s.file_pool.next_id + 1
  next-eq = omega arith

  IsListed-made :
      (ts : List Table)
      → ts ≡ (flushed ++ (waiting ++ [])) ++ made ∷ []
      → IsListed dir prepared next ts
  IsListed-made ts e =
      subst (λ disk. IsListed dir disk next ts) (sym prepared-eq)
        (subst (λ n. IsListed dir (with_file dir s.disk s.file_pool.next_id) n ts) (sym next-eq)
          (subst (IsListed dir (with_file dir s.disk s.file_pool.next_id) (s.file_pool.next_id + 1))
            (sym e)
            (IsListed-new dir s.disk s.file_pool.next_id (flushed ++ (waiting ++ [])) v.listed)))

  IsBare-made : All IsBare (waiting ++ made ∷ [])
  IsBare-made =
      All-append IsBare waiting (made ∷ []) (All-split IsBare waiting [] v.bare).0 (refl, tt)

  Answers : SstableManager → Type 0
  Answers t = (k : Bytes) → get t k ≡ get s k

  abbrev skipping : SstableManager
  skipping = record s { file_pool = record s.file_pool { next_id = next } }

  -- A failed open uses an id up.
  skipping-IsLaid : Answers skipping → IsLaid dir skipping flushed waiting []
  unfolding Answers
  skipping-IsLaid same = record {
    in_dir = v.in_dir;
    with_prefix = v.with_prefix;
    with_suffix = v.with_suffix;
    unallocated = v.unallocated;
    below = omega arith;
    listed = record {
      named = v.listed.named;
      ordered =
          subst (λ n. Ids 0 n (map id_of (flushed ++ (waiting ++ [])))) (sym next-eq)
            (Ids-mono 0 s.file_pool.next_id (map id_of (flushed ++ (waiting ++ [])))
              v.listed.ordered);
      held = v.listed.held;
      only = v.listed.only;
    };
    pool_is = v.pool_is;
    bare = v.bare;
    settled = v.settled;
    answers = λ k. same k ∙ v.answers k;
  }

  abbrev filled : SstableManager
  filled = record s {
    file_pool = record s.file_pool { next_id = next; pool = s.file_pool.pool ++ worker_path ∷ [] };
    disk = prepared;
  }

  filled-IsLaid : Answers filled → IsLaid dir filled flushed (waiting ++ made ∷ []) []
  unfolding Answers
  filled-IsLaid same = record {
    in_dir = v.in_dir;
    with_prefix = v.with_prefix;
    with_suffix = v.with_suffix;
    unallocated = v.unallocated;
    below = omega arith;
    listed = IsListed-made (flushed ++ ((waiting ++ made ∷ []) ++ [])) (
        rw (append-nil (waiting ++ made ∷ []), append-nil waiting)
          (sym (append_assoc flushed waiting (made ∷ []))));
    pool_is =
        ap₂ (λ a b. a ++ b ∷ []) v.pool_is worker_path-eq
        ∙ sym (map-append path_at waiting (made ∷ []));
    bare = All-append IsBare (waiting ++ made ∷ []) [] IsBare-made tt;
    settled = λ _. refl;
    answers = λ k. same k ∙ v.answers k;
  }

  abbrev stopped : SstableManager
  stopped = record s {
    file_pool = record s.file_pool { next_id = next; shutdown = true };
    disk = prepared;
  }

  stopped-IsLaid : Answers stopped → IsLaid dir stopped flushed waiting (made ∷ [])
  unfolding Answers
  stopped-IsLaid same = record {
    in_dir = v.in_dir;
    with_prefix = v.with_prefix;
    with_suffix = v.with_suffix;
    unallocated = v.unallocated;
    below = omega arith;
    listed =
        IsListed-made (flushed ++ (waiting ++ made ∷ []))
          (rw (append-nil waiting) (sym (append_assoc flushed waiting (made ∷ []))));
    pool_is = v.pool_is;
    bare = IsBare-made;
    settled = λ up. ground arith;
    answers = λ k. same k ∙ v.answers k;
  }

  abbrev Keeps : SstableManager → Type 0
  Keeps t = Answers t → Laid dir t

  round-Laid :
      (opens stops : Bool)
      → s.file_pool.shutdown ≡ false
      → Keeps (after_round s (FilePool.replenish s.file_pool s.disk opens stops))
  unfolding FilePool.replenish prepared
  round-Laid opens stops up =
      if_cases (λ r. Keeps (after_round s r)) s.file_pool.shutdown _ _
        (λ down _. (flushed, waiting, [], v))
        λ _.
          if_cases (λ r. Keeps (after_round s r))
            (ltb (length s.file_pool.pool) s.file_pool.pool_size) _ _
            (λ _.
              if_cases (λ r. Keeps (after_round s r)) opens _ _
                (λ _.
                  if_cases (λ r. Keeps (after_round s r)) stops _ _
                    (λ _ same. (flushed, waiting, made ∷ [], stopped-IsLaid same))
                    (λ _ same. (flushed, waiting ++ made ∷ [], [], filled-IsLaid same)))
                (λ _ same. (flushed, waiting, [], skipping-IsLaid same)))
            (λ _ _. (flushed, waiting, [], v))

shut_down-replenish :
    (s : SstableManager) (opens stops : Bool)
    → s.file_pool.shutdown ≡ true
    → replenish s opens stops ≡ s
unfolding replenish FilePool.replenish
shut_down-replenish s opens stops down = rw down refl

-- A round of the worker, whether the file opens and whether the pool shuts down meanwhile, leaves
-- tables, pool and disk laid out, while ids are left.
pub replenish-Laid :
    (dir : Bytes) (s : SstableManager) (opens stops : Bool)
    → s.file_pool.next_id + 1 < u64_mod
    → IsFresh s
    → Laid dir s
    → Laid dir (replenish s opens stops)
replenish-Laid dir s opens stops below fresh (flushed, waiting, stray, v) =
    elim (Bool-cases s.file_pool.shutdown) [
      | inl down ↦
          subst (Laid dir) (sym (shut_down-replenish s opens stops down))
            (flushed, waiting, stray, v)
      | inr up ↦
          unfold replenish in
          round-Laid dir s flushed waiting (subst (IsLaid dir s flushed waiting) (v.settled up) v)
            below fresh opens stops up (unfold Answers in λ k. get-replenish s opens stops k fresh)
    ]

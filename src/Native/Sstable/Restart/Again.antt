-- ===== src/Native/Sstable/Restart/Again.antt =====
-- The state after recovery is laid out and fresh again, so that runs and restarts go on.
use Prim.Native.Nat.{max}
use mathlib.Core.List.{append-nil}
use lsmio.Base.{
  ℕ, suc, ◌+◌, ◌%◌, ◌≤◌, ◌<◌, ◌≡◌, ◌-◌, ◌==◌, ◌||◌, ◌&&◌, blt, refl, sym, ap, subst, ◌∙◌, List, [],
  ◌∷◌, ◌++◌, map, arith, Bytes, ltb, if_cases,
}
use lsmio.Native.FilePool
use lsmio.Native.FilePool.{Disk, FilePool, path_of, file_name, join, u64_mod}
use lsmio.Native.FilePool.Order.{Ids}
use lsmio.Native.Sstable.Recover.{insert_file, recover_state, found_files, sort_files, max_id}
use lsmio.Native.Sstable.Recover.Tables.{Table, file_of, get-recover_state, recover_state-IsFresh}
use lsmio.Native.Sstable.Fresh.{IsFresh}
use lsmio.Native.Sstable.Laid.{id_of, IsListed, Laid, Ids-below}
use lsmio.Native.Sstable.{SstableManager}
use lsmio.Native.Sstable.Restart.{Lists, sort_files-tables}

max_id-insert_file :
    (f : ℕ × Bytes) (l : List (ℕ × Bytes)) → max_id (insert_file f l) ≡ max f.0 (max_id l)
unfolding max_id insert_file
max_id-insert_file (i, p) [] = refl
max_id-insert_file (i, p) ((j, q) ∷ l) =
    let ih = max_id-insert_file (i, p) l in
    if_cases (λ files. max_id files ≡ max i (max j (max_id l))) (ltb i j || (i == j && blt p q)) _ _
      (λ _. refl) (λ _. omega (arith, ih))

max_id-sort_files : (l : List (ℕ × Bytes)) → max_id (sort_files l) ≡ max_id l
unfolding max_id sort_files
max_id-sort_files [] = refl
max_id-sort_files ((i, p) ∷ l) =
    max_id-insert_file (i, p) (sort_files l) ∙ ap (max i) (max_id-sort_files l)

max_id-le : (lo n : ℕ) (ts : List Table) → Ids lo n (map id_of ts) → max_id (map file_of ts) ≤ n - 1
unfolding max_id
max_id-le lo n [] h = omega arith
max_id-le lo n (t ∷ ts) h =
    omega (arith, max_id-le (suc t.id) n ts h.1, Ids-below (suc t.id) n (map id_of ts) h.1)

Ids-max_id :
    (lo n b : ℕ) (ts : List Table)
    → lo ≤ b
    → max_id (map file_of ts) < b
    → Ids lo n (map id_of ts)
    → Ids lo b (map id_of ts)
unfolding max_id
Ids-max_id lo n b [] le lt h = le
Ids-max_id lo n b (t ∷ ts) le lt h =
    (h.0, Ids-max_id (suc t.id) n b ts (omega arith) (omega arith) h.1)

-- Ids are left after recovery.
max_id_below :
    (dir : Bytes) (s : SstableManager) (names : List Bytes)
    → Laid dir s
    → Lists dir s.disk names
    → max_id (found_files dir names) + 1 < u64_mod
max_id_below dir s names (flushed, waiting, stray, v) lists = omega (
  arith,
  sym (max_id-sort_files (found_files dir names))
      ∙ ap max_id
          (sort_files-tables dir s.disk s.file_pool.next_id ts names v.listed lists v.below),
  max_id-le 0 s.file_pool.next_id ts v.listed.ordered,
  v.below,
)
  where
    ts : List Table
    ts = flushed ++ (waiting ++ stray)

pub recover_Laid-IsFresh :
    (dir : Bytes) (s : SstableManager) (names : List Bytes) (size pre_allocation : ℕ)
    → Laid dir s
    → Lists dir s.disk names
    → IsFresh (recover_state dir names s.disk size pre_allocation)
recover_Laid-IsFresh dir s names size pre_allocation laid lists =
    recover_state-IsFresh dir names s.disk size pre_allocation (max_id_below dir s names laid lists)

-- The directory opened again, without allocation in advance, is laid out: runs and restarts go on.
pub recover_state-Laid :
    (dir : Bytes) (s : SstableManager) (names : List Bytes) (size : ℕ)
    → Laid dir s
    → Lists dir s.disk names
    → Laid dir (recover_state dir names s.disk size 0)
unfolding recover_state FilePool.new
recover_state-Laid dir s names size (flushed, waiting, stray, v) lists = (
  ts,
  [],
  [],
  record {
    in_dir = refl;
    with_prefix = refl;
    with_suffix = refl;
    unallocated = refl;
    below = omega arith;
    listed = subst (IsListed dir s.disk (next % u64_mod)) (sym (append-nil ts)) (record {
      named = v.listed.named;
      ordered =
          Ids-max_id 0 s.file_pool.next_id (next % u64_mod) ts (omega arith)
            (omega (arith, same_max, max_id-le 0 s.file_pool.next_id ts v.listed.ordered, v.below))
            v.listed.ordered;
      held = v.listed.held;
      only = v.listed.only;
    });
    pool_is = refl;
    bare = tt;
    settled = λ _. refl;
    answers = λ k. get-recover_state dir names s.disk size 0 ts k sorted v.listed.held;
  },
)
  where
    ts : List Table
    ts = flushed ++ (waiting ++ stray)

    next : ℕ
    next = max_id (found_files dir names) + 1

    sorted : sort_files (found_files dir names) ≡ map file_of ts
    sorted = sort_files-tables dir s.disk s.file_pool.next_id ts names v.listed lists v.below

    same_max : max_id (found_files dir names) ≡ max_id (map file_of ts)
    same_max = sym (max_id-sort_files (found_files dir names)) ∙ ap max_id sorted

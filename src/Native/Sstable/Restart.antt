-- ===== src/Native/Sstable/Restart.antt =====
-- A directory as a run leaves it, opened again.
pub mod Again
use Prim.Native.Nat.{max}
use mathlib.Core.Logic.{∥∥₁_elim}
use mathlib.Core.HLevel.{⊥_prop}
use mathlib.Core.List.{
  Mem, Memᴰ, Perm, Nodup, Nodup-cons, Nodup-nil, append-nil, perm_ext_iff_of_Nodup, mem-cons_of_mem,
  not-mem-nil, dec_mem,
}
use lsmio.Base.{
  ℕ, suc, ◌+◌, ◌%◌, ◌≤◌, ◌<◌, ◌≡◌, ◌≢◌, ◌↔◌, ◌-◌, ◌==◌, ◌||◌, ◌&&◌, blt, refl, sym, ap, ap₂, subst,
  ◌∙◌, false, none, some, List, [], ◌∷◌, ◌++◌, map, arith, Bytes, codes, beq, beq_iff, All, lookup,
  last_lookup, last_lookup-append, ltb, if_cases, Bool-cases, inl, inr,
}
use lsmio.Native.FilePool
use lsmio.Native.FilePool.{Disk, FilePool, path_of, file_name, join, u64_mod}
use lsmio.Native.FilePool.Names.{path_of-injective, join-injective}
use lsmio.Native.FilePool.Order.{Ids}
use lsmio.Native.Sstable.Format.{serialize}
use lsmio.Native.Sstable.Recover.{
  recover_id, insert_file, recover_state, found_files, sort_files, max_id,
}
use lsmio.Native.Sstable.Recover.Names.{recover_id-file_name}
use lsmio.Native.Sstable.Recover.Tables.{
  Table, file_of, IsOn, entries_of, get-recover_state, recover_state-IsFresh,
}
use lsmio.Native.Sstable.Recover.Sorting.{sort_files-Perm, sort_files-Ids}
use lsmio.Native.Sstable.Fresh.{IsFresh}
use lsmio.Native.Sstable.Laid.{IsNamed, id_of, IsListed, Laid, Ids-below}
use lsmio.Native.Sstable.{SstableManager, get}

-- The names that the iterator over a directory gives: each file on disk, once, in some order.
pub record Lists (dir : Bytes) (disk : Disk) (names : List Bytes) : Type 0 where
  pub once : Nodup names
  pub complete : (name : Bytes) → Mem name names ↔ (lookup (join dir name) disk ≢ none)

abbrev name_of : Table → Bytes
name_of t = file_name (codes "L0-") (codes ".sst") t.id

name_path : (dir : Bytes) (t : Table) → IsNamed dir t → join dir (name_of t) ≡ t.path
unfolding path_of
name_path dir t named = sym named

recover_id-name_of : (t : Table) → t.id < u64_mod → recover_id (name_of t) ≡ some t.id
recover_id-name_of t below = recover_id-file_name t.id ∙ ground arith

found_files-tables :
    (dir : Bytes) (lo n : ℕ) (ts : List Table)
    → All (IsNamed dir) ts
    → Ids lo n (map id_of ts)
    → n < u64_mod
    → found_files dir (map name_of ts) ≡ map file_of ts
unfolding found_files
found_files-tables dir lo n [] named ordered below = refl
found_files-tables dir lo n (t ∷ ts) named ordered below =
    let rest = found_files dir (map name_of ts) in
    ap (λ o. elim o [ none ↦ rest | some id ↦ (id, join dir (name_of t)) ∷ rest ])
      (recover_id-name_of t (omega (arith, Ids-below (suc t.id) n (map id_of ts) ordered.1)))
    ∙ ap₂ (λ path files. (t.id, path) ∷ files) (name_path dir t named.0)
        (found_files-tables dir (suc t.id) n ts named.1 ordered.1 below)

-- The names of the tables are different.
new_name :
    (dir : Bytes) (i lo n : ℕ) (ts : List Table)
    → i < lo
    → Ids lo n (map id_of ts)
    → ¬ Memᴰ (file_name (codes "L0-") (codes ".sst") i) (map name_of ts)
new_name dir i lo n [] lt ordered m = not-mem-nil ∣ m ∣₁
new_name dir i lo n (t ∷ ts) lt ordered (Memᴰ.head e) = omega (
  arith,
  path_of-injective dir (codes "L0-") (codes ".sst") i t.id (unfold path_of in ap (join dir) e),
)
new_name dir i lo n (t ∷ ts) lt ordered (Memᴰ.tail m) =
    new_name dir i (suc t.id) n ts (omega arith) ordered.1 m

Nodup-name_of : (lo n : ℕ) (ts : List Table) → Ids lo n (map id_of ts) → Nodup (map name_of ts)
Nodup-name_of lo n [] ordered = Nodup-nil
Nodup-name_of lo n (t ∷ ts) ordered = Nodup-cons.1 (
  λ m. ∥∥₁_elim m ⊥_prop (new_name [] t.id (suc t.id) n ts (omega arith) ordered.1),
  Nodup-name_of (suc t.id) n ts ordered.1,
)

-- Each table's name is one of the disk.
on_disk :
    (dir : Bytes) (disk : Disk) (ts : List Table) (name : Bytes)
    → All (IsNamed dir) ts
    → All (IsOn disk) ts
    → Memᴰ name (map name_of ts)
    → lookup (join dir name) disk ≢ none
on_disk dir disk [] name named on m = absurd (not-mem-nil ∣ m ∣₁)
on_disk dir disk (t ∷ ts) name named on (Memᴰ.head e) =
    let there : lookup (join dir name) disk ≡ some (serialize t.entries) =
      ap (λ p. lookup p disk) (ap (join dir) e ∙ name_path dir t named.0) ∙ on.0.0 in
    λ none_there. ground arith
on_disk dir disk (t ∷ ts) name named on (Memᴰ.tail m) = on_disk dir disk ts name named.1 on.1 m

others_than :
    (dir : Bytes) (ts : List Table) (name : Bytes)
    → All (IsNamed dir) ts
    → ¬ Mem name (map name_of ts)
    → All (λ (t : Table). beq t.path (join dir name) ≡ false) ts
others_than dir [] name named out = tt
others_than dir (t ∷ ts) name named out = (
  elim (Bool-cases (beq t.path (join dir name))) [
    | inl same ↦ absurd (
        out
          ∣ Memᴰ.head (
            sym (
              join-injective dir (name_of t) name
                (name_path dir t named.0 ∙ (beq_iff _ _).0 same))) ∣₁)
    | inr differ ↦ differ
  ],
  others_than dir ts name named.1 (λ m. out (mem-cons_of_mem (name_of t) m)),
)

Bytes-discrete : Discrete Bytes
Bytes-discrete a b = elim (Bool-cases (beq a b)) [
  | inl same ↦ yes ((beq_iff a b).0 same)
  | inr differ ↦ no (λ e. ground (arith, beq_iff a b))
]

ids_of_files : (ts : List Table) → map (λ (f : ℕ × Bytes). f.0) (map file_of ts) ≡ map id_of ts
ids_of_files [] = refl
ids_of_files (t ∷ ts) = ap (◌∷◌ t.id) (ids_of_files ts)

module _ (dir : Bytes) (disk : Disk) (n : ℕ) (ts : List Table) (names : List Bytes)
    (v : IsListed dir disk n ts) (lists : Lists dir disk names) where
  Perm-names : Perm names (map name_of ts)
  Perm-names = (perm_ext_iff_of_Nodup lists.once (Nodup-name_of 0 n ts v.ordered)).1 (λ name. (
    λ m. elim (dec_mem Bytes-discrete name (map name_of ts)) [
      | yes there ↦ there
      | no out ↦
          absurd (
            (lists.complete name).0 m
              (v.only (join dir name) (others_than dir ts name v.named out)))
    ],
    λ m.
        (lists.complete name).1
          (λ e. ∥∥₁_elim m ⊥_prop (λ d. on_disk dir disk ts name v.named v.held d e)),
  ))

  -- What recovery indexes are the tables, in the order of their ids.
  pub sort_files-tables : n < u64_mod → sort_files (found_files dir names) ≡ map file_of ts
  sort_files-tables below =
      sort_files-Perm dir names (map name_of ts) Perm-names
      ∙ ap sort_files (found_files-tables dir 0 n ts v.named v.ordered below)
      ∙ sort_files-Ids (map file_of ts) 0 n (subst (Ids 0 n) (sym (ids_of_files ts)) v.ordered)

pub entries_of-bare :
    (ts us : List Table) (k : Bytes)
    → All (λ (t : Table). t.entries ≡ []) us
    → last_lookup k (entries_of (ts ++ us)) ≡ last_lookup k (entries_of ts)
entries_of-bare [] [] k h = refl
entries_of-bare [] (u ∷ us) k h =
    ap (λ es. last_lookup k (es ++ entries_of us)) h.0 ∙ entries_of-bare [] us k h.1
entries_of-bare (t ∷ ts) us k h = ground (
  arith,
  entries_of-bare ts us k h,
  last_lookup-append k t.entries (entries_of (ts ++ us)),
  last_lookup-append k t.entries (entries_of ts),
)

-- At any moment at which tables, pool and directory are laid out, with empty files waiting in
-- the pool or left over, recovery of the directory, listed in any order, gives SSTables that
-- answer each lookup as the present ones do.
pub get-recover_Laid :
    (dir : Bytes) (s : SstableManager) (names : List Bytes) (size pre_allocation : ℕ) (k : Bytes)
    → Laid dir s
    → Lists dir s.disk names
    → get (recover_state dir names s.disk size pre_allocation) k ≡ get s k
get-recover_Laid dir s names size pre_allocation k (flushed, waiting, stray, v) lists =
    get-recover_state dir names s.disk size pre_allocation (flushed ++ (waiting ++ stray)) k
      (sort_files-tables dir s.disk s.file_pool.next_id (flushed ++ (waiting ++ stray)) names
        v.listed lists v.below)
      v.listed.held
    ∙ entries_of-bare flushed (waiting ++ stray) k v.bare
    ∙ sym (v.answers k)

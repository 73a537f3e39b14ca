-- ===== src/Native/Sstable/Laid.antt =====
-- How the tables, the pool's files and the disk belong together, at any moment of a run.
pub mod Flush
pub mod Replenish
use mathlib.Core.List.{append_assoc, append-nil, map-append}
use lsmio.Base.{
  ℕ, suc, ◌+◌, ◌%◌, ◌≤◌, ◌<◌, ◌≡◌, refl, sym, ap, ap₂, subst, ◌∙◌, Bool, true, false, Option, none,
  some, List, [], ◌∷◌, ◌++◌, map, arith, Bytes, codes, beq, beq_iff, All, All-append, lookup,
  insert, lookup-insert, or_else, last_lookup, last_lookup-append, length, drop, ltb, if_cases,
  if◌then◌else◌, Bool-cases, inl, inr,
}
use lsmio.Native.Memtable
use lsmio.Native.Memtable.{Memtable}
use lsmio.Native.Memtable.Lookup.{get-last_lookup}
use lsmio.Native.FilePool
use lsmio.Native.FilePool.{Disk, FilePool, path_of, u64_mod}
use lsmio.Native.FilePool.Names.{path_of-injective}
use lsmio.Native.FilePool.Order.{Ids}
use lsmio.Native.Sstable.Format.{serialize}
use lsmio.Native.Sstable.Format.Reads.{IsSmall}
use lsmio.Native.Sstable.Recover.Tables.{Table, file_of, IsOn, entries_of}
use lsmio.Native.Sstable.{
  SstableManager, Flushed, write_over, contents, write_table, flush_to, flush_memtable, get,
}

abbrev pub table_path : Bytes → ℕ → Bytes
table_path dir = path_of dir (codes "L0-") (codes ".sst")

abbrev pub IsNamed : Bytes → Table → Type 0
IsNamed dir t = t.path ≡ table_path dir t.id

abbrev pub id_of : Table → ℕ
id_of t = t.id

abbrev pub path_at : Table → Bytes
path_at t = t.path

-- The files on disk are those of the tables, each named by its id, with increasing ids.
pub record IsListed (dir : Bytes) (disk : Disk) (next_id : ℕ) (ts : List Table) : Type 0 where
  pub named : All (IsNamed dir) ts
  pub ordered : Ids 0 next_id (map id_of ts)
  pub held : All (IsOn disk) ts
  pub only : (p : Bytes) → All (λ (t : Table). beq t.path p ≡ false) ts → lookup p disk ≡ none

-- The tables that were flushed, oldest first, the files that wait in the pool, and files that were
-- made while the pool shut down; the last two are empty. No file is allocated in advance.
pub record IsLaid (dir : Bytes) (s : SstableManager) (flushed waiting stray : List Table)
    : Type 0 where
  pub in_dir : s.file_pool.directory ≡ dir
  pub with_prefix : s.file_pool.prefix ≡ codes "L0-"
  pub with_suffix : s.file_pool.suffix ≡ codes ".sst"
  pub unallocated : s.file_pool.pre_allocation_size ≡ 0
  pub below : s.file_pool.next_id < u64_mod
  pub listed : IsListed dir s.disk s.file_pool.next_id (flushed ++ (waiting ++ stray))
  pub pool_is : s.file_pool.pool ≡ map path_at waiting
  pub bare : All (λ (t : Table). t.entries ≡ []) (waiting ++ stray)
  pub settled : s.file_pool.shutdown ≡ false → stray ≡ []
  pub answers : (k : Bytes) → get s k ≡ last_lookup k (entries_of flushed)

abbrev pub Laid : Bytes → SstableManager → Type 0
Laid dir s =
    (flushed : List Table) × (waiting : List Table) × (stray : List Table) × IsLaid dir s flushed
      waiting stray

pub All-split {κ} :
    {A : Type 0} (P : A → Type κ) (xs ys : List A) → All P (xs ++ ys) → All P xs × All P ys
All-split P [] ys h = (tt, h)
All-split P (x ∷ xs) ys h = let (hx, hy) = All-split P xs ys h.1 in ((h.0, hx), hy)

pub Ids-below : (lo hi : ℕ) (is : List ℕ) → Ids lo hi is → lo ≤ hi
Ids-below lo hi [] h = h
Ids-below lo hi (i ∷ is) h = omega (arith, Ids-below (suc i) hi is h.1)

-- The table has another path.
abbrev pub IsOther : Bytes → Table → Type 0
IsOther path t = beq path t.path ≡ false

pub other_path :
    (dir : Bytes) (t u : Table)
    → IsNamed dir t
    → IsNamed dir u
    → t.id < u.id
    → beq t.path u.path ≡ false
other_path dir t u ht hu lt = elim (Bool-cases (beq t.path u.path)) [
  | inl same ↦ absurd (
      omega (
        arith,
        path_of-injective dir (codes "L0-") (codes ".sst") t.id u.id
            (sym ht ∙ (beq_iff _ _).0 same ∙ hu),
      ))
  | inr differ ↦ differ
]

pub beq_comm : (a b : Bytes) → beq a b ≡ false → beq b a ≡ false
beq_comm a b h = ground (arith, beq_iff a b, beq_iff b a)

others_behind :
    (dir : Bytes) (w : Table) (ts : List Table) (lo hi : ℕ)
    → IsNamed dir w
    → All (IsNamed dir) ts
    → w.id < lo
    → Ids lo hi (map id_of ts)
    → All (IsOther w.path) ts
others_behind dir w [] lo hi hw ht lt o = tt
others_behind dir w (t ∷ ts) lo hi hw ht lt o = (
  other_path dir w t hw ht.0 (omega arith),
  others_behind dir w ts (suc t.id) hi hw ht.1 (omega arith) o.1,
)

-- Of tables with increasing ids, the path of one is that of no other.
pub others :
    (dir : Bytes) (xs : List Table) (w : Table) (ys : List Table) (lo hi : ℕ)
    → All (IsNamed dir) (xs ++ w ∷ ys)
    → Ids lo hi (map id_of (xs ++ w ∷ ys))
    → All (IsOther w.path) xs × All (IsOther w.path) ys × (lo ≤ w.id)
others dir [] w ys lo hi named o =
    (tt, others_behind dir w ys (suc w.id) hi named.0 named.1 (omega arith) o.1, o.0)
others dir (x ∷ xs) w ys lo hi named o =
    let (front, back, le) = others dir xs w ys (suc x.id) hi named.1 o.1 in
    let hw = (All-split (IsNamed dir) xs (w ∷ ys) named.1).1.0 in
    (
      (beq_comm x.path w.path (other_path dir x w named.0 hw (omega arith)), front),
      back,
      omega arith,
    )

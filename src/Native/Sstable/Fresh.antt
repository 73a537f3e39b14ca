-- ===== src/Native/Sstable/Fresh.antt =====
-- No file of the pool is already in use: what the flush relies on, kept by every operation.
use lsmio.Base.{
  ℕ, ◌+◌, ◌%◌, ◌≤◌, ◌<◌, ◌≡◌, Bool, true, false, List, [], ◌∷◌, ◌++◌, arith, Bytes, beq, beq_iff,
  All, All-append, length, lookup, ltb, Bool-cases, inl, inr, if_cases,
}
use lsmio.Native.Memtable
use lsmio.Native.Memtable.{Memtable}
use lsmio.Native.FilePool
use lsmio.Native.FilePool.{FilePool, path_of, u64_mod}
use lsmio.Native.FilePool.Names.{path_of-injective}
use lsmio.Native.Sstable.Read.{IsUnused, nodes_get-insert}
use lsmio.Native.Sstable.{
  SstableManager, L0Index, Flushed, returns, blocks, throws, write_table, flush_to, flush_memtable,
  get,
}

abbrev pub pool_path : FilePool → ℕ → Bytes
pool_path fp = path_of fp.directory fp.prefix fp.suffix

-- The path is none that the pool will still make.
abbrev pub IsOld : FilePool → Bytes → Type 0
IsOld fp path = (i : ℕ) → fp.next_id ≤ i → beq (pool_path fp i) path ≡ false

abbrev pub Distinct : List Bytes → Type 0
Distinct [] = Unit
Distinct (p ∷ ps) = All (λ q. beq q p ≡ false) ps × Distinct ps

pub record IsFresh (s : SstableManager) : Type 0 where
  pub unused : All (λ path. IsUnused path s.head) s.file_pool.pool
  pub distinct : Distinct s.file_pool.pool
  pub old_head : All (λ (n : L0Index). IsOld s.file_pool n.path) s.head
  pub old_pool : All (IsOld s.file_pool) s.file_pool.pool

abbrev pub StaysFresh : Flushed → Type 0
StaysFresh (returns b s) = IsFresh s
StaysFresh blocks = Unit
StaysFresh throws = Unit

IsUnused-cons :
    (p : Bytes) (head : List L0Index) (pool : List Bytes)
    → All (λ q. beq q p ≡ false) pool
    → All (λ path. IsUnused path head) pool
    → All (λ path. (beq path p ≡ false) × IsUnused path head) pool
IsUnused-cons p head [] d u = tt
IsUnused-cons p head (q ∷ pool) d u = ((d.0, u.0), IsUnused-cons p head pool d.1 u.1)

hand_out-StaysFresh :
    (s : SstableManager) (m : Memtable) (good : Bool) (pool : List Bytes)
    → All (λ path. IsUnused path s.head) pool
    → Distinct pool
    → All (λ (n : L0Index). IsOld s.file_pool n.path) s.head
    → All (IsOld s.file_pool) pool
    → StaysFresh (flush_to s m good (FilePool.hand_out s.file_pool pool))
unfolding flush_to FilePool.hand_out write_table
hand_out-StaysFresh s m good [] u d oh op =
    if_cases (λ a. StaysFresh (flush_to s m good a)) s.file_pool.shutdown _ _ (λ _. tt) (λ _. tt)
hand_out-StaysFresh s m good (path ∷ rest) u d oh op =
    if_cases StaysFresh good _ _
      (λ _. record {
        unused = IsUnused-cons path s.head rest d.0 u.1;
        distinct = d.1;
        old_head = (op.0, oh);
        old_pool = op.1;
      })
      (λ _. record { unused = u.1; distinct = d.1; old_head = oh; old_pool = op.1 })

-- If the files in the pool are distinct, unused and older than the next id, then so they are
-- after a flush that returns, whether true or false.
pub flush_memtable-StaysFresh :
    (s : SstableManager) (m : Memtable) (good : Bool)
    → IsFresh s
    → StaysFresh (flush_memtable s m good)
unfolding flush_memtable FilePool.acquire
flush_memtable-StaysFresh s m good f =
    if_cases StaysFresh (Memtable.empty m) _ _ (λ _. f)
      (λ _. hand_out-StaysFresh s m good s.file_pool.pool f.unused f.distinct f.old_head f.old_pool)

abbrev pub after_round : SstableManager → FilePool.Round → SstableManager
after_round s (FilePool.Round.ended fp disk) = record s { file_pool = fp; disk = disk }
after_round s FilePool.Round.waits = s
after_round s (FilePool.Round.goes_on fp disk) = record s { file_pool = fp; disk = disk }

-- The worker of the pool makes one more file, or tries to.
unfoldable pub replenish : SstableManager → Bool → Bool → SstableManager
replenish s opens stops = after_round s (FilePool.replenish s.file_pool s.disk opens stops)

All-weaken {κ} :
    {A : Type 0} (P Q : A → Type κ) (l : List A) → ((a : A) → P a → Q a) → All P l → All Q l
All-weaken P Q [] f h = tt
All-weaken P Q (x ∷ l) f h = (f x h.0, All-weaken P Q l f h.1)

Distinct-append :
    (p : Bytes) (ps : List Bytes)
    → All (λ q. beq p q ≡ false) ps
    → Distinct ps
    → Distinct (ps ++ p ∷ [])
Distinct-append p [] h d = (tt, tt)
Distinct-append p (q ∷ ps) h d =
    (All-append (λ r. beq r q ≡ false) ps (p ∷ []) d.0 (h.0, tt), Distinct-append p ps h.1 d.1)

path_ne : (fp : FilePool) (i j : ℕ) → j < i → beq (pool_path fp i) (pool_path fp j) ≡ false
path_ne fp i j h = elim (Bool-cases (beq (pool_path fp i) (pool_path fp j))) [
  | inl same ↦
      absurd (
        omega
          (arith, path_of-injective fp.directory fp.prefix fp.suffix i j ((beq_iff _ _).0 same)))
  | inr differ ↦ differ
]

module _ (s : SstableManager) (below : s.file_pool.next_id + 1 < u64_mod) (f : IsFresh s) where
  abbrev new_id : ℕ
  new_id = (s.file_pool.next_id + 1) % u64_mod

  abbrev new_path : Bytes
  new_path = pool_path s.file_pool s.file_pool.next_id

  abbrev taken : Bool → FilePool
  taken down = record s.file_pool { next_id = new_id; shutdown = down }

  still-IsOld : (p : Bytes) (down : Bool) → IsOld s.file_pool p → IsOld (taken down) p
  still-IsOld p down h i le = h i (omega arith)

  taken-IsFresh :
      (disk : List (Bytes × Bytes)) (down : Bool)
      → IsFresh (record s { file_pool = taken down; disk = disk })
  taken-IsFresh disk down = record {
    unused = f.unused;
    distinct = f.distinct;
    old_head =
        All-weaken (λ (n : L0Index). IsOld s.file_pool n.path)
          (λ (n : L0Index). IsOld (taken down) n.path) s.head (λ n. still-IsOld n.path down)
          f.old_head;
    old_pool =
        All-weaken (IsOld s.file_pool) (IsOld (taken down)) s.file_pool.pool
          (λ p. still-IsOld p down) f.old_pool;
  }

  filled-IsFresh :
      (disk : List (Bytes × Bytes))
      → IsFresh (record s {
        file_pool = record s.file_pool {
          next_id = new_id;
          pool = s.file_pool.pool ++ new_path ∷ [];
        };
        disk = disk;
      })
  filled-IsFresh disk = record {
    unused =
        All-append (λ path. IsUnused path s.head) s.file_pool.pool (new_path ∷ []) f.unused
          (
            All-weaken (λ (n : L0Index). IsOld s.file_pool n.path)
                (λ (n : L0Index). beq new_path n.path ≡ false) s.head
                (λ n h. h s.file_pool.next_id (omega arith)) f.old_head,
            tt,
          );
    distinct =
        Distinct-append new_path s.file_pool.pool
          (All-weaken (IsOld s.file_pool) (λ q. beq new_path q ≡ false) s.file_pool.pool
            (λ q h. h s.file_pool.next_id (omega arith)) f.old_pool)
          f.distinct;
    old_head = (taken-IsFresh disk s.file_pool.shutdown).old_head;
    old_pool =
        All-append (IsOld (taken s.file_pool.shutdown)) s.file_pool.pool (new_path ∷ [])
          (taken-IsFresh disk s.file_pool.shutdown).old_pool
          (λ i le. path_ne s.file_pool i s.file_pool.next_id (omega arith), tt);
  }

  -- While file ids are left, a round of the pool worker, whether the file opens and whether the
  -- pool shuts down meanwhile, keeps the files in the pool distinct, unused and older than the
  -- next id.
  pub replenish-IsFresh : (opens stops : Bool) → IsFresh (replenish s opens stops)
  unfolding replenish FilePool.replenish
  replenish-IsFresh opens stops =
      if_cases P s.file_pool.shutdown _ _ (λ _. f)
        λ _.
          if_cases P (ltb (length s.file_pool.pool) s.file_pool.pool_size) _ _
            (λ _.
              if_cases P opens _ _
                (λ _. if_cases P stops _ _ (λ _. taken-IsFresh _ true) (λ _. filled-IsFresh _))
                (λ _. taken-IsFresh _ s.file_pool.shutdown))
            (λ _. f)
    where
      P : FilePool.Round → Type 0
      P r = IsFresh (after_round s r)

IsOld-IsUnused :
    (s : SstableManager) (nodes : List L0Index)
    → All (λ (n : L0Index). IsOld s.file_pool n.path) nodes
    → IsUnused (pool_path s.file_pool s.file_pool.next_id) nodes
IsOld-IsUnused s nodes =
    All-weaken (λ (n : L0Index). IsOld s.file_pool n.path)
      (λ (n : L0Index). beq (pool_path s.file_pool s.file_pool.next_id) n.path ≡ false) nodes
      (λ n h. h s.file_pool.next_id (omega arith))

-- The worker's new file changes no lookup.
pub get-replenish :
    (s : SstableManager) (opens stops : Bool) (k : Bytes)
    → IsFresh s
    → get (replenish s opens stops) k ≡ get s k
unfolding replenish FilePool.replenish FilePool.prepare get
get-replenish s opens stops k f = ground (
  arith,
  nodes_get-insert s.disk path [] k s.head unused,
  nodes_get-insert s.disk path allocated k s.head unused,
)
  where
    path : Bytes
    path = pool_path s.file_pool s.file_pool.next_id

    allocated : Bytes
    allocated = FilePool.allocate s.file_pool.pre_allocation_size (lookup path s.disk)

    unused : IsUnused path s.head
    unused = IsOld-IsUnused s s.head f.old_head

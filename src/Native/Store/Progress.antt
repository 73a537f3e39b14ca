-- ===== src/Native/Store/Progress.antt =====
-- The flush thread and the pool's worker can always bring a barrier, and `close`, to its end.
pub mod Flushing
pub mod Ends
pub mod Close
use lsmio.Base.{
  ℕ, zero, suc, ◌+◌, ◌%◌, ◌<◌, ◌≡◌, refl, sym, ap, subst, ◌∙◌, Bool, true, false, not, ◌&&◌, ◌||◌,
  Option, none, some, List, [], ◌∷◌, ◌++◌, arith, Bytes, length, ltb, if_cases, if◌then◌else◌,
}
use lsmio.Native.Memtable
use lsmio.Native.Memtable.{Memtable}
use lsmio.Native.FilePool
use lsmio.Native.FilePool.{FilePool, u64_mod}
use lsmio.Native.Sstable
use lsmio.Native.Sstable.{SstableManager, Flushed, write_table, flush_to, flush_memtable}
use lsmio.Native.Sstable.Fresh.{after_round, replenish}
use lsmio.Native.Store.{
  Store, rotate, take_oldest, take, done, after_flush, finish, begin_barrier, barrier_done,
  flush_memtable_to_l0,
}
use lsmio.Native.Store.Events.{
  Event, takes, finishes, replenishes, begins_barrier, begins_close, joins, collects, drains, step,
  begin_close, join, collect, drain, after_drain, drain_oldest, is_drained,
}
use lsmio.Native.Store.Tracked.{IsTracked}
use lsmio.Native.Store.Runs.{Runs, start, next}

-- The pool is up, has room for a file, and `n` more ids.
pub record IsStocked (n : ℕ) (fp : FilePool) : Type 0 where
  pub up : fp.shutdown ≡ false
  pub sized : 0 < fp.pool_size
  pub ids : fp.next_id + n < u64_mod

-- A flush with a file in the pool returns, and leaves the pool's ids alone.
unfoldable pub Returns : ℕ → Flushed → Type 0
Returns n (Flushed.returns b t) = IsStocked n t.file_pool
Returns n Flushed.throws = ⊥
Returns n Flushed.blocks = ⊥

pub flush_memtable_to_l0-Returns :
    (n : ℕ) (s : SstableManager) (m : Memtable) (path : Bytes) (rest : List Bytes)
    → s.file_pool.pool ≡ path ∷ rest
    → IsStocked n s.file_pool
    → Returns n (flush_memtable_to_l0 s m true)
unfolding Returns flush_memtable_to_l0 flush_memtable flush_to FilePool.acquire FilePool.hand_out
    write_table
flush_memtable_to_l0-Returns n s m path rest e h =
    if_cases (Returns n) (Memtable.empty m) _ _ (λ _. h)
      (λ _.
        if_cases (Returns n) (Memtable.empty m) _ _ (λ _. h)
          (λ _.
            subst (λ pool. Returns n (flush_to s m true (FilePool.hand_out s.file_pool pool)))
              (sym e) (record { up = h.up; sized = h.sized; ids = h.ids })))

-- The worker, with no file in the pool, makes one.
pub replenish_fills :
    (n : ℕ) (s : SstableManager)
    → s.file_pool.pool ≡ []
    → IsStocked (suc n) s.file_pool
    → IsStocked n (replenish s true false).file_pool
      × ((path : Bytes) × ((replenish s true false).file_pool.pool ≡ path ∷ []))
unfolding replenish FilePool.replenish
replenish_fills n s e h =
    if_cases P s.file_pool.shutdown _ _ (λ down. ground (arith, h.up, down))
      (λ _.
        if_cases P (ltb (length s.file_pool.pool) s.file_pool.pool_size) _ _
          (λ _. (
            record { up = h.up; sized = h.sized; ids = omega (arith, h.ids) },
            (made, ap (λ pool. pool ++ made ∷ []) e),
          ))
          (λ full. ground (arith, e, h.sized, full)))
  where
    made : Bytes
    made =
        FilePool.path_of s.file_pool.directory s.file_pool.prefix s.file_pool.suffix
          s.file_pool.next_id

    P : FilePool.Round → Type 0
    P r =
        IsStocked n (after_round s r).file_pool
        × ((path : Bytes) × ((after_round s r).file_pool.pool ≡ path ∷ []))

-- A file for each table, and `n` more.
abbrev pub files_for : List Memtable → ℕ → ℕ
files_for [] n = n
files_for (m ∷ ms) n = suc (files_for ms n)

-- `u` is `t` with no table in flight, the tables `ms` in the list, and ids left for `n` files.
pub record Lull (t : Store) (n : ℕ) (ms : List Memtable) (u : Store) : Type 0 where
  pub landed : u.in_flight ≡ none
  pub flag : u.flush_in_progress ≡ false
  pub tables : u.immutables ≡ ms
  pub same_active : u.active ≡ t.active
  pub same_waiting : u.waiting ≡ t.waiting
  pub same_thread : u.flush_thread_up ≡ t.flush_thread_up
  pub same_closing : u.closing ≡ t.closing
  pub same_shutting_down : u.shutting_down ≡ t.shutting_down
  pub stocked : IsStocked n u.sstables.file_pool

unfoldable pub Lulls : Store → Store → ℕ → List Memtable → Type 0
Lulls s t n ms = (u : Store) × Runs s [] u × Lull t n ms u

pub takes_table :
    (t : Store) (m : Memtable) (rest : List Memtable)
    → t.flush_thread_up ≡ true
    → t.in_flight ≡ none
    → t.immutables ≡ m ∷ rest
    → step t takes
      ≡ some (record t { immutables = rest; in_flight = some m; flush_in_progress = true })
unfolding step take take_oldest
takes_table t m rest up landed e =
    ap (λ b. if b then take t else none) up
    ∙ ap (λ f. elim f [ none ↦ take_oldest t t.immutables | some m ↦ none ]) landed
    ∙ ap (take_oldest t) e

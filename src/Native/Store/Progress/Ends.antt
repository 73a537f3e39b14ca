-- ===== src/Native/Store/Progress/Ends.antt =====
-- A barrier, and `close`, can always end.
use lsmio.Base.{
  ℕ, suc, ◌≡◌, refl, sym, ap, subst, ◌∙◌, Bool, true, false, not, Option, none, some, List, [], ◌∷◌,
  ◌++◌, arith, if_cases, if◌then◌else◌,
}
use lsmio.Native.Memtable
use lsmio.Native.Memtable.{Memtable}
use lsmio.Native.FilePool.{FilePool}
use lsmio.Native.Store.{Store, rotate, begin_barrier, barrier_done}
use lsmio.Native.Store.Events.{begins_barrier, step}
use lsmio.Native.Store.Tracked.{IsTracked}
use lsmio.Native.Store.Runs.{Runs, start, next, Runs-IsTracked}
use lsmio.Native.Store.Progress.{IsStocked, files_for, Lull, Lulls}
use lsmio.Native.Store.Progress.Flushing.{Lulls-trans, flight-Lulls, tables-Lull}

files_for-append :
    (ms : List Memtable) (m : Memtable) (n : ℕ) → files_for (ms ++ m ∷ []) n ≡ suc (files_for ms n)
files_for-append [] m n = refl
files_for-append (x ∷ ms) m n = ap suc (files_for-append ms m n)

pub IsStocked-weaken : (n : ℕ) (fp : FilePool) → IsStocked (suc n) fp → IsStocked n fp
IsStocked-weaken n fp h = record { up = h.up; sized = h.sized; ids = omega (arith, h.ids) }

-- The flush thread ends all its work.
pub idle-Lulls :
    (s t : Store) (n : ℕ)
    → Runs s [] t
    → IsTracked t
    → t.flush_thread_up ≡ true
    → IsStocked (suc (files_for t.immutables n)) t.sstables.file_pool
    → Lulls s t n []
unfolding Lulls
idle-Lulls s t n r tracked up h = go t.in_flight refl
  where
    go : (f : Option Memtable) → t.in_flight ≡ f → Lulls s t n []
    go none e = tables-Lull s n t.immutables t r up (record {
      landed = e;
      flag = ground (arith, tracked.flag, e);
      tables = refl;
      same_active = refl;
      same_waiting = refl;
      same_thread = refl;
      same_closing = refl;
      same_shutting_down = refl;
      stocked = IsStocked-weaken (files_for t.immutables n) t.sstables.file_pool h;
    })
    go (some m) e =
        let (u, ran, l) = flight-Lulls s (files_for t.immutables n) t m r e h in
        Lulls-trans s t u (files_for t.immutables n) t.immutables l n [] (
          tables-Lull s n t.immutables u ran (l.same_thread ∙ up) (record {
            landed = l.landed;
            flag = l.flag;
            tables = l.tables;
            same_active = refl;
            same_waiting = refl;
            same_thread = refl;
            same_closing = refl;
            same_shutting_down = refl;
            stocked = l.stocked;
          }))

begin_barrier-IsStocked :
    (s : Store) (n : ℕ)
    → IsStocked (suc (suc (files_for s.immutables n))) s.sstables.file_pool
    → IsStocked
        (suc (files_for (begin_barrier s).immutables n))
        (begin_barrier s).sstables.file_pool
unfolding begin_barrier rotate
begin_barrier-IsStocked s n h =
    if_cases (λ (t : Store). IsStocked (suc (files_for t.immutables n)) t.sstables.file_pool)
      (Memtable.empty s.active) _ _
      (λ _. IsStocked-weaken (suc (files_for s.immutables n)) s.sstables.file_pool h)
      (λ _.
        subst (λ l. IsStocked (suc l) s.sstables.file_pool)
          (sym (files_for-append s.immutables s.active n)) h)

begin_barrier-parts :
    (s : Store)
    → (Memtable.empty (begin_barrier s).active ≡ true)
      × (((begin_barrier s).waiting ≡ s.waiting)
          × ((begin_barrier s).flush_thread_up ≡ s.flush_thread_up))
unfolding begin_barrier rotate
begin_barrier-parts s =
    if_cases
      (λ (t : Store).
        (Memtable.empty t.active ≡ true)
        × ((t.waiting ≡ s.waiting) × (t.flush_thread_up ≡ s.flush_thread_up)))
      (Memtable.empty s.active) _ _ (λ bare. (bare, (refl, refl))) (λ _. (refl, (refl, refl)))

pub still_open : (s : Store) → IsTracked s → s.flush_thread_up ≡ true → s.closing ≡ false
still_open s tracked up = go s.closing refl
  where
    go : (b : Bool) → s.closing ≡ b → s.closing ≡ false
    go false e = e
    go true e = ground (arith, tracked.joined e, up)

-- From a tracked store with its flush thread, a pool that is up, has a positive size and ids for
-- a file for each table and two more, there is a benign run that writes nothing, wakes no
-- waiting writer and reaches a state in which the condition of writeBarrier holds and the active
-- table is empty.
pub write_barrier_ends :
    (s : Store)
    → IsTracked s
    → s.flush_thread_up ≡ true
    → IsStocked (suc (suc (files_for s.immutables 0))) s.sstables.file_pool
    → (t : Store) × Runs s [] t
      × (barrier_done t ≡ true)
      × (Memtable.empty t.active ≡ true)
      × (t.waiting ≡ s.waiting)
unfolding step Lulls
write_barrier_ends s tracked up h =
    (t, ran, done, ends, l.same_waiting ∙ (begin_barrier-parts s).1.0)
  where
    began : Runs s [] (begin_barrier s)
    began =
        next begins_barrier start tt
          (ap (λ b. if b then none else some (begin_barrier s)) (still_open s tracked up))

    reached : (t : Store) × Runs s [] t × Lull (begin_barrier s) 0 [] t
    reached =
        idle-Lulls s (begin_barrier s) 0 began (Runs-IsTracked tracked began)
          ((begin_barrier-parts s).1.1 ∙ up) (begin_barrier-IsStocked s 0 h)

    t : Store
    t = reached.0

    ran : Runs s [] t
    ran = reached.1

    l : Lull (begin_barrier s) 0 [] t
    l = reached.2

    done : barrier_done t ≡ true
    done =
        ap (λ ms. elim ms [ [] ↦ not t.flush_in_progress | ◌∷◌ m ms ↦ false ]) l.tables
        ∙ ap not l.flag

    ends : Memtable.empty t.active ≡ true
    ends = ap Memtable.empty l.same_active ∙ (begin_barrier-parts s).0

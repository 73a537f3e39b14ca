-- ===== src/Native/Store/Sessions.antt =====
-- A database over several lives of its store: run, closed, opened again.
use lsmio.Base.{
  ℕ, ◌≡◌, refl, sym, ap, ◌∙◌, true, none, List, [], ◌++◌, Bytes, lookup, or_else, last_lookup,
  last_lookup-append, arith,
}
use lsmio.Native.Memtable
use lsmio.Native.Memtable.{Memtable}
use lsmio.Native.Sstable
use lsmio.Native.Sstable.Laid.{Laid}
use lsmio.Native.Sstable.Restart.{Lists, get-recover_Laid}
use lsmio.Native.Sstable.Restart.Again.{recover_state-Laid, recover_Laid-IsFresh}
use lsmio.Native.Store
use lsmio.Native.Store.{Store, visible, tables_get}
use lsmio.Native.Store.Events.{is_drained}
use lsmio.Native.Store.Tracked.{IsTracked}
use lsmio.Native.Store.View.{view, or_else_assoc, get-view}
use lsmio.Native.Store.Runs.{Runs, Runs-Moves}
use lsmio.Native.Store.Runs.Writers.{IsSound}
use lsmio.Native.Store.Durable.{get-Runs_close}
use lsmio.Native.Store.Reopen.{reopen, Runs-Laid}

-- A store on the directory, as it may be when its life begins.
pub record IsReady (dir : Bytes) (s : Store) : Type 0 where
  pub sound : IsSound s
  pub tracked : IsTracked s
  pub laid : Laid dir s.sstables

reopen-IsReady :
    (dir : Bytes) (names : List Bytes) (t : Store) (buffer_size buffers size : ℕ)
    → Laid dir t.sstables
    → Lists dir t.sstables.disk names
    → IsReady dir (reopen dir names t.sstables.disk buffer_size buffers size 0)
unfolding reopen Store.new
reopen-IsReady dir names t buffer_size buffers size laid lists = record {
  sound = record {
    fresh = recover_Laid-IsFresh dir t.sstables names size 0 laid lists;
    small_active = tt;
    small_immutables = tt;
    small_flight = tt;
    small_waiting = tt;
  };
  tracked = record {
    flag = refl;
    grounded = λ _. refl;
    joined = λ e. absurd (ground (arith, e));
    emptied = λ _. refl;
  };
  laid = recover_state-Laid dir t.sstables names size laid lists;
}

view-reopen :
    (dir k : Bytes) (names : List Bytes) (t : Store) (buffer_size buffers size : ℕ)
    → Laid dir t.sstables
    → Lists dir t.sstables.disk names
    → view (reopen dir names t.sstables.disk buffer_size buffers size 0) k
      ≡ Sstable.get t.sstables k
unfolding reopen view Store.new tables_get Memtable.get lookup
view-reopen dir k names t buffer_size buffers size laid lists =
    get-recover_Laid dir t.sstables names size 0 k laid lists

-- The lives of a database, with all that was written in them, in order. A life is any run that
-- ends in a finished `close`; the next store opens what it left, whatever its buffers and pool.
pub data Sessions (dir : Bytes) (s : Store) : List (Bytes × Bytes) → Store → Type 0 where
  first : Sessions dir s [] s
  life :
      {c d : List (Bytes × Bytes)} {t u : Store} (names : List Bytes) (buffer_size buffers size : ℕ)
      → Sessions dir s c t
      → Runs t d u
      → is_drained u ≡ true
      → Lists dir u.sstables.disk names
      → Sessions dir s (c ++ d) (reopen dir names u.sstables.disk buffer_size buffers size 0)

Sessions-IsReady :
    {dir : Bytes} {s t : Store} {c : List (Bytes × Bytes)}
    → IsReady dir s
    → Sessions dir s c t
    → IsReady dir t
Sessions-IsReady h first = h
Sessions-IsReady {dir} h (life {t} {u} names buffer_size buffers size before r drained lists) =
    let ready = Sessions-IsReady h before in
    reopen-IsReady dir names u buffer_size buffers size
      (Runs-Laid dir ready.sound ready.tracked ready.laid r) lists

Sessions-view :
    {dir : Bytes} {s t : Store} {c : List (Bytes × Bytes)} (k : Bytes)
    → IsReady dir s
    → Sessions dir s c t
    → view t k ≡ or_else (last_lookup k c) (view s k)
unfolding last_lookup
Sessions-view k h first = refl
Sessions-view {dir} {s} k h
      (life {c} {d} {t} {u} names buffer_size buffers size before r drained lists) =
    let ready = Sessions-IsReady h before in
    view-reopen dir k names u buffer_size buffers size
      (Runs-Laid dir ready.sound ready.tracked ready.laid r) lists
    ∙ get-Runs_close k ready.sound ready.tracked r drained
    ∙ ap (or_else (last_lookup k d)) (Sessions-view k h before)
    ∙ sym (or_else_assoc (last_lookup k d) (last_lookup k c) (view s k))
    ∙ ap (λ o. or_else o (view s k)) (sym (last_lookup-append k c d))

-- Take a store whose tables, pool and directory are laid out as a fresh or reopened store has
-- them, any lives of the database after it (a benign run that ends in a finished close, then a
-- store opened on the files left, nothing preallocated), and a benign run of the last store to a
-- state with no table in flight. Then `get` returns what was written last for the key in all of
-- these, or what the first store held; a tombstone reads as no value.
pub get-Sessions :
    {dir : Bytes} {s t u : Store} {c d : List (Bytes × Bytes)} (k : Bytes)
    → IsReady dir s
    → Sessions dir s c t
    → Runs t d u
    → u.in_flight ≡ none
    → Store.get u k ≡ visible (or_else (last_lookup k (c ++ d)) (view s k))
get-Sessions {s} {u} {c} {d} k h before r landed =
    let ready = Sessions-IsReady h before in
    get-view u k landed
    ∙ ap visible (
        (Runs-Moves ready.sound ready.tracked r).views k
        ∙ ap (or_else (last_lookup k d)) (Sessions-view k h before)
        ∙ sym (or_else_assoc (last_lookup k d) (last_lookup k c) (view s k))
        ∙ ap (λ o. or_else o (view s k)) (sym (last_lookup-append k c d)))

-- ===== src/Native/Store/Runs/Writers.antt =====
-- What writers and barriers do to the store, one step at a time.
use lsmio.Base.{
  ℕ, zero, suc, ◌≡◌, refl, ◌∙◌, Bool, true, false, ◌&&◌, Option, none, some, List, [], ◌∷◌, arith,
  Bytes, All, All-append, or_else, last_lookup, if_cases, if◌then◌else◌,
}
use lsmio.Native.Memtable
use lsmio.Native.Memtable.{Memtable}
use lsmio.Native.Sstable.Format.Reads.{IsSmall}
use lsmio.Native.Sstable.Fresh.{IsFresh}
use lsmio.Native.Store.{
  Store, MutationType, actual_value, rotate, write_active, is_full, must_rotate, enqueue,
  batch_mutation, pick, resume_with, resume, begin_barrier,
}
use lsmio.Native.Store.View.{view, view-rotate, view-write_active}

abbrev pub IsSmallTable : Memtable → Type 0
IsSmallTable m = All IsSmall m.entries

abbrev pub IsSmallFlight : Option Memtable → Type 0
IsSmallFlight none = Unit
IsSmallFlight (some m) = IsSmallTable m

pub record IsSound (s : Store) : Type 0 where
  pub fresh : IsFresh s.sstables
  pub small_active : IsSmallTable s.active
  pub small_immutables : All IsSmallTable s.immutables
  pub small_flight : IsSmallFlight s.in_flight
  pub small_waiting : All IsSmall s.waiting

-- From `s` to `t` the pairs `c` were written, the last one last.
pub record Moves (s : Store) (c : List (Bytes × Bytes)) (t : Store) : Type 0 where
  pub sound : IsSound t
  pub views : (k : Bytes) → view t k ≡ or_else (last_lookup k c) (view s k)

abbrev pub MovesIf : Store → List (Bytes × Bytes) → Option Store → Type 0
MovesIf s c none = Unit
MovesIf s c (some t) = Moves s c t

pub stays : (s t : Store) → IsSound t → ((k : Bytes) → view t k ≡ view s k) → Moves s [] t
unfolding last_lookup
stays s t v h = record { sound = v; views = h }

write_active-Moves :
    (s t : Store) (k v : Bytes)
    → IsSound t
    → IsSmall (k, v)
    → ((j : Bytes) → view t j ≡ view s j)
    → Moves s ((k, v) ∷ []) (write_active t k v)
unfolding write_active Memtable.add last_lookup
write_active-Moves s t k v h small e = record {
  sound = record {
    fresh = h.fresh;
    small_active = All-append IsSmall t.active.entries ((k, v) ∷ []) h.small_active (small, tt);
    small_immutables = h.small_immutables;
    small_flight = h.small_flight;
    small_waiting = h.small_waiting;
  };
  views = λ j. ground (arith, view-write_active t k v j, e j);
}

rotate-IsSound : (s : Store) → IsSound s → IsSound (rotate s)
unfolding rotate
rotate-IsSound s h = record {
  fresh = h.fresh;
  small_active = tt;
  small_immutables =
      All-append IsSmallTable s.immutables (s.active ∷ []) h.small_immutables (h.small_active, tt);
  small_flight = h.small_flight;
  small_waiting = h.small_waiting;
}

enqueue-Moves : (s : Store) (k v : Bytes) → IsSound s → IsSmall (k, v) → Moves s [] (enqueue s k v)
unfolding enqueue view
enqueue-Moves s k v h small =
    stays s (enqueue s k v)
      (record {
        fresh = h.fresh;
        small_active = h.small_active;
        small_immutables = h.small_immutables;
        small_flight = h.small_flight;
        small_waiting = All-append IsSmall s.waiting ((k, v) ∷ []) h.small_waiting (small, tt);
      })
      (λ j. refl)

-- What a mutation writes before it waits.
abbrev pub written : Store → MutationType → Bytes → Bytes → List (Bytes × Bytes)
written s kind k value =
    let v = actual_value kind value in if must_rotate s k v && is_full s then [] else (k, v) ∷ []

pub batch_mutation-Moves :
    (s : Store) (kind : MutationType) (k value : Bytes)
    → IsSound s
    → IsSmall (k, actual_value kind value)
    → Moves s (written s kind k value) (batch_mutation s kind k value)
unfolding batch_mutation
batch_mutation-Moves s kind k value h small = go (must_rotate s k v) (is_full s)
  where
    v : Bytes
    v = actual_value kind value

    go :
        (full waits : Bool)
        → Moves s (if full && waits then [] else (k, v) ∷ []) (
            if full
            then if waits then enqueue s k v else write_active (rotate s) k v
            else write_active s k v)
    go true true = enqueue-Moves s k v h small
    go true false = write_active-Moves s (rotate s) k v (rotate-IsSound s h) small (view-rotate s)
    go false waits = write_active-Moves s s k v h small (λ j. refl)

-- What a waiting writer writes when it goes on.
abbrev pub picked : Option ((Bytes × Bytes) × List (Bytes × Bytes)) → List (Bytes × Bytes)
picked none = []
picked (some (w, rest)) = w ∷ []

abbrev PickedSmall : Option ((Bytes × Bytes) × List (Bytes × Bytes)) → Type 0
PickedSmall none = Unit
PickedSmall (some (w, rest)) = IsSmall w × All IsSmall rest

pick-PickedSmall : (i : ℕ) (ws : List (Bytes × Bytes)) → All IsSmall ws → PickedSmall (pick i ws)
unfolding pick
pick-PickedSmall i [] a = tt
pick-PickedSmall zero (w ∷ ws) a = a
pick-PickedSmall (suc i) (w ∷ ws) a = go (pick i ws) (pick-PickedSmall i ws a.1)
  where
    go :
        (p : Option ((Bytes × Bytes) × List (Bytes × Bytes)))
        → PickedSmall p
        → PickedSmall (elim p [ none ↦ none | some (x, rest) ↦ some (x, w ∷ rest) ])
    go none h = tt
    go (some (x, rest)) h = (h.0, (a.0, h.1))

resume_with-Moves :
    (s : Store) (p : Option ((Bytes × Bytes) × List (Bytes × Bytes)))
    → IsSound s
    → PickedSmall p
    → MovesIf s (picked p) (resume_with s p)
unfolding resume_with
resume_with-Moves s none h small = tt
resume_with-Moves s (some ((k, v), rest)) h small =
    if_cases (MovesIf s ((k, v) ∷ [])) (is_full s) _ _ (λ _. tt)
      (λ _.
        write_active-Moves s (rotate ready) k v (rotate-IsSound ready ready_sound) small.0
          (λ j. view-rotate ready j ∙ unfold view in refl))
  where
    ready : Store
    ready = record s { waiting = rest }

    ready_sound : IsSound ready
    ready_sound = record {
      fresh = h.fresh;
      small_active = h.small_active;
      small_immutables = h.small_immutables;
      small_flight = h.small_flight;
      small_waiting = small.1;
    }

pub resume-Moves :
    (s : Store) (i : ℕ) → IsSound s → MovesIf s (picked (pick i s.waiting)) (resume s i)
unfolding resume
resume-Moves s i h =
    resume_with-Moves s (pick i s.waiting) h (pick-PickedSmall i s.waiting h.small_waiting)

pub begin_barrier-Moves : (s : Store) → IsSound s → Moves s [] (begin_barrier s)
unfolding begin_barrier
begin_barrier-Moves s h =
    if_cases (Moves s []) (Memtable.empty s.active) s (rotate s) (λ _. stays s s h (λ k. refl))
      (λ _. stays s (rotate s) (rotate-IsSound s h) (view-rotate s))

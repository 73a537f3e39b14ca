-- ===== src/Native/FileCloser/Order.antt =====
-- Every scheduled file is closed, once and in the order of the calls.
use mathlib.Core.List.{append_assoc, append-nil}
use lsmio.Base.{
  ℕ, ◌≡◌, refl, sym, ap, ◌∙◌, ◌||◌, ◌&&◌, List, [], ◌∷◌, ◌++◌, Bytes, leb, length, if_cases,
}
use lsmio.Native.FileCloser.{
  FileCloser, new, schedule_close, Round, waits, returns, closes, worker, close_remaining,
}

pub data Event : Type 0 where
  schedules : Bytes → Event
  works : Event

abbrev after_round : FileCloser → Round → FileCloser
after_round c waits = c
after_round c returns = c
after_round c (closes c') = c'

pub step : FileCloser → Event → FileCloser
step c (schedules file) = schedule_close c file
step c works = after_round c (worker c)

pub run : FileCloser → List Event → FileCloser
run c [] = c
run c (e ∷ es) = run (step c e) es

-- The files of the calls of scheduleClose.
abbrev pub scheduled : List Event → List Bytes
scheduled [] = []
scheduled (schedules file ∷ es) = file ∷ scheduled es
scheduled (works ∷ es) = scheduled es

abbrev all_files : FileCloser → List Bytes
all_files c = c.closed ++ c.pending

all_files-works : (c : FileCloser) → all_files (after_round c (worker c)) ≡ all_files c
unfolding worker
all_files-works c =
    if_cases (λ r. all_files (after_round c r) ≡ all_files c)
      (leb c.batch_size (length c.pending) || c.shutdown) _ _
      (λ _.
        if_cases (λ r. all_files (after_round c r) ≡ all_files c) (c.shutdown && _) _ _ (λ _. refl)
          (λ _. append-nil (c.closed ++ c.pending)))
      (λ _. refl)

all_files-run :
    (c : FileCloser) (es : List Event) → all_files (run c es) ≡ all_files c ++ scheduled es
unfolding run step schedule_close
all_files-run c [] = sym (append-nil (all_files c))
all_files-run c (schedules file ∷ es) =
    all_files-run (schedule_close c file) es
    ∙ ap (λ l. l ++ scheduled es) (sym (append_assoc c.closed c.pending (file ∷ [])))
    ∙ append_assoc (all_files c) (file ∷ []) (scheduled es)
all_files-run c (works ∷ es) =
    all_files-run (after_round c (worker c)) es ∙ ap (λ l. l ++ scheduled es) (all_files-works c)

-- However the calls of scheduleClose and the rounds of the worker interleave, the destructor
-- leaves exactly the scheduled files closed, each as often as it was scheduled and in the order
-- of the calls.
pub closed-close_remaining :
    (batch_size : ℕ) (es : List Event)
    → (close_remaining (run (new batch_size) es)).closed ≡ scheduled es
unfolding close_remaining new
closed-close_remaining batch_size es = all_files-run (new batch_size) es

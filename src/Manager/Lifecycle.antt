-- ===== src/Manager/Lifecycle.antt =====
-- The one manager of a process: `initialize`, `getManager` and `cleanup` of lib/manager/manager.cpp.
-- The calls come one after the other; a manager is the number of its construction.
use lsmio.Base.{
  ℕ, ◌+◌, ◌≡◌, refl, Bool, true, false, not, ◌||◌, Option, none, some, List, [], ◌∷◌, arith,
  if◌then◌else◌,
}

pub record Lifecycle : Type 0 where
  pub lm : Option ℕ
  pub initialized : Bool
  pub initializing : Bool
  pub cleaning : Bool
  pub constructed : ℕ

abbrev pub start : Lifecycle
start = record {
  lm = none;
  initialized = false;
  initializing = false;
  cleaning = false;
  constructed = 0;
}

pub data Initialized : Type 0 where
  null : Initialized
  manager : ℕ → Initialized
  throws : Initialized

-- `constructs` says whether the constructor returns; if it throws, so does `initialize`.
unfoldable pub initialize : Lifecycle → Bool → Lifecycle × Initialized
initialize s constructs =
    if s.initialized
    then (s, null)
    else if s.initializing
    then (s, null)
    else if constructs
    then (
      record s {
        lm = some s.constructed;
        initialized = true;
        initializing = false;
        constructed = s.constructed + 1;
      },
      manager s.constructed,
    )
    else (record s { initializing = true }, throws)

unfoldable pub get_manager : Lifecycle → Option ℕ
get_manager s =
    if not s.initialized || s.initializing then none else if s.cleaning then none else s.lm

unfoldable pub cleanup : Lifecycle → Lifecycle × Bool
cleanup s =
    if not s.initialized || s.initializing
    then (s, false)
    else if s.cleaning
    then (s, false)
    else (record s { lm = none; initialized = false; cleaning = false }, true)

pub data Call : Type 0 where
  initializes : Bool → Call
  cleans_up : Call

pub step : Lifecycle → Call → Lifecycle
step s (initializes constructs) = (initialize s constructs).0
step s cleans_up = (cleanup s).0

pub run : Lifecycle → List Call → Lifecycle
run s [] = s
run s (c ∷ cs) = run (step s c) cs

pub exists : Option ℕ → Bool
exists none = false
exists (some _) = true

-- The flags and the pointer agree.
pub record IsConsistent (s : Lifecycle) : Type 0 where
  pub held : exists s.lm ≡ s.initialized
  pub settled : s.initialized ≡ true → s.initializing ≡ false
  pub idle : s.cleaning ≡ false

pub start-IsConsistent : IsConsistent start
unfolding exists
start-IsConsistent = record { held = refl; settled = λ _. refl; idle = refl }

step-IsConsistent : (s : Lifecycle) (c : Call) → IsConsistent s → IsConsistent (step s c)
unfolding step initialize cleanup exists
step-IsConsistent s (initializes constructs) h = record {
  held = ground arith;
  settled = ground arith;
  idle = ground arith;
}
step-IsConsistent s cleans_up h = record {
  held = ground arith;
  settled = ground arith;
  idle = ground arith;
}

-- From a consistent state, any calls of initialize, its constructor returning or throwing, and
-- of cleanup keep it so: the manager exists exactly while initialized is set, initializing is
-- clear then, and cleaning is clear.
pub run-IsConsistent : (s : Lifecycle) (cs : List Call) → IsConsistent s → IsConsistent (run s cs)
unfolding run
run-IsConsistent s [] h = h
run-IsConsistent s (c ∷ cs) h = run-IsConsistent (step s c) cs (step-IsConsistent s c h)

-- In such a state getManager returns the manager's pointer, whatever the flags are.
pub get_manager_lem : (s : Lifecycle) → IsConsistent s → get_manager s ≡ s.lm
unfolding get_manager exists
get_manager_lem s h = ground (arith)

pub record IsStuck (s : Lifecycle) : Type 0 where
  pub uninitialized : s.initialized ≡ false
  pub began : s.initializing ≡ true

step-IsStuck : (s : Lifecycle) (c : Call) → IsStuck s → IsStuck (step s c)
unfolding step initialize cleanup
step-IsStuck s (initializes constructs) h = record {
  uninitialized = ground arith;
  began = ground arith;
}
step-IsStuck s cleans_up h = record { uninitialized = ground arith; began = ground arith }

run-IsStuck : (s : Lifecycle) (cs : List Call) → IsStuck s → IsStuck (run s cs)
unfolding run
run-IsStuck s [] h = h
run-IsStuck s (c ∷ cs) h = run-IsStuck (step s c) cs (step-IsStuck s c h)

throws-IsStuck : (s : Lifecycle) → s.initialized ≡ false → IsStuck (initialize s false).0
unfolding initialize
throws-IsStuck s free = record { uninitialized = ground arith; began = ground arith }

refused : (s : Lifecycle) (constructs : Bool) → IsStuck s → (initialize s constructs).1 ≡ null
unfolding initialize
refused s constructs h = ground arith

-- If a manager is not initialized and the constructor in initialize throws, then after any later
-- calls initialize returns the null pointer and getManager returns none.
pub initialize_after_throw :
    (s : Lifecycle) (cs : List Call) (constructs : Bool)
    → s.initialized ≡ false
    → ((initialize (run (initialize s false).0 cs) constructs).1 ≡ null)
      × (get_manager (run (initialize s false).0 cs) ≡ none)
unfolding get_manager
initialize_after_throw s cs constructs free =
    let stuck = run-IsStuck (initialize s false).0 cs (throws-IsStuck s free) in
    (refused _ constructs stuck, let a = stuck.uninitialized in ground arith)

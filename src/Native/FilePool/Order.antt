-- ===== src/Native/FilePool/Order.antt =====
-- Whatever the worker, the callers and the destructor do, the pool hands out fresh files in order.
use mathlib.Core.List.{map-append, append_assoc}
use lsmio.Base.{
  ℕ, suc, ◌+◌, ◌%◌, ◌≤◌, ◌<◌, ◌≡◌, refl, sym, ap, ◌∙◌, Bool, true, List, [], ◌∷◌, ◌++◌, map, arith,
  Bytes, length, length-append, ltb, if_cases, subst,
}
use lsmio.Native.FilePool.{
  Disk, FilePool, new, Acquired, blocked, shutting_down, got, Round, ended, waits, goes_on, path_of,
  hand_out, acquire, replenish, shut_down, u64_mod,
}

pub data Event : Type 0 where
  acquires : Event
  replenishes : Bool → Bool → Event
  shuts_down : Event

-- The pool with the files of the directory, and the files handed out so far, oldest first.
pub record State : Type 0 where
  pub fp : FilePool
  pub disk : Disk
  pub handed : List Bytes

abbrev after_acquire : State → Acquired → State
after_acquire s blocked = s
after_acquire s shutting_down = s
after_acquire s (got path fp) = record s { fp = fp; handed = s.handed ++ path ∷ [] }

abbrev after_round : State → Round → State
after_round s (ended fp disk) = record s { fp = fp; disk = disk }
after_round s waits = s
after_round s (goes_on fp disk) = record s { fp = fp; disk = disk }

pub step : State → Event → State
step s acquires = after_acquire s (acquire s.fp)
step s (replenishes opens stops) = after_round s (replenish s.fp s.disk opens stops)
step s shuts_down = record s { fp = shut_down s.fp }

pub run : State → List Event → State
run s [] = s
run s (e ∷ es) = run (step s e) es

-- Strictly increasing ids, from `lo` on and below `hi`.
abbrev pub Ids : ℕ → ℕ → List ℕ → Type 0
Ids lo hi [] = lo ≤ hi
Ids lo hi (i ∷ is) = (lo ≤ i) × Ids (suc i) hi is

Ids-mono : (lo hi hi' : ℕ) (is : List ℕ) → hi ≤ hi' → Ids lo hi is → Ids lo hi' is
Ids-mono lo hi hi' [] h i = omega arith
Ids-mono lo hi hi' (x ∷ is) h i = (i.0, Ids-mono (suc x) hi hi' is h i.1)

Ids-append : (lo hi : ℕ) (is : List ℕ) → Ids lo hi is → Ids lo (hi + 1) (is ++ hi ∷ [])
Ids-append lo hi [] i = (i, omega arith)
Ids-append lo hi (x ∷ is) i = (i.0, Ids-append (suc x) hi is i.1)

module _ (dir prefix suffix : Bytes) (start size : ℕ) where
  -- The files handed out and those that wait in the pool have increasing ids.
  pub record InOrder (s : State) : Type 0 where
    pub in_dir : s.fp.directory ≡ dir
    pub with_prefix : s.fp.prefix ≡ prefix
    pub with_suffix : s.fp.suffix ≡ suffix
    pub sized : s.fp.pool_size ≡ size
    pub fits : length s.fp.pool ≤ size
    pub ids : List ℕ
    pub ordered : Ids start s.fp.next_id ids
    pub files : s.handed ++ s.fp.pool ≡ map (path_of dir prefix suffix) ids

  hand_out-InOrder :
      (s : State) (pool : List Bytes)
      → s.fp.pool ≡ pool
      → InOrder s
      → InOrder (after_acquire s (hand_out s.fp pool))
  unfolding hand_out
  hand_out-InOrder s [] e v =
      if_cases (λ r. InOrder (after_acquire s r)) s.fp.shutdown _ _ (λ _. v) (λ _. v)
  hand_out-InOrder s (path ∷ rest) e v = record {
    in_dir = v.in_dir;
    with_prefix = v.with_prefix;
    with_suffix = v.with_suffix;
    sized = v.sized;
    fits = omega (arith, ap length e, v.fits);
    ids = v.ids;
    ordered = v.ordered;
    files = append_assoc s.handed (path ∷ []) rest ∙ ap (◌++◌ s.handed) (sym e) ∙ v.files;
  }

  -- An id that is used up, with or without a file in the pool.
  taken-InOrder :
      (s : State) (disk : Disk) (down : Bool)
      → s.fp.next_id + 1 < u64_mod
      → InOrder s
      → InOrder (record s {
        fp = record s.fp { next_id = (s.fp.next_id + 1) % u64_mod; shutdown = down };
        disk = disk;
      })
  taken-InOrder s disk down h v = record {
    in_dir = v.in_dir;
    with_prefix = v.with_prefix;
    with_suffix = v.with_suffix;
    sized = v.sized;
    fits = v.fits;
    ids = v.ids;
    ordered = Ids-mono start s.fp.next_id _ v.ids (omega arith) v.ordered;
    files = v.files;
  }

  filled-InOrder :
      (s : State) (disk : Disk)
      → s.fp.next_id + 1 < u64_mod
      → length s.fp.pool < s.fp.pool_size
      → InOrder s
      → InOrder (record s {
        fp = record s.fp {
          next_id = (s.fp.next_id + 1) % u64_mod;
          pool = s.fp.pool ++ path_of s.fp.directory s.fp.prefix s.fp.suffix s.fp.next_id ∷ [];
        };
        disk = disk;
      })
  filled-InOrder s disk h room v = record {
    in_dir = v.in_dir;
    with_prefix = v.with_prefix;
    with_suffix = v.with_suffix;
    sized = v.sized;
    fits = omega (arith, v.sized, length-append s.fp.pool (path ∷ []));
    ids = v.ids ++ s.fp.next_id ∷ [];
    ordered =
        subst (λ n. Ids start n (v.ids ++ s.fp.next_id ∷ [])) {x = s.fp.next_id + 1} (omega arith)
          (Ids-append start s.fp.next_id v.ids v.ordered);
    files =
        sym (append_assoc s.handed s.fp.pool (path ∷ []))
        ∙ ap (λ fs. fs ++ path ∷ []) v.files
        ∙ ap (λ p. map (path_of dir prefix suffix) v.ids ++ p ∷ []) named
        ∙ sym (map-append (path_of dir prefix suffix) v.ids (s.fp.next_id ∷ []));
  }
    where
      path : Bytes
      path = path_of s.fp.directory s.fp.prefix s.fp.suffix s.fp.next_id

      named : path ≡ path_of dir prefix suffix s.fp.next_id
      named = cc (v.in_dir, v.with_prefix, v.with_suffix)

  replenish-InOrder :
      (s : State) (opens stops : Bool)
      → s.fp.next_id + 1 < u64_mod
      → InOrder s
      → InOrder (after_round s (replenish s.fp s.disk opens stops))
  unfolding replenish
  replenish-InOrder s opens stops h v =
      if_cases P s.fp.shutdown _ _ (λ _. v)
        λ _.
          if_cases P (ltb (length s.fp.pool) s.fp.pool_size) _ _
            (λ room.
              if_cases P opens _ _
                (λ _.
                  if_cases P stops _ _ (λ _. taken-InOrder s _ true h v)
                    (λ _. filled-InOrder s _ h (ground arith) v))
                (λ _. taken-InOrder s _ s.fp.shutdown h v))
            (λ _. v)
    where
      P : Round → Type 0
      P r = InOrder (after_round s r)

  pub step-InOrder :
      (s : State) (e : Event) → s.fp.next_id + 1 < u64_mod → InOrder s → InOrder (step s e)
  unfolding step acquire shut_down
  step-InOrder s acquires h v = hand_out-InOrder s s.fp.pool refl v
  step-InOrder s (replenishes opens stops) h v = replenish-InOrder s opens stops h v
  step-InOrder s shuts_down h v = record {
    in_dir = v.in_dir;
    with_prefix = v.with_prefix;
    with_suffix = v.with_suffix;
    sized = v.sized;
    fits = v.fits;
    ids = v.ids;
    ordered = v.ordered;
    files = v.files;
  }

next_id-hand_out :
    (s : State) (pool : List Bytes)
    → (after_acquire s (hand_out s.fp pool)).fp.next_id ≡ s.fp.next_id
unfolding hand_out
next_id-hand_out s [] = ground arith
next_id-hand_out s (path ∷ rest) = refl

next_id-step : (s : State) (e : Event) → (step s e).fp.next_id ≤ s.fp.next_id + 1
unfolding step acquire shut_down replenish
next_id-step s acquires = omega (arith, next_id-hand_out s s.fp.pool)
next_id-step s (replenishes opens stops) = ground arith
next_id-step s shuts_down = omega arith

run-InOrder :
    (dir prefix suffix : Bytes) (start size : ℕ) (s : State) (es : List Event)
    → s.fp.next_id + length es < u64_mod
    → InOrder dir prefix suffix start size s
    → InOrder dir prefix suffix start size (run s es)
unfolding run
run-InOrder dir prefix suffix start size s [] h v = v
run-InOrder dir prefix suffix start size s (e ∷ es) h v =
    run-InOrder dir prefix suffix start size (step s e) es (omega (arith, next_id-step s e))
      (step-InOrder dir prefix suffix start size s e (omega arith) v)

abbrev pub init : Bytes → Bytes → Bytes → ℕ → ℕ → ℕ → Disk → State
init dir prefix suffix size start pre_allocation disk = record {
  fp = new dir prefix suffix size start pre_allocation;
  disk = disk;
  handed = [];
}

-- After any events on a new pool, while ids are left, the pool holds no more files than its
-- size, and the files handed out followed by those in the pool are the files of strictly
-- increasing ids from the start id on.
pub handed_out_in_order :
    (dir prefix suffix : Bytes) (size start pre_allocation : ℕ) (disk : Disk) (es : List Event)
    → start + length es < u64_mod
    → let s = run (init dir prefix suffix size start pre_allocation disk) es in
      (length s.fp.pool ≤ size)
      × ((ids : List ℕ) × Ids start s.fp.next_id ids
          × (s.handed ++ s.fp.pool ≡ map (path_of dir prefix suffix) ids))
unfolding new
handed_out_in_order dir prefix suffix size start pre_allocation disk es h =
    (v.fits, (v.ids, v.ordered, v.files))
  where
    v :
        InOrder dir prefix suffix start size
          (run (init dir prefix suffix size start pre_allocation disk) es)
    v =
        run-InOrder dir prefix suffix start size
          (init dir prefix suffix size start pre_allocation disk) es h
          (record {
            in_dir = refl;
            with_prefix = refl;
            with_suffix = refl;
            sized = refl;
            fits = omega arith;
            ids = [];
            ordered = omega arith;
            files = refl;
          })

-- ===== src/Posix.antt =====
-- LSMIOStream: lib/posix/posix.cpp and include/lsmio/posix/posix.hpp. The static members and the path
-- of the one stream in use are the state; offsets are natural numbers.
pub mod Keys
pub mod Pieces
use lsmio.Base.{
  ℕ, ◌+◌, Bool, true, false, ◌||◌, Option, none, some, List, [], ◌∷◌, ◌++◌, Bytes, codes, ◌==◌,
  length, lookup, insert, to_string, if◌then◌else◌,
}
use lsmio.Store.{LsmioStore}
use lsmio.Manager.{Manager, get_local, put_local, is_some}

-- `lm` is the manager, which belongs to one process and so owns its store, and there is one exactly
-- while `_lsmioInitialized` is 1.
pub record Stream (S : Type 0) : Type 0 where
  pub file_path : Bytes
  pub file_map : List (Bytes × ℕ)
  pub lm : Option (Manager × S)
  pub initializing : Bool
  pub cleaning : Bool

pub or_zero : Option ℕ → ℕ
or_zero none = 0
or_zero (some n) = n

-- `path + "::" + std::to_string(offset)`
unfoldable pub gen_key : Bytes → ℕ → Bytes
gen_key path offset = path ++ (codes "::" ++ to_string offset)

module _ {S : Type 0} where
  -- `_fileMap[_filePath]`, where a path without an entry gets 0.
  unfoldable pub tellp : Stream S → ℕ
  unfolding or_zero
  tellp f = or_zero (lookup f.file_path f.file_map)

  unfoldable pub move_to : Stream S → ℕ → Stream S
  move_to f offset = record f { file_map = insert f.file_path offset f.file_map }

  unfoldable pub open_file : Stream S → Bytes → Bool → Stream S
  open_file f filename truncates =
      let named = record f { file_path = filename } in
      let reset = record named { file_map = insert filename 0 f.file_map } in
      if is_some (lookup filename f.file_map) then (if truncates then reset else named) else reset

  -- From the beginning only: another direction throws, which is none.
  unfoldable pub seekp : Stream S → ℕ → Bool → Option (Stream S)
  unfolding move_to
  seekp f off from_beginning = if from_beginning then some (move_to f off) else none

  unfoldable pub close : Stream S → Stream S
  unfolding move_to
  close f = move_to f 0

  unfoldable pub good : Stream S → Bool
  good f = is_some f.lm

  abbrev pub with_lm : Stream S → Manager × S → Stream S
  with_lm f lm = record f { lm = some lm }

pub data Initialized : Type 0 where
  refused : Initialized
  done : Initialized
  throws : Initialized

constructed_as : {S : Type 0} → Stream S → Option (Manager × S) → Stream S × Initialized
constructed_as f none = (record f { initializing = true }, throws)
constructed_as f (some lm) = (record f { lm = some lm; initializing = false }, done)

module _ {S : Type 0} where
  -- `made` is the manager that the constructor makes, none if it throws.
  unfoldable pub initialize : Stream S → Option (Manager × S) → Stream S × Initialized
  unfolding constructed_as
  initialize f made =
      if is_some f.lm
      then (f, refused)
      else if f.initializing
      then (f, refused)
      else constructed_as f made

  unfoldable pub cleanup : Stream S → Stream S × Bool
  cleanup f =
      if is_some f.lm
      then (if f.initializing || f.cleaning
          then (f, false)
          else (record f { lm = none; cleaning = false }, true))
      else (f, false)

module _ {S : Type 0} (store : LsmioStore S) where
  -- The value of the key at the offset; it is read if its length is the one asked for, and else the
  -- call throws, which is none.
  unfoldable pub read_with : Stream S → Manager × S → ℕ → Stream S × Option Bytes
  unfolding gen_key tellp move_to get_local
  read_with f (m, s) n =
      let (_, value, m') = get_local store m s (gen_key f.file_path (tellp f)) [] in
      let f' = with_lm f (m', s) in
      if length value == n then (move_to f' (tellp f + n), some value) else (f', none)

  unfoldable pub read : Stream S → ℕ → Stream S × Option Bytes
  unfolding read_with
  read f n = elim f.lm [ none ↦ (f, none) | some lm ↦ read_with f lm n ]

  unfoldable pub write_with : Stream S → Manager × S → Bytes → Stream S
  unfolding gen_key tellp move_to put_local
  write_with f (m, s) value =
      let (_, s', m') = put_local store m s (gen_key f.file_path (tellp f)) value m.always_flush in
      move_to (with_lm f (m', s')) (tellp f + length value)

  -- None where it throws.
  unfoldable pub write : Stream S → Bytes → Option (Stream S)
  unfolding write_with
  write f value = elim f.lm [ none ↦ none | some lm ↦ some (write_with f lm value) ]

  abbrev write_barrier_with : Stream S → Manager × S → Stream S
  write_barrier_with f (m, s) = with_lm f (m, (store.write_barrier s).1)

  unfoldable pub write_barrier : Stream S → Option (Stream S)
  write_barrier f = elim f.lm [ none ↦ none | some lm ↦ some (write_barrier_with f lm) ]

  -- Reads of the given lengths one after the other, until one throws.
  unfoldable pub read_on :
      (Stream S → Option (List Bytes)) → Stream S × Option Bytes → Option (List Bytes)
  read_on rest (f, none) = none
  read_on rest (f, some value) = elim (rest f) [ none ↦ none | some values ↦ some (value ∷ values) ]

  unfoldable pub read_all : List ℕ → Stream S → Option (List Bytes)
  unfolding read_on
  read_all [] f = some []
  read_all (n ∷ ns) f = read_on (read_all ns) (read f n)

  unfoldable pub write_all : List Bytes → Stream S → Option (Stream S)
  write_all [] f = some f
  write_all (v ∷ vs) f = elim (write f v) [ none ↦ none | some f' ↦ write_all vs f' ]

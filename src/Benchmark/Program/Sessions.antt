-- ===== src/Benchmark/Program/Sessions.antt =====
-- The programs benchmark/bm_native.cpp, bm_leveldb.cpp and bm_rocksdb.cpp, which differ in the class
-- of the store only, and bm_base.cpp over them.
use lsmio.Base.{◌≡◌, Bool, true, false, Option, none, some, [], Bytes, beq, if◌then◌else◌, arith}
use lsmio.Store.Opening.{Opened, opened, aborts}
use lsmio.Benchmark.Program.{Target}
use lsmio.Benchmark.Program.Checks.{Contents}

-- A constructor that ends the process gives no store.
unfoldable pub store_in : {T : Type 0} → Opened T → Option T
store_in (opened t) = some t
store_in aborts = none

pub store_in-opened : {T : Type 0} (o : Opened T) (t : T) → store_in o ≡ some t → o ≡ opened t
unfolding store_in
store_in-opened (opened x) t e = ground (arith, e)
store_in-opened aborts t e = absurd (ground (arith, e))

-- A class of stores at one path: the constructor with `overWrite`, `none` where it ends the process,
-- the calls that the programs make, `put` with the configuration's `alwaysFlush`, and `close`, with
-- the files where it closes a database.
pub record BackEnd (T F : Type 0) : Type 0 where
  pub construct : Bool → F → Option T
  pub get : T → Bytes → Option Bytes
  pub put : T → Bytes → Bytes → Bool × T
  pub write_barrier : T → T
  pub close : T → Option F × T

-- `_lc`, a null pointer or a store, and the files.
pub record Session (T F : Type 0) : Type 0 where
  pub store : Option T
  pub files : F

unfoldable pub left_in : {F : Type 0} → Option F → F → F
left_in none files = files
left_in (some f) files = f

module _ {T F : Type 0} (back_end : BackEnd T F) where
  -- The destructors close the store.
  unfoldable pub destroy : Session T F → Session T F
  unfolding left_in
  destroy s = elim s.store [
    | none ↦ s
    | some t ↦ record { store = none; files = left_in (back_end.close t).0 s.files }
  ]

  unfoldable pub constructed : Option T → F → Option (Session T F)
  constructed none files = none
  constructed (some t) files = some (record { store = some t; files = files })

  -- The code reads through the pointer; no call of it is made while it is null.
  unfoldable pub read_in : Option T → Bytes → Option Bytes
  read_in none key = none
  read_in (some t) key = back_end.get t key

  unfoldable pub status_of : Option Bytes → Bool × Bytes
  status_of none = (false, [])
  status_of (some value) = (true, value)

  unfoldable pub do_read : Session T F → Bytes → Bool × Bytes × Session T F
  unfolding read_in status_of
  do_read s key = let (success, value) = status_of (read_in s.store key) in (success, value, s)

  unfoldable pub do_write : Session T F → Bytes → Bytes → Bool × Session T F
  do_write s key value = elim s.store [
    | none ↦ (false, s)
    | some t ↦
        let (success, t') = back_end.put t key value in (success, record s { store = some t' })
  ]

  -- `writeBarrier` and `close`
  unfoldable pub do_write_finalize : Session T F → Session T F
  unfolding left_in
  do_write_finalize s = elim s.store [
    | none ↦ s
    | some t ↦
        let (closed, t') = back_end.close (back_end.write_barrier t) in
        record { store = some t'; files = left_in closed s.files }
  ]

  unfoldable pub write_prepare : Session T F → Option (Session T F)
  unfolding constructed
  write_prepare s = constructed (back_end.construct true s.files) s.files

  unfoldable pub read_prepare : Session T F → Option (Session T F)
  unfolding constructed destroy
  read_prepare s =
      let gone = destroy s in constructed (back_end.construct false gone.files) gone.files

  abbrev pub program : Target (Session T F)
  program = record {
    do_read = do_read;
    do_write = do_write;
    do_read_finalize = λ s. s;
    do_write_finalize = do_write_finalize;
    read_prepare = read_prepare;
    read_cleanup = destroy;
    write_prepare = write_prepare;
    write_cleanup = λ s. s;
  }

-- A class whose stores keep what is put: `contents` is what a store will have in its files once it
-- is closed.
pub record IsLasting {T F : Type 0} (back_end : BackEnd T F) (IsOpen IsClosed : T → Type 0)
    (contents : T → Contents) (held : F → Contents) : Type 0 where
  pub constructs :
      (over_write : Bool) (f : F) → (t : T) × (back_end.construct over_write f ≡ some t) × IsOpen t
  pub get-construct :
      (f : F) (t : T) (k : Bytes)
      → back_end.construct false f ≡ some t
      → back_end.get t k ≡ held f k
  pub puts :
      (t : T) (k v : Bytes)
      → IsOpen t
      → ((back_end.put t k v).0 ≡ true) × IsOpen (back_end.put t k v).1
  pub contents-put :
      (t : T) (k v j : Bytes)
      → IsOpen t
      → contents (back_end.put t k v).1 j ≡ (if beq k j then some v else contents t j)
  pub closes :
      (t : T)
      → IsOpen t
      → (f : F) × ((back_end.close (back_end.write_barrier t)).0 ≡ some f)
        × ((k : Bytes) → held f k ≡ contents t k)
        × IsClosed (back_end.close (back_end.write_barrier t)).1
  pub close-again : (t : T) → IsClosed t → (back_end.close t).0 ≡ none

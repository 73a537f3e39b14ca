-- ===== src/Benchmark/Program/Keeping.antt =====
-- The programs benchmark/bm_native.cpp, bm_leveldb.cpp and bm_rocksdb.cpp over a class of stores that
-- keeps what is put.
use lsmio.Base.{◌≡◌, refl, ap, ◌∙◌, true, false, Option, none, some, Bytes, beq, if◌then◌else◌}
use lsmio.Benchmark.Program.Checks.{Contents, Keeps, stored, found}
use lsmio.Benchmark.Program.Sessions.{
  BackEnd, Session, IsLasting, left_in, destroy, constructed, read_in, status_of, do_read, do_write,
  do_write_finalize, write_prepare, read_prepare, program,
}

module _ {T F : Type 0} (back_end : BackEnd T F) (IsOpen IsClosed : T → Type 0)
    (contents : T → Contents) (held : F → Contents)
    (lasting : IsLasting back_end IsOpen IsClosed contents held) where
  pub IsIdle : Session T F → Type 0
  IsIdle s = s.store ≡ none

  pub IsWriting : Session T F → Contents → Type 0
  IsWriting s c = (t : T) × (s.store ≡ some t) × IsOpen t × ((k : Bytes) → contents t k ≡ c k)

  pub IsReading : Session T F → Contents → Type 0
  IsReading s c = (t : T) × (s.store ≡ some t) × ((k : Bytes) → back_end.get t k ≡ c k)

  pub new-IsIdle : (f : F) → IsIdle (record { store = none; files = f })
  unfolding IsIdle
  new-IsIdle f = refl

  opens :
      (s : Session T F)
      → (s' : Session T F) × (write_prepare back_end s ≡ some s')
        × ((c : Contents) × IsWriting s' c)
  unfolding write_prepare IsWriting constructed
  opens s =
      let (t, made, ready) = lasting.constructs true s.files in
      (
        record { store = some t; files = s.files },
        rw made refl,
        (contents t, (t, refl, ready, λ k. refl)),
      )

  writes :
      (s : Session T F) (c : Contents) (k v : Bytes)
      → IsWriting s c
      → ((do_write back_end s k v).0 ≡ true) × IsWriting (do_write back_end s k v).1 (stored k v c)
  unfolding do_write IsWriting stored
  writes s c k v (t, held_by, ready, same) =
      let (good, next) = lasting.puts t k v ready in
      rw held_by (
        good,
        (
          (back_end.put t k v).1,
          refl,
          next,
          λ j.
              lasting.contents-put t k v j ready ∙ ap (λ o. if beq k j then some v else o) (same j),
        ),
      )

  -- Deleting a store that is closed changes no file.
  closed_files :
      (t : T) (f : F)
      → IsClosed t
      → (destroy back_end (record { store = some t; files = f })).files ≡ f
  unfolding destroy left_in
  closed_files t f closed = rw (lasting.close-again t closed) refl

  turns :
      (s : Session T F) (c : Contents)
      → IsWriting s c
      → (s' : Session T F) × (read_prepare back_end (do_write_finalize back_end s) ≡ some s')
        × IsReading s' c
  unfolding read_prepare do_write_finalize IsWriting IsReading constructed left_in
  turns s c (t, held_by, ready, same) =
      let (f, filed, holds, closed) = lasting.closes t ready in
      let (t', made, next) = lasting.constructs false f in
      (
        record { store = some t'; files = f },
        rw
            (
              held_by,
              filed,
              closed_files (back_end.close (back_end.write_barrier t)).1 f closed,
              made,
            )
            refl,
        (t', refl, λ k. lasting.get-construct f t' k made ∙ holds k ∙ same k),
      )

  found-status_of :
      (o : Option Bytes) (s : Session T F)
      → found ((status_of back_end o).0, (status_of back_end o).1, s) ≡ o
  unfolding found status_of
  found-status_of none s = refl
  found-status_of (some v) s = refl

  reads :
      (s : Session T F) (c : Contents) (k : Bytes)
      → IsReading s c
      → (found (do_read back_end s k) ≡ c k) × IsReading (do_read back_end s k).2 c
  unfolding do_read read_in IsReading
  reads s c k (t, held_by, same) =
      (found-status_of (read_in back_end s.store k) s ∙ rw held_by (same k), (t, held_by, same))

  closes : (s : Session T F) (c : Contents) → IsReading s c → IsIdle (destroy back_end s)
  unfolding destroy IsReading IsIdle
  closes s c (t, held_by, same) = rw held_by refl

  -- A program over a class that keeps what is put is such a store for the benchmark.
  pub program-Keeps : Keeps (program back_end) IsIdle IsWriting IsReading
  program-Keeps = record {
    opens = λ s _. opens s;
    writes = writes;
    turns = turns;
    reads = reads;
    closes = closes;
  }

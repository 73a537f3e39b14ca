-- ===== src/Native/Store/Tracked.antt =====
-- What the flags of a store say, in every run: the flush flag, the joined thread, the end.
use lsmio.Base.{◌≡◌, refl, Bool, true, false, Option, none, some, List, [], ◌∷◌, Bytes, arith}
use lsmio.Native.Memtable
use lsmio.Native.Memtable.{Memtable}
use lsmio.Native.Store.{Store, rotate, write_active}
use lsmio.Native.Store.Events.{Event, step, begin_close}
use lsmio.Native.Store.Steps.{IsStable, HasIdsFor, HoldsIf, step-keeps}

abbrev flies : Option Memtable → Bool
flies none = false
flies (some m) = true

-- `_flush_in_progress` is set exactly while a table is in flight; the joined thread holds no
-- table; past the point where `close` takes the active table away, the thread is joined and the
-- active table is empty.
pub record IsTracked (s : Store) : Type 0 where
  pub flag : s.flush_in_progress ≡ flies s.in_flight
  pub grounded : s.flush_thread_up ≡ false → s.in_flight ≡ none
  pub joined : s.closing ≡ true → s.flush_thread_up ≡ false
  pub emptied : s.closing ≡ true → s.active.entries ≡ []

Any : Store → Type 0
Any s = Unit

bare_entries : (m : Memtable) → Memtable.empty m ≡ true → m.entries ≡ []
bare_entries m e = go m.entries refl
  where
    go : (l : List (Bytes × Bytes)) → m.entries ≡ l → m.entries ≡ []
    go [] q = q
    go (x ∷ l) q = ground arith

IsTracked-IsStable : IsStable Any IsTracked
unfolding rotate write_active begin_close
IsTracked-IsStable = record {
  rotated = λ s h up. record {
    flag = h.flag;
    grounded = h.grounded;
    joined = h.joined;
    emptied = λ _. refl;
  };
  written = λ s k v h up. record {
    flag = h.flag;
    grounded = h.grounded;
    joined = h.joined;
    emptied = λ c. ground (arith, c, up);
  };
  queued = λ s ws h. record {
    flag = h.flag;
    grounded = h.grounded;
    joined = h.joined;
    emptied = h.emptied;
  };
  taken = λ s m rest h up. record {
    flag = refl;
    grounded = λ down. ground (arith, up, down);
    joined = h.joined;
    emptied = h.emptied;
  };
  landed = λ s m t sound h e l. record {
    flag = refl;
    grounded = λ _. refl;
    joined = h.joined;
    emptied = h.emptied;
  };
  replenished = λ s opens stops sound h ids. record {
    flag = h.flag;
    grounded = h.grounded;
    joined = h.joined;
    emptied = h.emptied;
  };
  shut = λ s h. record {
    flag = h.flag;
    grounded = h.grounded;
    joined = h.joined;
    emptied = h.emptied;
  };
  parked = λ s h landed. record {
    flag = h.flag;
    grounded = λ _. landed;
    joined = λ _. refl;
    emptied = h.emptied;
  };
  collected = λ s h down bare. record {
    flag = h.flag;
    grounded = h.grounded;
    joined = λ _. down;
    emptied = λ _. bare_entries s.active bare;
  };
  drained = λ s m rest t sound h e l. record {
    flag = h.flag;
    grounded = h.grounded;
    joined = h.joined;
    emptied = h.emptied;
  };
}

pub step-IsTracked :
    (s : Store) (e : Event) → HasIdsFor s e → IsTracked s → HoldsIf IsTracked (step s e)
unfolding Any
step-IsTracked s e ids h = step-keeps Any IsTracked IsTracked-IsStable s e tt ids h

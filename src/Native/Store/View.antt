-- ===== src/Native/Store/View.antt =====
-- What the store holds for each key, wherever the key's table is on its way to disk.
use mathlib.Core.List.{reverse-cons, reverse-append}
use lsmio.Base.{
  ◌≡◌, refl, ap, ◌∙◌, Option, none, some, List, [], ◌∷◌, ◌++◌, reverse, arith, Bytes, beq, lookup,
  or_else, if_cases, if◌then◌else◌,
}
use lsmio.Native.Memtable
use lsmio.Native.Memtable.{Memtable, tombstone}
use lsmio.Native.Memtable.Lookup.{get-add}
use lsmio.Native.Sstable
use lsmio.Native.Store.{Store, rotate, write_active, begin_barrier, tables_get, visible, get}

pub or_else_assoc : (a b c : Option Bytes) → or_else (or_else a b) c ≡ or_else a (or_else b c)
or_else_assoc a b c = ground arith

tables_get-append :
    (ms ns : List Memtable) (k : Bytes)
    → tables_get (ms ++ ns) k ≡ or_else (tables_get ms k) (tables_get ns k)
unfolding tables_get
tables_get-append [] ns k = refl
tables_get-append (m ∷ ms) ns k = ground (arith, tables_get-append ms ns k)

abbrev pub immutables_get : List Memtable → Bytes → Option Bytes
immutables_get ms k = tables_get (reverse ms) k

-- The oldest table is asked last, the newest first.
pub immutables_get-cons :
    (m : Memtable) (ms : List Memtable) (k : Bytes)
    → immutables_get (m ∷ ms) k ≡ or_else (immutables_get ms k) (Memtable.get m k)
immutables_get-cons m ms k =
    ap (λ l. tables_get l k) (reverse-cons m ms)
    ∙ tables_get-append (reverse ms) (m ∷ []) k
    ∙ unfold tables_get in ground arith

pub immutables_get-snoc :
    (ms : List Memtable) (m : Memtable) (k : Bytes)
    → immutables_get (ms ++ m ∷ []) k ≡ or_else (Memtable.get m k) (immutables_get ms k)
unfolding tables_get
immutables_get-snoc ms m k = ap (λ l. tables_get l k) (reverse-append ms (m ∷ []))

abbrev pub flight_get : Option Memtable → Bytes → Option Bytes
flight_get none k = none
flight_get (some m) k = Memtable.get m k

-- The value, or the tombstone, that was written last.
unfoldable pub view : Store → Bytes → Option Bytes
view s k = or_else (Memtable.get s.active k) (
    or_else (immutables_get s.immutables k)
      (or_else (flight_get s.in_flight k) (Sstable.get s.sstables k)))

new_get : (k : Bytes) → Memtable.get Memtable.new k ≡ none
unfolding Memtable.get lookup
new_get k = refl

pub view-rotate : (s : Store) (k : Bytes) → view (rotate s) k ≡ view s k
unfolding view rotate
view-rotate s k = ground (arith, new_get k, immutables_get-snoc s.immutables s.active k)

pub view-write_active :
    (s : Store) (k v j : Bytes)
    → view (write_active s k v) j ≡ (if beq k j then some v else view s j)
unfolding view write_active
view-write_active s k v j = ground (arith, get-add s.active k j v)

pub view-begin_barrier : (s : Store) (k : Bytes) → view (begin_barrier s) k ≡ view s k
unfolding begin_barrier
view-begin_barrier s k =
    if_cases (λ (t : Store). view t k ≡ view s k) (Memtable.empty s.active) s (rotate s) (λ _. refl)
      (λ _. view-rotate s k)

-- With no table in flight, `get` returns what was written last, unless that is a tombstone.
pub get-view : (s : Store) (k : Bytes) → s.in_flight ≡ none → get s k ≡ visible (view s k)
unfolding get view
get-view s k e = ground arith

-- ===== src/Native/Memtable/Lookup.antt =====
-- What `get` and `sizeBytes` say after `add`.
use lsmio.Base.{
  ℕ, ◌+◌, ◌%◌, ◌≡◌, refl, some, List, [], ◌∷◌, ◌++◌, arith, Bytes, beq, length, last_lookup,
  lookup-reverse, last_lookup-append, if◌then◌else◌,
}
use lsmio.Native.Memtable.{Memtable, new, add, get, size_mod}

pub get-last_lookup : (m : Memtable) (k : Bytes) → get m k ≡ last_lookup k m.entries
unfolding get
get-last_lookup m k = lookup-reverse k m.entries

-- After an add, `get` reads the new value for its key and the old one for every other key.
pub get-add :
    (m : Memtable) (k j v : Bytes) → get (add m k v) j ≡ (if beq k j then some v else get m j)
unfolding add
get-add m k j v =
    rw
      (
        get-last_lookup (add m k v) j,
        get-last_lookup m j,
        last_lookup-append j m.entries ((k, v) ∷ []),
      )
      (unfold last_lookup in ground arith)

-- The bytes of all keys and values, as numbers without bound.
unfoldable pub total : List (Bytes × Bytes) → ℕ
total [] = 0
total ((k, v) ∷ es) = length k + length v + total es

pub total-append : (l m : List (Bytes × Bytes)) → total (l ++ m) ≡ total l + total m
unfolding total
total-append [] m = omega arith
total-append ((k, v) ∷ l) m = omega (arith, total-append l m)

-- The counter is the total size of the entries, as a `size_t`.
pub record IsCounted (m : Memtable) : Type 0 where
  pub counted : m.size_bytes ≡ total m.entries % size_mod

pub new-IsCounted : IsCounted new
unfolding total
new-IsCounted = record { counted = refl }

-- An add keeps the size counter equal to the bytes of all keys and values, modulo 2^64.
pub add-IsCounted : (m : Memtable) (k v : Bytes) → IsCounted m → IsCounted (add m k v)
unfolding add total
add-IsCounted m k v h = record {
  counted = omega (arith, h.counted, total-append m.entries ((k, v) ∷ []));
}

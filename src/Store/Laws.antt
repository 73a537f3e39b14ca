-- ===== src/Store/Laws.antt =====
-- What a client may rely on of a store in which every write is visible at once.
use lsmio.Base.{
  ◌≡◌, Bool, true, Option, none, some, [], Bytes, All, beq, lookup, starts_with, if◌then◌else◌,
}
use lsmio.Store.{LsmioStore, put, del}

-- `stored v` is what a reader sees of a value `v`.
pub record IsMap {S : Type 0} (store : LsmioStore S) (stored : Bytes → Option Bytes) : Type 0 where
  pub get-put :
      (s : S) (k j v : Bytes) (flush : Bool)
      → store.get (store.batch_mutation s put k v flush).1 j
        ≡ (if beq k j then stored v else store.get s j)
  pub get-del :
      (s : S) (k j : Bytes) (flush : Bool)
      → store.get (store.batch_mutation s del k [] flush).1 j
        ≡ (if beq k j then none else store.get s j)
  pub get-write_barrier :
      (s : S) (k : Bytes) → store.get (store.write_barrier s).1 k ≡ store.get s k

-- getPrefix lists what the store holds under the keys with the prefix.
pub record IsListing {S : Type 0} (store : LsmioStore S) : Type 0 where
  pub holds :
      (s : S) (p : Bytes)
      → All
          (λ e. (starts_with p e.0 ≡ true) × (store.get s e.0 ≡ some e.1))
          (store.get_prefix s p).1
  pub lists :
      (s : S) (p k v : Bytes)
      → starts_with p k ≡ true
      → store.get s k ≡ some v
      → lookup k (store.get_prefix s p).1 ≡ some v

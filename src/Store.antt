-- ===== src/Store.antt =====
-- LSMIOStore, the interface of the back ends: include/lsmio/manager/store/store.hpp and
-- lib/manager/store/store.cpp. A back end is a record of its virtual functions over its state.
pub mod Laws
pub mod Opening
pub mod Ldb
pub mod Rdb
use lsmio.Base.{Bool, Option, List, [], ◌∷◌, ◌++◌, Bytes, codes, true}

pub data MutationType : Type 0 where
  put : MutationType
  del : MutationType

-- getMutationType
pub mutation_name : MutationType → Bytes
mutation_name put = codes "Put"
mutation_name del = codes "Del"

-- The virtual functions. `get` gives the value that it writes to its out-parameter, if it succeeds.
pub record LsmioStore (S : Type 0) : Type 0 where
  pub get : S → Bytes → Option Bytes
  pub get_prefix : S → Bytes → Bool × List (Bytes × Bytes)
  pub batch_mutation : S → MutationType → Bytes → Bytes → Bool → Bool × S
  pub stop_batch : S → Bool × S
  pub read_barrier : S → Bool × S
  pub write_barrier : S → Bool × S

-- `_metaPrefix`
abbrev pub meta_prefix : Bytes
meta_prefix = codes "__lsmio_md::"

module _ {S : Type 0} (store : LsmioStore S) where
  unfoldable pub put_value : S → Bytes → Bytes → Bool → Bool × S
  put_value s key value flush = store.batch_mutation s put key value flush

  unfoldable pub del_value : S → Bytes → Bool → Bool × S
  del_value s key flush = store.batch_mutation s del key [] flush

  unfoldable pub meta_get : S → Bytes → Option Bytes
  meta_get s key = store.get s (meta_prefix ++ key)

  unfoldable pub meta_get_all : S → Bytes → Bool × List (Bytes × Bytes)
  meta_get_all s infix_bytes = store.get_prefix s (meta_prefix ++ infix_bytes)

  unfoldable pub meta_put : S → Bytes → Bytes → Bool → Bool × S
  unfolding put_value
  meta_put s key value flush = put_value s (meta_prefix ++ key) value flush

  -- The base class's `writeBarrier`, which the LevelDB and RocksDB stores repeat: the status of
  -- `stopBatch` is dropped.
  unfoldable pub barrier_by_stop : S → Bool × S
  barrier_by_stop s = let (status, s') = store.stop_batch s in (true, s')

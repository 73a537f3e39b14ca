-- ===== src/Manager.antt =====
-- LSMIOManager: lib/manager/manager.cpp and include/lsmio/manager/manager.hpp. The roles of a rank,
-- its operations on the local store, and the callback that serves the other ranks.
pub mod Tuples
pub mod Keys
pub mod Remote
pub mod Lifecycle
pub mod Setup
pub mod Operations
pub mod Isolation
pub mod RemoteMeta
use lsmio.Base.{
  ℕ, ◌+◌, ◌%◌, ◌^◌, Bool, true, false, not, ◌&&◌, ◌||◌, Option, none, some, List, [], ◌∷◌, ◌++◌,
  Bytes, codes, beq, ltb, ◌==◌, length, to_string, if◌then◌else◌,
}
use lsmio.Store
use lsmio.Store.{LsmioStore}
use lsmio.Client.{
  Message, cmd_get, cmd_put, cmd_del, cmd_meta_get, cmd_meta_get_all, cmd_meta_put,
  cmd_read_barrier, cmd_write_barrier, return_get, return_meta_get, kv_dummy, serialize_cmd,
  de_serialize_cmd,
}
use Tuples.{vector_tuple_serialize}

abbrev pub u64_mod : ℕ
u64_mod = 2 ^ 64

-- The members that the operations read and write; `agg_rank` is AGGREGATION_RANK, 0, for the rank
-- that owns the store.
pub record Manager : Type 0 where
  pub is_shared : Bool
  pub agg_rank : ℕ
  pub agg_size : ℕ
  pub always_flush : Bool
  pub counter_write_bytes : ℕ
  pub counter_read_bytes : ℕ
  pub counter_write_ops : ℕ
  pub counter_read_ops : ℕ

abbrev pub aggregation_rank : ℕ
aggregation_rank = 0

unfoldable pub is_open_local : Manager → Bool
is_open_local m = not m.is_shared || (m.agg_rank == aggregation_rank)

unfoldable pub is_open_remote : Manager → Bool
is_open_remote m = m.is_shared && not (m.agg_rank == aggregation_rank)

unfoldable pub is_serve_local : Manager → Bool
is_serve_local m = m.is_shared && (m.agg_rank == aggregation_rank && ltb 1 m.agg_size)

unfoldable pub ranked_key : Manager → ℕ → Bytes → Bytes
unfolding is_serve_local
ranked_key m rank key = if is_serve_local m then to_string rank ++ (codes "::" ++ key) else key

unfoldable pub count_read : Manager → ℕ → Manager
count_read m n = record m {
  counter_read_bytes = (m.counter_read_bytes + n) % u64_mod;
  counter_read_ops = (m.counter_read_ops + 1) % u64_mod;
}

unfoldable pub count_write : Manager → ℕ → Manager
count_write m n = record m {
  counter_write_bytes = (m.counter_write_bytes + n) % u64_mod;
  counter_write_ops = (m.counter_write_ops + 1) % u64_mod;
}

pub reset_counters : Manager → Manager
reset_counters m = record m {
  counter_write_bytes = 0;
  counter_read_bytes = 0;
  counter_write_ops = 0;
  counter_read_ops = 0;
}

abbrev pub is_some {ℓ} : {A : Type ℓ} → Option A → Bool
is_some none = false
is_some (some a) = true

-- An out-parameter keeps its old value if the call fails.
abbrev pub written {ℓ} : {A : Type ℓ} → Option A → A → A
written none old = old
written (some a) old = a

module _ {S : Type 0} (store : LsmioStore S) where
  -- `get` on the rank that owns the store. `old` is what `*value` holds before.
  unfoldable pub get_local : Manager → S → Bytes → Bytes → Bool × Bytes × Manager
  unfolding ranked_key count_read
  get_local m s key old =
      let found = store.get s (ranked_key m m.agg_rank key) in
      (is_some found, written found old, count_read m (length (written found old)))

  unfoldable pub put_local : Manager → S → Bytes → Bytes → Bool → Bool × S × Manager
  unfolding ranked_key count_write
  put_local m s key value flush =
      let (ok, s') = Store.put_value store s (ranked_key m m.agg_rank key) value flush in
      (ok, s', count_write m (length value))

  unfoldable pub del_local : Manager → S → Bytes → Bool → Bool × S
  unfolding ranked_key
  del_local m s key flush = Store.del_value store s (ranked_key m m.agg_rank key) flush

  unfoldable pub meta_get_local : Manager → S → Bytes → Bytes → Bool × Bytes × Manager
  unfolding ranked_key count_read
  meta_get_local m s key old =
      let found = Store.meta_get store s (ranked_key m m.agg_rank key) in
      (is_some found, written found old, count_read m (length (written found old)))

  -- The count is that of the values, not of their bytes.
  unfoldable pub meta_get_all_local :
      Manager → S → List (Bytes × Bytes) → Bytes → Bool × List (Bytes × Bytes) × Manager
  unfolding count_read
  meta_get_all_local m s values infix_bytes =
      let (ok, found) = Store.meta_get_all store s infix_bytes in
      (ok, values ++ found, count_read m (length (values ++ found)))

  unfoldable pub meta_put_local : Manager → S → Bytes → Bytes → Bool → Bool × S × Manager
  unfolding ranked_key count_write
  meta_put_local m s key value flush =
      let (ok, s') = Store.meta_put store s (ranked_key m m.agg_rank key) value flush in
      (ok, s', count_write m (length value))

  -- What the aggregating rank does for a command of another rank, and the value to send back.
  unfoldable pub callback : Manager → S → ℕ → Message → S × Bytes
  unfolding ranked_key
  callback m s rank c =
      if beq c.command cmd_get
      then (s, written (store.get s (ranked_key m rank c.key)) [])
      else if beq c.command cmd_put
      then ((Store.put_value store s (ranked_key m rank c.key) c.value m.always_flush).1, [])
      else if beq c.command cmd_del
      then ((Store.del_value store s (ranked_key m rank c.key) m.always_flush).1, [])
      else if beq c.command cmd_meta_get
      then (s, written (Store.meta_get store s (ranked_key m rank c.key)) [])
      else if beq c.command cmd_meta_get_all
      then (s, vector_tuple_serialize (Store.meta_get_all store s (to_string rank ++ codes "::")).1)
      else if beq c.command cmd_meta_put
      then ((Store.meta_put store s (ranked_key m rank c.key) c.value m.always_flush).1, [])
      else if beq c.command cmd_write_barrier
      then ((store.write_barrier s).1, [])
      else (s, [])

-- The messages that a remote rank sends.
abbrev pub get_request : Bytes → Bytes
get_request key = serialize_cmd cmd_get key kv_dummy

abbrev pub put_request : Bytes → Bytes → Bytes
put_request key value = serialize_cmd cmd_put key value

abbrev pub del_request : Bytes → Bytes
del_request key = serialize_cmd cmd_del key kv_dummy

read_get : Manager → Option Message → Option (Bool × Bytes × Manager)
read_get m none = none
read_get m (some r) = some (beq r.command return_get, r.value, count_read m (length r.value))

-- What a remote rank makes of the reply to a `get`; `none` is a message that cannot be read.
unfoldable pub get_remote : Manager → Bytes → Option (Bool × Bytes × Manager)
unfolding count_read read_get
get_remote m reply = read_get m (de_serialize_cmd reply)

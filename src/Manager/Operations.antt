-- ===== src/Manager/Operations.antt =====
-- The operations of lib/manager/manager.cpp on any rank: on the rank's own store, or by a command
-- to the aggregating rank and its reply.
use lsmio.Base.{Bool, true, Option, none, some, List, Bytes, beq, length, if◌then◌else◌}
use lsmio.Store.{LsmioStore}
use lsmio.Client.{
  Message, cmd_meta_get, cmd_meta_get_all, cmd_meta_put, cmd_read_barrier, cmd_write_barrier,
  return_meta_get, return_meta_get_all, return_read_barrier, return_write_barrier, kv_dummy,
  serialize_cmd, de_serialize_cmd,
}
use lsmio.Manager.{
  Manager, is_open_local, is_open_remote, count_read, count_write, get_local, put_local, del_local,
  meta_get_local, meta_get_all_local, meta_put_local, get_request, put_request, del_request,
  get_remote,
}
use lsmio.Manager.Tuples.{vector_tuple_deserialize}

abbrev pub meta_get_request : Bytes → Bytes
meta_get_request key = serialize_cmd cmd_meta_get key kv_dummy

abbrev pub meta_get_all_request : Bytes
meta_get_all_request = serialize_cmd cmd_meta_get_all kv_dummy kv_dummy

abbrev pub meta_put_request : Bytes → Bytes → Bytes
meta_put_request key value = serialize_cmd cmd_meta_put key value

abbrev pub read_barrier_request : Bytes
read_barrier_request = serialize_cmd cmd_read_barrier kv_dummy kv_dummy

abbrev pub write_barrier_request : Bytes
write_barrier_request = serialize_cmd cmd_write_barrier kv_dummy kv_dummy

abbrev pub on_reply {ℓ} : {A : Type ℓ} → (Message → A) → Option Message → Option A
on_reply f none = none
on_reply f (some r) = some (f r)

-- What a remote rank makes of each reply; `none` is a message that cannot be read.
unfoldable pub meta_get_remote : Manager → Bytes → Option (Bool × Bytes × Manager)
unfolding count_read
meta_get_remote m reply =
    on_reply (λ r. (beq r.command return_meta_get, r.value, count_read m (length r.value)))
      (de_serialize_cmd reply)

unfoldable pub meta_get_all_remote :
    Manager → List (Bytes × Bytes) → Bytes → Option (Bool × List (Bytes × Bytes) × Manager)
unfolding count_read
meta_get_all_remote m values reply =
    on_reply
      (λ r. (
        beq r.command return_meta_get_all,
        vector_tuple_deserialize r.value values,
        count_read m (length r.value),
      ))
      (de_serialize_cmd reply)

unfoldable pub read_barrier_remote : Bytes → Option Bool
read_barrier_remote reply =
    on_reply (λ r. beq r.command return_read_barrier) (de_serialize_cmd reply)

unfoldable pub write_barrier_remote : Bytes → Option Bool
write_barrier_remote reply =
    on_reply (λ r. beq r.command return_write_barrier) (de_serialize_cmd reply)

-- How an operation goes on: it returns, it sends a command and returns, or it sends a command and
-- waits for the reply. MPI delivers what is sent.
pub data Action (A : Type 0) : Type 0 where
  returns : A → Action A
  sends : Bytes → A → Action A
  asks : Bytes → (Bytes → Option A) → Action A

-- The rank's own store if it is open, else the aggregating rank's, else nothing.
unfoldable pub by_role : {A : Type 0} → Manager → A → Action A → A → Action A
by_role m local remote neither =
    if is_open_local m then returns local else if is_open_remote m then remote else returns neither

module _ {S : Type 0} (store : LsmioStore S) where
  unfoldable pub get : Manager → S → Bytes → Bytes → Action (Bool × Bytes × Manager)
  unfolding by_role get_local get_remote
  get m s key old =
      by_role m (get_local store m s key old) (asks (get_request key) (get_remote m)) (true, old, m)

  -- A write counts on every rank.
  unfoldable pub put : Manager → S → Bytes → Bytes → Bool → Action (Bool × S × Manager)
  unfolding by_role put_local count_write
  put m s key value flush =
      let counted = count_write m (length value) in
      by_role m (put_local store m s key value flush)
        (sends (put_request key value) (true, s, counted)) (true, s, counted)

  unfoldable pub del : Manager → S → Bytes → Bool → Action (Bool × S)
  unfolding by_role del_local
  del m s key flush =
      by_role m (del_local store m s key flush) (sends (del_request key) (true, s)) (true, s)

  unfoldable pub meta_get : Manager → S → Bytes → Bytes → Action (Bool × Bytes × Manager)
  unfolding by_role meta_get_local meta_get_remote
  meta_get m s key old =
      by_role m (meta_get_local store m s key old) (asks (meta_get_request key) (meta_get_remote m))
        (true, old, m)

  -- The infix is not sent.
  unfoldable pub meta_get_all :
      Manager → S → List (Bytes × Bytes) → Bytes → Action (Bool × List (Bytes × Bytes) × Manager)
  unfolding by_role meta_get_all_local meta_get_all_remote
  meta_get_all m s values infix_bytes =
      by_role m (meta_get_all_local store m s values infix_bytes)
        (asks meta_get_all_request (meta_get_all_remote m values)) (true, values, m)

  unfoldable pub meta_put : Manager → S → Bytes → Bytes → Bool → Action (Bool × S × Manager)
  unfolding by_role meta_put_local count_write
  meta_put m s key value flush =
      let counted = count_write m (length value) in
      by_role m (meta_put_local store m s key value flush)
        (sends (meta_put_request key value) (true, s, counted)) (true, s, counted)

  with_store : S → Option Bool → Option (Bool × S)
  with_store s none = none
  with_store s (some ok) = some (ok, s)

  unfoldable pub read_barrier : Manager → S → Action (Bool × S)
  unfolding by_role read_barrier_remote with_store
  read_barrier m s =
      by_role m (store.read_barrier s)
        (asks read_barrier_request (λ reply. with_store s (read_barrier_remote reply))) (true, s)

  unfoldable pub write_barrier : Manager → S → Action (Bool × S)
  unfolding by_role write_barrier_remote with_store
  write_barrier m s =
      by_role m (store.write_barrier s)
        (asks write_barrier_request (λ reply. with_store s (write_barrier_remote reply))) (true, s)

-- ===== src/Manager/RemoteMeta.antt =====
-- The metadata commands of a remote rank, from its request to the store and back.
use lsmio.Base.{
  ℕ, ◌≡◌, refl, ap, true, some, List, [], ◌∷◌, ◌++◌, arith, Bytes, codes, All, beq, length,
  to_string,
}
use lsmio.Store
use lsmio.Store.{LsmioStore, meta_prefix}
use lsmio.Client.{
  cmd_meta_get, cmd_meta_put, return_meta_get, return_meta_get_all, kv_dummy, reply_command,
  serialize_cmd, de_serialize_cmd, serve,
}
use lsmio.Client.Wire.{IsPlain, de_serialize_cmd-serialize_cmd}
use lsmio.Manager.{Manager, ranked_key, count_read, written, callback}
use lsmio.Manager.Operations.{
  meta_get_request, meta_get_all_request, meta_put_request, meta_get_remote, meta_get_all_remote,
  on_reply,
}
use lsmio.Manager.Remote.{exchange, exchanged, answered}
use lsmio.Manager.Tuples.{IsClean, vector_tuple_serialize, deserialize-serialize}

IsPlain-cmd_meta_get : IsPlain cmd_meta_get
IsPlain-cmd_meta_get = omega arith

IsPlain-cmd_meta_put : IsPlain cmd_meta_put
IsPlain-cmd_meta_put = omega arith

IsPlain-return_meta_get : IsPlain return_meta_get
IsPlain-return_meta_get = omega arith

IsPlain-return_meta_get_all : IsPlain return_meta_get_all
IsPlain-return_meta_get_all = omega arith

IsPlain-kv_dummy : IsPlain kv_dummy
IsPlain-kv_dummy = omega arith

module _ {S : Type 0} (store : LsmioStore S) (m : Manager) (s : S) (rank : ℕ) where
  pub remote_meta_get :
      (key : Bytes) (asker : Manager)
      → IsPlain key
      → let value = written (Store.meta_get store s (ranked_key m rank key)) [] in
        let reply = serialize_cmd return_meta_get key value in
        (exchange store m s rank (meta_get_request key) ≡ some (s, reply ∷ []))
        × (meta_get_remote asker reply ≡ some (true, value, count_read asker (length value)))
  unfolding exchange exchanged answered meta_get_remote serve callback reply_command beq
  remote_meta_get key asker plain = (
    ap (exchanged store m s rank)
        (de_serialize_cmd-serialize_cmd cmd_meta_get key kv_dummy IsPlain-cmd_meta_get plain),
    ap (on_reply _)
        (de_serialize_cmd-serialize_cmd return_meta_get key _ IsPlain-return_meta_get plain),
  )

  pub remote_meta_put :
      (key value : Bytes)
      → IsPlain key
      → exchange store m s rank (meta_put_request key value)
        ≡ some ((Store.meta_put store s (ranked_key m rank key) value m.always_flush).1, [])
  unfolding exchange exchanged answered serve callback reply_command beq
  remote_meta_put key value plain =
      ap (exchanged store m s rank)
        (de_serialize_cmd-serialize_cmd cmd_meta_put key value IsPlain-cmd_meta_put plain)

  -- A remote metaGetAll leaves the store alone and is answered once; if the keys found for the
  -- rank have no bar and no newline and the values no newline, the asking rank gets success with
  -- all of these pairs behind the values it had, and counts the bytes of the reply.
  pub remote_meta_get_all :
      (asker : Manager) (old : List (Bytes × Bytes))
      → All IsClean (Store.meta_get_all store s (to_string rank ++ codes "::")).1
      → let found = (Store.meta_get_all store s (to_string rank ++ codes "::")).1 in
        let value = vector_tuple_serialize found in
        let reply = serialize_cmd return_meta_get_all kv_dummy value in
        (exchange store m s rank meta_get_all_request ≡ some (s, reply ∷ []))
        × (meta_get_all_remote asker old reply
            ≡ some (true, old ++ found, count_read asker (length value)))
  unfolding exchange exchanged answered meta_get_all_remote serve callback reply_command beq
      serialize_cmd de_serialize_cmd
  remote_meta_get_all asker old clean = (
    refl,
    ap (λ values. some (true, values, count_read asker (length serialized)))
        (deserialize-serialize _ old clean),
  )
    where
      serialized : Bytes
      serialized =
          vector_tuple_serialize (Store.meta_get_all store s (to_string rank ++ codes "::")).1

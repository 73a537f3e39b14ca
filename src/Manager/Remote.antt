-- ===== src/Manager/Remote.antt =====
-- A remote rank's commands, from its request to the store and back.
use lsmio.Base.{
  ℕ, ◌≡◌, sym, ap, ◌∙◌, true, false, ◌&&◌, Option, none, some, List, [], ◌∷◌, arith, Bytes, beq,
  ◌==◌, length, if◌then◌else◌,
}
use lsmio.Store
use lsmio.Store.{LsmioStore}
use lsmio.Store.Laws.{IsMap}
use lsmio.Client.{
  Message, Channel, cmd_get, cmd_put, cmd_del, return_get, kv_dummy, reply_command, serialize_cmd,
  de_serialize_cmd, serve,
}
use lsmio.Client.Wire.{IsPlain, de_serialize_cmd-serialize_cmd}
use lsmio.Manager.{
  Manager, is_serve_local, ranked_key, count_read, written, callback, get_request, put_request,
  del_request, read_get, get_remote,
}
use lsmio.Manager.Keys.{beq-ranked_key}

abbrev pub channel : ℕ → Channel
channel rank = record { rank = rank; inbox = []; outbox = []; eol = false }

module _ {S : Type 0} (store : LsmioStore S) (m : Manager) where
  unfoldable pub answered : S × Channel → S × List Bytes
  answered (s, c) = (s, c.outbox)

  unfoldable pub exchanged : S → ℕ → Option Message → Option (S × List Bytes)
  exchanged s rank none = none
  exchanged s rank (some c) = some (answered (serve (callback store m) s (channel rank) c))

  -- One request at the server: the store afterwards, and the replies.
  unfoldable pub exchange : S → ℕ → Bytes → Option (S × List Bytes)
  unfolding exchanged answered
  exchange s rank request = exchanged s rank (de_serialize_cmd request)

IsPlain-cmd_get : IsPlain cmd_get
IsPlain-cmd_get = omega arith

IsPlain-cmd_put : IsPlain cmd_put
IsPlain-cmd_put = omega arith

IsPlain-cmd_del : IsPlain cmd_del
IsPlain-cmd_del = omega arith

IsPlain-return_get : IsPlain return_get
IsPlain-return_get = omega arith

module _ {S : Type 0} (store : LsmioStore S) (m : Manager) (s : S) (rank : ℕ) (key : Bytes)
    (plain : IsPlain key) where
  -- For a key without zero bytes and semicolons, a remote get leaves the store alone, is
  -- answered once, and gives the asking rank success with the value of its own key, and success
  -- with the empty string where the store has no value.
  pub remote_get :
      (asker : Manager)
      → let value = written (store.get s (ranked_key m rank key)) [] in
        let reply = serialize_cmd return_get key value in
        (exchange store m s rank (get_request key) ≡ some (s, reply ∷ []))
        × (get_remote asker reply ≡ some (true, value, count_read asker (length value)))
  unfolding exchange get_remote serve callback reply_command beq
  remote_get asker = (
    ap (exchanged store m s rank)
        (de_serialize_cmd-serialize_cmd cmd_get key kv_dummy IsPlain-cmd_get plain),
    ap (read_get asker) (de_serialize_cmd-serialize_cmd return_get key _ IsPlain-return_get plain),
  )

  -- A remote `put` changes the store like a local one of the rank's own key, and has no answer.
  pub remote_put :
      (value : Bytes)
      → exchange store m s rank (put_request key value)
        ≡ some ((Store.put_value store s (ranked_key m rank key) value m.always_flush).1, [])
  unfolding exchange serve callback reply_command beq
  remote_put value =
      ap (exchanged store m s rank)
        (de_serialize_cmd-serialize_cmd cmd_put key value IsPlain-cmd_put plain)

  pub remote_del :
      exchange store m s rank (del_request key)
      ≡ some ((Store.del_value store s (ranked_key m rank key) m.always_flush).1, [])
  unfolding exchange serve callback reply_command beq
  remote_del =
      ap (exchanged store m s rank)
        (de_serialize_cmd-serialize_cmd cmd_del key kv_dummy IsPlain-cmd_del plain)

-- On a rank that serves others, over a store that is a map, the server handles a remote put of a
-- key without zero bytes and semicolons without a reply; then a rank reads the stored value
-- under a key exactly if rank and key are those of the writer, and every other rank and key
-- keeps its value.
pub get_after_remote_put :
    {S : Type 0} (store : LsmioStore S) (stored : Bytes → Option Bytes) (m : Manager) (s t : S)
    (r r' : ℕ) (k k' v : Bytes) (replies : List Bytes)
    → IsMap store stored
    → is_serve_local m ≡ true
    → IsPlain k
    → exchange store m s r (put_request k v) ≡ some (t, replies)
    → (store.get t (ranked_key m r' k')
        ≡ (if (r == r') && beq k k' then stored v else store.get s (ranked_key m r' k')))
      × (replies ≡ [])
unfolding Store.put_value
get_after_remote_put store stored m s t r r' k k' v replies laws serves plain e = (
  ap (λ u. store.get u (ranked_key m r' k')) (sym parts.0)
      ∙ laws.get-put s (ranked_key m r k) (ranked_key m r' k') v m.always_flush
      ∙ ap (λ b. if b then stored v else store.get s (ranked_key m r' k'))
          (beq-ranked_key m r r' k k' serves),
  sym parts.1,
)
  where
    parts : ((Store.put_value store s (ranked_key m r k) v m.always_flush).1 ≡ t) × ([] ≡ replies)
    parts = (cc (remote_put store m s r k plain v), cc (remote_put store m s r k plain v))

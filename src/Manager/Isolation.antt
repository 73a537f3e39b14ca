-- ===== src/Manager/Isolation.antt =====
-- The ranks that share a store each see a map of their own, whatever the others do.
use lsmio.Base.{
  ℕ, ◌≡◌, refl, sym, ap, subst, ◌∙◌, true, ◌&&◌, Option, none, some, List, [], ◌∷◌, Bytes, All, beq,
  ◌==◌, if◌then◌else◌,
}
use lsmio.Store
use lsmio.Store.{LsmioStore}
use lsmio.Store.Laws.{IsMap}
use lsmio.Client.{
  serialize_cmd, de_serialize_cmd, reply_command, serve, return_write_barrier, kv_dummy,
}
use lsmio.Client.Wire.{IsPlain}
use lsmio.Manager.{Manager, callback, is_serve_local, ranked_key, put_request, del_request}
use lsmio.Manager.Operations.{write_barrier_request}
use lsmio.Manager.Keys.{beq-ranked_key}
use lsmio.Manager.Remote.{exchange, exchanged, answered, remote_put, remote_del}

-- What the ranks send that changes the store.
pub data Request : Type 0 where
  puts : Bytes → Bytes → Request
  dels : Bytes → Request
  barriers : Request

unfoldable pub request_bytes : Request → Bytes
request_bytes (puts key value) = put_request key value
request_bytes (dels key) = del_request key
request_bytes barriers = write_barrier_request

abbrev pub IsPlainRequest : Request → Type 0
IsPlainRequest (puts key value) = IsPlain key
IsPlainRequest (dels key) = IsPlain key
IsPlainRequest barriers = Unit

module _ {S : Type 0} (store : LsmioStore S) (m : Manager) where
  after_exchange : Option (S × List Bytes) → (S → Option S) → Option S
  after_exchange none more = none
  after_exchange (some (s, replies)) more = more s

  -- The server handles the requests of the ranks one after the other.
  unfoldable pub exchanges : S → List (ℕ × Request) → Option S
  unfolding after_exchange
  exchanges s [] = some s
  exchanges s ((rank, r) ∷ requests) =
      after_exchange (exchange store m s rank (request_bytes r)) (λ t. exchanges t requests)

module _ (stored : Bytes → Option Bytes) where
  -- What a rank's own map holds for the key after the requests.
  unfoldable pub own_value : ℕ → Bytes → Option Bytes → List (ℕ × Request) → Option Bytes
  own_value rank key old [] = old
  own_value rank key old ((r, puts k v) ∷ requests) =
      own_value rank key (if (r == rank) && beq k key then stored v else old) requests
  own_value rank key old ((r, dels k) ∷ requests) =
      own_value rank key (if (r == rank) && beq k key then none else old) requests
  own_value rank key old ((r, barriers) ∷ requests) = own_value rank key old requests

abbrev IsPlainFrom : ℕ × Request → Type 0
IsPlainFrom (r, q) = IsPlainRequest q

module _ {S : Type 0} (store : LsmioStore S) (m : Manager) (s : S) (rank : ℕ) where
  -- A remote barrier is one of the store, and its reply reads as success.
  pub remote_write_barrier :
      exchange store m s rank write_barrier_request
      ≡ some ((store.write_barrier s).1, serialize_cmd return_write_barrier kv_dummy [] ∷ [])
  unfolding exchange exchanged answered serve callback reply_command beq serialize_cmd
      de_serialize_cmd
  remote_write_barrier = refl

module _ {S : Type 0} (store : LsmioStore S) (stored : Bytes → Option Bytes) (m : Manager)
    (laws : IsMap store stored) (serves : is_serve_local m ≡ true) (rank : ℕ) (key : Bytes) where
  abbrev read : S → Option Bytes
  read s = store.get s (ranked_key m rank key)

  abbrev Serves : Option S → Option Bytes → Type 0
  Serves none value = ⊥
  Serves (some t) value = read t ≡ value

  -- One request served, and then the others.
  one_served :
      (s t : S) (replies : List Bytes) (r : ℕ) (q : Request) (requests : List (ℕ × Request))
      (value : Option Bytes)
      → exchange store m s r (request_bytes q) ≡ some (t, replies)
      → read t ≡ value
      → Serves (exchanges store m t requests) (own_value stored rank key (read t) requests)
      → Serves (exchanges store m s ((r, q) ∷ requests)) (own_value stored rank key value requests)
  unfolding exchanges after_exchange
  one_served s t replies r q requests value e v rest =
      subst
        (λ o.
          Serves (after_exchange store m o (λ u. exchanges store m u requests))
            (own_value stored rank key value requests))
        (sym e)
        (subst (λ w. Serves (exchanges store m t requests) (own_value stored rank key w requests)) v
          rest)

  exchanges-Serves :
      (s : S) (requests : List (ℕ × Request))
      → All IsPlainFrom requests
      → Serves (exchanges store m s requests) (own_value stored rank key (read s) requests)
  unfolding exchanges own_value request_bytes Store.put_value Store.del_value
  exchanges-Serves s [] plain = refl
  exchanges-Serves s ((r, puts k v) ∷ requests) plain =
      one_served s _ [] r (puts k v) requests _ (remote_put store m s r k plain.0 v)
        (laws.get-put s (ranked_key m r k) (ranked_key m rank key) v m.always_flush
          ∙ ap (λ b. if b then stored v else read s) (beq-ranked_key m r rank k key serves))
        (exchanges-Serves (Store.put_value store s (ranked_key m r k) v m.always_flush).1 requests
          plain.1)
  exchanges-Serves s ((r, dels k) ∷ requests) plain =
      one_served s _ [] r (dels k) requests _ (remote_del store m s r k plain.0)
        (laws.get-del s (ranked_key m r k) (ranked_key m rank key) m.always_flush
          ∙ ap (λ b. if b then none else read s) (beq-ranked_key m r rank k key serves))
        (exchanges-Serves (Store.del_value store s (ranked_key m r k) m.always_flush).1 requests
          plain.1)
  exchanges-Serves s ((r, barriers) ∷ requests) plain =
      one_served s _ _ r barriers requests _ (remote_write_barrier store m s r)
        (laws.get-write_barrier s (ranked_key m rank key))
        (exchanges-Serves (store.write_barrier s).1 requests plain.1)

  -- On a rank that serves others, over a store that is a map, the server handles any sequence of
  -- remote puts, dels and write barriers whose keys have no zero byte and no semicolon; then
  -- each rank reads under each key what its own map holds after its own requests, whatever the
  -- other ranks sent.
  pub exchanges-own_value :
      (s : S) (requests : List (ℕ × Request))
      → All IsPlainFrom requests
      → (t : S) × (exchanges store m s requests ≡ some t)
        × (store.get t (ranked_key m rank key)
            ≡ own_value stored rank key (store.get s (ranked_key m rank key)) requests)
  exchanges-own_value s requests plain =
      go (exchanges store m s requests) refl (exchanges-Serves s requests plain)
    where
      value : Option Bytes
      value = own_value stored rank key (read s) requests

      go :
          (o : Option S)
          → exchanges store m s requests ≡ o
          → Serves o value
          → (t : S) × (exchanges store m s requests ≡ some t) × (read t ≡ value)
      go none e h = absurd h
      go (some t) e h = (t, e, h)

-- ===== src/Tests/Transport.antt =====
-- The theorems on the messages over MPI at concrete inputs.
use lsmio.Base.{
  ℕ, ◌+◌, ◌≡◌, ◌≤◌, ◌<◌, to_string, refl, sym, subst, true, false, ◌&&◌, Option, some, length,
  lookup, insert, lookup-insert, if_cases, List, [], ◌∷◌, ◌++◌, arith, Bytes, codes, beq, drop, map,
  ◌==◌, if◌then◌else◌,
}
use lsmio.Client.{
  Message, cmd_get, cmd_put, eol_command, return_get, serialize_cmd, de_serialize_cmd,
  reply_command, wait_for_command,
}
use lsmio.Client.Mpi.{
  Network, IsOrderly, MpiClient, int_limit, send_command, recv_command, got, finished,
  mpi_wait_for_command,
}
use lsmio.Store.{put_value}
use lsmio.Store.Rdb.{batch_mutation}
use lsmio.Manager.{Manager, written, callback}
use lsmio.Tests.Instances.{Entries, map_store}
use lsmio.Client.Mpi.Channels.{channel_of}
use lsmio.Client.Mpi.Rounds.{WaitingFit}
use lsmio.Client.Mpi.Loop.{
  all_seen, wait_for_command-seen, mpi_wait_for_command-finished, recv_command-send_command,
}

-- The queues between all pairs of ranks.
abbrev Queues : Type 0
Queues = ℕ → ℕ → List Bytes

abbrev queues : Network Queues
queues = record {
  incoming = λ w me from. w me from;
  send = λ w from to buf me other.
      if (me == to) && (other == from) then w me other ++ buf ∷ [] else w me other;
  receive = λ w at from me other.
      if (me == at) && (other == from) then drop 1 (w me other) else w me other;
}

queues-IsOrderly : IsOrderly queues
queues-IsOrderly = record {
  incoming-send = λ w from to me other buf. refl;
  incoming-receive = λ w at from me other. refl;
}

abbrev server : MpiClient
server = record { rank = 0; size = 3 }

-- Rank 1 gets a value and rank 2 puts one; then both end.
abbrev waiting : ℕ → List Bytes
waiting from =
    if from == 1
    then serialize_cmd cmd_get (codes "k") [] ∷ serialize_cmd eol_command [] [] ∷ []
    else serialize_cmd cmd_put (codes "k") (codes "v") ∷ serialize_cmd eol_command [] [] ∷ []

abbrev sent : Queues
sent me from = if me == 0 then waiting from else []

-- The rank that owns the store and serves two others.
abbrev owner : Manager
owner = record {
  is_shared = true;
  agg_rank = 0;
  agg_size = 3;
  always_flush = false;
  counter_write_bytes = 0;
  counter_read_bytes = 0;
  counter_write_ops = 0;
  counter_read_ops = 0;
}

-- The manager's own callback, over a store in memory.
abbrev answering : Entries → ℕ → Message → Entries × Bytes
answering = callback map_store owner

-- No value in the store is longer than one byte.
unfoldable IsShort : Entries → Type 0
IsShort d = (k : Bytes) → length (written (lookup k d) []) ≤ 1

IsShort-insert : (d : Entries) (k : Bytes) (c : ℕ) → IsShort d → IsShort (insert k (c ∷ []) d)
unfolding IsShort
IsShort-insert d k c short j =
    subst (λ (o : Option Bytes). length (written o []) ≤ 1) (sym (lookup-insert k j (c ∷ []) d))
      (if_cases (λ (o : Option Bytes). length (written o []) ≤ 1) (beq k j) _ _ (λ _. omega arith)
        (λ _. short j))

nothing-IsShort : IsShort []
unfolding IsShort lookup
nothing-IsShort k = omega arith

short-reply :
    (d : Entries)
    → IsShort d
    → 10 + length (written (lookup (to_string 1 ++ codes "::k") d) []) < int_limit
unfolding IsShort
short-reply d short = omega (arith, short (to_string 1 ++ codes "::k"))

sent-WaitingFit : WaitingFit queues server queues-IsOrderly answering IsShort sent (1 ∷ 2 ∷ [])
unfolding serialize_cmd de_serialize_cmd reply_command beq callback put_value batch_mutation
sent-WaitingFit = (
  ((λ s short. (short, omega (arith, short-reply s short))), ((λ s short. (short, tt)), tt)),
  (((λ s short. (IsShort-insert s _ b'v' short, tt)), ((λ s short. (short, tt)), tt)), tt),
)

wait_for_command-seen_example :
    wait_for_command answering 3 [] (map (channel_of queues server sent (λ r. false)) (1 ∷ 2 ∷ []))
    ≡ all_seen queues server queues-IsOrderly answering IsShort
        (1 ∷ 2 ∷ [])
        (mpi_wait_for_command queues server answering 3 [] (λ r. false) sent (1 ∷ 2 ∷ []))
wait_for_command-seen_example =
    wait_for_command-seen queues server queues-IsOrderly answering IsShort 3 [] sent (λ r. false)
      (1 ∷ 2 ∷ []) (refl, (refl, tt), (refl, tt, tt)) nothing-IsShort sent-WaitingFit

mpi_wait_for_command-finished_example :
    (t : Entries) × (mpi_wait_for_command queues server answering 3 []
        (λ r. false)
        sent
        (1 ∷ 2 ∷ [])
      ≡ some (finished t))
unfolding serialize_cmd de_serialize_cmd beq channel_of
mpi_wait_for_command-finished_example =
    mpi_wait_for_command-finished queues server queues-IsOrderly answering IsShort 2 [] sent
      (λ r. false) (1 ∷ 2 ∷ []) (refl, (refl, tt), (refl, tt, tt)) nothing-IsShort sent-WaitingFit
      ((refl, (refl, refl)), ((refl, (refl, refl)), tt))

recv_command-send_command_example :
    (v : Queues) × (u : Queues) × (send_command queues server
        (λ me from. [])
        1
        return_get
        (codes "k")
        (codes "v")
      ≡ some v)
    × (recv_command queues (record { rank = 1; size = 3 }) v 0
        ≡ got (record { command = return_get; key = codes "k"; value = codes "v" }) u)
unfolding serialize_cmd
recv_command-send_command_example =
    recv_command-send_command queues server (record { rank = 1; size = 3 }) (λ me from. [])
      return_get (codes "k") (codes "v") queues-IsOrderly refl (omega arith) (omega arith)
      (omega arith)

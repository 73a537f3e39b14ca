-- ===== src/Tests/Clients.antt =====
-- The theorems on the client protocol and the manager at concrete inputs.
use lsmio.Base.{
  ℕ, ◌≡◌, refl, true, false, none, some, List, [], ◌∷◌, arith, Bytes, codes, lookup, map, beq, inl,
}
use lsmio.Client.{
  de_serialize_cmd, Channel, eol_command, return_get, serialize_cmd, blocked, wait_for_command,
}
use lsmio.Client.Starved.{queue_of, Starves, called, first_rounds, wait_for_command_blocks}
use lsmio.Manager.{Manager, get_request, put_request, count_read, get_remote, callback}
use lsmio.Manager.Tuples.{vector_tuple_serialize, vector_tuple_deserialize, deserialize-serialize}
use lsmio.Manager.Remote.{exchange, remote_get}
use lsmio.Manager.Lifecycle.{
  Call, initializes, cleans_up, IsConsistent, run-IsConsistent, start-IsConsistent,
  initialize_after_throw, initialize, get_manager, null,
}
use lsmio.Manager.Lifecycle
use lsmio.Tests.Instances.{map_store}

-- The rank that serves two others.
abbrev pub server : Manager
server = record {
  is_shared = true;
  agg_rank = 0;
  agg_size = 3;
  always_flush = false;
  counter_write_bytes = 0;
  counter_read_bytes = 0;
  counter_write_ops = 0;
  counter_read_ops = 0;
}

abbrev ended : Bytes
ended = serialize_cmd eol_command [] []

abbrev rank_with : ℕ → List Bytes → Channel
rank_with rank inbox = record { rank = rank; inbox = inbox; outbox = []; eol = false }

-- The first rank has sent one command, the second two.
abbrev uneven_ranks : List Channel
uneven_ranks =
    rank_with 1 (put_request (codes "k") (codes "v") ∷ [])
    ∷ rank_with 2 (get_request (codes "k") ∷ get_request (codes "k") ∷ [])
    ∷ []

wait_for_command_blocks_example :
    wait_for_command (callback map_store server) 2 [] uneven_ranks
    ≡ some (
        blocked
          (called (callback map_store server) [] (first_rounds 1 (map queue_of uneven_ranks))))
unfolding serialize_cmd de_serialize_cmd beq Starves
wait_for_command_blocks_example =
    wait_for_command_blocks (callback map_store server) 1 [] uneven_ranks
      ((refl, (refl, tt)), ((refl, (refl, tt)), tt)) (inl refl)

remote_get_example :
    (exchange map_store server [] 1 (get_request (codes "k"))
      ≡ some ([], serialize_cmd return_get (codes "k") [] ∷ []))
    × (get_remote server (serialize_cmd return_get (codes "k") [])
        ≡ some (true, [], count_read server 0))
unfolding lookup
remote_get_example = remote_get map_store server [] 1 (codes "k") (omega arith) server

deserialize-serialize_example :
    vector_tuple_deserialize
      (vector_tuple_serialize ((codes "a", codes "1") ∷ (codes "b", []) ∷ []))
      []
    ≡ (codes "a", codes "1") ∷ (codes "b", []) ∷ []
deserialize-serialize_example =
    deserialize-serialize ((codes "a", codes "1") ∷ (codes "b", []) ∷ []) [] (omega arith)

initialize_after_throw_example :
    ((initialize (Lifecycle.run (initialize Lifecycle.start false).0 (cleans_up ∷ [])) true).1
      ≡ null)
    × (get_manager (Lifecycle.run (initialize Lifecycle.start false).0 (cleans_up ∷ [])) ≡ none)
initialize_after_throw_example = initialize_after_throw Lifecycle.start (cleans_up ∷ []) true refl

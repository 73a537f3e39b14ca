-- ===== src/Tests/Managers.antt =====
-- The theorems on the ranks of a job at concrete inputs.
use lsmio.Base.{
  ℕ, ◌≡◌, ◌≢◌, refl, true, false, some, List, [], ◌∷◌, ◌++◌, arith, codes, length, to_string,
  insert, blt, starts_with, digits,
}
use lsmio.Config.{LsmioConfig, default_config, split, native_db}
use lsmio.Store
use lsmio.Store.{put_value}
use lsmio.Store.Ldb.{while_prefix}
use lsmio.Store.Rdb
use lsmio.Client.{return_meta_get_all, kv_dummy, serialize_cmd}
use lsmio.Manager.{ranked_key, is_open_local, is_serve_local, count_read}
use lsmio.Manager.Setup.{
  Place, Mpi, init, manager_of, role_of, Running, start_role, init_world, world_of, agg_colour,
}
use lsmio.Manager.Setup.Paths.{init-distinct}
use lsmio.Manager.Setup.Pairs.{members, IsRankOrdered, role_of-split}
use lsmio.Manager.Operations.{meta_get_all_request, meta_get_all_remote}
use lsmio.Manager.Remote.{exchange}
use lsmio.Manager.RemoteMeta.{remote_meta_get_all}
use lsmio.Manager.Isolation.{
  puts, dels, barriers, Request, exchanges, own_value, exchanges-own_value,
}
use lsmio.Manager.Tuples.{vector_tuple_serialize}
use lsmio.Tests.Instances.{Entries, from_key, map_store, map_store-IsMap}
use lsmio.Tests.Clients.{server}

abbrev requests : List (ℕ × Request)
requests =
    (1, puts (codes "k") (codes "v"))
    ∷ (2, puts (codes "k") (codes "w"))
    ∷ (1, barriers)
    ∷ (2, dels (codes "k"))
    ∷ []

exchanges-own_value_example :
    (t : Entries) × (exchanges map_store server [] requests ≡ some t)
    × (map_store.get t (ranked_key server 1 (codes "k"))
        ≡ own_value some 1
            (codes "k")
            (map_store.get [] (ranked_key server 1 (codes "k")))
            requests)
unfolding is_serve_local
exchanges-own_value_example =
    exchanges-own_value map_store some server map_store-IsMap refl 1 (codes "k") [] requests
      (omega arith, (omega arith, (tt, (omega arith, tt))))

-- All ranks on one node, and groups in rank order.
abbrev one_node : Mpi
one_node = record {
  split_shared = λ p. p;
  split_colour = λ colour p. record {
    rank = members colour (colour p.rank) p.rank;
    size = members colour (colour p.rank) p.size;
  };
}

one_node-IsRankOrdered : IsRankOrdered one_node
one_node-IsRankOrdered colour p below = refl

abbrev in_pairs : LsmioConfig
in_pairs = record default_config { mpi_agg_type = split }

abbrev rank_of_four : ℕ → Place
rank_of_four rank = record { rank = rank; size = 4 }

role_of-split_example :
    (is_open_local (manager_of in_pairs (role_of one_node in_pairs (some (rank_of_four 2)))) ≡ true)
    × (is_serve_local (manager_of in_pairs (role_of one_node in_pairs (some (rank_of_four 2))))
        ≡ true)
role_of-split_example =
    role_of-split one_node one_node-IsRankOrdered in_pairs refl (rank_of_four 2) (omega arith)
      (omega arith)

abbrev running : ℕ → Running
running rank =
    start_role in_pairs (role_of one_node in_pairs (some (rank_of_four rank))) (codes "db")
      (codes "d")

init-distinct_example : (running 0).db_path ≢ (running 2).db_path
unfolding init init_world world_of start_role role_of manager_of is_open_local members agg_colour
init-distinct_example =
    init-distinct one_node in_pairs (rank_of_four 0) (rank_of_four 2) (codes "db") (codes "d")
      (running 0) (running 2) native_db native_db refl (omega arith) (omega arith)
      (λ e. omega (arith, e)) refl refl refl refl

abbrev with_metadata : Entries
with_metadata = (put_value map_store [] (codes "__lsmio_md::1::k") (codes "k;double") false).1

remote_meta_get_all_example :
    let found = (Store.meta_get_all map_store with_metadata (to_string 1 ++ codes "::")).1 in
    let value = vector_tuple_serialize found in
    let reply = serialize_cmd return_meta_get_all kv_dummy value in
    (exchange map_store server with_metadata 1 meta_get_all_request
      ≡ some (with_metadata, reply ∷ []))
    × (meta_get_all_remote server [] reply
        ≡ some (true, [] ++ found, count_read server (length value)))
unfolding put_value Store.meta_get_all insert blt starts_with to_string digits while_prefix
    Rdb.get_prefix from_key Rdb.batch_mutation
remote_meta_get_all_example =
    remote_meta_get_all map_store server with_metadata 1 server [] (omega arith)

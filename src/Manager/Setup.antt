-- ===== src/Manager/Setup.antt =====
-- `_init` and `close` of lib/manager/manager.cpp: the role of a rank, the path of its store, and
-- what it starts and stops. MPI is a parameter.
pub mod Paths
pub mod Pairs
use lsmio.Base.{
  ℕ, ◌/◌, Bool, true, false, not, ◌&&◌, ◌||◌, Option, none, some, List, [], ◌∷◌, ◌++◌, Bytes, codes,
  ltb, ◌==◌, to_string, if◌then◌else◌,
}
use lsmio.Config.{MpiAggType, shared, entire, entire_serial, split, StorageType, LsmioConfig}
use lsmio.Native.FilePool.{join}
use lsmio.Manager.{Manager, is_open_local, is_open_remote, is_serve_local, aggregation_rank}

-- The rank and the size that a rank has in a group of ranks.
pub record Place : Type 0 where
  pub rank : ℕ
  pub size : ℕ

-- What MPI answers to a rank of a communicator: its place in the group of its shared memory
-- (MPI_Comm_split_type), and in the group of those with its colour (MPI_Comm_split, with the world
-- rank as the key).
pub record Mpi : Type 0 where
  pub split_shared : Place → Place
  pub split_colour : (ℕ → ℕ) → Place → Place

-- The communicator that a constructor gets.
pub data CommArg : Type 0 where
  no_comm : CommArg
  mpi_comm : Place → CommArg
  adios_comm : Bool → Place → CommArg

-- `none` is the exception: a shared file without MPI.
unfoldable pub world_of : CommArg → Option (Option Place)
world_of no_comm = some none
world_of (mpi_comm p) = some (some p)
world_of (adios_comm is_mpi p) = if is_mpi then some (some p) else none

-- Whether the ranks share, whether in groups, the rank in the world, and the place in the group.
pub record Role : Type 0 where
  pub is_shared : Bool
  pub is_shared_split : Bool
  pub world_rank : ℕ
  pub agg : Place

unfoldable pub agg_colour : ℕ → ℕ
agg_colour world_rank = world_rank / 2

unfoldable pub group_of : Mpi → MpiAggType → Place → Place
group_of mpi shared p = mpi.split_shared p
group_of mpi split p = mpi.split_colour agg_colour p
group_of mpi entire p = p
group_of mpi entire_serial p = p

unfoldable pub in_groups : MpiAggType → Bool
in_groups shared = true
in_groups split = true
in_groups entire = false
in_groups entire_serial = false

abbrev alone : ℕ → Role
alone world_rank = record {
  is_shared = false;
  is_shared_split = false;
  world_rank = world_rank;
  agg = record { rank = 0; size = 1 };
}

unfoldable pub role_of : Mpi → LsmioConfig → Option Place → Role
unfolding group_of in_groups
role_of mpi config none = alone 0
role_of mpi config (some p) =
    if ltb 1 p.size
    then record {
      is_shared = true;
      is_shared_split = in_groups config.mpi_agg_type;
      world_rank = p.rank;
      agg = group_of mpi config.mpi_agg_type p;
    }
    else alone p.rank

-- AGGREGATION_DIR_INFIX
abbrev pub agg_infix : Bytes
agg_infix = codes "agg"

abbrev pub has_own_dir : LsmioConfig → Role → Bool
has_own_dir config r = r.is_shared && (r.is_shared_split && not config.disable_agg_dir_structure)

unfoldable pub db_dir_of : LsmioConfig → Role → Bytes → Bytes
unfolding join
db_dir_of config r dir =
    if has_own_dir config r then join (join dir agg_infix) (to_string r.world_rank) else dir

unfoldable pub path_in : Bytes → Bytes → Bytes
path_in [] name = name
path_in (c ∷ dir) name = (c ∷ dir) ++ (b'/' ∷ name)

unfoldable pub manager_of : LsmioConfig → Role → Manager
manager_of config r = record {
  is_shared = r.is_shared;
  agg_rank = r.agg.rank;
  agg_size = r.agg.size;
  always_flush = config.always_flush;
  counter_write_bytes = 0;
  counter_read_bytes = 0;
  counter_write_ops = 0;
  counter_read_ops = 0;
}

-- The part that a manager plays in the collective I/O.
pub data Collective : Type 0 where
  server : Collective
  client : Collective

-- `store` is the back end that is open, with its path, and `collective` the started part of the MPI
-- client; both are pointers of the source.
pub record Running : Type 0 where
  pub manager : Manager
  pub makes_dir : Bool
  pub db_dir : Bytes
  pub db_path : Bytes
  pub store : Option StorageType
  pub collective : Option Collective

unfoldable pub collective_of : Manager → Option Collective
collective_of m =
    if is_serve_local m then some server else if is_open_remote m then some client else none

unfoldable pub start_role : LsmioConfig → Role → Bytes → Bytes → Running
start_role config r name dir =
    let m = manager_of config r in
    let own = db_dir_of config r dir in
    record {
      manager = m;
      makes_dir = has_own_dir config r && (r.agg.rank == aggregation_rank);
      db_dir = own;
      db_path = path_in own name;
      store = if is_open_local m then some config.storage_type else none;
      collective = collective_of m;
    }

unfoldable pub init_world :
    Mpi → LsmioConfig → Option (Option Place) → Bytes → Bytes → Option Running
init_world mpi config none name dir = none
init_world mpi config (some world) name dir =
    some (start_role config (role_of mpi config world) name dir)

-- `_init`; `none` if it throws.
unfoldable pub init : Mpi → LsmioConfig → CommArg → Bytes → Bytes → Option Running
unfolding init_world start_role collective_of manager_of path_in db_dir_of role_of world_of
init mpi config comm name dir = init_world mpi config (world_of comm) name dir

-- The calls of `close`, in order.
pub data Call : Type 0 where
  stop_server : Call
  stop_client : Call
  close_store : StorageType → Call

stops : Option Collective → List Call
stops none = []
stops (some server) = stop_server ∷ []
stops (some client) = stop_client ∷ []

closes : Option StorageType → List Call
closes none = []
closes (some t) = close_store t ∷ []

-- MPI goes first, because the server needs the store.
unfoldable pub close : Running → List Call × Running
unfolding stops closes
close r = (stops r.collective ++ closes r.store, record r { store = none; collective = none })

-- ===== src/Lib.antt =====
-- LSMIO stores key-value pairs for parallel programs. One rank of a group owns a store and serves
-- the others over MPI messages; a stream interface puts files on top of it.
--
-- Parts, with the files that model them (paths from the repository's root):
--
-- - Base: bytes, strings, ordered maps, decimal numbers and the list lemmas that all parts share.
-- - Native: the native back end in lib/manager/store/native.
--   Memtable is memtable.cpp (add, get, scan). FilePool is file_pool.cpp: `acquire`, `replenish`
--   (one round of the worker), `path_of` (the name of a file). FileCloser is file_closer.cpp.
--   Sstable is sstable_manager.cpp: `flush_memtable`, `get`, `scan`; Sstable/Index is the sorted
--   index of offsets, Sstable/Format the bytes of a file, Sstable/Recover `recoverState`. Store is
--   store_native.cpp: `batch_mutation` and `resume` (a writer before and after it waits), `take` and
--   `finish` (the flush thread), `begin_barrier`, `get`, `get_prefix`. A step is what one thread does
--   while it holds the state mutex. Store/Events is `close` (`begin_close`, `join`, `collect`,
--   `drain`) and `step`, which takes an event of any thread to the next state; Store/Steps is the rule
--   by which steps keep a predicate, Store/Flight a key on its way to disk, Store/Runs the runs of steps, Store/Progress the steps that the
--   flush thread and the pool can always take. Sstable/Laid says how tables, pool and directory belong
--   together in a run; with it Sstable/Restart recovers a directory, Store/Reopen opens a store on it,
--   and Store/Sessions lets a database live on over many stores. Sstable/Scan and Store/Prefix relate
--   the scans of getPrefix to the lookups.
-- - Store: the interface LSMIOStore as a record of functions over the state of a back end
--   (lib/manager/store/store.cpp), with Store/Laws for what a client relies on. Store/Ldb is
--   store_ldb.cpp and Store/Rdb is store_rdb.cpp; the databases are parameters, records of the calls
--   that the code makes. Store/Opening is how their constructors open or remove a database, the child
--   modules Opening the options that the configuration becomes, and Lives a store from its
--   constructor to `close`. Store/Ldb/Prefixes is about the listings of both. The LevelDB store is
--   that of one calling thread.
-- - Client: lib/manager/client/client.cpp. Client/Wire is the wire format, Client/Lockstep the loop
--   `_waitForCommand`, over channels: what a rank has sent and what it was sent, in order. Client/Mpi
--   is lib/manager/client/client_mpi.cpp, with MPI as a parameter, and the same loop on top of it;
--   Client/Mpi/Channels, Handling, Replies and Rounds show one message, one round and the loop to
--   agree. Client/Starved is about ranks that send different numbers of commands.
-- - Manager: lib/manager/manager.cpp, over a store of the interface and the messages of Client.
--   Manager/Setup is `_init` and `close` of a rank, Manager/Operations each operation on any rank,
--   Manager/Isolation what the ranks of one server see of each other, Manager/Tuples the format of
--   value lists, Manager/Lifecycle the process-wide manager.
-- - Config: include/lsmio/lsmio.hpp and lib/lsmio.cpp, the settings, and Config/Flags the flags.
-- - Plugin: lib/adios-plugin/lsmio_plugin.cpp and .tcc, the text in which variables and their metadata
--   are stored; Plugin/Init is the parts of `Init`,
--   Plugin/Opening the whole of it, Plugin/Access the puts and gets of values, and Plugin/Metadata
--   the writes of `EndStep` and `DoClose`.
-- - Benchmark: lib/benchmark.cpp, the clock, the iterations and the tables. Benchmark/Program is
--   benchmark/bm_base.cpp: the loops that write and read, an iteration and a suite, over a record of
--   the virtual functions. Program/Sessions is the class that bm_native.cpp, bm_leveldb.cpp and
--   bm_rocksdb.cpp repeat for their stores; Program/Checks and Passes are about the loops,
--   Program/Keeping about the class, and Program/Leveldb, Rocksdb and Runs put the models of the two
--   stores below it.
-- - Posix: lib/posix/posix.cpp, over the local operations of Manager.
-- - Tests: each theorem with hypotheses at a concrete input.
--
-- Numbers are natural numbers with the wrap-around of the source written out. The loop of
-- `_waitForCommand` has fuel, and its theorem says how many rounds are enough; `index_file` has the
-- length of the file as fuel, and each round takes at least eight bytes. The file system opens and
-- writes what it is asked to, except where an event says that an open or a stream fails. The memory
-- model is that of the mutexes: the lock-free list of index nodes is a list. Machines are little-endian.
--
-- Not modelled: the constructors of the MPI clients, the barriers of the communicators and the client
-- over the ADIOS communicator, which no code constructs (lib/manager/client/client_mpi.cpp,
-- client_adios.cpp), the engine interface of ADIOS around Plugin with long doubles and complex numbers,
-- the command line, the printed results and the main functions of the benchmark programs, bm_adios.cpp
-- and bm_manager.cpp, and logging: they only call other libraries or set parameters of what is
-- modelled. The native store has no instance in Benchmark/Program, since its operations are steps of
-- several threads. A client's calls on a native store after `close` took its
-- active table are no steps, since that table may be gone.
pub mod Base
pub mod Config
pub mod Benchmark
pub mod Plugin
pub mod Native
pub mod Client
pub mod Store
pub mod Manager
pub mod Posix
pub mod Tests

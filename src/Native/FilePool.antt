-- ===== src/Native/FilePool.antt =====
-- FilePool: lib/manager/store/native/file_pool.cpp and its header. A file is its path; what the
-- worker and the callers do between two waits on the mutex is one step.
pub mod Names
pub mod Order
use lsmio.Base.{
  ℕ, ◌+◌, ◌-◌, ◌%◌, ◌^◌, Bool, true, false, ◌||◌, Option, none, some, List, [], ◌∷◌, ◌++◌, Bytes,
  codes, ltb, ◌==◌, length, replicate, to_string, lookup, insert, if◌then◌else◌,
}

-- Paths with the bytes of their files.
abbrev pub Disk : Type 0
Disk = List (Bytes × Bytes)

abbrev pub u64_mod : ℕ
u64_mod = 2 ^ 64

pub record FilePool : Type 0 where
  pub directory : Bytes
  pub prefix : Bytes
  pub suffix : Bytes
  pub pool_size : ℕ
  pub pre_allocation_size : ℕ
  pub next_id : ℕ
  pub pool : List Bytes
  pub shutdown : Bool

unfoldable pub new : Bytes → Bytes → Bytes → ℕ → ℕ → ℕ → FilePool
new directory prefix suffix pool_size start_id pre_allocation_size = record {
  directory = directory;
  prefix = prefix;
  suffix = suffix;
  pool_size = pool_size;
  pre_allocation_size = pre_allocation_size;
  next_id = start_id;
  pool = [];
  shutdown = false;
}

-- `std::setw(6) << std::setfill('0')`
unfoldable pub pad : Bytes → Bytes
pad s = replicate (6 - length s) b'0' ++ s

unfoldable pub file_name : Bytes → Bytes → ℕ → Bytes
unfolding pad
file_name prefix suffix id = prefix ++ (pad (to_string id) ++ suffix)

-- A path with a slash at its end, behind its first character.
unfoldable pub slash_end : ℕ → Bytes → Bytes
slash_end c [] = if c == b'/' then [] else b'/' ∷ []
slash_end c (d ∷ dir) = d ∷ slash_end d dir

-- `std::filesystem::path(directory) / filename`, for a relative file name.
unfoldable pub join : Bytes → Bytes → Bytes
unfolding slash_end
join [] name = name
join (c ∷ dir) name = (c ∷ slash_end c dir) ++ name

unfoldable pub path_of : Bytes → Bytes → Bytes → ℕ → Bytes
unfolding file_name join
path_of directory prefix suffix id = join directory (file_name prefix suffix id)

-- How `acquire` comes back: it blocks, it throws, or it hands out a file.
pub data Acquired : Type 0 where
  blocked : Acquired
  shutting_down : Acquired
  got : Bytes → FilePool → Acquired

unfoldable pub hand_out : FilePool → List Bytes → Acquired
hand_out fp [] = if fp.shutdown then shutting_down else blocked
hand_out fp (path ∷ rest) = got path (record fp { pool = rest })

unfoldable pub acquire : FilePool → Acquired
unfolding hand_out
acquire fp = hand_out fp fp.pool

-- `posix_fallocate` behind `open(O_CREAT)`: the file is there and has at least this size.
unfoldable pub allocate : ℕ → Option Bytes → Bytes
allocate size none = replicate size 0
allocate size (some old) = old ++ replicate (size - length old) 0

-- The file as the worker opens it: truncated, unless it was allocated before.
unfoldable pub prepare : FilePool → Bytes → Disk → Disk
unfolding allocate
prepare fp path disk =
    if ltb 0 fp.pre_allocation_size
    then insert path (allocate fp.pre_allocation_size (lookup path disk)) disk
    else insert path [] disk

-- One round of the worker. `opens` says whether the file system opens the file, `stops` whether the
-- pool is shut down while the worker prepares it.
pub data Round : Type 0 where
  ended : FilePool → Disk → Round
  waits : Round
  goes_on : FilePool → Disk → Round

unfoldable pub replenish : FilePool → Disk → Bool → Bool → Round
unfolding prepare path_of
replenish fp disk opens stops =
    let path = path_of fp.directory fp.prefix fp.suffix fp.next_id in
    let taken = record fp { next_id = (fp.next_id + 1) % u64_mod } in
    let made = prepare fp path disk in
    if fp.shutdown
    then ended fp disk
    else if ltb (length fp.pool) fp.pool_size
    then if opens
      then if stops
        then ended (record taken { shutdown = true }) made
        else goes_on (record taken { pool = fp.pool ++ path ∷ [] }) made
      else goes_on taken disk
    else waits

-- The destructor's first half; the worker then ends.
unfoldable pub shut_down : FilePool → FilePool
shut_down fp = record fp { shutdown = true }

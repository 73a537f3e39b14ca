-- ===== src/Native/FileCloser.antt =====
-- FileCloser: lib/manager/store/native/file_closer.cpp and its header. A file is its path; `closed`
-- collects the files that were closed, in order.
pub mod Order
use lsmio.Base.{
  ℕ, Bool, true, false, ◌&&◌, ◌||◌, List, [], ◌∷◌, ◌++◌, Bytes, leb, length, if◌then◌else◌,
}

pub record FileCloser : Type 0 where
  pub batch_size : ℕ
  pub pending : List Bytes
  pub shutdown : Bool
  pub closed : List Bytes

pub new : ℕ → FileCloser
new batch_size = record { batch_size = batch_size; pending = []; shutdown = false; closed = [] }

unfoldable pub schedule_close : FileCloser → Bytes → FileCloser
schedule_close c file = record c { pending = c.pending ++ file ∷ [] }

-- One round of the worker: it waits, it returns, or it closes what is pending.
pub data Round : Type 0 where
  waits : Round
  returns : Round
  closes : FileCloser → Round

abbrev is_empty : List Bytes → Bool
is_empty [] = true
is_empty (f ∷ fs) = false

unfoldable pub worker : FileCloser → Round
worker c =
    if leb c.batch_size (length c.pending) || c.shutdown
    then if c.shutdown && is_empty c.pending
      then returns
      else closes (record c { pending = []; closed = c.closed ++ c.pending })
    else waits

-- The destructor after the worker has ended: what is still pending is closed.
unfoldable pub close_remaining : FileCloser → FileCloser
close_remaining c = record c { shutdown = true; closed = c.closed ++ c.pending }

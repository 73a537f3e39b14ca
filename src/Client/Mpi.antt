-- ===== src/Client/Mpi.antt =====
-- LSMIOClientMPI: lib/manager/client/client_mpi.cpp, and `_waitForCommand` of client.cpp on top of it.
-- MPI is a parameter: the messages that are on their way between two ranks, in order, and the calls
-- that add and take one.
pub mod Channels
pub mod Handling
pub mod Replies
pub mod Rounds
pub mod Loop
use lsmio.Base.{
  ℕ, zero, suc, ◌+◌, ◌%◌, ◌^◌, ◌≡◌, Bool, true, false, ◌&&◌, Option, none, some, List, [], ◌∷◌,
  ◌++◌, Bytes, beq, ltb, ◌==◌, drop, length, map, take, if◌then◌else◌,
}
use lsmio.Client.{Message, Channel, eol_command, reply_command, serialize_cmd, de_serialize_cmd}

-- `incoming w me from`: what the rank `from` has sent to the rank `me` and `me` has not received.
pub record Network (W : Type 0) : Type 0 where
  pub incoming : W → ℕ → ℕ → List Bytes
  pub send : W → ℕ → ℕ → Bytes → W
  pub receive : W → ℕ → ℕ → W

-- Messages between two ranks do not overtake each other.
pub record IsOrderly {W : Type 0} (net : Network W) : Type 0 where
  pub incoming-send :
      (w : W) (from to me other : ℕ) (buf : Bytes)
      → net.incoming (net.send w from to buf) me other ≡ (
          if (me == to) && (other == from)
          then net.incoming w me other ++ buf ∷ []
          else net.incoming w me other)
  pub incoming-receive :
      (w : W) (at from me other : ℕ)
      → net.incoming (net.receive w at from) me other ≡ (
          if (me == at) && (other == from)
          then drop 1 (net.incoming w me other)
          else net.incoming w me other)

-- `_rank` and `_size`, as MPI_Comm_rank and MPI_Comm_size give them.
pub record MpiClient : Type 0 where
  pub rank : ℕ
  pub size : ℕ

-- MPI counts in ints: the size of a message is cut to 32 bits, and a negative count is an error,
-- which ends the program.
abbrev pub int_limit : ℕ
int_limit = 2 ^ 31

abbrev pub uint_mod : ℕ
uint_mod = 2 ^ 32

-- `eolRanks[r] = 1`
abbrev pub ends : (ℕ → Bool) → ℕ → ℕ → Bool
ends eol r j = if j == r then true else eol j

module _ {W : Type 0} (net : Network W) (me : MpiClient) where
  unfoldable pub send_counted : W → ℕ → Bytes → Option W
  send_counted w to buf =
      let count = length buf % uint_mod in
      if ltb count int_limit then some (net.send w me.rank to (take count buf)) else none

  unfoldable pub send_command : W → ℕ → Bytes → Bytes → Bytes → Option W
  unfolding send_counted
  send_command w to command key value = send_counted w to (serialize_cmd command key value)

  -- How `recvCommand` ends: it waits for a message, faults on one that it cannot read, or reads it.
  pub data Received : Type 0 where
    waits : Received
    faults : Received
    got : Message → W → Received

  read_buffer : W → Option Message → Received
  read_buffer w none = faults
  read_buffer w (some m) = got m w

  unfoldable pub recv_command : W → ℕ → Received
  unfolding read_buffer
  recv_command w from = elim (net.incoming w me.rank from) [
    | [] ↦ waits
    | buf ∷ rest ↦ read_buffer (net.receive w me.rank from) (de_serialize_cmd buf)
  ]

  -- The ranks from `i` on, `n` of them, without the rank itself.
  unfoldable pub other_ranks : ℕ → ℕ → List ℕ
  other_ranks i zero = []
  other_ranks i (suc n) =
      let rest = other_ranks (i + 1) n in if i == me.rank then rest else i ∷ rest

  with_buffer : ℕ → Bytes → Option (List (ℕ × Bytes) × W) → Option (List (ℕ × Bytes) × W)
  with_buffer r buf none = none
  with_buffer r buf (some (bufs, w)) = some ((r, buf) ∷ bufs, w)

  -- `_recvToBuffer`: a message of each of the ranks, in their order; `none` while one is missing.
  unfoldable pub recv_to_buffer : W → List ℕ → Option (List (ℕ × Bytes) × W)
  unfolding with_buffer
  recv_to_buffer w [] = some ([], w)
  recv_to_buffer w (r ∷ rs) = elim (net.incoming w me.rank r) [
    | [] ↦ none
    | buf ∷ rest ↦ with_buffer r buf (recv_to_buffer (net.receive w me.rank r) rs)
  ]

  unfoldable pub all_shut_down : (ℕ → Bool) → List ℕ → Bool
  all_shut_down eol [] = true
  all_shut_down eol (r ∷ rs) = eol r && all_shut_down eol rs

  module _ {S : Type 0} (callback : S → ℕ → Message → S × Bytes) where
    -- How a round of `_waitForCommand` ends; `eol` is the vector `eolRanks`.
    pub data MpiRound : Type 0 where
      finished : S → MpiRound
      blocked : S → MpiRound
      crashed : MpiRound
      served : S → (ℕ → Bool) → W → MpiRound

    pub replied : S → (ℕ → Bool) → Option W → (S → (ℕ → Bool) → W → MpiRound) → MpiRound
    replied s eol none others = crashed
    replied s eol (some w) others = others s eol w

    pub reply_to : W → ℕ → Message → Bytes → Option Bytes → Option W
    reply_to w r m value none = some w
    reply_to w r m value (some command) = send_command w r command m.key value

    -- One buffer: the end, or a command for the callback and maybe a reply.
    serve_buffer :
        S → (ℕ → Bool) → W → ℕ → Option Message → (S → (ℕ → Bool) → W → MpiRound) → MpiRound
    serve_buffer s eol w r none others = crashed
    serve_buffer s eol w r (some m) others =
        let (s', value) = callback s r m in
        if beq m.command eol_command
        then others s (ends eol r) w
        else replied s' eol (reply_to w r m value (reply_command m.command)) others

    unfoldable pub handle_buffers : S → (ℕ → Bool) → W → List (ℕ × Bytes) → MpiRound
    unfolding replied reply_to serve_buffer send_command
    handle_buffers s eol w [] = served s eol w
    handle_buffers s eol w ((r, buf) ∷ bufs) =
        serve_buffer s eol w r (de_serialize_cmd buf) (λ t e v. handle_buffers t e v bufs)

    handle_received : S → (ℕ → Bool) → Option (List (ℕ × Bytes) × W) → MpiRound
    handle_received s eol none = blocked s
    handle_received s eol (some (bufs, w)) = handle_buffers s eol w bufs

    -- A round of the loop, over the other ranks.
    unfoldable pub mpi_round : S → (ℕ → Bool) → W → List ℕ → MpiRound
    unfolding handle_received all_shut_down recv_to_buffer handle_buffers
    mpi_round s eol w rs =
        if all_shut_down eol rs then finished s else handle_received s eol (recv_to_buffer w rs)

    go_on : MpiRound → (S → (ℕ → Bool) → W → Option MpiRound) → Option MpiRound
    go_on (served s eol w) more = more s eol w
    go_on r more = some r

    -- `_waitForCommand` for a number of rounds; `none`: it has not ended within them.
    unfoldable pub mpi_wait_for_command : ℕ → S → (ℕ → Bool) → W → List ℕ → Option MpiRound
    unfolding go_on
    mpi_wait_for_command zero s eol w rs = none
    mpi_wait_for_command (suc n) s eol w rs =
        go_on (mpi_round s eol w rs) (λ t e v. mpi_wait_for_command n t e v rs)

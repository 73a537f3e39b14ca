-- ===== src/Client/Mpi/Loop.antt =====
-- The whole server loop over MPI, and a command that one rank sends another.
use lsmio.Base.{
  ℕ, zero, suc, ◌+◌, ◌<◌, ◌≡◌, refl, sym, subst, Bool, Option, none, some, List, [], ◌∷◌, arith,
  Bytes, All, ◌==◌, length, map, if_cases,
}
use lsmio.Client
use lsmio.Client.{Message, Channel, serialize_cmd, de_serialize_cmd, wait_for_command}
use lsmio.Client.Wire.{IsPlain, de_serialize_cmd-serialize_cmd}
use lsmio.Client.Lockstep.{EndsIn, Finishes, wait_for_command-Finishes}
use lsmio.Client.Mpi.{
  Network, IsOrderly, MpiClient, int_limit, other_ranks, send_command, recv_command, got,
  read_buffer, recv_to_buffer, all_shut_down, MpiRound, finished, blocked, crashed, served,
  handle_received, mpi_round, go_on, mpi_wait_for_command,
}
use lsmio.Client.Mpi.Channels.{channel_of, IsApart, AreOthers, send_counted-fits}
use lsmio.Client.Mpi.Handling.{seen, SameInboxes, handle_buffers-SameInboxes}
use lsmio.Client.Mpi.Replies.{HoldsAfter, handle_buffers-HoldsAfter}
use lsmio.Client.Mpi.Rounds.{WaitingFit, CollectsIf, recv_to_buffer-CollectsIf, mpi_round-seen}

module _ {W : Type 0} (net : Network W) (me : MpiClient) where
  ranks_behind : (r i n : ℕ) → r < i → IsApart r (other_ranks net me i n)
  unfolding other_ranks
  ranks_behind r i zero h = tt
  ranks_behind r i (suc n) h =
      let rest = ranks_behind r (i + 1) n (omega arith) in
      if_cases (IsApart r) (i == me.rank) _ _ (λ _. rest) (λ _. (ground (arith, h), rest))

  -- The ranks that `_recvToBuffer` goes through differ, and the own one is not among them.
  pub other_ranks-AreOthers : (i n : ℕ) → AreOthers me (other_ranks net me i n)
  unfolding other_ranks
  other_ranks-AreOthers i zero = tt
  other_ranks-AreOthers i (suc n) =
      let rest = other_ranks-AreOthers (i + 1) n in
      if_cases (AreOthers me) (i == me.rank) _ _ (λ _. rest)
        (λ other. (other, ranks_behind i (i + 1) n (omega arith), rest))

module _ {W S : Type 0} (net : Network W) (me : MpiClient) (orderly : IsOrderly net)
    (callback : S → ℕ → Message → S × Bytes) (Holds : S → Type 0) where
  WaitingFit-same :
      (w v : W) (rs : List ℕ)
      → ((j : ℕ) → net.incoming v me.rank j ≡ net.incoming w me.rank j)
      → WaitingFit net me orderly callback Holds w rs
      → WaitingFit net me orderly callback Holds v rs
  WaitingFit-same w v [] same fit = tt
  WaitingFit-same w v (r ∷ rs) same fit =
      (subst (All _) (sym (same r)) fit.0, WaitingFit-same w v rs same fit.1)

  -- The state after a round holds, and the replies to what waits then fit.
  abbrev FitAfter : List ℕ → MpiRound net me callback → Type 0
  FitAfter rs (served s e w) = Holds s × WaitingFit net me orderly callback Holds w rs
  FitAfter rs _ = Unit

  SameInboxes-FitAfter :
      (w : W) (rs : List ℕ) (r : MpiRound net me callback)
      → WaitingFit net me orderly callback Holds w rs
      → SameInboxes net me orderly callback w r
      → HoldsAfter net me orderly callback Holds r
      → FitAfter rs r
  SameInboxes-FitAfter w rs (served s e v) fit same holds = (holds, WaitingFit-same w v rs same fit)
  SameInboxes-FitAfter w rs (finished s) fit same holds = tt
  SameInboxes-FitAfter w rs (blocked s) fit same holds = tt
  SameInboxes-FitAfter w rs crashed fit same holds = tt

  mpi_round-FitAfter :
      (s : S) (w : W) (e : ℕ → Bool) (rs : List ℕ)
      → AreOthers me rs
      → Holds s
      → WaitingFit net me orderly callback Holds w rs
      → FitAfter rs (mpi_round net me callback s e w rs)
  unfolding mpi_round handle_received
  mpi_round-FitAfter s w e rs others holds fit =
      if_cases (FitAfter rs) (all_shut_down net me e rs) _ _ (λ _. tt)
        (λ _.
          go (recv_to_buffer net me w rs)
            (recv_to_buffer-CollectsIf net me orderly callback Holds w e rs others fit))
    where
      go :
          (o : Option (List (ℕ × Bytes) × W))
          → CollectsIf net me orderly callback Holds w e rs o
          → FitAfter rs (handle_received net me callback s e o)
      go none h = tt
      go (some (bufs, v)) h =
          SameInboxes-FitAfter v rs _ h.left_fit
            (handle_buffers-SameInboxes net me orderly callback s v e bufs
              (subst (AreOthers me) (sym h.ranks) others))
            (handle_buffers-HoldsAfter net me orderly callback Holds s v e bufs holds h.fits)

  abbrev pub all_seen : List ℕ → Option (MpiRound net me callback) → Option (Client.Round callback)
  all_seen rs none = none
  all_seen rs (some r) = some (seen net me callback rs r)

  -- Over an MPI that keeps the order of the messages between two ranks, for other ranks that
  -- differ from each other and from the server, and for a predicate of server states that holds
  -- at the start, such that each waiting message that is handled in a state with it leads to a
  -- state with it and to a reply shorter than 2^31 bytes: the server loop over MPI, for any
  -- number of rounds, ends as the loop over channels does, or goes on as it does.
  pub wait_for_command-seen :
      (n : ℕ) (s : S) (w : W) (e : ℕ → Bool) (rs : List ℕ)
      → AreOthers me rs
      → Holds s
      → WaitingFit net me orderly callback Holds w rs
      → wait_for_command callback n s (map (channel_of net me w e) rs)
        ≡ all_seen rs (mpi_wait_for_command net me callback n s e w rs)
  unfolding wait_for_command mpi_wait_for_command
  wait_for_command-seen zero s w e rs others holds fit = refl
  wait_for_command-seen (suc n) s w e rs others holds fit =
      rw (mpi_round-seen net me orderly callback Holds s w e rs others holds fit) (
        go (mpi_round net me callback s e w rs) (mpi_round-FitAfter s w e rs others holds fit)
          (λ t v g left. wait_for_command-seen n t v g rs others left.0 left.1))
    where
      go :
          (r : MpiRound net me callback)
          → FitAfter rs r
          → ((t : S) (v : W) (g : ℕ → Bool)
              → Holds t × WaitingFit net me orderly callback Holds v rs
              → wait_for_command callback n t (map (channel_of net me v g) rs)
                ≡ all_seen rs (mpi_wait_for_command net me callback n t g v rs))
          → Client.go_on callback
              (seen net me callback rs r)
              (λ t ds. wait_for_command callback n t ds)
            ≡ all_seen rs
                (go_on net me callback r (λ t g v. mpi_wait_for_command net me callback n t g v rs))
      go (served t g v) fit' rest = unfold Client.go_on seen go_on in rest t v g fit'
      go (finished t) fit' rest = unfold Client.go_on seen go_on in refl
      go (blocked t) fit' rest = unfold Client.go_on seen go_on in refl
      go crashed fit' rest = unfold Client.go_on seen go_on in refl

  -- Over an MPI that keeps the order of the messages between two ranks, for other ranks that
  -- differ from each other and from the server, and for a predicate of server states that holds
  -- at the start, such that each waiting message that is handled in a state with it leads to a
  -- state with it and to a reply shorter than 2^31 bytes: if each of the other ranks has sent
  -- the same number n of well-formed commands and then the end command, the server loop over MPI
  -- finishes within n + 2 rounds.
  pub mpi_wait_for_command-finished :
      (n : ℕ) (s : S) (w : W) (e : ℕ → Bool) (rs : List ℕ)
      → AreOthers me rs
      → Holds s
      → WaitingFit net me orderly callback Holds w rs
      → All (EndsIn n) (map (channel_of net me w e) rs)
      → (t : S) × (mpi_wait_for_command net me callback (suc n) s e w rs ≡ some (finished t))
  mpi_wait_for_command-finished n s w e rs others holds fit sends =
      go (mpi_wait_for_command net me callback (suc n) s e w rs) (
        subst (Finishes callback) (wait_for_command-seen (suc n) s w e rs others holds fit)
          (wait_for_command-Finishes callback n s (map (channel_of net me w e) rs) sends))
    where
      go :
          (o : Option (MpiRound net me callback))
          → Finishes callback (all_seen rs o)
          → (t : S) × (o ≡ some (finished t))
      go none h = absurd h
      go (some (finished t)) h = (t, refl)
      go (some (blocked t)) h = absurd (unfold seen in h)
      go (some crashed) h = absurd (unfold seen in h)
      go (some (served t g v)) h = absurd (unfold seen in h)

-- Over an MPI that keeps the order of the messages between two ranks: a command and a key
-- without zero bytes and semicolons, with any value, whose message is shorter than 2^31 bytes,
-- are sent, and the other rank, if nothing else of the sender waits there, receives them as they
-- were sent.
pub recv_command-send_command :
    {W : Type 0} (net : Network W) (from to : MpiClient) (w : W) (command key value : Bytes)
    → IsOrderly net
    → net.incoming w to.rank from.rank ≡ []
    → IsPlain command
    → IsPlain key
    → length (serialize_cmd command key value) < int_limit
    → (v : W) × (u : W) × (send_command net from w to.rank command key value ≡ some v)
      × (recv_command net to v from.rank
          ≡ got (record { command = command; key = key; value = value }) u)
unfolding send_command recv_command read_buffer
recv_command-send_command net from to w command key value orderly idle hc hk fit =
    let buf = serialize_cmd command key value in
    let v = net.send w from.rank to.rank buf in
    let first : net.incoming v to.rank from.rank ≡ buf ∷ [] =
      ground (arith, orderly.incoming-send w from.rank to.rank to.rank from.rank buf, idle) in
    (
      v,
      net.receive v to.rank from.rank,
      send_counted-fits net from orderly w to.rank buf fit,
      rw (first, recv_command, de_serialize_cmd-serialize_cmd command key value hc hk, read_buffer)
          refl,
    )

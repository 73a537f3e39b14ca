-- ===== src/Client/Mpi/Rounds.antt =====
-- The server loop over MPI does what the loop over channels does.
use lsmio.Base.{
  ℕ, ◌≡◌, refl, sym, ap, ap₂, subst, ◌∙◌, Bool, true, false, ◌&&◌, Option, none, some, List, [],
  ◌∷◌, arith, Bytes, All, ◌==◌, map, if_cases, if◌then◌else◌,
}
use lsmio.Client
use lsmio.Client.{
  Message, Channel, eol_command, reply_command, serialize_cmd, de_serialize_cmd, serve, decoded,
  after_one, and_then, reply, handle, all_received, all_ended, round,
}
use lsmio.Client.Mpi.{
  Network, IsOrderly, MpiClient, recv_to_buffer, with_buffer, all_shut_down, handle_buffers,
  handle_received, mpi_round,
}
use lsmio.Client.Mpi.Channels.{
  channel_of, pending, IsApart, AreOthers, ranks_of, channel-receive, pending-same,
}
use lsmio.Client.Mpi.Handling.{seen}
use lsmio.Client.Mpi.Replies.{Fits, AllFit, handle_buffers-seen}

module _ {W : Type 0} (net : Network W) (me : MpiClient) (orderly : IsOrderly net) where
  -- What is left to receive of one rank, and of the others, after a receive.
  pending-receive :
      (w : W) (e : ℕ → Bool) (r : ℕ) (buf : Bytes) (rest : List Bytes)
      → (r == me.rank) ≡ false
      → net.incoming w me.rank r ≡ buf ∷ rest
      → pending net me (net.receive w me.rank r) e (r, buf) ≡ channel_of net me w e r
  unfolding pending channel_of
  pending-receive w e r buf rest foreign first = ground (
    arith,
    first,
    orderly.incoming-receive w me.rank r me.rank r,
    orderly.incoming-receive w me.rank r r me.rank,
  )

  all_channels-receive :
      (w : W) (e : ℕ → Bool) (r : ℕ) (rs : List ℕ)
      → IsApart r rs
      → AreOthers me rs
      → map (channel_of net me (net.receive w me.rank r) e) rs ≡ map (channel_of net me w e) rs
  all_channels-receive w e r [] apart others = refl
  all_channels-receive w e r (j ∷ rs) apart others =
      ap₂ ◌∷◌ (channel-receive net me orderly w e r j apart.0 others.0)
        (all_channels-receive w e r rs apart.1 others.2)

  module _ {S : Type 0} (callback : S → ℕ → Message → S × Bytes) (Holds : S → Type 0) where
    -- The replies to all waiting messages of these ranks fit.
    abbrev pub WaitingFit : W → List ℕ → Type 0
    WaitingFit w = All (λ r. All (Fits callback Holds r) (net.incoming w me.rank r))

    WaitingFit-receive :
        (w : W) (r : ℕ) (rs : List ℕ)
        → IsApart r rs
        → AreOthers me rs
        → WaitingFit w rs
        → WaitingFit (net.receive w me.rank r) rs
    unfolding channel_of
    WaitingFit-receive w r [] apart others fit = tt
    WaitingFit-receive w r (j ∷ rs) apart others fit = (
      subst (All (Fits callback Holds j))
          (sym (
            ap (λ (c : Channel). c.inbox)
              (channel-receive net me orderly w (λ i. false) r j apart.0 others.0)))
          fit.0,
      WaitingFit-receive w r rs apart.1 others.2 fit.1,
    )

    -- One message of each rank is received, and no other rank is touched.
    pub record Collects (w : W) (e : ℕ → Bool) (rs : List ℕ) (bufs : List (ℕ × Bytes)) (v : W)
        : Type 0 where
      pub ranks : ranks_of bufs ≡ rs
      pub same : map (pending net me v e) bufs ≡ map (channel_of net me w e) rs
      pub fits : AllFit callback Holds bufs
      pub left_fit : WaitingFit v rs
      pub complete : all_received callback (map (channel_of net me w e) rs) ≡ true
      pub kept :
          (j : ℕ)
          → IsApart j rs
          → (j == me.rank) ≡ false
          → channel_of net me v e j ≡ channel_of net me w e j

    abbrev pub CollectsIf : W → (ℕ → Bool) → List ℕ → Option (List (ℕ × Bytes) × W) → Type 0
    CollectsIf w e rs none = all_received callback (map (channel_of net me w e) rs) ≡ false
    CollectsIf w e rs (some (bufs, v)) = Collects w e rs bufs v

    all_received-first :
        (w : W) (e : ℕ → Bool) (r : ℕ) (rs : List ℕ) (buf : Bytes) (rest : List Bytes) (b : Bool)
        → IsApart r rs
        → AreOthers me rs
        → net.incoming w me.rank r ≡ buf ∷ rest
        → all_received callback (map (channel_of net me (net.receive w me.rank r) e) rs) ≡ b
        → all_received callback (map (channel_of net me w e) (r ∷ rs)) ≡ b
    unfolding all_received channel_of
    all_received-first w e r rs buf rest b apart others first h =
        rw first (ap (all_received callback) (sym (all_channels-receive w e r rs apart others)) ∙ h)

    with_buffer-CollectsIf :
        (w : W) (e : ℕ → Bool) (r : ℕ) (rs : List ℕ) (buf : Bytes) (rest : List Bytes)
        (o : Option (List (ℕ × Bytes) × W))
        → AreOthers me (r ∷ rs)
        → net.incoming w me.rank r ≡ buf ∷ rest
        → All (Fits callback Holds r) (buf ∷ rest)
        → CollectsIf (net.receive w me.rank r) e rs o
        → CollectsIf w e (r ∷ rs) (with_buffer net me r buf o)
    unfolding with_buffer ranks_of channel_of
    with_buffer-CollectsIf w e r rs buf rest none others first fit h =
        all_received-first w e r rs buf rest false others.1 others.2 first h
    with_buffer-CollectsIf w e r rs buf rest (some (bufs, v)) others first fit h = record {
      ranks = ap (◌∷◌ r) h.ranks;
      same =
          ap₂ ◌∷◌
            (pending-same net me orderly (net.receive w me.rank r) v e e (r, buf)
                (h.kept r others.1 others.0)
              ∙ pending-receive w e r buf rest others.0 first)
            (h.same ∙ all_channels-receive w e r rs others.1 others.2);
      fits = (fit.0, h.fits);
      left_fit = (subst (All (Fits callback Holds r)) (sym left) fit.1, h.left_fit);
      complete = all_received-first w e r rs buf rest true others.1 others.2 first h.complete;
      kept = λ j apart foreign.
          h.kept j apart.1 foreign
          ∙ channel-receive net me orderly w e r j (ground (arith, apart.0)) foreign;
    }
      where
        left : net.incoming v me.rank r ≡ rest
        left =
            ap (λ (c : Channel). c.inbox) (h.kept r others.1 others.0)
            ∙ ground (arith, first, orderly.incoming-receive w me.rank r me.rank r)

    pub recv_to_buffer-CollectsIf :
        (w : W) (e : ℕ → Bool) (rs : List ℕ)
        → AreOthers me rs
        → WaitingFit w rs
        → CollectsIf w e rs (recv_to_buffer net me w rs)
    unfolding recv_to_buffer ranks_of all_received
    recv_to_buffer-CollectsIf w e [] others fit = record {
      ranks = refl;
      same = refl;
      fits = tt;
      left_fit = tt;
      complete = refl;
      kept = λ j a f. refl;
    }
    recv_to_buffer-CollectsIf w e (r ∷ rs) others fit = go (net.incoming w me.rank r) refl (
        recv_to_buffer-CollectsIf (net.receive w me.rank r) e rs others.2
          (WaitingFit-receive w r rs others.1 others.2 fit.1))
      where
        go :
            (inbox : List Bytes)
            → net.incoming w me.rank r ≡ inbox
            → CollectsIf
                (net.receive w me.rank r)
                e
                rs
                (recv_to_buffer net me (net.receive w me.rank r) rs)
            → CollectsIf w e (r ∷ rs) (elim inbox [
              | [] ↦ none
              | buf ∷ rest ↦
                  with_buffer net me r buf (recv_to_buffer net me (net.receive w me.rank r) rs)
            ])
        go [] first h = unfold channel_of in rw first refl
        go (buf ∷ rest) first h =
            with_buffer-CollectsIf w e r rs buf rest _ others first
              (subst (All (Fits callback Holds r)) first fit.0) h

    handle_received-seen :
        (s : S) (w : W) (e : ℕ → Bool) (rs : List ℕ) (o : Option (List (ℕ × Bytes) × W))
        → AreOthers me rs
        → Holds s
        → CollectsIf w e rs o
        → (if all_received callback (map (channel_of net me w e) rs)
            then handle callback s (map (channel_of net me w e) rs)
            else Client.blocked s)
          ≡ seen net me callback rs (handle_received net me callback s e o)
    unfolding handle_received seen
    handle_received-seen s w e rs none others holds h = rw h refl
    handle_received-seen s w e rs (some (bufs, v)) others holds h = rw (h.complete) (
        ap (handle callback s) (sym h.same)
        ∙ handle_buffers-seen net me orderly callback Holds s v e bufs
            (subst (AreOthers me) (sym h.ranks) others) holds h.fits
        ∙ ap (λ js. seen net me callback js (handle_buffers net me callback s e v bufs)) h.ranks)

    all_ended-shut_down :
        (w : W) (e : ℕ → Bool) (rs : List ℕ)
        → all_ended callback (map (channel_of net me w e) rs) ≡ all_shut_down net me e rs
    unfolding all_ended all_shut_down channel_of
    all_ended-shut_down w e [] = refl
    all_ended-shut_down w e (r ∷ rs) = ap (◌&&◌ (e r)) (all_ended-shut_down w e rs)

    -- Over an MPI that keeps the order of the messages between two ranks, with other ranks that
    -- differ, in a state that holds, and if the replies to their waiting messages fit: a round of
    -- the server loop over MPI ends as the round over channels does, with the same state, the same
    -- messages waiting and sent on each rank's channel, and the same ranks ended.
    pub mpi_round-seen :
        (s : S) (w : W) (e : ℕ → Bool) (rs : List ℕ)
        → AreOthers me rs
        → Holds s
        → WaitingFit w rs
        → round callback s (map (channel_of net me w e) rs)
          ≡ seen net me callback rs (mpi_round net me callback s e w rs)
    unfolding round mpi_round seen
    mpi_round-seen s w e rs others holds fit = rw (all_ended-shut_down w e rs) (
        if_cases
          (λ r.
            (if all_shut_down net me e rs
              then Client.finished s
              else if all_received callback (map (channel_of net me w e) rs)
              then handle callback s (map (channel_of net me w e) rs)
              else Client.blocked s)
            ≡ seen net me callback rs r)
          (all_shut_down net me e rs) _ _ (λ yes'. rw yes' refl)
          (λ more. rw more (
            handle_received-seen s w e rs (recv_to_buffer net me w rs) others holds
              (recv_to_buffer-CollectsIf w e rs others fit))))

-- ===== src/Client/Mpi/Channels.antt =====
-- Messages over MPI, as the channels of the server loop see them.
use lsmio.Base.{
  ℕ, ◌<◌, ◌≡◌, refl, ap, ap₂, Bool, true, false, some, List, [], ◌∷◌, ◌++◌, arith, Bytes, All, ◌==◌,
  length, map, take,
}
use lsmio.Client.{Channel}
use lsmio.Client.Mpi.{Network, IsOrderly, MpiClient, int_limit, send_counted, ends}

take_all : (s : Bytes) → take (length s) s ≡ s
take_all [] = refl
take_all (c ∷ s) = ap (◌∷◌ c) (take_all s)

unfoldable pub ranks_of : List (ℕ × Bytes) → List ℕ
ranks_of [] = []
ranks_of ((r, buf) ∷ bufs) = r ∷ ranks_of bufs

-- The rank is none of these.
abbrev pub IsApart : ℕ → List ℕ → Type 0
IsApart r = All (λ j. (j == r) ≡ false)

-- Ranks that differ from each other and from the client's own.
abbrev pub AreOthers : MpiClient → List ℕ → Type 0
AreOthers me [] = Unit
AreOthers me (r ∷ rs) = ((r == me.rank) ≡ false) × IsApart r rs × AreOthers me rs

module _ {W : Type 0} (net : Network W) (me : MpiClient) where
  -- A rank as the loop over channels sees it.
  unfoldable pub channel_of : W → (ℕ → Bool) → ℕ → Channel
  channel_of w eol r = record {
    rank = r;
    inbox = net.incoming w me.rank r;
    outbox = net.incoming w r me.rank;
    eol = eol r;
  }

  -- The same, with one message received and not yet handled.
  unfoldable pub pending : W → (ℕ → Bool) → ℕ × Bytes → Channel
  pending w eol (r, buf) = record (channel_of w eol r) { inbox = buf ∷ net.incoming w me.rank r }

  module _ (orderly : IsOrderly net) where
    pub channel-receive :
        (w : W) (eol : ℕ → Bool) (r j : ℕ)
        → (j == r) ≡ false
        → (j == me.rank) ≡ false
        → channel_of (net.receive w me.rank r) eol j ≡ channel_of w eol j
    unfolding channel_of
    channel-receive w eol r j differ foreign = ground (
      arith,
      orderly.incoming-receive w me.rank r me.rank j,
      orderly.incoming-receive w me.rank r j me.rank,
    )

    pub channel-send :
        (w : W) (eol : ℕ → Bool) (r j : ℕ) (buf : Bytes)
        → (j == r) ≡ false
        → (r == me.rank) ≡ false
        → channel_of (net.send w me.rank r buf) eol j ≡ channel_of w eol j
    unfolding channel_of
    channel-send w eol r j buf differ foreign = ground (
      arith,
      orderly.incoming-send w me.rank r me.rank j buf,
      orderly.incoming-send w me.rank r j me.rank buf,
    )

    pub channel-ends :
        (w : W) (eol : ℕ → Bool) (r j : ℕ)
        → (j == r) ≡ false
        → channel_of w (ends eol r) j ≡ channel_of w eol j
    unfolding channel_of
    channel-ends w eol r j differ = ground arith

    -- Channels of other ranks stay as they are.
    abbrev pub SameFor : ℕ → W → (ℕ → Bool) → W → (ℕ → Bool) → Type 0
    SameFor r w e v g = (j : ℕ) → (j == r) ≡ false → channel_of v g j ≡ channel_of w e j

    pub pending-same :
        (w v : W) (e g : ℕ → Bool) (p : ℕ × Bytes)
        → channel_of v g p.0 ≡ channel_of w e p.0
        → pending v g p ≡ pending w e p
    unfolding pending channel_of
    pending-same w v e g (j, buf) h = ground (arith, h)

    pub all_pending-same :
        (r : ℕ) (w v : W) (e g : ℕ → Bool) (bufs : List (ℕ × Bytes))
        → SameFor r w e v g
        → IsApart r (ranks_of bufs)
        → map (pending v g) bufs ≡ map (pending w e) bufs
    unfolding ranks_of
    all_pending-same r w v e g [] same apart = refl
    all_pending-same r w v e g ((j, buf) ∷ bufs) same apart =
        ap₂ ◌∷◌ (pending-same w v e g (j, buf) (same j apart.0))
          (all_pending-same r w v e g bufs same apart.1)

    pub channel-send_self :
        (w : W) (eol : ℕ → Bool) (r : ℕ) (buf : Bytes)
        → (r == me.rank) ≡ false
        → channel_of (net.send w me.rank r buf) eol r
          ≡ record (channel_of w eol r) { outbox = (channel_of w eol r).outbox ++ buf ∷ [] }
    unfolding channel_of
    channel-send_self w eol r buf foreign = ground (
      arith,
      orderly.incoming-send w me.rank r me.rank r buf,
      orderly.incoming-send w me.rank r r me.rank buf,
    )

    pub channel-ends_self :
        (w : W) (eol : ℕ → Bool) (r : ℕ)
        → channel_of w (ends eol r) r ≡ record (channel_of w eol r) { eol = true }
    unfolding channel_of
    channel-ends_self w eol r = ground arith

    pub send_counted-fits :
        (w : W) (r : ℕ) (buf : Bytes)
        → length buf < int_limit
        → send_counted net me w r buf ≡ some (net.send w me.rank r buf)
    unfolding send_counted
    send_counted-fits w r buf h = ground (arith, take_all buf)

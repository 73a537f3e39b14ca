-- ===== src/Client/Mpi/Replies.antt =====
-- Handling the received messages, over MPI and over channels.
use lsmio.Base.{
  ℕ, ◌<◌, ◌≡◌, refl, sym, ap, ◌∙◌, Bool, false, Option, none, some, List, [], ◌∷◌, Bytes, All, beq,
  ◌==◌, length, map, if_cases, Bool-cases, inl, inr,
}
use lsmio.Client
use lsmio.Client.{
  Message, Channel, eol_command, reply_command, serialize_cmd, de_serialize_cmd, serve, decoded,
  after_one, and_then, reply, handle, all_received, all_ended, round,
}
use lsmio.Client.Mpi.{
  Network, IsOrderly, MpiClient, int_limit, MpiRound, served, replied, reply_to, ends, serve_buffer,
  handle_buffers,
}
use lsmio.Client.Mpi.Channels.{
  channel_of, pending, AreOthers, ranks_of, SameFor, channel-send, channel-ends, all_pending-same,
  channel-send_self, channel-ends_self,
}
use lsmio.Client.Mpi.Handling.{seen, replied-sent, and_then-seen, handle_buffers-Keeps}

module _ {S : Type 0} (callback : S → ℕ → Message → S × Bytes) (Holds : S → Type 0) where
  abbrev pub FitsReply : S → ℕ → Message → Option Bytes → Type 0
  FitsReply s r m none = Unit
  FitsReply s r m (some command) =
      length (serialize_cmd command m.key (callback s r m).1) < int_limit

  abbrev pub FitsMessage : ℕ → Option Message → Type 0
  FitsMessage r none = Unit
  FitsMessage r (some m) =
      (s : S) → Holds s → Holds (callback s r m).0 × FitsReply s r m (reply_command m.command)

  -- In the server states that hold, this message of the rank leads to one that holds, and the reply
  -- to it is shorter than 2^31 bytes.
  abbrev pub Fits : ℕ → Bytes → Type 0
  Fits r buf = FitsMessage r (de_serialize_cmd buf)

  abbrev pub AllFit : List (ℕ × Bytes) → Type 0
  AllFit = All (λ p. Fits p.0 p.1)

module _ {W : Type 0} (net : Network W) (me : MpiClient) (orderly : IsOrderly net) {S : Type 0}
    (callback : S → ℕ → Message → S × Bytes) (Holds : S → Type 0) where
  -- The state after the round holds.
  abbrev pub HoldsAfter : MpiRound net me callback → Type 0
  HoldsAfter (served s e w) = Holds s
  HoldsAfter _ = Unit

  serve_buffer-HoldsAfter :
      (r : ℕ) (s : S) (w : W) (e : ℕ → Bool) (o : Option Message)
      (others : S → (ℕ → Bool) → W → MpiRound net me callback)
      → Holds s
      → FitsMessage callback Holds r o
      → ((t : S) (g : ℕ → Bool) (v : W) → Holds t → HoldsAfter (others t g v))
      → HoldsAfter (serve_buffer net me callback s e w r o others)
  unfolding serve_buffer
  serve_buffer-HoldsAfter r s w e none others holds fits k = tt
  serve_buffer-HoldsAfter r s w e (some m) others holds fits k =
      if_cases HoldsAfter (beq m.command eol_command) _ _ (λ _. k s (ends e r) w holds)
        (λ _.
          go (reply_to net me callback w r m (callback s r m).1 (reply_command m.command))
            (fits s holds).0)
    where
      go :
          (o : Option W)
          → Holds (callback s r m).0
          → HoldsAfter (replied net me callback (callback s r m).0 e o others)
      go none h = unfold replied in tt
      go (some v) h = unfold replied in k (callback s r m).0 e v h

  pub handle_buffers-HoldsAfter :
      (s : S) (w : W) (e : ℕ → Bool) (bufs : List (ℕ × Bytes))
      → Holds s
      → AllFit callback Holds bufs
      → HoldsAfter (handle_buffers net me callback s e w bufs)
  unfolding handle_buffers
  handle_buffers-HoldsAfter s w e [] holds fits = holds
  handle_buffers-HoldsAfter s w e ((r, buf) ∷ bufs) holds fits =
      serve_buffer-HoldsAfter r s w e (de_serialize_cmd buf)
        (λ t g v. handle_buffers net me callback t g v bufs) holds fits.0
        (λ t g v h. handle_buffers-HoldsAfter t v g bufs h fits.1)

  -- The message of one rank, on both sides.
  serve_buffer-seen :
      (r : ℕ) (rs : List ℕ) (s : S) (w : W) (e : ℕ → Bool) (o : Option Message)
      (others : S → (ℕ → Bool) → W → MpiRound net me callback) (rest : S → Client.Round callback)
      → (r == me.rank) ≡ false
      → Holds s
      → FitsMessage callback Holds r o
      → ((t : S) (g : ℕ → Bool) (v : W)
          → Holds t
          → SameFor net me orderly r w e v g
          → and_then callback (channel_of net me v g r) (rest t)
            ≡ seen net me callback (r ∷ rs) (others t g v))
      → after_one callback (decoded callback s (channel_of net me w e r) o) rest
        ≡ seen net me callback (r ∷ rs) (serve_buffer net me callback s e w r o others)
  unfolding decoded serve after_one serve_buffer seen channel_of
  serve_buffer-seen r rs s w e none others rest foreign holds fits k = refl
  serve_buffer-seen r rs s w e (some m) others rest foreign holds fits k =
      elim (Bool-cases (beq m.command eol_command)) [
        | inl ended ↦ rw ended (
            ap (λ c. and_then callback c (rest s)) (sym (channel-ends_self net me orderly w e r))
            ∙ k s (ends e r) w holds (λ j differ. channel-ends net me orderly w e r j differ))
        | inr command ↦ rw command (go (reply_command m.command) (fits s holds).0 (fits s holds).1)
      ]
    where
      t : S
      t = (callback s r m).0

      value : Bytes
      value = (callback s r m).1

      go :
          (c : Option Bytes)
          → Holds (callback s r m).0
          → FitsReply callback Holds s r m c
          → and_then callback (reply callback (channel_of net me w e r) m value c) (rest t)
            ≡ seen net me callback
                (r ∷ rs)
                (replied net me callback t e (reply_to net me callback w r m value c) others)
      go none after fit = unfold reply replied reply_to in k t e w after (λ j differ. refl)
      go (some c) after fit =
          let buf = serialize_cmd c m.key value in
          ap (λ d. and_then callback d (rest t))
            (unfold reply in sym (channel-send_self net me orderly w e r buf foreign))
          ∙ k t e (net.send w me.rank r buf) after
              (λ j differ. channel-send net me orderly w e r j buf differ foreign)
          ∙ ap (seen net me callback (r ∷ rs))
              (sym (replied-sent net me orderly callback r t w e m value c others fit))

  pub handle_buffers-seen :
      (s : S) (w : W) (e : ℕ → Bool) (bufs : List (ℕ × Bytes))
      → AreOthers me (ranks_of bufs)
      → Holds s
      → AllFit callback Holds bufs
      → handle callback s (map (pending net me w e) bufs)
        ≡ seen net me callback (ranks_of bufs) (handle_buffers net me callback s e w bufs)
  unfolding handle handle_buffers ranks_of seen pending channel_of
  handle_buffers-seen s w e [] others holds fits = refl
  handle_buffers-seen s w e ((r, buf) ∷ bufs) others holds fits =
      serve_buffer-seen r (ranks_of bufs) s w e (de_serialize_cmd buf)
        (λ t g v. handle_buffers net me callback t g v bufs)
        (λ t. handle callback t (map (pending net me w e) bufs)) others.0 holds fits.0
        (λ t g v after same.
          ap (λ ds. and_then callback (channel_of net me v g r) (handle callback t ds))
            (sym (all_pending-same net me orderly r w v e g bufs same others.1))
          ∙ ap (and_then callback (channel_of net me v g r))
              (handle_buffers-seen t v g bufs others.2 after fits.1)
          ∙ and_then-seen net me orderly callback r (ranks_of bufs) v g
              (handle_buffers net me callback t g v bufs)
              (handle_buffers-Keeps net me orderly callback r t v g bufs others.1 others.2))

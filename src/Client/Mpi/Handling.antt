-- ===== src/Client/Mpi/Handling.antt =====
-- What handling the received messages over MPI leaves alone.
use lsmio.Base.{
  ℕ, ◌%◌, ◌<◌, ◌≡◌, refl, sym, ap, ◌∙◌, Bool, false, Option, none, some, List, [], ◌∷◌, arith,
  Bytes, beq, ltb, ◌==◌, length, map, if_cases,
}
use lsmio.Client
use lsmio.Client.{
  Message, Channel, eol_command, reply_command, serialize_cmd, de_serialize_cmd, serve, decoded,
  after_one, and_then, reply, handle, all_received, all_ended, round,
}
use lsmio.Client.Mpi.{
  Network, IsOrderly, MpiClient, int_limit, uint_mod, send_counted, send_command, MpiRound,
  finished, blocked, crashed, served, replied, reply_to, ends, serve_buffer, handle_buffers,
}
use lsmio.Client.Mpi.Channels.{
  channel_of, IsApart, AreOthers, ranks_of, channel-send, channel-ends, send_counted-fits,
}

module _ {W S : Type 0} (net : Network W) (me : MpiClient)
    (callback : S → ℕ → Message → S × Bytes) where
  -- How a round over MPI looks over channels.
  unfoldable pub seen : List ℕ → MpiRound net me callback → Client.Round callback
  seen rs (finished s) = Client.finished s
  seen rs (blocked s) = Client.blocked s
  seen rs crashed = Client.crashed
  seen rs (served s e w) = Client.served s (map (channel_of net me w e) rs)

module _ {W : Type 0} (net : Network W) (me : MpiClient) (orderly : IsOrderly net) {S : Type 0}
    (callback : S → ℕ → Message → S × Bytes) where
  abbrev pub Keeps : ℕ → W → (ℕ → Bool) → MpiRound net me callback → Type 0
  Keeps j w e (served s g v) = channel_of net me v g j ≡ channel_of net me w e j
  Keeps j w e _ = Unit

  Keeps-from :
      (j : ℕ) (w v : W) (e g : ℕ → Bool) (round : MpiRound net me callback)
      → channel_of net me v g j ≡ channel_of net me w e j
      → Keeps j v g round
      → Keeps j w e round
  Keeps-from j w v e g (served s h u) same k = k ∙ same
  Keeps-from j w v e g (finished s) same k = tt
  Keeps-from j w v e g (blocked s) same k = tt
  Keeps-from j w v e g crashed same k = tt

  pub replied-sent :
      (r : ℕ) (t : S) (w : W) (e : ℕ → Bool) (m : Message) (value c : Bytes)
      (others : S → (ℕ → Bool) → W → MpiRound net me callback)
      → length (serialize_cmd c m.key value) < int_limit
      → replied net me callback t e (reply_to net me callback w r m value (some c)) others
        ≡ others t e (net.send w me.rank r (serialize_cmd c m.key value))
  unfolding replied reply_to send_command
  replied-sent r t w e m value c others fit =
      rw (send_counted-fits net me orderly w r (serialize_cmd c m.key value) fit) refl

  -- What holds after each way in which a message changes the ranks or the network, and of a crash,
  -- holds of the message's round.
  serve_buffer-rule :
      (Q : MpiRound net me callback → Type 0) (r : ℕ) (s : S) (w : W) (e : ℕ → Bool)
      (o : Option Message) (others : S → (ℕ → Bool) → W → MpiRound net me callback)
      → Q crashed
      → ((t : S) → Q (others t (ends e r) w))
      → ((t : S) → Q (others t e w))
      → ((t : S) (buf : Bytes) → Q (others t e (net.send w me.rank r buf)))
      → Q (serve_buffer net me callback s e w r o others)
  unfolding serve_buffer replied reply_to send_command send_counted
  serve_buffer-rule Q r s w e none others crash ended silent sent = crash
  serve_buffer-rule Q r s w e (some m) others crash ended silent sent =
      if_cases Q (beq m.command eol_command) _ _ (λ _. ended s) (λ _. go (reply_command m.command))
    where
      t : S
      t = (callback s r m).0

      value : Bytes
      value = (callback s r m).1

      go :
          (c : Option Bytes)
          → Q (replied net me callback t e (reply_to net me callback w r m value c) others)
      go none = silent t
      go (some c) =
          if_cases (λ v. Q (replied net me callback t e v others))
            (ltb (length (serialize_cmd c m.key value) % uint_mod) int_limit) _ _ (λ _. sent t _)
            (λ _. crash)

  pub handle_buffers-Keeps :
      (j : ℕ) (s : S) (w : W) (e : ℕ → Bool) (bufs : List (ℕ × Bytes))
      → IsApart j (ranks_of bufs)
      → AreOthers me (ranks_of bufs)
      → Keeps j w e (handle_buffers net me callback s e w bufs)
  unfolding handle_buffers ranks_of
  handle_buffers-Keeps j s w e [] apart others = refl
  handle_buffers-Keeps j s w e ((r, buf) ∷ bufs) apart others =
      let differ : (j == r) ≡ false = ground (arith, apart.0) in
      let rest =
        λ (t : S) (g : ℕ → Bool) (v : W). handle_buffers-Keeps j t v g bufs apart.1 others.2 in
      serve_buffer-rule (Keeps j w e) r s w e (de_serialize_cmd buf)
        (λ t g v. handle_buffers net me callback t g v bufs) tt
        (λ t.
          Keeps-from j w w e (ends e r) _ (channel-ends net me orderly w e r j differ)
            (rest t (ends e r) w))
        (λ t. rest t e w)
        (λ t sent.
          Keeps-from j w (net.send w me.rank r sent) e e _
            (channel-send net me orderly w e r j sent differ others.0)
            (rest t e (net.send w me.rank r sent)))

  -- A round sends to other ranks, so that no message to the server itself is added.
  abbrev pub SameInboxes : W → MpiRound net me callback → Type 0
  SameInboxes w (served s g v) = (j : ℕ) → net.incoming v me.rank j ≡ net.incoming w me.rank j
  SameInboxes w _ = Unit

  SameInboxes-from :
      (w v : W) (round : MpiRound net me callback)
      → ((j : ℕ) → net.incoming v me.rank j ≡ net.incoming w me.rank j)
      → SameInboxes v round
      → SameInboxes w round
  SameInboxes-from w v (served s h u) same k = λ j. k j ∙ same j
  SameInboxes-from w v (finished s) same k = tt
  SameInboxes-from w v (blocked s) same k = tt
  SameInboxes-from w v crashed same k = tt

  own_inbox-send :
      (w : W) (r j : ℕ) (buf : Bytes)
      → (r == me.rank) ≡ false
      → net.incoming (net.send w me.rank r buf) me.rank j ≡ net.incoming w me.rank j
  own_inbox-send w r j buf foreign = ground (arith, orderly.incoming-send w me.rank r me.rank j buf)

  pub handle_buffers-SameInboxes :
      (s : S) (w : W) (e : ℕ → Bool) (bufs : List (ℕ × Bytes))
      → AreOthers me (ranks_of bufs)
      → SameInboxes w (handle_buffers net me callback s e w bufs)
  unfolding handle_buffers ranks_of
  handle_buffers-SameInboxes s w e [] others = λ j. refl
  handle_buffers-SameInboxes s w e ((r, buf) ∷ bufs) others =
      serve_buffer-rule (SameInboxes w) r s w e (de_serialize_cmd buf)
        (λ t g v. handle_buffers net me callback t g v bufs) tt
        (λ t. handle_buffers-SameInboxes t w (ends e r) bufs others.2)
        (λ t. handle_buffers-SameInboxes t w e bufs others.2)
        (λ t sent.
          SameInboxes-from w (net.send w me.rank r sent) _ (λ j. own_inbox-send w r j sent others.0)
            (handle_buffers-SameInboxes t (net.send w me.rank r sent) e bufs others.2))

  pub and_then-seen :
      (r : ℕ) (rs : List ℕ) (w : W) (e : ℕ → Bool) (round : MpiRound net me callback)
      → Keeps r w e round
      → and_then callback (channel_of net me w e r) (seen net me callback rs round)
        ≡ seen net me callback (r ∷ rs) round
  unfolding and_then seen
  and_then-seen r rs w e (served s g v) k =
      ap (λ c. Client.served s (c ∷ map (channel_of net me v g) rs)) (sym k)
  and_then-seen r rs w e (finished s) k = refl
  and_then-seen r rs w e (blocked s) k = refl
  and_then-seen r rs w e crashed k = refl

-- ===== src/Client/Starved.antt =====
-- The server loop of lib/manager/client/client.cpp where ranks send different numbers of commands.
use lsmio.Base.{
  ℕ, zero, suc, ◌≡◌, refl, sym, ap, subst, ◌∙◌, ◌⊎◌, inl, inr, true, false, Option, none, some,
  List, [], ◌∷◌, ◌++◌, arith, Bytes, All, length, map,
}
use lsmio.Client.{
  Message, Channel, reply_command, de_serialize_cmd, reply, serve, decoded, and_then, after_one,
  Round, blocked, served, handle, all_received, all_ended, round, go_on, wait_for_command,
}
use lsmio.Client.Lockstep.{IsCommand}

-- What a rank has sent and the server has not read.
abbrev pub Queue : Type 0
Queue = ℕ × List Bytes

abbrev pub queue_of : Channel → Queue
queue_of c = (c.rank, c.inbox)

-- At least `n` well-formed commands, none of them the end.
abbrev pub SendsAtLeast : ℕ → List Bytes → Type 0
SendsAtLeast zero bufs = Unit
SendsAtLeast (suc n) [] = ⊥
SendsAtLeast (suc n) (buf ∷ bufs) = IsCommand (de_serialize_cmd buf) × SendsAtLeast n bufs

-- The rank has not ended and has sent at least `n` commands.
abbrev pub IsReady : ℕ → Channel → Type 0
IsReady n c = (c.eol ≡ false) × SendsAtLeast n c.inbox

-- One of the ranks has sent exactly `n` messages.
unfoldable pub Starves : ℕ → List Queue → Type 0
Starves n [] = ⊥
Starves n (q ∷ qs) = (length q.1 ≡ n) ⊎ Starves n qs

with_message : ℕ → Option Message → List (ℕ × Message) → List (ℕ × Message)
with_message r none ms = ms
with_message r (some m) ms = (r, m) ∷ ms

-- The first messages of all ranks, in their order, and what is behind them.
unfoldable pub first_messages : List Queue → List (ℕ × Message)
unfolding with_message
first_messages [] = []
first_messages ((r, []) ∷ qs) = first_messages qs
first_messages ((r, buf ∷ rest) ∷ qs) = with_message r (de_serialize_cmd buf) (first_messages qs)

tail_of : Queue → Queue
tail_of (r, []) = (r, [])
tail_of (r, buf ∷ rest) = (r, rest)

unfoldable pub behind : List Queue → List Queue
unfolding tail_of
behind qs = map tail_of qs

-- The first `n` messages of every rank, one of each rank at a time.
unfoldable pub first_rounds : ℕ → List Queue → List (ℕ × Message)
unfolding first_messages behind
first_rounds zero qs = []
first_rounds (suc n) qs = first_messages qs ++ first_rounds n (behind qs)

Starves-behind : (n : ℕ) (qs : List Queue) → Starves (suc n) qs → Starves n (behind qs)
unfolding Starves behind tail_of
Starves-behind n [] h = h
Starves-behind n ((r, []) ∷ qs) (inl e) = absurd (omega (arith, e))
Starves-behind n ((r, buf ∷ rest) ∷ qs) (inl e) = inl (omega (arith, e))
Starves-behind n (q ∷ qs) (inr h) = inr (Starves-behind n qs h)

module _ {S : Type 0} (callback : S → ℕ → Message → S × Bytes) where
  -- The server's state after the callback has had these messages.
  unfoldable pub called : S → List (ℕ × Message) → S
  called s [] = s
  called s ((r, m) ∷ ms) = called (callback s r m).0 ms

  called-append :
      (s : S) (ms ns : List (ℕ × Message)) → called s (ms ++ ns) ≡ called (called s ms) ns
  unfolding called
  called-append s [] ns = refl
  called-append s ((r, m) ∷ ms) ns = called-append (callback s r m).0 ms ns

  -- A round that serves one message of each rank.
  pub record IsServed (n : ℕ) (t : S) (qs : List Queue) (r : Round callback) : Type 0 where
    pub channels : List Channel
    pub same : r ≡ served t channels
    pub queues : map queue_of channels ≡ qs
    pub ready : All (IsReady n) channels

  reply-IsReady :
      (n : ℕ) (c : Channel) (m : Message) (value : Bytes) (o : Option Bytes)
      → IsReady n c
      → IsReady n (reply callback c m value o)
  unfolding reply
  reply-IsReady n c m value none h = h
  reply-IsReady n c m value (some command) h = h

  reply-queue :
      (c : Channel) (m : Message) (value : Bytes) (o : Option Bytes)
      → queue_of (reply callback c m value o) ≡ queue_of c
  unfolding reply
  reply-queue c m value none = refl
  reply-queue c m value (some command) = refl

  and_then-IsServed :
      (n : ℕ) (t : S) (qs : List Queue) (c : Channel) (r : Round callback)
      → IsReady n c
      → IsServed n t qs r
      → IsServed n t (queue_of c ∷ qs) (and_then callback c r)
  unfolding and_then
  and_then-IsServed n t qs c r ready h = record {
    channels = c ∷ h.channels;
    same = rw h.same refl;
    queues = ap (◌∷◌ (queue_of c)) h.queues;
    ready = (ready, h.ready);
  }

  -- The first message of one rank, and then those of the others.
  after_one-IsServed :
      (n : ℕ) (s : S) (c : Channel) (o : Option Message) (ms : List (ℕ × Message)) (qs : List Queue)
      (others : S → Round callback)
      → IsReady n c
      → IsCommand o
      → ((t : S) → IsServed n (called t ms) qs (others t))
      → IsServed n
          (called s (with_message c.rank o ms))
          (queue_of c ∷ qs)
          (after_one callback (decoded callback s c o) others)
  unfolding after_one decoded serve with_message called
  after_one-IsServed n s c none ms qs others ready command k = absurd command
  after_one-IsServed n s c (some m) ms qs others ready command k =
      let (t, value) = callback s c.rank m in
      rw command (
        subst
          (λ q.
            IsServed n (called t ms) (q ∷ qs)
              (and_then callback (reply callback c m value (reply_command m.command)) (others t)))
          (reply-queue c m value (reply_command m.command))
          (and_then-IsServed n (called t ms) qs _ (others t)
            (reply-IsReady n c m value (reply_command m.command) ready) (k t)))

  handle-IsServed :
      (n : ℕ) (s : S) (cs : List Channel)
      → All (IsReady (suc n)) cs
      → IsServed n
          (called s (first_messages (map queue_of cs)))
          (behind (map queue_of cs))
          (handle callback s cs)
  unfolding handle first_messages behind tail_of called
  handle-IsServed n s [] ready = record { channels = []; same = refl; queues = refl; ready = tt }
  handle-IsServed n s (c ∷ cs) ready = go c.inbox ready.0.1 (λ t. handle-IsServed n t cs ready.1)
    where
      go :
          (inbox : List Bytes)
          → SendsAtLeast (suc n) inbox
          → ((t : S)
              → IsServed n
                  (called t (first_messages (map queue_of cs)))
                  (behind (map queue_of cs))
                  (handle callback t cs))
          → IsServed n
              (called s (first_messages ((c.rank, inbox) ∷ map queue_of cs)))
              (tail_of (c.rank, inbox) ∷ behind (map queue_of cs))
              (elim inbox [
                | [] ↦ blocked s
                | buf ∷ rest ↦
                    after_one callback
                      (decoded callback s (record c { inbox = rest }) (de_serialize_cmd buf))
                      (λ t. handle callback t cs)
              ])
      go [] h others = absurd h
      go (buf ∷ rest) h others =
          after_one-IsServed n s (record c { inbox = rest }) (de_serialize_cmd buf)
            (first_messages (map queue_of cs)) (behind (map queue_of cs))
            (λ t. handle callback t cs) (ready.0.0, h.1) h.0 others

  all_received-ready :
      (n : ℕ) (cs : List Channel) → All (IsReady (suc n)) cs → all_received callback cs ≡ true
  unfolding all_received
  all_received-ready n [] ready = refl
  all_received-ready n (c ∷ cs) ready = go c.inbox ready.0.1 (all_received-ready n cs ready.1)
    where
      go :
          (inbox : List Bytes)
          → SendsAtLeast (suc n) inbox
          → all_received callback cs ≡ true
          → (elim inbox [ [] ↦ false | buf ∷ rest ↦ all_received callback cs ]) ≡ true
      go [] h all = absurd h
      go (buf ∷ rest) h all = all

  all_received-starved :
      (cs : List Channel) → Starves zero (map queue_of cs) → all_received callback cs ≡ false
  unfolding all_received Starves
  all_received-starved [] h = absurd h
  all_received-starved (c ∷ cs) h = go c.inbox h (all_received-starved cs)
    where
      go :
          (inbox : List Bytes)
          → (length inbox ≡ zero) ⊎ Starves zero (map queue_of cs)
          → (Starves zero (map queue_of cs) → all_received callback cs ≡ false)
          → (elim inbox [ [] ↦ false | buf ∷ rest ↦ all_received callback cs ]) ≡ false
      go [] h' rest = refl
      go (buf ∷ bufs) (inl e) rest = absurd (omega (arith, e))
      go (buf ∷ bufs) (inr h') rest = rest h'

  -- With a rank that starves there is one that has not ended.
  all_ended-ready :
      (n m : ℕ) (cs : List Channel)
      → All (IsReady n) cs
      → Starves m (map queue_of cs)
      → all_ended callback cs ≡ false
  unfolding all_ended Starves
  all_ended-ready n m [] ready h = absurd h
  all_ended-ready n m (c ∷ cs) ready h = rw ready.0.0 refl

  -- If no rank has ended, each has sent at least n well-formed commands that are not the end,
  -- and one of them has sent exactly n messages: the server loop handles exactly the first n
  -- commands of every rank, one of each rank in each round and in the order of the ranks, and
  -- then blocks, although other ranks may have sent more.
  pub wait_for_command_blocks :
      (n : ℕ) (s : S) (cs : List Channel)
      → All (IsReady n) cs
      → Starves n (map queue_of cs)
      → wait_for_command callback (suc n) s cs
        ≡ some (blocked (called s (first_rounds n (map queue_of cs))))
  unfolding wait_for_command first_rounds called round go_on
  wait_for_command_blocks zero s cs ready starved =
      rw (all_ended-ready zero zero cs ready starved, all_received-starved cs starved) refl
  wait_for_command_blocks (suc n) s cs ready starved =
      let qs = map queue_of cs in
      let h = handle-IsServed n s cs ready in
      let t = called s (first_messages qs) in
      rw (all_ended-ready (suc n) (suc n) cs ready starved, all_received-ready n cs ready, h.same)
        (wait_for_command_blocks n t h.channels h.ready
            (subst (Starves n) (sym h.queues) (Starves-behind n qs starved))
          ∙ ap (λ ps. some (blocked (called t (first_rounds n ps)))) h.queues
          ∙ ap (λ u. some (blocked u))
              (sym (called-append s (first_messages qs) (first_rounds n (behind qs)))))

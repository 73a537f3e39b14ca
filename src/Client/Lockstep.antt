-- ===== src/Client/Lockstep.antt =====
-- The server loop runs in rounds of one message from every rank.
use mathlib.Core.Bool.{false≢true}
use lsmio.Base.{
  ℕ, zero, suc, ◌≡◌, refl, ◌∙◌, true, false, Option, none, some, List, [], ◌∷◌, arith, Bytes, beq,
  All, sym, subst, if_cases,
}
use lsmio.Client.{
  Message, Channel, eol_command, reply_command, de_serialize_cmd, reply, serve, decoded, and_then,
  after_one, Round, finished, blocked, crashed, served, handle, all_received, all_ended, round,
  go_on, wait_for_command,
}

abbrev pub IsEnd : Option Message → Type 0
IsEnd none = ⊥
IsEnd (some m) = beq m.command eol_command ≡ true

abbrev pub IsCommand : Option Message → Type 0
IsCommand none = ⊥
IsCommand (some m) = beq m.command eol_command ≡ false

-- `n` well-formed commands, and then the end.
abbrev pub Sends : ℕ → List Bytes → Type 0
Sends n [] = ⊥
Sends zero (buf ∷ rest) = IsEnd (de_serialize_cmd buf)
Sends (suc n) (buf ∷ rest) = IsCommand (de_serialize_cmd buf) × Sends n rest

abbrev SendsFirst : ℕ → Option Message → List Bytes → Type 0
SendsFirst zero o rest = IsEnd o
SendsFirst (suc n) o rest = IsCommand o × Sends n rest

Sends-SendsFirst :
    (n : ℕ) (buf : Bytes) (rest : List Bytes)
    → Sends n (buf ∷ rest)
    → SendsFirst n (de_serialize_cmd buf) rest
Sends-SendsFirst zero buf rest h = h
Sends-SendsFirst (suc n) buf rest h = h

-- The rank ends in the round that is `n` rounds away.
abbrev pub EndsIn : ℕ → Channel → Type 0
EndsIn zero c = c.eol ≡ true
EndsIn (suc n) c = (c.eol ≡ false) × Sends n c.inbox

module _ {ℓ} {S : Type ℓ} (callback : S → ℕ → Message → S × Bytes) where
  reply-EndsIn :
      (n : ℕ) (c : Channel) (m : Message) (value : Bytes) (r : Option Bytes)
      → EndsIn n c
      → EndsIn n (reply callback c m value r)
  unfolding reply
  reply-EndsIn n c m value none h = h
  reply-EndsIn zero c m value (some command) h = h
  reply-EndsIn (suc n) c m value (some command) h = h

  abbrev After : ℕ → Option (S × Channel) → Type 0
  After n none = ⊥
  After n (some (s, c)) = EndsIn n c

  decoded-After :
      (n : ℕ) (s : S) (c : Channel) (rest : List Bytes) (o : Option Message)
      → c.eol ≡ false
      → SendsFirst n o rest
      → After n (decoded callback s (record c { inbox = rest }) o)
  unfolding decoded serve
  decoded-After zero s c rest none e h = h
  decoded-After (suc n) s c rest none e h = h.0
  decoded-After zero s c rest (some m) e h = rw h refl
  decoded-After (suc n) s c rest (some m) e h = rw h.0 (
      reply-EndsIn (suc n) (record c { inbox = rest }) m (callback s c.rank m).1
        (reply_command m.command) (e, h.1))

  abbrev Served : ℕ → Round callback → Type 0
  Served n (finished s) = ⊥
  Served n (blocked s) = ⊥
  Served n crashed = ⊥
  Served n (served s cs) = All (EndsIn n) cs

  and_then-Served :
      (n : ℕ) (c : Channel) (r : Round callback)
      → EndsIn n c
      → Served n r
      → Served n (and_then callback c r)
  unfolding and_then
  and_then-Served n c (served s cs) h a = (h, a)
  and_then-Served n c _ h a = a

  after_one-Served :
      (n : ℕ) (o : Option (S × Channel)) (others : S → Round callback)
      → After n o
      → ((t : S) → Served n (others t))
      → Served n (after_one callback o others)
  unfolding after_one
  after_one-Served n none others h k = h
  after_one-Served n (some (s, c)) others h k = and_then-Served n c (others s) h (k s)

  first-Served :
      (n : ℕ) (s : S) (c : Channel) (inbox : List Bytes) (others : S → Round callback)
      → c.eol ≡ false
      → Sends n inbox
      → ((t : S) → Served n (others t))
      → Served n (elim inbox [
        | [] ↦ blocked s
        | buf ∷ rest ↦
            after_one callback
              (decoded callback s (record c { inbox = rest }) (de_serialize_cmd buf))
              others
      ])
  first-Served n s c [] others e h k = h
  first-Served n s c (buf ∷ rest) others e h k =
      after_one-Served n _ others
        (decoded-After n s c rest (de_serialize_cmd buf) e (Sends-SendsFirst n buf rest h)) k

  handle-Served :
      (n : ℕ) (s : S) (cs : List Channel)
      → All (EndsIn (suc n)) cs
      → Served n (handle callback s cs)
  unfolding handle
  handle-Served n s [] a = tt
  handle-Served n s (c ∷ cs) a =
      first-Served n s c c.inbox (λ t. handle callback t cs) a.0.0 a.0.1
        (λ t. handle-Served n t cs a.1)

  all_ended-EndsIn : (cs : List Channel) → All (EndsIn zero) cs → all_ended callback cs ≡ true
  unfolding all_ended
  all_ended-EndsIn [] a = refl
  all_ended-EndsIn (c ∷ cs) a = ground (arith, all_ended-EndsIn cs a.1)

  all_received-EndsIn :
      (n : ℕ) (cs : List Channel) → All (EndsIn (suc n)) cs → all_received callback cs ≡ true
  unfolding all_received
  all_received-EndsIn n [] a = refl
  all_received-EndsIn n (c ∷ cs) a = go c.inbox a.0.1 (all_received-EndsIn n cs a.1)
    where
      go :
          (inbox : List Bytes)
          → Sends n inbox
          → all_received callback cs ≡ true
          → (elim inbox [ [] ↦ false | buf ∷ rest ↦ all_received callback cs ]) ≡ true
      go [] h all = absurd h
      go (buf ∷ rest) h all = all

  abbrev Continues : ℕ → Round callback → Type 0
  Continues n (finished s) = Unit
  Continues n (blocked s) = ⊥
  Continues n crashed = ⊥
  Continues n (served s cs) = All (EndsIn n) cs

  Served-Continues : (n : ℕ) (r : Round callback) → Served n r → Continues n r
  Served-Continues n (served s cs) a = a
  Served-Continues n (finished s) a = tt
  Served-Continues n (blocked s) a = a
  Served-Continues n crashed a = a

  round-Continues :
      (n : ℕ) (s : S) (cs : List Channel)
      → All (EndsIn (suc n)) cs
      → Continues n (round callback s cs)
  unfolding round
  round-Continues n s cs a =
      if_cases (Continues n) (all_ended callback cs) _ _ (λ _. tt)
        (λ _.
          if_cases (Continues n) (all_received callback cs) _ _
            (λ _. Served-Continues n (handle callback s cs) (handle-Served n s cs a))
            (λ no. absurd (false≢true (sym no ∙ all_received-EndsIn n cs a))))

  round-finished :
      (s : S) (cs : List Channel) → All (EndsIn zero) cs → round callback s cs ≡ finished s
  unfolding round
  round-finished s cs a = ground (arith, all_ended-EndsIn cs a)

  -- The loop has ended by itself.
  abbrev pub Finishes : Option (Round callback) → Type 0
  Finishes none = ⊥
  Finishes (some (finished s)) = Unit
  Finishes (some (blocked s)) = ⊥
  Finishes (some crashed) = ⊥
  Finishes (some (served s cs)) = ⊥

  go_on-Finishes :
      (n : ℕ) (r : Round callback) (more : S → List Channel → Option (Round callback))
      → Continues n r
      → ((t : S) (ds : List Channel) → All (EndsIn n) ds → Finishes (more t ds))
      → Finishes (go_on callback r more)
  unfolding go_on
  go_on-Finishes n (served s cs) more c k = k s cs c
  go_on-Finishes n (finished s) more c k = tt
  go_on-Finishes n (blocked s) more c k = c
  go_on-Finishes n crashed more c k = c

  -- If each of the other ranks has sent the same number n of well-formed commands and then the
  -- end command, the server loop finishes within n + 2 rounds, for any callback.
  pub wait_for_command-Finishes :
      (n : ℕ) (s : S) (cs : List Channel)
      → All (EndsIn n) cs
      → Finishes (wait_for_command callback (suc n) s cs)
  unfolding wait_for_command
  wait_for_command-Finishes zero s cs a =
      subst (λ r. Finishes (go_on callback r (λ t ds. wait_for_command callback zero t ds)))
        (sym (round-finished s cs a)) (unfold go_on in tt)
  wait_for_command-Finishes (suc n) s cs a =
      go_on-Finishes n (round callback s cs) (λ t ds. wait_for_command callback (suc n) t ds)
        (round-Continues n s cs a) (λ t ds. wait_for_command-Finishes n t ds)

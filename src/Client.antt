-- ===== src/Client.antt =====
-- LSMIOClient: lib/manager/client/client.cpp and its header; the commands, their wire format, and
-- the server loop of the aggregating rank. Each message that MPI delivers is a list of bytes.
pub mod Wire
pub mod Lockstep
pub mod Starved
pub mod Mpi
use lsmio.Base.{
  ℕ, zero, suc, ◌+◌, Bool, true, false, ◌&&◌, Option, none, some, List, [], ◌∷◌, ◌++◌, Bytes, codes,
  beq, ◌==◌, take, drop, if◌then◌else◌,
}

-- KV_CMD and KV_CMD_RETURN
abbrev pub cmd_get : Bytes
cmd_get = codes "get"

abbrev pub cmd_put : Bytes
cmd_put = codes "put"

abbrev pub cmd_del : Bytes
cmd_del = codes "del"

abbrev pub cmd_meta_get : Bytes
cmd_meta_get = codes "metaGet"

abbrev pub cmd_meta_get_all : Bytes
cmd_meta_get_all = codes "metaGetAll"

abbrev pub cmd_meta_put : Bytes
cmd_meta_put = codes "metaPut"

abbrev pub cmd_read_barrier : Bytes
cmd_read_barrier = codes "rBarrier"

abbrev pub cmd_write_barrier : Bytes
cmd_write_barrier = codes "wBarrier"

abbrev pub return_get : Bytes
return_get = codes "getBack"

abbrev pub return_meta_get : Bytes
return_meta_get = codes "metaGetBack"

abbrev pub return_meta_get_all : Bytes
return_meta_get_all = codes "metaGetAllBack"

abbrev pub return_read_barrier : Bytes
return_read_barrier = codes "rBarrierBack"

abbrev pub return_write_barrier : Bytes
return_write_barrier = codes "wBarrierBack"

abbrev pub kv_dummy : Bytes
kv_dummy = codes "DUMMY"

abbrev pub eol_command : Bytes
eol_command = codes "__EOL"

abbrev pub separator : ℕ
separator = b';'

pub record Message : Type 0 where
  pub command : Bytes
  pub key : Bytes
  pub value : Bytes

unfoldable pub serialize_cmd : Bytes → Bytes → Bytes → Bytes
serialize_cmd command key value = command ++ (separator ∷ (key ++ (separator ∷ value)))

-- `strchr(s, ';') - s`; `none` for the null pointer. A search that leaves the buffer is a fault, and
-- counts as null.
unfoldable pub strchr : Bytes → Option ℕ
strchr [] = none
strchr (c ∷ s) =
    let rest : Option ℕ = elim (strchr s) [ none ↦ none | some n ↦ some (suc n) ] in
    if c == 0 then none else if c == separator then some zero else rest

split_key : Bytes → Bytes → Option ℕ → Option Message
split_key command s none = none
split_key command s (some key_size) =
    some (record { command = command; key = take key_size s; value = drop (suc key_size) s })

split_command : Bytes → Option ℕ → Option Message
split_command s none = none
split_command s (some cmd_size) =
    let rest = drop (suc cmd_size) s in split_key (take cmd_size s) rest (strchr rest)

-- `none` is a fault: a separator is missing.
unfoldable pub de_serialize_cmd : Bytes → Option Message
unfolding strchr split_key split_command
de_serialize_cmd buf = split_command buf (strchr buf)

-- The command of the reply to a command, for those that are replied to.
unfoldable pub reply_command : Bytes → Option Bytes
reply_command command =
    if beq command cmd_get
    then some return_get
    else if beq command cmd_meta_get
    then some return_meta_get
    else if beq command cmd_meta_get_all
    then some return_meta_get_all
    else if beq command cmd_read_barrier
    then some return_read_barrier
    else if beq command cmd_write_barrier
    then some return_write_barrier
    else none

-- Another rank, as the server sees it: what it has sent and the server has not read yet, what the
-- server has sent to it, and whether it has said that it ends.
pub record Channel : Type 0 where
  pub rank : ℕ
  pub inbox : List Bytes
  pub outbox : List Bytes
  pub eol : Bool

module _ {ℓ} {S : Type ℓ} (callback : S → ℕ → Message → S × Bytes) where
  reply : Channel → Message → Bytes → Option Bytes → Channel
  reply c m value none = c
  reply c m value (some command) = record c {
    outbox = c.outbox ++ serialize_cmd command m.key value ∷ [];
  }

  -- One message of one rank: the end, or a command for the callback and maybe a reply.
  unfoldable pub serve : S → Channel → Message → S × Channel
  unfolding reply
  serve s c m =
      let (s', value) = callback s c.rank m in
      if beq m.command eol_command
      then (s, record c { eol = true })
      else (s', reply c m value (reply_command m.command))

  -- How a round of the loop ends, with the server's state; a server that waits for a message is
  -- blocked.
  pub data Round : Type ℓ where
    finished : S → Round
    blocked : S → Round
    crashed : Round
    served : S → List Channel → Round

  pub and_then : Channel → Round → Round
  and_then c (served s cs) = served s (c ∷ cs)
  and_then c r = r

  decoded : S → Channel → Option Message → Option (S × Channel)
  decoded s c none = none
  decoded s c (some m) = some (serve s c m)

  after_one : Option (S × Channel) → (S → Round) → Round
  after_one none others = crashed
  after_one (some (s, c)) others = and_then c (others s)

  -- The messages are handled in rank order.
  unfoldable pub handle : S → List Channel → Round
  unfolding and_then decoded after_one
  handle s [] = served s []
  handle s (c ∷ cs) = elim c.inbox [
    | [] ↦ blocked s
    | buf ∷ rest ↦
        after_one (decoded s (record c { inbox = rest }) (de_serialize_cmd buf)) (λ t. handle t cs)
  ]

  unfoldable pub all_received : List Channel → Bool
  all_received [] = true
  all_received (c ∷ cs) = elim c.inbox [ [] ↦ false | buf ∷ rest ↦ all_received cs ]

  unfoldable pub all_ended : List Channel → Bool
  all_ended [] = true
  all_ended (c ∷ cs) = c.eol && all_ended cs

  -- `_recvToBuffer` waits for a message of every rank before any is handled.
  unfoldable pub round : S → List Channel → Round
  unfolding handle all_received all_ended
  round s cs =
      if all_ended cs then finished s else if all_received cs then handle s cs else blocked s

  go_on : Round → (S → List Channel → Option Round) → Option Round
  go_on (served s cs) more = more s cs
  go_on r more = some r

  -- The loop, for a number of rounds. `none`: it has not ended within them.
  unfoldable pub wait_for_command : ℕ → S → List Channel → Option Round
  unfolding go_on
  wait_for_command zero s cs = none
  wait_for_command (suc n) s cs = go_on (round s cs) (λ t ds. wait_for_command n t ds)

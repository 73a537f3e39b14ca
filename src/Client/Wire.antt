-- ===== src/Client/Wire.antt =====
-- The wire format: what is sent is what is read, if the command and the key hold no separator.
use mathlib.Core.List.{append_assoc}
use lsmio.Base.{
  ℕ, suc, ◌≡◌, ◌≢◌, refl, ap, ◌∙◌, some, [], ◌∷◌, ◌++◌, arith, Bytes, All, length, drop,
  take-append,
}
use lsmio.Client.{separator, serialize_cmd, strchr, de_serialize_cmd}

-- Neither the separator nor the null byte.
abbrev pub IsPlain : Bytes → Type 0
IsPlain = All (λ c. (c ≢ 0) × (c ≢ separator))

strchr-plain : (s t : Bytes) → IsPlain s → strchr (s ++ separator ∷ t) ≡ some (length s)
unfolding strchr
strchr-plain [] t h = refl
strchr-plain (c ∷ s) t h = ground (arith, strchr-plain s t h.1)

drop-past : (s t : Bytes) (c : ℕ) → drop (suc (length s)) (s ++ c ∷ t) ≡ t
drop-past [] t c = refl
drop-past (x ∷ s) t c = drop-past s t c

-- A command and a key without zero bytes and semicolons, with any value, are read back as they
-- were serialized.
pub de_serialize_cmd-serialize_cmd :
    (command key value : Bytes)
    → IsPlain command
    → IsPlain key
    → de_serialize_cmd (serialize_cmd command key value)
      ≡ some (record { command = command; key = key; value = value })
unfolding de_serialize_cmd serialize_cmd
de_serialize_cmd-serialize_cmd command key value hc hk =
    rw
      (
        strchr-plain command (key ++ separator ∷ value) hc,
        drop-past command (key ++ separator ∷ value) separator,
        strchr-plain key value hk,
        drop-past key value separator,
        take-append command (separator ∷ (key ++ separator ∷ value)),
        take-append key (separator ∷ value),
      )
      refl

-- A key that contains a semicolon is cut there on reading: the rest of the key, and the
-- separator, become the start of the value.
pub de_serialize_cmd-separator :
    (command before after value : Bytes)
    → IsPlain command
    → IsPlain before
    → de_serialize_cmd (serialize_cmd command (before ++ separator ∷ after) value)
      ≡ some (record { command = command; key = before; value = after ++ separator ∷ value })
unfolding serialize_cmd
de_serialize_cmd-separator command before after value hc hb =
    ap de_serialize_cmd same
    ∙ de_serialize_cmd-serialize_cmd command before (after ++ separator ∷ value) hc hb
  where
    same :
        serialize_cmd command (before ++ separator ∷ after) value
        ≡ serialize_cmd command before (after ++ separator ∷ value)
    same =
        ap (λ t. command ++ (separator ∷ t))
          (append_assoc before (separator ∷ after) (separator ∷ value))

-- ===== src/Manager/Tuples.antt =====
-- vectorTupleSerialize and vectorTupleDeserialize of lib/manager/manager.cpp.
use mathlib.Core.List.{append_assoc, append-nil}
use lsmio.Base.{
  ℕ, ◌≡◌, ◌≢◌, refl, sym, ap, ◌∙◌, Option, none, some, List, [], ◌∷◌, ◌++◌, arith, Bytes, All, ◌==◌,
  if◌then◌else◌,
}

abbrev pub bar : ℕ
bar = b'|'

abbrev pub newline : ℕ
newline = 10

unfoldable pub vector_tuple_serialize : List (Bytes × Bytes) → Bytes
vector_tuple_serialize [] = []
vector_tuple_serialize ((k, v) ∷ values) =
    k ++ (bar ∷ (v ++ (newline ∷ vector_tuple_serialize values)))

-- The lines that `std::getline` gives, behind the part `line` of the first; what follows the last
-- newline is a line if it is not empty.
last_line : Bytes → List Bytes
last_line [] = []
last_line (c ∷ line) = (c ∷ line) ∷ []

unfoldable pub lines : Bytes → Bytes → List Bytes
unfolding last_line
lines line [] = last_line line
lines line (c ∷ s) =
    let ended = line ∷ lines [] s in
    let longer = lines (line ++ c ∷ []) s in if c == newline then ended else longer

-- The parts before and behind the first bar.
unfoldable pub split_bar : Bytes → Bytes → Option (Bytes × Bytes)
split_bar before [] = none
split_bar before (c ∷ s) =
    let more = split_bar (before ++ c ∷ []) s in if c == bar then some (before, s) else more

-- Empty lines have no bar, so they are dropped with the others.
unfoldable pub parse_lines : List Bytes → List (Bytes × Bytes)
unfolding split_bar
parse_lines [] = []
parse_lines (line ∷ ls) =
    let rest = parse_lines ls in elim (split_bar [] line) [ none ↦ rest | some pair ↦ pair ∷ rest ]

unfoldable pub vector_tuple_deserialize : Bytes → List (Bytes × Bytes) → List (Bytes × Bytes)
unfolding lines parse_lines
vector_tuple_deserialize s values = values ++ parse_lines (lines [] s)

-- The key holds neither a bar nor a newline, and the value no newline.
abbrev pub IsClean : Bytes × Bytes → Type 0
IsClean (k, v) = All (λ c. (c ≢ bar) × (c ≢ newline)) k × All (λ c. c ≢ newline) v

lines-append :
    (line x s : Bytes)
    → All (λ c. c ≢ newline) x
    → lines line (x ++ newline ∷ s) ≡ (line ++ x) ∷ lines [] s
unfolding lines
lines-append line [] s h = ap (λ l. l ∷ lines [] s) (sym (append-nil line))
lines-append line (c ∷ x) s h =
    ground (arith, lines-append (line ++ c ∷ []) x s h.1, append_assoc line (c ∷ []) x)

split_bar-append :
    (before k v : Bytes)
    → All (λ c. (c ≢ bar) × (c ≢ newline)) k
    → split_bar before (k ++ bar ∷ v) ≡ some (before ++ k, v)
unfolding split_bar
split_bar-append before [] v h = ap (λ b. some (b, v)) (sym (append-nil before))
split_bar-append before (c ∷ k) v h =
    ground (arith, split_bar-append (before ++ c ∷ []) k v h.1, append_assoc before (c ∷ []) k)

clean_line : (k v : Bytes) → IsClean (k, v) → All (λ c. c ≢ newline) (k ++ bar ∷ v)
clean_line [] v h = (λ e. absurd (omega arith), h.1)
clean_line (c ∷ k) v h = (h.0.0.1, clean_line k v (h.0.1, h.1))

parse_lines-cons :
    (line : Bytes) (ls : List Bytes) (p : Bytes × Bytes)
    → split_bar [] line ≡ some p
    → parse_lines (line ∷ ls) ≡ p ∷ parse_lines ls
unfolding parse_lines
parse_lines-cons line ls p e = ground arith

parse-serialize :
    (values : List (Bytes × Bytes))
    → All IsClean values
    → parse_lines (lines [] (vector_tuple_serialize values)) ≡ values
unfolding vector_tuple_serialize
parse-serialize [] h = unfold lines parse_lines in refl
parse-serialize ((k, v) ∷ values) h =
    ap (λ s. parse_lines (lines [] s))
      (sym (append_assoc k (bar ∷ v) (newline ∷ vector_tuple_serialize values)))
    ∙ ap parse_lines
        (lines-append [] (k ++ bar ∷ v) (vector_tuple_serialize values) (clean_line k v h.0))
    ∙ parse_lines-cons (k ++ bar ∷ v) (lines [] (vector_tuple_serialize values)) (k, v)
        (split_bar-append [] k v h.0.0)
    ∙ ap (◌∷◌ (k, v)) (parse-serialize values h.1)

-- Pairs whose first parts have no bar and no newline and whose second parts have no newline are
-- read back, in order, behind the values that were there.
pub deserialize-serialize :
    (values old : List (Bytes × Bytes))
    → All IsClean values
    → vector_tuple_deserialize (vector_tuple_serialize values) old ≡ old ++ values
unfolding vector_tuple_deserialize
deserialize-serialize values old h = ap (◌++◌ old) (parse-serialize values h)

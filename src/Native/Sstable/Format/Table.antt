-- ===== src/Native/Sstable/Format/Table.antt =====
-- A whole table: where its records lie, what a lookup reads, and what recovery indexes.
use mathlib.Core.List.{append_assoc, append-nil}
use lsmio.Base.{
  ℕ, zero, suc, ◌+◌, ◌-◌, ◌<◌, ◌≤◌, ◌≡◌, refl, sym, ap, ap₂, ◌∙◌, Bool, true, false, Option, none,
  some, List, [], ◌∷◌, ◌++◌, arith, Bytes, beq, All, length, length-append, last_lookup, or_else,
  if◌then◌else◌,
}
use lsmio.Native.Sstable.Index.{Entry, index_of, find_offset}
use lsmio.Native.Sstable.Index.Lookup.{IsIncreasing, find_offset-index_of}
use lsmio.Native.Sstable.Format.{
  serialize_entry, serialize, offsets_from, read_value_at, read_header, index_file,
}
use lsmio.Native.Sstable.Format.Reads.{
  IsSmall, length-serialize_entry, read_value_at-record, read_header-record,
}

offsets_from-All :
    (b offset : ℕ) (es : List (Bytes × Bytes))
    → All IsSmall es
    → b < offset
    → All (λ (f : Entry). b < f.1) (offsets_from offset es)
unfolding offsets_from
offsets_from-All b offset [] s h = tt
offsets_from-All b offset ((k, v) ∷ es) s h =
    (h, offsets_from-All b (offset + length (serialize_entry (k, v))) es s.1 (omega arith))

pub offsets_from-IsIncreasing :
    (offset : ℕ) (es : List (Bytes × Bytes))
    → All IsSmall es
    → IsIncreasing (offsets_from offset es)
unfolding offsets_from
offsets_from-IsIncreasing offset [] s = tt
offsets_from-IsIncreasing offset ((k, v) ∷ es) s =
    let next = offset + length (serialize_entry (k, v)) in
    (
      offsets_from-All offset next es s.1 (omega (arith, length-serialize_entry k v s.0)),
      offsets_from-IsIncreasing next es s.1,
    )

-- The offset that is found and the value that is wanted go together.
abbrev pub Agrees : Bytes → Bytes → Option ℕ → Option Bytes → Type 0
Agrees file k none v = v ≡ none
Agrees file k (some o) v = (x : Bytes) × (v ≡ some x) × (read_value_at file o k ≡ some x)

Agrees-or_else :
    (file k : Bytes) (r s : Option ℕ) (v w : Option Bytes)
    → Agrees file k r v
    → Agrees file k s w
    → Agrees file k (or_else r s) (or_else v w)
Agrees-or_else file k none s v w hr hs = rw hr hs
Agrees-or_else file k (some o) s v w (x, e, h) hs = (x, rw e, h)

Agrees-here :
    (file k : Bytes) (o : ℕ) (v : Bytes) (b : Bool)
    → read_value_at file o k ≡ (if b then some v else none)
    → Agrees file k (if b then some o else none) (if b then some v else none)
Agrees-here file k o v true h = (v, refl, h)
Agrees-here file k o v false h = refl

table-Agrees :
    (file k before post : Bytes) (offset : ℕ) (es : List (Bytes × Bytes))
    → All IsSmall es
    → file ≡ before ++ (serialize es ++ post)
    → offset ≡ length before
    → Agrees file k (last_lookup k (offsets_from offset es)) (last_lookup k es)
unfolding last_lookup serialize offsets_from
table-Agrees file k before post offset [] s ef eo = refl
table-Agrees file k before post offset ((j, v) ∷ es) s ef eo =
    Agrees-or_else file k _ _ _ _
      (table-Agrees file k (before ++ head_bytes) post (offset + length head_bytes) es s.1
        (ef ∙ simp append_assoc) (omega (arith, length-append before head_bytes)))
      (Agrees-here file k offset v (beq j k) (
        rw (ef, eo, append_assoc head_bytes (serialize es) post)
          (read_value_at-record before j v (serialize es ++ post) k s.0)))
  where
    head_bytes : Bytes
    head_bytes = serialize_entry (j, v)

-- The lookup in one table: the index, then the file.
unfoldable pub table_get : Bytes → List Entry → Bytes → Option Bytes
table_get file offsets k = elim (find_offset k offsets) [
  | none ↦ none
  | some offset ↦ read_value_at file offset k
]

table_get-Agrees :
    (file k : Bytes) (offsets : List Entry) (r : Option ℕ) (v : Option Bytes)
    → find_offset k offsets ≡ r
    → Agrees file k r v
    → table_get file offsets k ≡ v
unfolding table_get
table_get-Agrees file k offsets none v e h = rw (e, table_get, h)
table_get-Agrees file k offsets (some o) v e (x, ev, h) = rw (e, table_get, ev) h

-- In a file that starts with the records of a list of entries whose lengths are below 2^32,
-- whatever follows them, the lookup through the sorted index of their offsets gives the last
-- entry of the key.
pub table_get-serialize :
    (es : List (Bytes × Bytes)) (post k : Bytes)
    → All IsSmall es
    → table_get (serialize es ++ post) (index_of (offsets_from 0 es)) k ≡ last_lookup k es
table_get-serialize es post k s =
    table_get-Agrees (serialize es ++ post) k (index_of (offsets_from 0 es)) _ (last_lookup k es)
      (find_offset-index_of k (offsets_from 0 es) (offsets_from-IsIncreasing 0 es s))
      (table-Agrees (serialize es ++ post) k [] post 0 es s refl refl)

index_file-cons :
    (fuel offset size : ℕ) (s key rest : Bytes)
    → read_header s ≡ some (key, size, rest)
    → index_file (suc fuel) offset s ≡ (key, offset) ∷ index_file fuel (offset + size) rest
unfolding index_file
index_file-cons fuel offset size [] key rest h = unfold read_header in cc
index_file-cons fuel offset size (c ∷ s) key rest h = rw (h, index_file)

-- Recovery reads the offsets off the file that the flush wrote, and goes on behind them.
pub index_file-serialize :
    (f fuel offset : ℕ) (es : List (Bytes × Bytes)) (post : Bytes)
    → All IsSmall es
    → f ≡ length es + fuel
    → index_file f offset (serialize es ++ post)
      ≡ offsets_from offset es ++ index_file fuel (offset + length (serialize es)) post
unfolding serialize offsets_from
index_file-serialize f fuel offset [] post s e =
    ap₂ (λ a b. index_file a b post) (omega arith) (omega arith)
index_file-serialize zero fuel offset ((k, v) ∷ es) post s e = absurd (omega arith)
index_file-serialize (suc f) fuel offset ((k, v) ∷ es) post s e =
    index_file-cons f offset (length here) (here ++ serialize es ++ post) k (serialize es ++ post) (
      rw (append_assoc here (serialize es) post)
        (read_header-record k v (serialize es ++ post) s.0))
    ∙ ap (◌∷◌ (k, offset)) (
        index_file-serialize f fuel (offset + length here) es post s.1 (omega arith)
        ∙ ap (λ n. offsets_from (offset + length here) es ++ index_file fuel n post)
            (omega (arith, length-append here (serialize es))))
  where
    here : Bytes
    here = serialize_entry (k, v)

index_file-nil : (fuel offset : ℕ) → index_file fuel offset [] ≡ []
unfolding index_file
index_file-nil zero offset = refl
index_file-nil (suc fuel) offset = refl

pub length-le-serialize :
    (es : List (Bytes × Bytes)) → All IsSmall es → length es ≤ length (serialize es)
unfolding serialize
length-le-serialize [] s = omega arith
length-le-serialize ((k, v) ∷ es) s = omega (
  arith,
  length-append (serialize_entry (k, v)) (serialize es),
  length-serialize_entry k v s.0,
  length-le-serialize es s.1,
)

-- On the records of entries whose lengths are below 2^32, the loop of recovery reads all keys
-- with the offsets at which the flush wrote them, with the length of the file as fuel.
pub index_file-whole :
    (es : List (Bytes × Bytes))
    → All IsSmall es
    → index_file (length (serialize es)) 0 (serialize es) ≡ offsets_from 0 es
index_file-whole es s =
    ap (index_file n 0) (sym (append-nil (serialize es)))
    ∙ index_file-serialize n (n - length es) 0 es [] s (omega (arith, length-le-serialize es s))
    ∙ rw (index_file-nil (n - length es) (0 + n)) (append-nil (offsets_from 0 es))
  where
    n : ℕ
    n = length (serialize es)

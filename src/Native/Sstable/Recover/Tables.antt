-- ===== src/Native/Sstable/Recover/Tables.antt =====
-- What a recovered list of tables answers, and that its pool makes only new files.
use mathlib.Core.List.{foldl, append-nil}
use lsmio.Base.{
  ℕ, ◌+◌, ◌≤◌, ◌<◌, ◌≡◌, refl, sym, ap, subst, ◌∙◌, false, Option, none, some, List, [], ◌∷◌, ◌++◌,
  map, arith, Bytes, codes, beq, beq_iff, All, Bool-cases, inl, inr, length, lookup, or_else,
  last_lookup, last_lookup-append, if_cases, ltb, ◌==◌, blt, ◌||◌, ◌&&◌, if◌then◌else◌,
}
use lsmio.Native.FilePool
use lsmio.Native.FilePool.{Disk, FilePool, file_name, path_of, join, u64_mod}
use lsmio.Native.FilePool.Names.{join-injective}
use lsmio.Native.Sstable.Index.{index_of}
use lsmio.Native.Sstable.Format.{serialize, offsets_from, index_file}
use lsmio.Native.Sstable.Format.Reads.{IsSmall}
use lsmio.Native.Sstable.Format.Table.{table_get, table_get-serialize, index_file-whole}
use lsmio.Native.Sstable.Read.{node_get-table_get, nodes_get-cons}
use lsmio.Native.Sstable.Fresh.{IsOld, IsFresh}
use lsmio.Native.Sstable.{L0Index, contents, node_get, nodes_get, get}
use lsmio.Native.Sstable.Recover.{
  recover_id, found_files, max_id, insert_file, sort_files, recover_node, recover_nodes,
  recover_state,
}
use lsmio.Native.Sstable.Recover.Names.{recover_id-file_name}

-- A file of the directory with its id and the entries that were flushed into it.
pub record Table : Type 0 where
  pub id : ℕ
  pub path : Bytes
  pub entries : List (Bytes × Bytes)

abbrev pub file_of : Table → ℕ × Bytes
file_of t = (t.id, t.path)

-- The disk holds the table as the flush wrote it.
abbrev pub IsOn : Disk → Table → Type 0
IsOn disk t = (lookup t.path disk ≡ some (serialize t.entries)) × All IsSmall t.entries

-- All entries, the oldest table's first.
abbrev pub entries_of : List Table → List (Bytes × Bytes)
entries_of [] = []
entries_of (t ∷ ts) = t.entries ++ entries_of ts

contents-held :
    (disk : Disk) (path file : Bytes) → lookup path disk ≡ some file → contents disk path ≡ file
contents-held disk path file e = ground arith

node_get-recover_node :
    (disk : Disk) (t : Table) (k : Bytes)
    → IsOn disk t
    → node_get disk (recover_node disk (t.id, t.path)) k ≡ last_lookup k t.entries
unfolding recover_node
node_get-recover_node disk t k (held, small) =
    node_get-table_get disk _ (serialize t.entries) k held
    ∙ ap (λ file. table_get (serialize t.entries) (index_of (index_file (length file) 0 file)) k)
        (contents-held disk t.path (serialize t.entries) held)
    ∙ ap (λ offsets. table_get (serialize t.entries) (index_of offsets) k)
        (index_file-whole t.entries small)
    ∙ ap (λ file. table_get file (index_of (offsets_from 0 t.entries)) k)
        (sym (append-nil (serialize t.entries)))
    ∙ table_get-serialize t.entries [] k small

recover_onto : Disk → List L0Index → List (ℕ × Bytes) → List L0Index
recover_onto disk = foldl (λ head file. recover_node disk file ∷ head)

get-recover_onto :
    (disk : Disk) (head : List L0Index) (ts : List Table) (k : Bytes)
    → All (IsOn disk) ts
    → nodes_get disk (recover_onto disk head (map file_of ts)) k
      ≡ or_else (last_lookup k (entries_of ts)) (nodes_get disk head k)
unfolding recover_onto
get-recover_onto disk head [] k h = unfold last_lookup in refl
get-recover_onto disk head (t ∷ ts) k h = ground (
  arith,
  get-recover_onto disk (recover_node disk (t.id, t.path) ∷ head) ts k h.1,
  nodes_get-cons disk k (recover_node disk (t.id, t.path)) head,
  node_get-recover_node disk t k h.0,
  last_lookup-append k t.entries (entries_of ts),
)

-- If the files that recovery finds and sorts are those of a list of tables, each on disk as a
-- flush serializes it, with lengths below 2^32, then a lookup after recovery gives the last
-- entry of the key in all tables, the oldest table first.
pub get-recover_state :
    (dir : Bytes) (names : List Bytes) (disk : Disk) (size pre_allocation : ℕ) (ts : List Table)
    (k : Bytes)
    → sort_files (found_files dir names) ≡ map file_of ts
    → All (IsOn disk) ts
    → get (recover_state dir names disk size pre_allocation) k ≡ last_lookup k (entries_of ts)
unfolding get recover_state recover_nodes recover_onto nodes_get
get-recover_state dir names disk size pre_allocation ts k e h =
    ap (λ files. nodes_get disk (foldl (λ head file. recover_node disk file ∷ head) [] files) k) e
    ∙ get-recover_onto disk [] ts k h
    ∙ nothing_older (last_lookup k (entries_of ts))
  where
    nothing_older : (o : Option Bytes) → or_else o (nodes_get disk [] k) ≡ o
    nothing_older none = refl
    nothing_older (some v) = refl

-- A file that recovery found, by its name and an id up to `limit`.
abbrev IsFound : Bytes → ℕ → ℕ × Bytes → Type 0
IsFound dir limit (id, path) =
    (name : Bytes) × (path ≡ join dir name) × (recover_id name ≡ some id) × (id ≤ limit)

IsFound-name-All :
    (dir name : Bytes) (files : List (ℕ × Bytes)) (limit : ℕ) (o : Option ℕ)
    → recover_id name ≡ o
    → ((max_id files ≤ limit) → All (IsFound dir limit) files)
    → max_id (elim o [ none ↦ files | some id ↦ (id, join dir name) ∷ files ]) ≤ limit
    → All (IsFound dir limit) (elim o [ none ↦ files | some id ↦ (id, join dir name) ∷ files ])
unfolding max_id
IsFound-name-All dir name files limit none e ih h = ih h
IsFound-name-All dir name files limit (some id) e ih h =
    ((name, refl, e, omega arith), ih (omega arith))

found_files-All :
    (dir : Bytes) (names : List Bytes) (limit : ℕ)
    → max_id (found_files dir names) ≤ limit
    → All (IsFound dir limit) (found_files dir names)
unfolding found_files
found_files-All dir [] limit h = tt
found_files-All dir (name ∷ names) limit h =
    IsFound-name-All dir name (found_files dir names) limit (recover_id name) refl
      (found_files-All dir names limit) h

insert_file-All :
    (P : ℕ × Bytes → Type 0) (f : ℕ × Bytes) (l : List (ℕ × Bytes))
    → P f
    → All P l
    → All P (insert_file f l)
unfolding insert_file
insert_file-All P (i, p) [] h a = (h, tt)
insert_file-All P (i, p) ((j, q) ∷ l) h a =
    if_cases (All P) (ltb i j || (i == j && blt p q)) _ _ (λ _. (h, a))
      (λ _. (a.0, insert_file-All P (i, p) l h a.1))

sort_files-All : (P : ℕ × Bytes → Type 0) (l : List (ℕ × Bytes)) → All P l → All P (sort_files l)
unfolding sort_files
sort_files-All P [] a = tt
sort_files-All P (f ∷ l) a = insert_file-All P f (sort_files l) a.0 (sort_files-All P l a.1)

-- The pool that recovery starts makes no file that recovery found.
old_file :
    (dir : Bytes) (limit : ℕ) (id : ℕ) (path : Bytes) (i : ℕ)
    → IsFound dir limit (id, path)
    → limit < i
    → beq (path_of dir (codes "L0-") (codes ".sst") i) path ≡ false
unfolding path_of
old_file dir limit id path i (name, ep, en, le) h = elim (Bool-cases (beq _ path)) [
  | inl same ↦
      let e : file_name (codes "L0-") (codes ".sst") i ≡ name =
        join-injective dir (file_name (codes "L0-") (codes ".sst") i) name
          ((beq_iff _ path).0 same ∙ ep) in
      let e' : (if ltb i u64_mod then some i else none) ≡ some id =
        sym (recover_id-file_name i) ∙ ap recover_id e ∙ en in
      ground arith
  | inr differ ↦ differ
]

recover_onto-IsOld :
    (dir : Bytes) (limit : ℕ) (disk : Disk) (fp : FilePool) (head : List L0Index)
    (files : List (ℕ × Bytes))
    → fp.directory ≡ dir
    → fp.prefix ≡ codes "L0-"
    → fp.suffix ≡ codes ".sst"
    → fp.next_id ≡ limit + 1
    → All (IsFound dir limit) files
    → All (λ (n : L0Index). IsOld fp n.path) head
    → All (λ (n : L0Index). IsOld fp n.path) (recover_onto disk head files)
unfolding recover_onto recover_node
recover_onto-IsOld dir limit disk fp head [] ed ep es en a h = h
recover_onto-IsOld dir limit disk fp head ((id, path) ∷ files) ed ep es en a h =
    recover_onto-IsOld dir limit disk fp (recover_node disk (id, path) ∷ head) files ed ep es en a.1
      (
        λ i le.
            subst (λ p. beq p path ≡ false) {x = path_of dir (codes "L0-") (codes ".sst") i} (cc)
              (old_file dir limit id path i a.0 (omega arith)),
        h,
      )

-- If the greatest id found is below 2^64 - 1, no file that the pool makes after recovery has the
-- path of a recovered table, and the pool starts empty.
pub recover_state-IsFresh :
    (dir : Bytes) (names : List Bytes) (disk : Disk) (size pre_allocation : ℕ)
    → max_id (found_files dir names) + 1 < u64_mod
    → IsFresh (recover_state dir names disk size pre_allocation)
unfolding recover_state recover_nodes recover_onto FilePool.new
recover_state-IsFresh dir names disk size pre_allocation h = record {
  unused = tt;
  distinct = tt;
  old_head =
      recover_onto-IsOld dir limit disk (recover_state dir names disk size pre_allocation).file_pool
        [] (sort_files (found_files dir names)) refl refl refl (omega arith)
        (sort_files-All (IsFound dir limit) (found_files dir names)
          (found_files-All dir names limit (omega arith)))
        tt;
  old_pool = tt;
}
  where
    limit : ℕ
    limit = max_id (found_files dir names)

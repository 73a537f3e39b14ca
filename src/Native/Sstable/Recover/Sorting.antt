-- ===== src/Native/Sstable/Recover/Sorting.antt =====
-- Recovery sorts the files that it finds, whatever the order in which the directory gives them.
use mathlib.Core.Logic.{∥∥₁_elim}
use mathlib.Core.List.{Perm, Permᴰ}
use lsmio.Base.{
  ℕ, suc, ◌<◌, ◌≡◌, refl, sym, ap, ap₂, ◌∙◌, Bool, true, false, ◌&&◌, ◌||◌, Option, none, some,
  List, [], ◌∷◌, map, arith, Bytes, beq_iff, blt, blt_asym, blt_trans, blt_total, ltb, ◌==◌,
  if◌then◌else◌, Bool-cases, inl, inr,
}
use lsmio.Native.FilePool.{join}
use lsmio.Native.FilePool.Order.{Ids}
use lsmio.Native.Sstable.Recover.{insert_file, sort_files, found_files, recover_id}

abbrev File : Type 0
File = ℕ × Bytes

less : File → File → Bool
less (i, p) (j, q) = ltb i j || (i == j && blt p q)

less_asym : (f g : File) → less f g ≡ true → less g f ≡ false
unfolding less
less_asym (i, p) (j, q) h = ground (arith, blt_asym p q)

less_trans : (f g h : File) → less f g ≡ true → less g h ≡ true → less f h ≡ true
unfolding less
less_trans (i, p) (j, q) (k, r) h h' = ground (arith, blt_trans p q r)

less_total : (f g : File) → less f g ≡ false → less g f ≡ false → f ≡ g
unfolding less
less_total (i, p) (j, q) h h' = ground (arith, blt_total p q, beq_iff p q)

insert_file-cons :
    (f g : File) (l : List File)
    → insert_file f (g ∷ l) ≡ (if less f g then f ∷ g ∷ l else g ∷ insert_file f l)
unfolding insert_file less
insert_file-cons (i, p) (j, q) l = refl

insert_file-nil : (f : File) → insert_file f [] ≡ f ∷ []
unfolding insert_file
insert_file-nil (i, p) = refl

comm_of_less :
    (f g : File) (l : List File)
    → less f g ≡ true
    → insert_file f (insert_file g l) ≡ insert_file g (insert_file f l)
comm_of_less f g [] lt = rw (
  insert_file-nil g,
  insert_file-nil f,
  insert_file-cons f g [],
  insert_file-cons g f [],
  lt,
  less_asym f g lt,
  insert_file-nil g,
)
comm_of_less f g (h ∷ l) lt = elim (Bool-cases (less f h)) [
  | inl first ↦ elim (Bool-cases (less g h)) [
    | inl second ↦ rw (
      insert_file-cons g h l,
      insert_file-cons f h l,
      first,
      second,
      insert_file-cons f g (h ∷ l),
      insert_file-cons g f (h ∷ l),
      lt,
      less_asym f g lt,
      insert_file-cons g h l,
      second,
    )
    | inr third ↦ rw (
      insert_file-cons g h l,
      insert_file-cons f h l,
      first,
      third,
      insert_file-cons f h (insert_file g l),
      insert_file-cons g f (h ∷ l),
      first,
      less_asym f g lt,
      insert_file-cons g h l,
      third,
    )
  ]
  | inr later ↦ elim (Bool-cases (less g h)) [
    | inl second ↦ absurd (ground (arith, less_trans f g h lt second))
    | inr third ↦ rw (
      insert_file-cons g h l,
      insert_file-cons f h l,
      later,
      third,
      insert_file-cons f h (insert_file g l),
      insert_file-cons g h (insert_file f l),
      later,
      third,
      comm_of_less f g l lt,
    )
  ]
]

insert_file_comm :
    (f g : File) (l : List File) → insert_file f (insert_file g l) ≡ insert_file g (insert_file f l)
insert_file_comm f g l = elim (Bool-cases (less f g)) [
  | inl lt ↦ comm_of_less f g l lt
  | inr ge ↦ elim (Bool-cases (less g f)) [
    | inl gt ↦ sym (comm_of_less g f l gt)
    | inr le ↦
        ap₂ (λ x y. insert_file x (insert_file y l)) (less_total f g ge le) (less_total g f le ge)
  ]
]

add : Option ℕ → Bytes → List File → List File
add none path l = l
add (some id) path l = insert_file (id, path) l

sort_files-add :
    (o : Option ℕ) (path : Bytes) (files : List File)
    → sort_files (elim o [ none ↦ files | some id ↦ (id, path) ∷ files ])
      ≡ add o path (sort_files files)
unfolding sort_files add
sort_files-add none path files = refl
sort_files-add (some id) path files = refl

sort_files-name :
    (dir name : Bytes) (ns : List Bytes)
    → sort_files (found_files dir (name ∷ ns))
      ≡ add (recover_id name) (join dir name) (sort_files (found_files dir ns))
unfolding found_files
sort_files-name dir name ns = sort_files-add (recover_id name) (join dir name) (found_files dir ns)

add_comm :
    (o r : Option ℕ) (p q : Bytes) (l : List File) → add o p (add r q l) ≡ add r q (add o p l)
unfolding add
add_comm none r p q l = refl
add_comm (some i) none p q l = refl
add_comm (some i) (some j) p q l = insert_file_comm (i, p) (j, q) l

sort_files-Permᴰ :
    (dir : Bytes) {ns ms : List Bytes}
    → Permᴰ ns ms
    → sort_files (found_files dir ns) ≡ sort_files (found_files dir ms)
sort_files-Permᴰ dir Permᴰ.nil = refl
sort_files-Permᴰ dir (Permᴰ.cons {a} {b} {l₁} {l₂} e p) =
    sort_files-name dir a l₁
    ∙ ap₂ (λ n l. add (recover_id n) (join dir n) l) e (sort_files-Permᴰ dir p)
    ∙ sym (sort_files-name dir b l₂)
sort_files-Permᴰ dir (Permᴰ.swap {a} {b} {a'} {b'} {l} e e') =
    sort_files-name dir a (b ∷ l)
    ∙ ap (add (recover_id a) (join dir a)) (sort_files-name dir b l)
    ∙ add_comm (recover_id a) (recover_id b) (join dir a) (join dir b)
        (sort_files (found_files dir l))
    ∙ ap₂
        (λ n m.
          add (recover_id m) (join dir m)
            (add (recover_id n) (join dir n) (sort_files (found_files dir l))))
        e e'
    ∙ sym (
        sort_files-name dir a' (b' ∷ l)
        ∙ ap (add (recover_id a') (join dir a')) (sort_files-name dir b' l))
sort_files-Permᴰ dir (Permᴰ.trans p q) = sort_files-Permᴰ dir p ∙ sort_files-Permᴰ dir q

files_set : IsSet (List File)
files_set = hlevel

-- The order in which a directory gives its names does not matter to recovery.
pub sort_files-Perm :
    (dir : Bytes) (ns ms : List Bytes)
    → Perm ns ms
    → sort_files (found_files dir ns) ≡ sort_files (found_files dir ms)
sort_files-Perm dir ns ms p = ∥∥₁_elim p (files_set _ _) (λ d. sort_files-Permᴰ dir d)

insert_first :
    (f : File) (files : List File) (lo hi : ℕ)
    → f.0 < lo
    → Ids lo hi (map (λ g. g.0) files)
    → insert_file f files ≡ f ∷ files
unfolding insert_file
insert_first (i, p) [] lo hi h o = refl
insert_first (i, p) ((j, q) ∷ files) lo hi h o = ground arith

-- Files with increasing ids are sorted.
pub sort_files-Ids :
    (files : List File) (lo hi : ℕ) → Ids lo hi (map (λ f. f.0) files) → sort_files files ≡ files
unfolding sort_files
sort_files-Ids [] lo hi o = refl
sort_files-Ids (f ∷ files) lo hi o =
    ap (insert_file f) (sort_files-Ids files (suc f.0) hi o.1)
    ∙ insert_first f files (suc f.0) hi (omega arith) o.1

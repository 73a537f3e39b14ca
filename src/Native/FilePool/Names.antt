-- ===== src/Native/FilePool/Names.antt =====
-- The files of one pool have different paths, and recovery reads the id off the name.
use mathlib.Core.List.{append_cancel_left, append_cancel_right}
use lsmio.Base.{
  ℕ, ◌≡◌, ap, sym, ◌∙◌, [], ◌∷◌, ◌++◌, Bytes, to_string, value-to_string, value_from,
  value_from-zeros,
}
use lsmio.Native.FilePool.{pad, file_name, join, slash_end, path_of}

-- A padded number reads as the number.
pub value-pad : (n : ℕ) → value_from 0 (pad (to_string n)) ≡ n
unfolding pad
value-pad n = value_from-zeros _ (to_string n) ∙ value-to_string n

pub join-injective : (dir m n : Bytes) → join dir m ≡ join dir n → m ≡ n
unfolding join
join-injective [] m n e = e
join-injective (c ∷ dir) m n e = append_cancel_left (c ∷ slash_end c dir) m n e

-- In one directory, with one prefix and one suffix, two ids never share a path.
pub path_of-injective :
    (dir prefix suffix : Bytes) (m n : ℕ)
    → path_of dir prefix suffix m ≡ path_of dir prefix suffix n
    → m ≡ n
unfolding path_of file_name
path_of-injective dir prefix suffix m n e =
    sym (value-pad m)
    ∙ ap (value_from 0) (
        append_cancel_right (pad (to_string m)) (pad (to_string n)) suffix (
          append_cancel_left prefix (pad (to_string m) ++ suffix) (pad (to_string n) ++ suffix)
            (join-injective dir _ _ e)))
    ∙ value-pad n

-- ===== src/Native/Sstable/Format/Reads.antt =====
-- What was serialized is read back: record by record, and as an index of the file.
use mathlib.Core.List.{append_assoc}
use native.Mathlib.Nat.{mod-eq_of_lt}
use lsmio.Base.{
  ℕ, ◌+◌, ◌<◌, ◌≡◌, refl, ap, none, some, [], ◌∷◌, ◌++◌, arith, Bytes, beq, length, take,
  take-append, drop-append, length-append, if◌then◌else◌,
}
use lsmio.Native.Sstable.Format.{
  u32_mod, u32_bytes, serialize_entry, read_u32, read_exact, read_value_at, read_header,
}

-- The lengths fit their four bytes.
abbrev pub IsSmall : Bytes × Bytes → Type 0
IsSmall (key, value) = (length key < u32_mod) × (length value < u32_mod)

read_u32-u32_bytes : (n : ℕ) (s : Bytes) → n < u32_mod → read_u32 (u32_bytes n ++ s) ≡ some (n, s)
unfolding read_u32 u32_bytes
read_u32-u32_bytes n s h = ground arith

read_exact-append : (s t : Bytes) → read_exact (length s) (s ++ t) ≡ some (s, t)
unfolding read_exact
read_exact-append s t = rw (take-append s t, drop-append s t) (ground (arith, length-append s t))

take-length : (s : Bytes) → take (length s) s ≡ s
take-length [] = refl
take-length (c ∷ s) = ap (◌∷◌ c) (take-length s)

-- A record with short strings, in front of `post`.
record_bytes :
    (k v post : Bytes)
    → IsSmall (k, v)
    → serialize_entry (k, v) ++ post
      ≡ u32_bytes (length k) ++ (k ++ (u32_bytes (length v) ++ (v ++ post)))
unfolding serialize_entry
record_bytes k v post h =
    rw (mod-eq_of_lt h.0, mod-eq_of_lt h.1, take-length k, take-length v) (simp append_assoc)

pub length-serialize_entry :
    (k v : Bytes) → IsSmall (k, v) → length (serialize_entry (k, v)) ≡ 8 + length k + length v
unfolding serialize_entry u32_bytes
length-serialize_entry k v h =
    rw (mod-eq_of_lt h.0, mod-eq_of_lt h.1, take-length k, take-length v)
      (omega (
        arith,
        length-append k (u32_bytes (length v) ++ v),
        length-append (u32_bytes (length v)) v,
      ))

-- A read at the offset of a record gives its value, if the key is the expected one.
pub read_value_at-record :
    (before k v post j : Bytes)
    → IsSmall (k, v)
    → read_value_at (before ++ (serialize_entry (k, v) ++ post)) (length before) j
      ≡ (if beq k j then some v else none)
unfolding read_value_at
read_value_at-record before k v post j h =
    rw
      (
        drop-append before (serialize_entry (k, v) ++ post),
        record_bytes k v post h,
        read_u32-u32_bytes (length k) (k ++ (u32_bytes (length v) ++ (v ++ post))) h.0,
        read_exact-append k (u32_bytes (length v) ++ (v ++ post)),
        read_u32-u32_bytes (length v) (v ++ post) h.1,
        read_exact-append v post,
      )
      (ground arith)

pub read_header-record :
    (k v post : Bytes)
    → IsSmall (k, v)
    → read_header (serialize_entry (k, v) ++ post) ≡ some (k, length (serialize_entry (k, v)), post)
unfolding read_header
read_header-record k v post h =
    rw
      (
        record_bytes k v post h,
        length-serialize_entry k v h,
        read_u32-u32_bytes (length k) (k ++ (u32_bytes (length v) ++ (v ++ post))) h.0,
        read_exact-append k (u32_bytes (length v) ++ (v ++ post)),
        read_u32-u32_bytes (length v) (v ++ post) h.1,
        drop-append v post,
      )
      refl

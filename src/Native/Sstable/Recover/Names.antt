-- ===== src/Native/Sstable/Recover/Names.antt =====
-- The file names of the pool are the ones that recovery reads.
use lsmio.Base.{
  ℕ, suc, ◌-◌, ◌≤◌, ◌<◌, ◌≡◌, refl, ap, ◌∙◌, none, some, [], ◌∷◌, ◌++◌, arith, Bytes, codes, beq,
  starts_with, ltb, All, All-append, IsDigit, length, length-append, drop-append, take-append,
  to_string, to_string-All, replicate, length-replicate, replicate-All, value_from, if◌then◌else◌,
}
use lsmio.Native.FilePool.{pad, file_name, u64_mod}
use lsmio.Native.FilePool.Names.{value-pad}
use lsmio.Native.Sstable.Recover.{leading_digits, to_number, stoull, recover_id}

pub leading_digits-All : (s : Bytes) → All IsDigit s → leading_digits s ≡ s
unfolding leading_digits
leading_digits-All [] h = refl
leading_digits-All (c ∷ s) h = ground (arith, leading_digits-All s h.1)

pad-All : (n : ℕ) → All IsDigit (pad (to_string n))
unfolding pad
pad-All n =
    All-append IsDigit (replicate (6 - length (to_string n)) 48) (to_string n) (replicate-All _)
      (to_string-All n)

length-pad : (s : Bytes) → 6 ≤ length (pad s)
unfolding pad
length-pad s = omega (
  arith,
  length-append (replicate (6 - length s) b'0') s,
  length-replicate {A = ℕ} (6 - length s) b'0',
)

stoull-digits : (s : Bytes) → All IsDigit s → 0 < length s → stoull s ≡ to_number s
unfolding stoull
stoull-digits [] h n = absurd (omega arith)
stoull-digits (c ∷ s) h n = ground (arith, leading_digits-All (c ∷ s) h)

to_number-value :
    (s : Bytes) (n : ℕ)
    → 0 < length s
    → value_from 0 s ≡ n
    → to_number s ≡ (if ltb n u64_mod then some n else none)
unfolding to_number
to_number-value [] n h e = absurd (omega arith)
to_number-value (c ∷ s) n h e = ap (λ v. if ltb v u64_mod then some v else none) e

recover_id-body : (body : Bytes) → recover_id (codes "L0-" ++ (body ++ codes ".sst")) ≡ stoull body
unfolding recover_id starts_with beq
recover_id-body body =
    rw (cut, shorter, drop-append body (codes ".sst"), take-append body (codes ".sst"))
  where
    cut : length (codes "L0-" ++ (body ++ codes ".sst")) - 4 ≡ suc (suc (suc (length body)))
    cut = omega (arith, length-append body (codes ".sst"))

    shorter : length (codes "L0-" ++ (body ++ codes ".sst")) - 7 ≡ length body
    shorter = omega (arith, length-append body (codes ".sst"))

-- Recovery reads from the name that the pool gives a file its id, if the id is below 2^64, and
-- otherwise skips the file.
pub recover_id-file_name :
    (n : ℕ)
    → recover_id (file_name (codes "L0-") (codes ".sst") n)
      ≡ (if ltb n u64_mod then some n else none)
unfolding file_name
recover_id-file_name n =
    recover_id-body body
    ∙ stoull-digits body (pad-All n) (omega (arith, length-pad (to_string n)))
    ∙ to_number-value body n (omega (arith, length-pad (to_string n))) (value-pad n)
  where
    body : Bytes
    body = pad (to_string n)

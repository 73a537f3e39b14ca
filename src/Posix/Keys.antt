-- ===== src/Posix/Keys.antt =====
-- The keys of the pieces of files.
use lsmio.Base.{
  ℕ, ◌≡◌, ◌≢◌, refl, [], ◌∷◌, ◌++◌, arith, Bytes, All, IsDigit, to_string, to_string-All,
  to_string-injective, beq, beq_iff, ◌&&◌, ◌==◌, Bool-cases, inl, inr,
}
use lsmio.Posix.{gen_key}

no_colon : (x y d : Bytes) → All IsDigit d → d ≢ x ++ b':' ∷ y
no_colon [] y [] hd e = ground arith
no_colon [] y (c ∷ d) hd e = ground arith
no_colon (a ∷ x) y [] hd e = ground arith
no_colon (a ∷ x) y (c ∷ d) hd e = no_colon x y d hd.1 (cc)

no_colons : (x y d : Bytes) → All IsDigit d → b':' ∷ d ≢ x ++ b':' ∷ b':' ∷ y
no_colons [] y d hd e = no_colon [] y d hd (cc)
no_colons (a ∷ x) y d hd e = no_colon x (b':' ∷ y) d hd (cc)

-- The last two colons stand where the digits begin.
suffix-digits :
    (p q d d' : Bytes)
    → All IsDigit d
    → All IsDigit d'
    → p ++ (b':' ∷ b':' ∷ d) ≡ q ++ (b':' ∷ b':' ∷ d')
    → (p ≡ q) × (d ≡ d')
suffix-digits [] [] d d' hd hd' e = (refl, cc)
suffix-digits [] (c ∷ q) d d' hd hd' e = absurd (no_colons q d' d hd (cc))
suffix-digits (c ∷ p) [] d d' hd hd' e = absurd (no_colons p d d' hd' (cc))
suffix-digits (a ∷ p) (b ∷ q) d d' hd hd' e =
    let (same, rest) = suffix-digits p q d d' hd hd' (cc) in (cc, rest)

-- The key of a piece determines the path and the offset of the piece, whatever bytes the path
-- has.
pub gen_key-injective : (p q : Bytes) (m n : ℕ) → gen_key p m ≡ gen_key q n → (p ≡ q) × (m ≡ n)
unfolding gen_key
gen_key-injective p q m n e =
    let (paths, numbers) =
      suffix-digits p q (to_string m) (to_string n) (to_string-All m) (to_string-All n) e in
    (paths, to_string-injective m n numbers)

pub beq-gen_key : (p q : Bytes) (m n : ℕ) → beq (gen_key p m) (gen_key q n) ≡ (beq p q && (m == n))
beq-gen_key p q m n = elim (Bool-cases (beq (gen_key p m) (gen_key q n))) [
  | inl same ↦
      let (paths, numbers) = gen_key-injective p q m n ((beq_iff _ _).0 same) in
      ground (arith, beq_iff p q)
  | inr differ ↦ ground (arith, beq_iff p q, beq_iff (gen_key p m) (gen_key q n))
]

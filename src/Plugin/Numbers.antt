-- ===== src/Plugin/Numbers.antt =====
-- `std::stoi` reads the numbers that are printed, up to the greatest int.
use lsmio.Base.{
  ℕ, suc, ◌+◌, ◌/◌, ◌%◌, ◌^◌, ◌≡◌, ◌≢◌, refl, ap, ◌∙◌, false, none, some, [], ◌∷◌, ◌++◌, arith,
  Bytes, All, IsDigit, to_string, to_string-All, value-to_string, value_from, digits, ltb, if_cases,
  if◌then◌else◌,
}
use lsmio.Native.Sstable.Recover.Names.{leading_digits-All}
use lsmio.Plugin.{stoi, int_from}

snoc-nonempty : (s : Bytes) (c : ℕ) → s ++ c ∷ [] ≢ []
snoc-nonempty [] c e = ground (arith, e)
snoc-nonempty (b ∷ s) c e = ground (arith, e)

digits-nonempty : (fuel n : ℕ) → digits (suc fuel) n ≢ []
unfolding digits
digits-nonempty fuel n =
    if_cases (λ (s : Bytes). s ≢ []) (ltb n 10) _ _ (λ _ e. ground (arith, e))
      (λ _. snoc-nonempty (digits fuel (n / 10)) (48 + n % 10))

pub to_string-nonempty : (n : ℕ) → to_string n ≢ []
unfolding to_string
to_string-nonempty n = digits-nonempty n n

int_from-value :
    (s : Bytes) (n : ℕ)
    → s ≢ []
    → value_from 0 s ≡ n
    → int_from false s ≡ (if ltb n (2 ^ 31) then some n else none)
unfolding int_from
int_from-value [] n h e = absurd (h refl)
int_from-value (c ∷ s) n h e = ap (λ v. if ltb v (2 ^ 31) then some v else none) e

stoi-digits : (s : Bytes) → s ≢ [] → All IsDigit s → stoi s ≡ int_from false s
unfolding stoi
stoi-digits [] n h = absurd (n refl)
stoi-digits (c ∷ s) n h = ground (arith, leading_digits-All (c ∷ s) h)

pub stoi-to_string : (n : ℕ) → stoi (to_string n) ≡ (if ltb n (2 ^ 31) then some n else none)
stoi-to_string n =
    stoi-digits (to_string n) (to_string-nonempty n) (to_string-All n)
    ∙ int_from-value (to_string n) n (to_string-nonempty n) (value-to_string n)

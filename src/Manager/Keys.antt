-- ===== src/Manager/Keys.antt =====
-- Keys of different ranks never meet in the shared store.
use lsmio.Base.{
  ℕ, ◌≡◌, refl, sym, ◌∙◌, inl, inr, true, [], ◌∷◌, ◌++◌, arith, Bytes, codes, All, IsDigit, beq,
  beq_iff, to_string, to_string-All, to_string-injective, Bool-cases, ◌==◌, ◌&&◌,
}
use lsmio.Manager.{Manager, is_serve_local, ranked_key}

-- Digits before a colon end where the colon stands.
digits-end :
    (s t x y : Bytes)
    → All IsDigit s
    → All IsDigit t
    → s ++ (b':' ∷ x) ≡ t ++ (b':' ∷ y)
    → (s ≡ t) × (x ≡ y)
digits-end [] [] x y hs ht e = (refl, cc)
digits-end [] (d ∷ t) x y hs ht e = ground arith
digits-end (c ∷ s) [] x y hs ht e = ground arith
digits-end (c ∷ s) (d ∷ t) x y hs ht e =
    let (same, rest) = digits-end s t x y hs.1 ht.1 (cc) in (cc, rest)

pub ranked_key-serving :
    (m : Manager) (r : ℕ) (k : Bytes)
    → is_serve_local m ≡ true
    → ranked_key m r k ≡ to_string r ++ (codes "::" ++ k)
unfolding ranked_key
ranked_key-serving m r k serves = ground (arith)

-- On a rank that serves others, the key in the shared store determines both the rank and the key
-- of the client.
pub ranked_key-injective :
    (m : Manager) (r r' : ℕ) (k k' : Bytes)
    → is_serve_local m ≡ true
    → ranked_key m r k ≡ ranked_key m r' k'
    → (r ≡ r') × (k ≡ k')
ranked_key-injective m r r' k k' serves e =
    let parts =
      digits-end (to_string r) (to_string r') (codes ":" ++ k) (codes ":" ++ k') (to_string-All r)
        (to_string-All r') (sym (ranked r k) ∙ e ∙ ranked r' k') in
    (to_string-injective r r' parts.0, cc parts.1)
  where
    ranked : (q : ℕ) (j : Bytes) → ranked_key m q j ≡ to_string q ++ (codes "::" ++ j)
    ranked q j = ranked_key-serving m q j serves

-- Whether two ranked keys are equal, as a test.
pub beq-ranked_key :
    (m : Manager) (r r' : ℕ) (k k' : Bytes)
    → is_serve_local m ≡ true
    → beq (ranked_key m r k) (ranked_key m r' k') ≡ ((r == r') && beq k k')
beq-ranked_key m r r' k k' serves =
    elim (Bool-cases (beq (ranked_key m r k) (ranked_key m r' k'))) [
      | inl same ↦
          let (er, ek) = ranked_key-injective m r r' k k' serves ((beq_iff _ _).0 same) in
          ground (arith, beq_iff k k')
      | inr differ ↦ ground (arith, beq_iff k k', beq_iff (ranked_key m r k) (ranked_key m r' k'))
    ]

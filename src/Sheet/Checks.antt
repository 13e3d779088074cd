-- ===== src/Sheet/Checks.antt =====
-- Tests over lists and over the numbers below a bound, and what they show. The facts of a sheet are
-- computed by them.
use cirradio.Prelude.{
  ℕ, zero, suc, ◌<◌, ◌==◌, ==_iff, ◌≡◌, ◌∙◌, refl, ap, Bool, true, false, ◌&&◌, Bool-cases, inl,
  inr, List, [], ◌∷◌, Text, text_eq, text_eq_iff, All, &&-true, arith,
}

-- A test passes for every number below a bound.
unfoldable pub each_below : ℕ → (ℕ → Bool) → Bool
each_below zero test = true
each_below (suc n) test = test n && each_below n test

pub each_below-lt :
    (n : ℕ) (test : ℕ → Bool) (k : ℕ) → each_below n test ≡ true → k < n → test k ≡ true
unfolding each_below
each_below-lt zero test k h b = absurd (omega (arith, b))
each_below-lt (suc n) test k h b = elim (Bool-cases (k == n)) [
  | inl e ↦ ap test ((==_iff k n).0 e) ∙ (&&-true (test n) (each_below n test) h).0
  | inr e ↦ each_below-lt n test k (&&-true (test n) (each_below n test) h).1 (ground (arith, e, b))
]

-- A test passes for every item.
unfoldable pub every_item {ℓ} : {A : Type ℓ} → (A → Bool) → List A → Bool
every_item test [] = true
every_item test (x ∷ xs) = test x && every_item test xs

pub every_item-All {ℓ} :
    {A : Type ℓ} (test : A → Bool) (xs : List A)
    → every_item test xs ≡ true
    → All (λ x. test x ≡ true) xs
unfolding every_item
every_item-All test [] h = tt
every_item-All test (x ∷ xs) h =
    let both = &&-true (test x) (every_item test xs) h in (both.0, every_item-All test xs both.1)

unfoldable pub texts_eq : List Text → List Text → Bool
texts_eq [] [] = true
texts_eq (s ∷ ss) (t ∷ ts) = text_eq s t && texts_eq ss ts
texts_eq ss ts = false

pub texts_eq-true : (ss ts : List Text) → texts_eq ss ts ≡ true → ss ≡ ts
unfolding texts_eq
texts_eq-true [] [] h = refl
texts_eq-true (s ∷ ss) (t ∷ ts) h =
    let both = &&-true (text_eq s t) (texts_eq ss ts) h in
    let same : s ≡ t = (text_eq_iff s t).0 both.0 in cc (same, texts_eq-true ss ts both.1)
texts_eq-true [] (t ∷ ts) h = absurd (ground (arith, h))
texts_eq-true (s ∷ ss) [] h = absurd (ground (arith, h))

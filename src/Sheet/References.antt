-- ===== src/Sheet/References.antt =====
-- hardware/cirradio-devboard/gen_*.py write references with `next_cap` and the like;
-- gen_pcb_placement.py reads the numbers of test points, LEDs and switches back with
-- `re.search(r"\d+", ref)`.
use cirradio.Prelude.{
  ℕ, zero, suc, ◌+◌, ◌*◌, ◌-◌, ◌/◌, ◌%◌, ◌≤◌, ◌<◌, ◌≡◌, ◌⊎◌, ◌∙◌, refl, sym, ap, true, ltb,
  Bool-cases, inl, inr, some, [], ◌∷◌, ◌++◌, Text, is_digit, decimal, decimal_from, All, All-append,
  arith,
}
use cirradio.Placement.Component.{leading_number, first_number}
use cirradio.Sheet.{
  Series, cap_idx, res_idx, pwr_idx, ind_idx, ic_idx, u_idx, conn_idx, crystal_idx, led_idx,
  btn_idx, tp_idx, reference_of, pad_4,
}

abbrev IsDigit : ℕ → Type 0
IsDigit c = is_digit c ≡ true

decimal_from-All : (fuel n : ℕ) → All IsDigit (decimal_from fuel n)
unfolding decimal_from
decimal_from-All zero n = tt
decimal_from-All (suc fuel) n = elim (Bool-cases (ltb n 10)) [
  | inl e ↦ rw e (ground arith, tt)
  | inr e ↦ rw e (All-append IsDigit _ _ (decimal_from-All fuel (n / 10)) (ground arith, tt))
]

-- Another digit behind digits.
leading_number-append :
    (m d : ℕ) (t : Text)
    → All IsDigit t
    → d < 10
    → leading_number m (t ++ (48 + d) ∷ []) ≡ leading_number m t * 10 + d
unfolding leading_number
leading_number-append m d [] a h = ground arith
leading_number-append m d (c ∷ t) a h =
    rw a.0 (leading_number-append (m * 10 + (c - b'0')) d t a.1 h)

leading_number-decimal_from : (fuel n : ℕ) → n < fuel → leading_number 0 (decimal_from fuel n) ≡ n
unfolding decimal_from leading_number
leading_number-decimal_from zero n h = absurd (omega arith)
leading_number-decimal_from (suc fuel) n h = elim (Bool-cases (ltb n 10)) [
  | inl e ↦ rw e (ground arith)
  | inr e ↦
      let low : n % 10 < 10 = omega arith in
      let big : 10 ≤ n = ground arith in
      rw e (
        leading_number-append 0 (n % 10) (decimal_from fuel (n / 10))
          (decimal_from-All fuel (n / 10)) low
        ∙ omega (arith, leading_number-decimal_from fuel (n / 10) (omega arith)))
]

leading_number-decimal : (n : ℕ) → leading_number 0 (decimal n) ≡ n
unfolding decimal
leading_number-decimal n = leading_number-decimal_from (suc n) n (omega arith)

decimal-All : (n : ℕ) → All IsDigit (decimal n)
unfolding decimal
decimal-All n = decimal_from-All (suc n) n

-- A text of digits has its own number, but for the empty one, which has the number 0.
first_number-leading :
    (t : Text) (n : ℕ)
    → All IsDigit t
    → leading_number 0 t ≡ n
    → (t ≡ []) ⊎ (first_number t ≡ some n)
unfolding first_number
first_number-leading [] n a h = inl refl
first_number-leading (c ∷ t) n a h = inr (ground (arith, h, a.0))

zero_of : (t : Text) (n : ℕ) → t ≡ [] → leading_number 0 t ≡ n → 0 ≡ n
unfolding leading_number
zero_of t n e h = ap (leading_number 0) (sym e) ∙ h

first_number-decimal : (n : ℕ) → first_number (decimal n) ≡ some n
unfolding decimal first_number
first_number-decimal n =
    elim (first_number-leading (decimal n) n (decimal-All n) (leading_number-decimal n)) [
      | inl e ↦ rw (sym (zero_of (decimal n) n e (leading_number-decimal n))) refl
      | inr h ↦ h
    ]

-- Zeros in front of a text do not change its number.
leading_number-pad_4 : (t : Text) → leading_number 0 (pad_4 t) ≡ leading_number 0 t
unfolding leading_number
leading_number-pad_4 [] = refl
leading_number-pad_4 (a ∷ []) = refl
leading_number-pad_4 (a ∷ b ∷ []) = refl
leading_number-pad_4 (a ∷ b ∷ c ∷ []) = refl
leading_number-pad_4 (a ∷ b ∷ c ∷ d ∷ t) = refl

pad_4-All : (t : Text) → All IsDigit t → All IsDigit (pad_4 t)
pad_4-All [] h = (refl, (refl, (refl, (refl, tt))))
pad_4-All (a ∷ []) h = (refl, (refl, (refl, h)))
pad_4-All (a ∷ b ∷ []) h = (refl, (refl, h))
pad_4-All (a ∷ b ∷ c ∷ []) h = (refl, h)
pad_4-All (a ∷ b ∷ c ∷ d ∷ t) h = h

first_number-pad_4 : (n : ℕ) → first_number (pad_4 (decimal n)) ≡ some n
unfolding decimal first_number
first_number-pad_4 n =
    let same = leading_number-pad_4 (decimal n) ∙ leading_number-decimal n in
    elim (first_number-leading (pad_4 (decimal n)) n (pad_4-All (decimal n) (decimal-All n)) same) [
      | inl e ↦ rw (sym (zero_of (pad_4 (decimal n)) n e same)) refl
      | inr h ↦ h
    ]

-- The number that `re.search(r"\d+", ref)` finds in a reference, as the placement does for those of
-- test points, LEDs and switches, is the one that the reference was made of, in every series.
pub first_number-reference_of : (k : Series) (n : ℕ) → first_number (reference_of k n) ≡ some n
unfolding reference_of first_number
first_number-reference_of cap_idx n = first_number-decimal n
first_number-reference_of res_idx n = first_number-decimal n
first_number-reference_of pwr_idx n = first_number-pad_4 n
first_number-reference_of ind_idx n = first_number-decimal n
first_number-reference_of ic_idx n = first_number-decimal n
first_number-reference_of u_idx n = first_number-decimal n
first_number-reference_of conn_idx n = first_number-decimal n
first_number-reference_of crystal_idx n = first_number-decimal n
first_number-reference_of led_idx n = first_number-decimal n
first_number-reference_of btn_idx n = first_number-decimal n
first_number-reference_of tp_idx n = first_number-decimal n

-- So a series gives out no reference twice.
pub reference_of-injective : (k : Series) (m n : ℕ) → reference_of k m ≡ reference_of k n → m ≡ n
reference_of-injective k m n e =
    ground (arith, first_number-reference_of k m, first_number-reference_of k n, ap first_number e)

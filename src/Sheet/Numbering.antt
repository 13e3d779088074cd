-- ===== src/Sheet/Numbering.antt =====
-- hardware/cirradio-devboard/gen_*.py: the references that a run gives out.
use cirradio.Prelude.{
  ℕ, zero, suc, ◌+◌, ◌-◌, ltb, ◌≤◌, ◌<◌, ◌==◌, ◌≡◌, ◌∙◌, refl, sym, ap, if◌then◌else◌, true, ◌||◌,
  Bool-cases, inl, inr, List, [], ◌∷◌, ◌++◌, Text, text_eq_refl, one_of, arith,
}
use cirradio.Sheet.{
  Series, cap_idx, res_idx, pwr_idx, ind_idx, ic_idx, u_idx, conn_idx, crystal_idx, led_idx,
  btn_idx, tp_idx, series_code, fixed, next, Item, symbol, wire_item, global_item, hier_item,
  label_item, text_item, no_connect_item, Step, tally, item, State, reference_of, emit_item,
  do_item, do_step, bump_idx, run,
}

-- 1 for the step of a symbol whose reference comes from a series.
unfoldable pub draws : Series → Step → ℕ
draws k (item (symbol lib_id (next j) value x y unit angle fp pins)) =
    if series_code j == series_code k then 1 else 0
draws k _ = 0

-- How many symbols of the steps take their reference from a series.
unfoldable pub drawn : Series → List Step → ℕ
unfolding draws
drawn k [] = 0
drawn k (step ∷ steps) = draws k step + drawn k steps

-- The references of the symbols among the entries.
unfoldable pub reference_in : Item Text → List Text
reference_in (symbol lib_id ref value x y unit angle fp pins) = ref ∷ []
reference_in _ = []

unfoldable pub references : List (Item Text) → List Text
unfolding reference_in
references [] = []
references (e ∷ entries) = reference_in e ++ references entries

-- A step moves a counter on by what it draws from it.
do_step-idx :
    (k : Series) (step : Step) (s : State) → (do_step step s).idx k ≡ s.idx k + draws k step
unfolding do_step do_item emit_item bump_idx draws
do_step-idx k (tally t) s = omega arith
do_step-idx k (item (symbol lib_id (fixed ref) value x y unit angle fp pins)) s = omega arith
do_step-idx k (item (symbol lib_id (next j) value x y unit angle fp pins)) s = ground arith
do_step-idx k (item (wire_item x1 y1 x2 y2)) s = omega arith
do_step-idx k (item (global_item name x y shape angle)) s = omega arith
do_step-idx k (item (hier_item name x y shape angle)) s = omega arith
do_step-idx k (item (label_item name x y angle)) s = omega arith
do_step-idx k (item (text_item txt x y size)) s = omega arith
do_step-idx k (item (no_connect_item x y)) s = omega arith

-- Behind a run each counter has moved on by the number of symbols that were drawn from it.
pub run-idx :
    (k : Series) (steps : List Step) (s : State) → (run steps s).idx k ≡ s.idx k + drawn k steps
unfolding run drawn
run-idx k [] s = omega arith
run-idx k (step ∷ steps) s = omega (arith, run-idx k steps (do_step step s), do_step-idx k step s)

-- The counter that a code stands for.
nth : List Series → ℕ → Series
nth [] n = tp_idx
nth (k ∷ ks) zero = k
nth (k ∷ ks) (suc n) = nth ks n

series_at : ℕ → Series
unfolding nth
series_at = nth (
    cap_idx ∷ res_idx ∷ pwr_idx ∷ ind_idx ∷ ic_idx ∷ u_idx ∷ conn_idx ∷ crystal_idx ∷ led_idx
    ∷ btn_idx ∷ [])

series_at-series_code : (k : Series) → series_at (series_code k) ≡ k
unfolding series_at
series_at-series_code cap_idx = refl
series_at-series_code res_idx = refl
series_at-series_code pwr_idx = refl
series_at-series_code ind_idx = refl
series_at-series_code ic_idx = refl
series_at-series_code u_idx = refl
series_at-series_code conn_idx = refl
series_at-series_code crystal_idx = refl
series_at-series_code led_idx = refl
series_at-series_code btn_idx = refl
series_at-series_code tp_idx = refl

series_code-injective : (j k : Series) → series_code j ≡ series_code k → j ≡ k
series_code-injective j k e =
    sym (series_at-series_code j) ∙ ap series_at e ∙ series_at-series_code k

one_of-append : (a b : List Text) (t : Text) → one_of (a ++ b) t ≡ (one_of a t || one_of b t)
unfolding one_of
one_of-append [] b t = refl
one_of-append (r ∷ a) b t = ground (arith, one_of-append a b t)

-- What an entry adds to the references behind those that were there.
one_of-emitted :
    (entries : List (Item Text)) (e : Item Text) (t : Text)
    → one_of (references (entries ++ e ∷ [])) t
      ≡ (one_of (references entries) t || one_of (reference_in e) t)
unfolding references one_of
one_of-emitted [] e t = simp (one_of-append) (ground arith)
one_of-emitted (f ∷ entries) e t = simp (one_of-append, one_of-emitted entries e t) (ground arith)

emitted_keeps :
    (entries : List (Item Text)) (e : Item Text) (t : Text)
    → one_of (references entries) t ≡ true
    → one_of (references (entries ++ e ∷ [])) t ≡ true
emitted_keeps entries e t h = rw (one_of-emitted entries e t) (ground arith)

-- A step keeps the references that were given out.
do_step-keeps :
    (step : Step) (s : State) (t : Text)
    → one_of (references s.entries) t ≡ true
    → one_of (references (do_step step s).entries) t ≡ true
unfolding do_step do_item emit_item
do_step-keeps (tally c) s t h = h
do_step-keeps (item (symbol lib_id (fixed ref) value x y unit angle fp pins)) s t h =
    emitted_keeps s.entries _ t h
do_step-keeps (item (symbol lib_id (next j) value x y unit angle fp pins)) s t h =
    emitted_keeps s.entries _ t h
do_step-keeps (item (wire_item x1 y1 x2 y2)) s t h = emitted_keeps s.entries _ t h
do_step-keeps (item (global_item name x y shape angle)) s t h = emitted_keeps s.entries _ t h
do_step-keeps (item (hier_item name x y shape angle)) s t h = emitted_keeps s.entries _ t h
do_step-keeps (item (label_item name x y angle)) s t h = emitted_keeps s.entries _ t h
do_step-keeps (item (text_item txt x y size)) s t h = emitted_keeps s.entries _ t h
do_step-keeps (item (no_connect_item x y)) s t h = emitted_keeps s.entries _ t h

run-keeps :
    (steps : List Step) (s : State) (t : Text)
    → one_of (references s.entries) t ≡ true
    → one_of (references (run steps s).entries) t ≡ true
unfolding run
run-keeps [] s t h = h
run-keeps (step ∷ steps) s t h = run-keeps steps (do_step step s) t (do_step-keeps step s t h)

-- A step that draws from a series gives out the series' next reference.
do_step-reference :
    (k : Series) (step : Step) (s : State) (i : ℕ)
    → i < draws k step
    → one_of (references (do_step step s).entries) (reference_of k (s.idx k + i)) ≡ true
unfolding do_step do_item emit_item draws one_of reference_in
do_step-reference k (tally c) s i h = absurd (omega (arith, h))
do_step-reference k (item (symbol lib_id (fixed ref) value x y unit angle fp pins)) s i h =
    absurd (omega (arith, h))
do_step-reference k (item (symbol lib_id (next j) value x y unit angle fp pins)) s i h =
    let first : i ≡ 0 = ground arith in
    let number : (n : ℕ) → n + 0 ≡ n = λ n. omega arith in
    rw first (
      rw (sym (series_code-injective j k (ground arith))) (
        rw (one_of-emitted s.entries) (
          rw (ap (reference_of j) (number (s.idx j)), text_eq_refl (reference_of j (s.idx j)))
            (ground arith))))
do_step-reference k (item (wire_item x1 y1 x2 y2)) s i h = absurd (omega (arith, h))
do_step-reference k (item (global_item name x y shape angle)) s i h = absurd (omega (arith, h))
do_step-reference k (item (hier_item name x y shape angle)) s i h = absurd (omega (arith, h))
do_step-reference k (item (label_item name x y angle)) s i h = absurd (omega (arith, h))
do_step-reference k (item (text_item txt x y size)) s i h = absurd (omega (arith, h))
do_step-reference k (item (no_connect_item x y)) s i h = absurd (omega (arith, h))

-- A run gives out, of each series, the references of as many numbers as it draws, from the counter
-- on with no gap.
pub run-references :
    (k : Series) (steps : List Step) (s : State) (i : ℕ)
    → i < drawn k steps
    → one_of (references (run steps s).entries) (reference_of k (s.idx k + i)) ≡ true
unfolding run drawn
run-references k [] s i h = absurd (omega (arith, h))
run-references k (step ∷ steps) s i h = elim (Bool-cases (ltb i (draws k step))) [
  | inl lt ↦
      run-keeps steps (do_step step s) (reference_of k (s.idx k + i))
        (do_step-reference k step s i (ground arith))
  | inr le ↦
      let above : draws k step ≤ i = ground arith in
      let same : (do_step step s).idx k + (i - draws k step) ≡ s.idx k + i =
        omega (arith, do_step-idx k step s) in
      rw (sym same) (run-references k steps (do_step step s) (i - draws k step) (omega arith))
]

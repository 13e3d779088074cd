-- ===== src/BoardTest/Suite/Outcome.antt =====
-- When the suite passes, and how long its output is.
use cirradio.Prelude.{
  ℕ, suc, ◌+◌, ◌≡◌, ◌↔◌, refl, Bool, true, false, List, [], ◌∷◌, Text, length, All, arith,
}
use cirradio.BoardTest.Suite.{Options, passes, run_from, run_all}

module _ (run : Text → List Text → Bool) (o : Options) where
  run_from_iff :
      (i : ℕ) (all_passed : Bool) (names : List Text)
      → ((run_from run o i all_passed names).1 ≡ true)
        ↔ ((all_passed ≡ true) × All (λ name. passes run o name ≡ true) names)
  unfolding run_from
  run_from_iff i all_passed [] = ground arith
  run_from_iff i all_passed (name ∷ names) =
      ground (arith, run_from_iff (suc i) all_passed names, run_from_iff (suc i) false names)

  length-run_from :
      (i : ℕ) (all_passed : Bool) (names : List Text)
      → length (run_from run o i all_passed names).0 ≡ length names
  unfolding run_from
  length-run_from i all_passed [] = refl
  length-run_from i all_passed (name ∷ names) = omega (arith, length-run_from (suc i) _ names)

  -- The suite exits with 0 exactly when each of its scripts does, and its output has a line for the
  -- version, one for the plan, and one for each script, whether the scripts before it pass or not.
  pub run_all_lem :
      (names : List Text)
      → (((run_all run o names).1 ≡ 0) ↔ All (λ name. passes run o name ≡ true) names)
        × (length (run_all run o names).0 ≡ 2 + length names)
  unfolding run_all
  run_all_lem names =
      (ground (arith, run_from_iff 1 true names), omega (arith, length-run_from 1 true names))

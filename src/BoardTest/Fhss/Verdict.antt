-- ===== src/BoardTest/Fhss/Verdict.antt =====
-- When the comparison of hops passes.
use cirradio.Prelude.{
  ℕ, ◌+◌, ◌≤◌, ◌≡◌, ◌↔◌, refl, sym, ap, ◌∙◌, List, [], ◌∷◌, ◌++◌, length, length-append, arith,
}
use cirradio.BoardTest.Fhss.{num_hops, matches, compare_hops}

matches_bound : (xs ys : List ℕ) → matches xs ys ≤ length xs
unfolding matches
matches_bound (a ∷ xs) (b ∷ ys) = ground (arith, matches_bound xs ys)
matches_bound [] ys = omega arith
matches_bound (a ∷ xs) [] = omega arith

matches_self : (xs : List ℕ) → matches xs xs ≡ length xs
unfolding matches
matches_self [] = refl
matches_self (a ∷ xs) = ground (arith, matches_self xs)

matches_all : (xs ys : List ℕ) → length xs ≡ length ys → length xs ≤ matches xs ys → xs ≡ ys
unfolding matches
matches_all [] [] e h = refl
matches_all [] (b ∷ ys) e h = absurd (omega arith)
matches_all (a ∷ xs) [] e h = absurd (omega arith)
matches_all (a ∷ xs) (b ∷ ys) e h = ground (arith, matches_bound xs ys, matches_all xs ys)

matches-append :
    (xs ys cs ds : List ℕ)
    → length xs ≡ length ys
    → matches (xs ++ cs) (ys ++ ds) ≡ matches xs ys + matches cs ds
unfolding matches
matches-append [] [] cs ds e = omega arith
matches-append [] (b ∷ ys) cs ds e = absurd (omega arith)
matches-append (a ∷ xs) [] cs ds e = absurd (omega arith)
matches-append (a ∷ xs) (b ∷ ys) cs ds e = ground (arith, matches-append xs ys cs ds (omega arith))

compare_self : (hops : List ℕ) → length hops ≡ num_hops → compare_hops hops hops ≡ 0
unfolding compare_hops
compare_self [] e = absurd (omega arith)
compare_self (a ∷ xs) e = ground (arith, matches_self (a ∷ xs))

-- Where each board logs the 100 hops that were asked for, the test passes exactly when the two logs
-- are the same.
pub compare_hops_iff :
    (hops1 hops2 : List ℕ)
    → length hops1 ≡ num_hops
    → length hops2 ≡ num_hops
    → (compare_hops hops1 hops2 ≡ 0) ↔ (hops1 ≡ hops2)
unfolding compare_hops
compare_hops_iff [] hops2 e f = absurd (omega arith)
compare_hops_iff (a ∷ xs) [] e f = absurd (omega arith)
compare_hops_iff (a ∷ xs) (b ∷ ys) e f = (
  λ h. matches_all (a ∷ xs) (b ∷ ys) (omega arith) (ground arith),
  λ h. ap (compare_hops (a ∷ xs)) (sym h) ∙ compare_self (a ∷ xs) e,
)

-- Logs that agree on their first 100 hops pass, whatever the further hops of equal number are: with
-- more hops than were asked for, a mismatch goes unseen.
pub compare_hops-append :
    (hops extra1 extra2 : List ℕ)
    → length hops ≡ num_hops
    → length extra1 ≡ length extra2
    → compare_hops (hops ++ extra1) (hops ++ extra2) ≡ 0
unfolding compare_hops
compare_hops-append [] extra1 extra2 e f = absurd (omega arith)
compare_hops-append (a ∷ xs) extra1 extra2 e f = ground (
  arith,
  length-append (a ∷ xs) extra1,
  length-append (a ∷ xs) extra2,
  matches-append (a ∷ xs) (a ∷ xs) extra1 extra2 refl,
  matches_self (a ∷ xs),
)

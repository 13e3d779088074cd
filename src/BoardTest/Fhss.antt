-- ===== src/BoardTest/Fhss.antt =====
-- tools/board-test/fhss_onair.py: comparing the hops of two boards.
pub mod Verdict
use cirradio.Prelude.{
  ℕ, zero, suc, ◌+◌, ◌*◌, ◌%◌, Bool, true, false, ◌||◌, not, Option, List, [], ◌∷◌, map, leb, ◌==◌,
  if◌then◌else◌, length, range, or_else,
}

abbrev pub num_hops : ℕ
num_hops = 100

-- The answer to `cirradio-cli fhss log`: whether it exits with 0, and the hops of its JSON, if it is
-- JSON.
pub record Answer : Type 0 where
  pub succeeded : Bool
  pub hops : Option (List ℕ)

-- The hop of the dry run, in kHz.
unfoldable pub simulated_hop : ℕ → ℕ
simulated_hop i = 225000 + (i * 1000 + 17000) % 287000

unfoldable pub collect_hop_log : ℕ → Bool → Answer → List ℕ
unfolding simulated_hop
collect_hop_log n dry_run answer =
    if dry_run
    then map simulated_hop (range n)
    else if answer.succeeded
    then or_else answer.hops []
    else []

-- sum(1 for a, b in zip(hops1, hops2) if a == b)
unfoldable pub matches : List ℕ → List ℕ → ℕ
matches (a ∷ xs) (b ∷ ys) = let rest = matches xs ys in if a == b then suc rest else rest
matches _ _ = 0

abbrev is_empty : List ℕ → Bool
is_empty [] = true
is_empty (a ∷ xs) = false

-- The exit status, from the two lists on. `matches / NUM_HOPS >= 1.0` is `NUM_HOPS <= matches`.
unfoldable pub compare_hops : List ℕ → List ℕ → ℕ
unfolding matches
compare_hops hops1 hops2 =
    if is_empty hops1 || (is_empty hops2 || not (length hops1 == length hops2))
    then 1
    else if leb num_hops (matches hops1 hops2)
    then 0
    else 1

-- The exit status of `main`.
unfoldable pub main : Bool → Answer → Answer → ℕ
unfolding compare_hops collect_hop_log
main dry_run answer1 answer2 =
    compare_hops (collect_hop_log num_hops dry_run answer1)
      (collect_hop_log num_hops dry_run answer2)

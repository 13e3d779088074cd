-- ===== src/BoardTest/Gps/Lock.antt =====
-- When a fix is found, and when the PPS signal is steady.
use cirradio.Prelude.{
  ℕ, Bool-cases, ◌+◌, ◌<◌, ◌≤◌, ◌≡◌, ◌∙◌, ◌↔◌, refl, ap, inl, inr, true, false, Option-cases, some,
  leb, All, List, [], ◌∷◌, ◌++◌, arith,
}
use cirradio.BoardTest.Gps.{
  pps_jitter_threshold_ns, Poll, poll_until, wait_for_fix, max_jitter, check_pps_jitter,
}

-- The turns up to some turn begin ahead of the deadline, and that one reads a mode of 3 or more.
pub record FixBefore (deadline : ℕ) (polls : List Poll) : Type 0 where
  pub before : List Poll
  pub turn : Poll
  pub after : List Poll
  pub mode : ℕ
  pub split : polls ≡ before ++ turn ∷ after
  pub in_time : All (λ p. p.now < deadline) before
  pub last_in_time : turn.now < deadline
  pub reads : turn.mode ≡ some mode
  pub three_dimensional : 3 ≤ mode

later :
    (deadline : ℕ) (p : Poll) (polls : List Poll)
    → p.now < deadline
    → FixBefore deadline polls
    → FixBefore deadline (p ∷ polls)
later deadline p polls h r = record {
  before = p ∷ r.before;
  turn = r.turn;
  after = r.after;
  mode = r.mode;
  split = ap (λ q. p ∷ q) r.split;
  in_time = (h, r.in_time);
  last_in_time = r.last_in_time;
  reads = r.reads;
  three_dimensional = r.three_dimensional;
}

poll_until-FixBefore :
    (deadline : ℕ) (polls : List Poll) → poll_until deadline polls ≡ true → FixBefore deadline polls
unfolding poll_until
poll_until-FixBefore deadline [] h = absurd (ground arith)
poll_until-FixBefore deadline (p ∷ polls) h = elim (Option-cases p.mode) [
  | inl e ↦
      later deadline p polls (ground (arith, h, e))
        (poll_until-FixBefore deadline polls (ground (arith, h, e)))
  | inr (m, e) ↦ elim (Bool-cases (leb 3 m)) [
    | inl f ↦ record {
      before = [];
      turn = p;
      after = polls;
      mode = m;
      split = refl;
      in_time = tt;
      last_in_time = ground (arith, h);
      reads = e;
      three_dimensional = ground (arith, f);
    }
    | inr f ↦
        later deadline p polls (ground (arith, h, e, f))
          (poll_until-FixBefore deadline polls (ground (arith, h, e, f)))
  ]
]

poll_until-found :
    (deadline : ℕ) (before : List Poll) (p : Poll) (m : ℕ) (after : List Poll)
    → All (λ q. q.now < deadline) before
    → p.now < deadline
    → p.mode ≡ some m
    → 3 ≤ m
    → poll_until deadline (before ++ p ∷ after) ≡ true
unfolding poll_until
poll_until-found deadline [] p m after a h e k = ground (arith, h, e, k)
poll_until-found deadline (q ∷ before) p m after a h e k =
    ground (arith, a.0, poll_until-found deadline before p m after a.1 h e k)

-- A live run reports a fix exactly when some turn of the loop reads a report with a mode of 3 or
-- more, and this turn and all before it begin ahead of the deadline.
pub wait_for_fix_iff :
    (start timeout : ℕ) (polls : List Poll)
    → (wait_for_fix start timeout false polls ≡ true) ↔ FixBefore (start + timeout) polls
unfolding wait_for_fix
wait_for_fix_iff start timeout polls = (
  poll_until-FixBefore (start + timeout) polls,
  λ f.
      ap (poll_until (start + timeout)) f.split
      ∙ poll_until-found (start + timeout) f.before f.turn f.mode f.after f.in_time f.last_in_time
          f.reads f.three_dimensional,
)

-- Each interval is within the threshold of a second.
abbrev pub Steady : ℕ → List ℕ → Type 0
Steady s [] = Unit
Steady s (t ∷ stamps) =
    ((t < s + 1000000000 + pps_jitter_threshold_ns)
      × (s + 1000000000 < t + pps_jitter_threshold_ns))
    × Steady t stamps

max_jitter_iff :
    (s : ℕ) (stamps : List ℕ) → (max_jitter s stamps < pps_jitter_threshold_ns) ↔ Steady s stamps
unfolding max_jitter
max_jitter_iff s [] = ground arith
max_jitter_iff s (t ∷ stamps) = ground (arith, max_jitter_iff t stamps)

-- With at least two timestamps, the live check of the PPS signal passes exactly when each interval
-- differs from a second by less than the threshold.
check_pps_jitter_iff :
    (s t : ℕ) (stamps : List ℕ)
    → ((check_pps_jitter false (some (s ∷ t ∷ stamps))).0 ≡ true) ↔ Steady s (t ∷ stamps)
unfolding check_pps_jitter
check_pps_jitter_iff s t stamps = ground (arith, max_jitter_iff s (t ∷ stamps))

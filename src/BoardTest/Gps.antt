-- ===== src/BoardTest/Gps.antt =====
-- tools/board-test/gps_lock.py: waiting for a fix, and the jitter of the PPS signal.
pub mod Lock
use cirradio.Prelude.{
  ℕ, ◌+◌, ◌-◌, max, Bool, true, false, ◌||◌, Option, none, some, List, [], ◌∷◌, ltb, leb,
  if◌then◌else◌, length, ℤ, pos, negsuc,
}

abbrev pub pps_jitter_threshold_ns : ℕ
pps_jitter_threshold_ns = 1000

-- A turn of the loop in `wait_for_fix`: the time that its condition reads, and the `mode` of the TPV
-- report; none if the command fails, prints nothing, or prints no JSON.
pub record Poll : Type 0 where
  pub now : ℕ
  pub mode : Option ℕ

abbrev pub has_fix : Option ℕ → Bool
has_fix none = false
has_fix (some mode) = leb 3 mode

-- The loop of `wait_for_fix`, over the turns that the clock allows.
unfoldable pub poll_until : ℕ → List Poll → Bool
poll_until deadline [] = false
poll_until deadline (p ∷ polls) =
    let rest = poll_until deadline polls in
    if ltb p.now deadline then (if has_fix p.mode then true else rest) else false

unfoldable pub wait_for_fix : ℕ → ℕ → Bool → List Poll → Bool
unfolding poll_until
wait_for_fix start timeout dry_run polls =
    if dry_run then true else poll_until (start + timeout) polls

-- abs((t - s) - 1.0) * 1e9, for times in nanoseconds
abbrev pub off_second : ℕ → ℕ → ℕ
off_second s t = t - (s + 1000000000) + (s + 1000000000 - t)

-- max(intervals), for the timestamps `s` and those after it
unfoldable pub max_jitter : ℕ → List ℕ → ℕ
max_jitter s [] = 0
max_jitter s (t ∷ stamps) = max (off_second s t) (max_jitter t stamps)

-- `check_pps_jitter` on what the command gives: none if it fails or prints nothing, and else the
-- timestamps of the lines that start with a number.
unfoldable pub check_pps_jitter : Bool → Option (List ℕ) → Bool × ℤ
unfolding max_jitter
check_pps_jitter true out = (true, pos 100)
check_pps_jitter false none = (false, negsuc 0)
check_pps_jitter false (some []) = (false, negsuc 0)
check_pps_jitter false (some (s ∷ [])) = (false, negsuc 0)
check_pps_jitter false (some (s ∷ t ∷ stamps)) =
    let jitter_ns = max_jitter s (t ∷ stamps) in
    (ltb jitter_ns pps_jitter_threshold_ns, pos jitter_ns)

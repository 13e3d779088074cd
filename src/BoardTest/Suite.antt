-- ===== src/BoardTest/Suite.antt =====
-- tools/board-test/run_all.py: running the test scripts in order. Whether a script exits with 0 is a
-- parameter, a function of its name and its arguments.
pub mod Outcome
use cirradio.Prelude.{
  ℕ, suc, Bool, true, false, List, [], ◌∷◌, ◌++◌, if◌then◌else◌, Text, codes, text_eq, decimal,
  length,
}

-- The options of the command line; an empty key is none.
pub record Options : Type 0 where
  pub host : Text
  pub key : Text
  pub dry_run : Bool
  pub bitstream : Text
  pub port : Text

abbrev pub scripts : List Text
scripts =
    codes "serial_console"
    ∷ codes "flash_fpga"
    ∷ codes "rf_loopback"
    ∷ codes "gps_lock"
    ∷ codes "fhss_onair"
    ∷ []

abbrev key_args : Text → List Text
key_args [] = []
key_args (c ∷ key) = codes "--key" ∷ (c ∷ key) ∷ []

unfoldable pub common_args : Options → List Text
common_args o =
    (codes "--host" ∷ o.host ∷ [])
    ++ (key_args o.key ++ (if o.dry_run then codes "--dry-run" ∷ [] else []))

unfoldable pub extra_args : Options → Text → List Text
extra_args o name =
    if text_eq name (codes "serial_console")
    then codes "--port" ∷ o.port ∷ []
    else if text_eq name (codes "flash_fpga")
    then codes "--bitstream" ∷ o.bitstream ∷ []
    else []

abbrev status_line : ℕ → Text → Bool → Text
status_line i name true = codes "ok " ++ (decimal i ++ (codes " - " ++ name))
status_line i name false = codes "not ok " ++ (decimal i ++ (codes " - " ++ name))

module _ (run : Text → List Text → Bool) (o : Options) where
  -- `run_script` on one of the scripts
  unfoldable pub passes : Text → Bool
  unfolding common_args extra_args
  passes name = run (name ++ codes ".py") (common_args o ++ extra_args o name)

  -- The loop of `main`: the lines from number `i` on, and `all_passed`.
  unfoldable pub run_from : ℕ → Bool → List Text → List Text × Bool
  unfolding passes
  run_from i all_passed [] = ([], all_passed)
  run_from i all_passed (name ∷ names) =
      let ok = passes name in
      let rest = run_from (suc i) (if ok then all_passed else false) names in
      (status_line i name ok ∷ rest.0, rest.1)

  -- The output and the exit status of `main`.
  unfoldable pub run_all : List Text → List Text × ℕ
  unfolding run_from
  run_all names =
      let ran = run_from 1 true names in
      (
        codes "TAP version 13" ∷ (codes "1.." ++ decimal (length names)) ∷ ran.0,
        if ran.1 then 0 else 1,
      )

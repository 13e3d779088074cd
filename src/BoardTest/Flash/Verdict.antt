-- ===== src/BoardTest/Flash/Verdict.antt =====
-- When loading a bitstream passes, and which commands are run.
use cirradio.Prelude.{
  ◌≡◌, ◌↔◌, ◌⊎◌, ◌∙◌, refl, true, if◌then◌else◌, ◌==◌, Bool-cases, inl, inr, List, [], ◌∷◌, ◌++◌,
  Text, codes, contains, starts_with, text_eq, arith,
}
use cirradio.BoardTest.Flash.{
  Machine, host_call, board_call, Args, dry_run_cmd, run, verify_uio0, flash_with_xsct,
  flash_with_xc3sprog, flash, main,
}

-- The command line of the tool that is asked for.
abbrev pub tool_command : Args → List Text
tool_command args =
    if text_eq args.tool (codes "xsct")
    then codes "xsct"
      ∷ codes "-eval"
      ∷ (codes "connect; targets -set -filter {name =~ \"arm*\"}; fpga "
          ++ (args.bitstream ++ codes "; disconnect; exit"))
      ∷ []
    else codes "xc3sprog" ∷ codes "-c" ∷ codes "jtaghs1_fast" ∷ args.bitstream ∷ []

abbrev pub list_device : Text
list_device = codes "ls /dev/uio0"

-- In a dry run nothing is run, and the script exits with 0.
main-dry :
    (m : Machine) (args : Args)
    → args.dry_run ≡ true
    → ((main m args).status ≡ 0) × ((main m args).calls ≡ [])
unfolding main flash flash_with_xsct flash_with_xc3sprog verify_uio0 run dry_run_cmd contains
    starts_with
main-dry m args h = elim (Bool-cases (text_eq args.tool (codes "xsct"))) [
  | inl e ↦ rw (e, h) (refl, refl)
  | inr e ↦ rw (e, h) (refl, refl)
]

-- In a dry run the script exits with 0 and runs no command. Else it runs the tool that is asked for,
-- and the board's shell behind it if and only if the tool exits with 0; and it exits with 0 itself
-- exactly when both exit with 0 and the shell lists the device.
pub main_lem :
    (m : Machine) (args : Args)
    → (((main m args).status ≡ 0) ↔ (
        (args.dry_run ≡ true)
        ⊎ (((m.on_host (tool_command args)).returncode ≡ 0)
            × ((m.on_board list_device).returncode ≡ 0)
            × (contains (codes "/dev/uio0") (m.on_board list_device).stdout ≡ true))))
      × ((main m args).calls ≡ (
          if args.dry_run
          then []
          else host_call (tool_command args)
            ∷ (if (m.on_host (tool_command args)).returncode == 0
                then board_call list_device ∷ []
                else [])))
unfolding main flash flash_with_xsct flash_with_xc3sprog verify_uio0 run
main_lem m args = elim (Bool-cases args.dry_run) [
  | inl dry ↦ let done = main-dry m args dry in ((λ _. inl dry, λ _. done.0), done.1 ∙ rw dry refl)
  | inr live ↦ elim (Bool-cases (text_eq args.tool (codes "xsct"))) [
    | inl e ↦ rw (live, e) (ground arith)
    | inr e ↦ rw (live, e) (ground arith)
  ]
]

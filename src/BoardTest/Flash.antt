-- ===== src/BoardTest/Flash.antt =====
-- tools/board-test/flash_fpga.py, and of tools/board-test/board_ssh.py what it uses: loading a
-- bitstream, and asking the board for its device. What a tool on the host and a shell on the board
-- answer are parameters; a tool that is missing or takes too long raises an exception, which is left
-- out.
pub mod Verdict
use cirradio.Prelude.{
  ℕ, ◌==◌, Bool, true, false, not, ◌&&◌, if◌then◌else◌, List, [], ◌∷◌, ◌++◌, Text, codes, text_eq,
  contains,
}

-- What a command leaves behind: the exit status, the output and the error output.
pub record Completed : Type 0 where
  pub returncode : ℕ
  pub stdout : Text
  pub stderr : Text

-- The command lines that the scripts run: a tool on the host, or a shell on the board.
pub record Machine : Type 0 where
  pub on_host : List Text → Completed
  pub on_board : Text → Completed

-- A command that is really run: by a tool on the host, or by a shell on the board.
pub data Call : Type 0 where
  host_call : List Text → Call
  board_call : Text → Call

pub record Args : Type 0 where
  pub bitstream : Text
  pub tool : Text
  pub dry_run : Bool

-- Whether a tool succeeded, its log, and the commands that were run for it.
pub record Flashed : Type 0 where
  pub ok : Bool
  pub log : Text
  pub calls : List Call

abbrev simulated : Text → Flashed
simulated log = record { ok = true; log = log; calls = [] }

-- subprocess.run(command), and what is made of its result
abbrev flashed : Machine → List Text → Flashed
flashed m command =
    let result = m.on_host command in
    record {
      ok = result.returncode == 0;
      log = result.stdout ++ result.stderr;
      calls = host_call command ∷ [];
    }

unfoldable pub flash_with_xsct : Machine → Text → Bool → Flashed
flash_with_xsct m bitstream_path true = simulated (codes "[dry-run] xsct flash simulated")
flash_with_xsct m bitstream_path false = flashed m (
    codes "xsct"
    ∷ codes "-eval"
    ∷ (codes "connect; targets -set -filter {name =~ \"arm*\"}; fpga "
        ++ (bitstream_path ++ codes "; disconnect; exit"))
    ∷ [])

unfoldable pub flash_with_xc3sprog : Machine → Text → Bool → Flashed
flash_with_xc3sprog m bitstream_path true = simulated (codes "[dry-run] xc3sprog flash simulated")
flash_with_xc3sprog m bitstream_path false =
    flashed m (codes "xc3sprog" ∷ codes "-c" ∷ codes "jtaghs1_fast" ∷ bitstream_path ∷ [])

abbrev answer : Text → Completed
answer out = record { returncode = 0; stdout = out; stderr = [] }

-- The answers of a dry run, in the order in which the patterns are tried.
unfoldable pub dry_run_cmd : Text → Completed
dry_run_cmd cmd =
    if contains (codes "ls /dev/uio0") cmd
    then answer (codes "/dev/uio0\n")
    else if contains (codes "gpspipe -w -n") cmd
    then answer (codes "{\"class\":\"TPV\",\"mode\":3,\"lat\":60.1,\"lon\":24.9}\n")
    else if contains (codes "cat /sys/class/pps/pps0/assert") cmd
    then answer (codes "1710000000.000000001#1\n1710000001.000000002#2\n")
    else answer (codes "[dry-run] " ++ (cmd ++ codes "\n"))

-- BoardSSH.run, with the commands that it runs.
unfoldable pub run : Machine → Bool → Text → Completed × List Call
unfolding dry_run_cmd
run m true cmd = (dry_run_cmd cmd, [])
run m false cmd = (m.on_board cmd, board_call cmd ∷ [])

unfoldable pub verify_uio0 : Machine → Bool → Bool × List Call
unfolding run
verify_uio0 m dry_run =
    let (c, calls) = run m dry_run (codes "ls /dev/uio0") in
    (c.returncode == 0 && contains (codes "/dev/uio0") c.stdout, calls)

unfoldable pub flash : Machine → Args → Flashed
unfolding flash_with_xsct flash_with_xc3sprog
flash m args =
    if text_eq args.tool (codes "xsct")
    then flash_with_xsct m args.bitstream args.dry_run
    else flash_with_xc3sprog m args.bitstream args.dry_run

-- The line that `write_result` prints.
unfoldable pub tap_line : Text → Bool → Text
tap_line script_name passed =
    if passed then codes "ok - " ++ script_name else codes "not ok - " ++ script_name

-- What `main` leaves: the commands that it ran, the line, and the exit status.
pub record Outcome : Type 0 where
  pub calls : List Call
  pub line : Text
  pub status : ℕ

unfoldable pub main : Machine → Args → Outcome
unfolding flash verify_uio0 tap_line
main m args =
    let loaded = flash m args in
    let (uio_ok, asked) = verify_uio0 m args.dry_run in
    let passed = loaded.ok && uio_ok in
    if not loaded.ok
    then record { calls = loaded.calls; line = tap_line (codes "flash_fpga") false; status = 1 }
    else record {
      calls = loaded.calls ++ asked;
      line = tap_line (codes "flash_fpga") passed;
      status = if passed then 0 else 1;
    }

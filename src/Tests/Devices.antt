-- ===== src/Tests/Devices.antt =====
-- The board tests and the scripts of the FPGA at concrete inputs.
use cirradio.Prelude.{
  ℕ, ◌+◌, ◌*◌, ◌<◌, ◌≡◌, ◌↔◌, refl, true, false, some, List, [], ◌∷◌, ◌++◌, length, map, range,
  Text, codes, false, Dict, All, Result, ok, arith, ◌⊎◌, ◌==◌, if◌then◌else◌, contains,
}
use cirradio.BoardTest.Fhss.{num_hops, compare_hops}
use cirradio.BoardTest.Fhss.Verdict.{compare_hops_iff, compare_hops-append}
use cirradio.BoardTest.Gps.{Poll, wait_for_fix}
use cirradio.BoardTest.Gps.Lock.{FixBefore, wait_for_fix_iff}
use cirradio.BoardTest.Flash.{Machine, Args, host_call, board_call, main}
use cirradio.BoardTest.Flash.Verdict.{tool_command, list_device, main_lem}
use cirradio.Fpga.Regmap.{check_regmap}
use cirradio.Fpga.Regmap.Mirror.{IsMirrored, IsKnown, check_regmap_iff}
use cirradio.Fpga.Vectors.{compute_channel_index}
use cirradio.Fpga.Vectors.Channel.{compute_channel_index-lt}

abbrev dry_hops : List ℕ
dry_hops = map (λ i. 225000 + i * 1000) (range num_hops)

dry_hops-length : length dry_hops ≡ num_hops
dry_hops-length = refl

compare_hops_iff_example : (compare_hops dry_hops dry_hops ≡ 0) ↔ (dry_hops ≡ dry_hops)
compare_hops_iff_example = compare_hops_iff dry_hops dry_hops dry_hops-length dry_hops-length

compare_hops-append_example : compare_hops (dry_hops ++ 300000 ∷ []) (dry_hops ++ 400000 ∷ []) ≡ 0
compare_hops-append_example =
    compare_hops-append dry_hops (300000 ∷ []) (400000 ∷ []) dry_hops-length refl

abbrev two_polls : List Poll
two_polls = record { now = 10; mode = some 1 } ∷ record { now = 20; mode = some 3 } ∷ []

wait_for_fix_iff_example :
    (wait_for_fix 5 300 false two_polls ≡ true) ↔ FixBefore (5 + 300) two_polls
wait_for_fix_iff_example = wait_for_fix_iff 5 300 two_polls

abbrev two_chunks : List Text
two_chunks = codes "ZynqMP> boo" ∷ codes "t\nlogin: " ∷ []

abbrev two_registers : Dict ℕ
two_registers = (codes "CTRL", 0) ∷ (codes "STATUS", 4) ∷ []

abbrev three_registers : Dict ℕ
three_registers = (codes "CTRL", 0) ∷ (codes "STATUS", 4) ∷ (codes "PAGE_SIZE", 4096) ∷ []

check_regmap_iff_example :
    (check_regmap two_registers three_registers ≡ 0)
    ↔ (All (IsMirrored three_registers) two_registers × All (IsKnown two_registers) three_registers)
check_regmap_iff_example = check_regmap_iff two_registers three_registers

-- A cipher that leaves its 16 bytes as they are.
abbrev no_cipher : List ℕ → List ℕ → Result (List ℕ)
no_cipher key p = ok p

no_cipher_lem :
    (p : List ℕ) → length p ≡ 16 → (ct : List ℕ) × (no_cipher [] p ≡ ok ct) × (length ct ≡ 16)
no_cipher_lem p h = (p, refl, h)

compute_channel_index-lt_example :
    (ch : ℕ) × (compute_channel_index no_cipher [] 5 50 0 287 ≡ ok ch) × (ch < 287)
compute_channel_index-lt_example =
    compute_channel_index-lt no_cipher [] no_cipher_lem 5 50 0 287 (omega arith) (omega arith)
      (omega arith) (omega arith)

-- A tool that reports an error, and a board that lists its device.
abbrev broken_tool : Machine
broken_tool = record {
  on_host = λ cmd. record { returncode = 1; stdout = []; stderr = codes "no cable" };
  on_board = λ cmd. record { returncode = 0; stdout = codes "/dev/uio0"; stderr = [] };
}

abbrev live : Args
live = record { bitstream = codes "top.bit"; tool = codes "xsct"; dry_run = false }

main_lem_example :
    (((main broken_tool live).status ≡ 0) ↔ (
      (live.dry_run ≡ true)
      ⊎ (((broken_tool.on_host (tool_command live)).returncode ≡ 0)
          × ((broken_tool.on_board list_device).returncode ≡ 0)
          × (contains (codes "/dev/uio0") (broken_tool.on_board list_device).stdout ≡ true))))
    × ((main broken_tool live).calls ≡ (
        if live.dry_run
        then []
        else host_call (tool_command live)
          ∷ (if (broken_tool.on_host (tool_command live)).returncode == 0
              then board_call list_device ∷ []
              else [])))
main_lem_example = main_lem broken_tool live

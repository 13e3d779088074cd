-- ===== src/Sheet/Memory.antt =====
-- hardware/cirradio-devboard/gen_ddr3l.py: the memory sheet, in the order of `main`.
pub mod Chip
pub mod Termination
use cirradio.Prelude.{
  map, List, Text, [], codes, decimal, enumerate_from, gather, negsuc, pos, range, ℕ, ℤ, ◌%◌, ◌*◌,
  ◌++◌, ◌+ℤ◌, ◌+◌, ◌-ℤ◌, ◌/◌, ◌∷◌,
}
use cirradio.Sheet.{
  Series, cap_idx, res_idx, pwr_idx, Step, bidirectional, cap, decoupling_group, fixed,
  global_label, hier_label, passive, power_symbol, resistor, symbol_instance, text_note, wire, ◌>>◌,
}
use cirradio.Sheet.Print.{Heading}
use cirradio.Sheet.Memory.Chip.{place_ddr_chip}
use cirradio.Sheet.Memory.Termination.{place_vtt_termination}

-- The two chips.
unfoldable pub ddr_chips : List Step
unfolding place_ddr_chip
ddr_chips = do
  text_note (codes "DDR3L U_DDR0 - Byte Lanes 0,1 (DDR_DQ[0:15])") (pos 30000) (pos 20000)
      (pos 2000)
  text_note (codes "MT41K256M16HA-125:E  256Mx16  DDR3L-1600  1.35V") (pos 30000) (pos 25000)
      (pos 1270)
  let ddr0_x : ℤ = pos 100000
  let ddr0_y : ℤ = pos 100000
  place_ddr_chip (codes "U_DDR0") (codes "MT41K256M16HA-125") ddr0_x ddr0_y (codes "DDR_DQ") 0
      (codes "DDR_DQS_P0" ∷ codes "DDR_DQS_N0" ∷ codes "DDR_DQS_P1" ∷ codes "DDR_DQS_N1" ∷ [])
      (codes "DDR_DM0" ∷ codes "DDR_DM1" ∷ []) (codes "cirradio:BGA-96_9x14_0.8mm")
  text_note (codes "DDR3L U_DDR1 - Byte Lanes 2,3 (DDR_DQ[16:31])") (pos 230000) (pos 20000)
      (pos 2000)
  text_note (codes "MT41K256M16HA-125:E  256Mx16  DDR3L-1600  1.35V") (pos 230000) (pos 25000)
      (pos 1270)
  let ddr1_x : ℤ = pos 300000
  let ddr1_y : ℤ = pos 100000
  place_ddr_chip (codes "U_DDR1") (codes "MT41K256M16HA-125") ddr1_x ddr1_y (codes "DDR_DQ") 16
      (codes "DDR_DQS_P2" ∷ codes "DDR_DQS_N2" ∷ codes "DDR_DQS_P3" ∷ codes "DDR_DQS_N3" ∷ [])
      (codes "DDR_DM2" ∷ codes "DDR_DM3" ∷ []) (codes "cirradio:BGA-96_9x14_0.8mm")

-- Decoupling, and the termination.
unfoldable pub ddr_decoupling : List Step
unfolding place_vtt_termination decoupling_group
ddr_decoupling = do
  text_note (codes "U_DDR0 DECOUPLING") (pos 30000) (pos 230000) (pos 2000)
  decoupling_group (codes "+1V35") (pos 30000) (pos 250000) 4 1 (codes "U_DDR0 VDD")
  decoupling_group (codes "+1V35") (pos 30000) (pos 280000) 4 1 (codes "U_DDR0 VDDQ")
  text_note (codes "U_DDR1 DECOUPLING") (pos 230000) (pos 230000) (pos 2000)
  decoupling_group (codes "+1V35") (pos 230000) (pos 250000) 4 1 (codes "U_DDR1 VDD")
  decoupling_group (codes "+1V35") (pos 230000) (pos 280000) 4 1 (codes "U_DDR1 VDDQ")
  place_vtt_termination (pos 30000) (pos 320000)

-- The routing notes.
unfoldable pub routing_notes : List Step
routing_notes = do
  text_note (codes "ROUTING NOTES:") (pos 30000) (pos 380000) (pos 2000)
  text_note (codes "1. Fly-by topology: Zynq -> U_DDR0 -> U_DDR1 for address/command/clock")
      (pos 30000) (pos 386000) (pos 1270)
  text_note (codes "2. Match DQ/DQS trace lengths within each byte lane (+/- 5 mil)") (pos 30000)
      (pos 390000) (pos 1270)
  text_note (codes "3. Match DQS-to-CK skew within each chip (+/- 10 mil)") (pos 30000) (pos 394000)
      (pos 1270)
  text_note (codes "4. CK/CK# and DQS/DQS# are 100-ohm differential pairs") (pos 30000) (pos 398000)
      (pos 1270)
  text_note (codes "5. Single-ended impedance target: 40 ohm (DDR3L)") (pos 30000) (pos 402000)
      (pos 1270)
  text_note (codes "6. Differential impedance target: 80 ohm") (pos 30000) (pos 406000) (pos 1270)
  text_note (codes "7. Place decoupling caps within 2mm of BGA balls") (pos 30000) (pos 410000)
      (pos 1270)
  text_note (codes "8. ZQ resistor: 240R 1% tolerance, place within 5mm of ZQ ball") (pos 30000)
      (pos 414000) (pos 1270)
  text_note (codes "9. VREFDQ divider: place within 10mm of VREFDQ ball") (pos 30000) (pos 418000)
      (pos 1270)
  text_note (codes "10. VTT termination resistors at far end of fly-by (after U_DDR1)") (pos 30000)
      (pos 422000) (pos 1270)

-- The counters that the generator starts from; it has no others.
unfoldable pub memory_idx : Series → ℕ
memory_idx cap_idx = 200
memory_idx res_idx = 200
memory_idx pwr_idx = 200
memory_idx s = 0

abbrev pub memory_heading : Heading
memory_heading = record {
  generator = codes "cirradio_gen_ddr3l";
  title = codes "CIRRADIO Dev Board - DDR3L Memory (2x MT41K256M16HA-125)";
  comment_1 = codes "1GB DDR3L: 2x 256Mx16 = 32-bit bus, fly-by address/command";
  comment_2 = codes "VDD=VDDQ=+1V35, ZQ=240R 1%, VREFDQ=VDD/2 divider";
}

unfoldable pub memory_sheet : List Step
unfolding ddr_chips ddr_decoupling routing_notes
memory_sheet = do ddr_chips; ddr_decoupling; routing_notes

-- ===== src/Sheet/Memory/Chip.antt =====
-- hardware/cirradio-devboard/gen_ddr3l.py: a memory chip and its nets.
use cirradio.Prelude.{
  List, Text, [], codes, decimal, enumerate_from, gather, negsuc, pos, range, ℕ, ℤ, ◌*◌, ◌++◌, ◌+ℤ◌,
  ◌+◌, ◌-ℤ◌, ◌∷◌, words,
}
use cirradio.Sheet.{
  Step, bidirectional, cap, fixed, global_label, hier_label, passive, power_symbol, resistor,
  symbol_instance, wire, ◌>>◌,
}

abbrev ddr_all_pins : List Text
ddr_all_pins =
    (words "B7 C7 D6 E6 F7 F8 G7 G8 B2 C2 D1 D2 E1 E2 F1 F2 C8 D8 C1 D3 E7 G1 H2 G4 H3 G6 H4"
      ++ (words "H5 J2 J3 K2 K3 G5 J1 H1 K1 L3 H7 H8 J8 H6 J6 K6 J4 K4 L4 L6 K7 L1 A8 K8 A4 G3 L8"
          ++ words "A2 A5 A7 A1 A3 A6 B4 B5 B1 B3 B6 B8"))

-- `labels[idx]` for the offsets that `enumerate` counts. Each call has as many labels as offsets; with
-- fewer, the code raises IndexError, and here the rest is left out.
unfoldable pub paired : List ℤ → List Text → List (ℤ × Text)
paired [] labels = []
paired (y_off ∷ ys) [] = []
paired (y_off ∷ ys) (label ∷ labels) = (y_off, label) ∷ paired ys labels

-- Place one MT41K256M16HA and connect its data/strobe/mask pins.
unfoldable pub place_ddr_chip :
    Text → Text → ℤ → ℤ → Text → ℕ → List Text → List Text → Text → List Step
unfolding paired ◌+ℤ◌ ◌-ℤ◌ decimal
place_ddr_chip ref value cx cy dq_label_prefix dq_start_index dqs_labels dm_labels footprint = do
  symbol_instance (codes "cirradio:MT41K256M16HA") (fixed ref) value cx cy 1 0 footprint
      ddr_all_pins
  let hl_right : ℤ = cx +ℤ pos 22000
  let hl_left : ℤ = cx -ℤ pos 22000
  gather
      (λ i. do
        let y : ℤ = cy +ℤ pos 53340 -ℤ pos (i * 2540)
        wire (cx +ℤ pos 15240) y hl_right y
        hier_label (dq_label_prefix ++ decimal (dq_start_index + i)) hl_right y bidirectional 0)
      (range 8)
  gather
      (λ i. do
        let y : ℤ = cy +ℤ pos 30480 -ℤ pos (i * 2540)
        wire (cx +ℤ pos 15240) y hl_right y
        hier_label (dq_label_prefix ++ decimal (dq_start_index + 8 + i)) hl_right y bidirectional 0)
      (range 8)
  gather {A = ℤ × Text}
      (λ (y_off, dqs_label). do
        let y : ℤ = cy +ℤ y_off
        wire (cx +ℤ pos 15240) y hl_right y
        hier_label dqs_label hl_right y bidirectional 0)
      (paired (pos 7620 ∷ pos 5080 ∷ pos 2540 ∷ pos 0 ∷ []) dqs_labels)
  gather {A = ℤ × Text}
      (λ (y_off, dm_label). do
        let y : ℤ = cy +ℤ y_off
        wire (cx +ℤ pos 15240) y hl_right y
        hier_label dm_label hl_right y (codes "input") 0)
      (paired (negsuc 2539 ∷ negsuc 5079 ∷ []) dm_labels)
  gather
      (λ i. do
        let y : ℤ = cy +ℤ pos 53340 -ℤ pos (i * 2540)
        wire (cx -ℤ pos 15240) y hl_left y
        hier_label (codes "DDR_A" ++ decimal i) hl_left y (codes "input") 180)
      (range 15)
  gather {A = ℕ × ℤ}
      (λ (i, ba_y_i). do
        let y : ℤ = cy +ℤ ba_y_i
        wire (cx -ℤ pos 15240) y hl_left y
        hier_label (codes "DDR_BA" ++ decimal i) hl_left y (codes "input") 180)
      (enumerate_from 0 ((pos 12700) ∷ (pos 10160) ∷ (pos 7620) ∷ []))
  gather {A = Text × ℤ}
      (λ (name, y_off). do
        let y : ℤ = cy +ℤ y_off
        wire (cx -ℤ pos 15240) y hl_left y
        hier_label name hl_left y (codes "input") 180)
      ((codes "DDR_RAS_B", pos 2540)
        ∷ (codes "DDR_CAS_B", pos 0)
        ∷ (codes "DDR_WE_B", negsuc 2539)
        ∷ (codes "DDR_CK_P", negsuc 7619)
        ∷ (codes "DDR_CK_N", negsuc 10159)
        ∷ (codes "DDR_CKE", negsuc 12699)
        ∷ (codes "DDR_CS_B", negsuc 15239)
        ∷ (codes "DDR_ODT", negsuc 17779)
        ∷ (codes "DDR_RESET_B", negsuc 20319)
        ∷ [])
  let zq_y : ℤ = cy -ℤ pos 25400
  wire (cx -ℤ pos 15240) zq_y (cx -ℤ pos 25000) zq_y
  resistor (codes "240R 1%") (cx -ℤ pos 32000) zq_y 90 (codes "Resistor_SMD:R_0402_1005Metric")
  wire (cx -ℤ pos 25000) zq_y (cx -ℤ pos 32000 +ℤ pos 3810) zq_y
  wire (cx -ℤ pos 32000 -ℤ pos 3810) zq_y (cx -ℤ pos 40000) zq_y
  power_symbol (codes "GND") (cx -ℤ pos 40000) zq_y 0
  let vref_y : ℤ = cy -ℤ pos 27940
  wire (cx -ℤ pos 15240) vref_y (cx -ℤ pos 25000) vref_y
  resistor (codes "240R") (cx -ℤ pos 32000) (vref_y -ℤ pos 8000) 0
      (codes "Resistor_SMD:R_0402_1005Metric")
  wire (cx -ℤ pos 32000) (vref_y -ℤ pos 8000 -ℤ pos 3810) (cx -ℤ pos 32000) (vref_y -ℤ pos 14000)
  global_label (codes "+1V35") (cx -ℤ pos 32000) (vref_y -ℤ pos 14000) passive 0
  wire (cx -ℤ pos 32000) (vref_y -ℤ pos 8000 +ℤ pos 3810) (cx -ℤ pos 32000) vref_y
  wire (cx -ℤ pos 32000) vref_y (cx -ℤ pos 25000) vref_y
  resistor (codes "240R") (cx -ℤ pos 32000) (vref_y +ℤ pos 8000) 0
      (codes "Resistor_SMD:R_0402_1005Metric")
  wire (cx -ℤ pos 32000) (vref_y +ℤ pos 8000 -ℤ pos 3810) (cx -ℤ pos 32000) vref_y
  wire (cx -ℤ pos 32000) (vref_y +ℤ pos 8000 +ℤ pos 3810) (cx -ℤ pos 32000) (vref_y +ℤ pos 14000)
  power_symbol (codes "GND") (cx -ℤ pos 32000) (vref_y +ℤ pos 14000) 0
  cap (codes "100n") (cx -ℤ pos 25000) (vref_y +ℤ pos 6000) 0
      (codes "Capacitor_SMD:C_0402_1005Metric")
  wire (cx -ℤ pos 25000) vref_y (cx -ℤ pos 25000) (vref_y +ℤ pos 2190)
  wire (cx -ℤ pos 25000) (vref_y +ℤ pos 9810) (cx -ℤ pos 25000) (vref_y +ℤ pos 12000)
  power_symbol (codes "GND") (cx -ℤ pos 25000) (vref_y +ℤ pos 12000) 0
  let vdd_y : ℤ = cy -ℤ pos 33020
  global_label (codes "+1V35") (cx -ℤ pos 22000) vdd_y passive 0
  wire (cx -ℤ pos 15240) vdd_y (cx -ℤ pos 22000) vdd_y
  let vddq_y : ℤ = cy -ℤ pos 40640
  global_label (codes "+1V35") (cx -ℤ pos 22000) vddq_y passive 0
  wire (cx -ℤ pos 15240) vddq_y (cx -ℤ pos 22000) vddq_y
  let vss_y : ℤ = cy -ℤ pos 58420
  power_symbol (codes "GND") cx (vss_y +ℤ pos 2000) 0
  wire cx vss_y cx (vss_y +ℤ pos 2000)

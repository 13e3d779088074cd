-- ===== src/Sheet/Transceiver/Power.antt =====
-- hardware/cirradio-devboard/gen_ad9361.py: the supplies of the transceiver.
use cirradio.Prelude.{List, Text, [], codes, pos, ℤ, ◌+ℤ◌, ◌-ℤ◌, ◌∷◌, words, ◌++◌}
use cirradio.Sheet.{
  Step, cap, decoupling_group, fixed, global_label, next, passive, power_symbol, resistor,
  symbol_instance, text_note, u_idx, wire, ◌>>◌,
}

abbrev unit4_pins : List Text
unit4_pins =
    (words "M12 M11 F12 F11 B12 B11 M1 L1 D2 E1 A10 A9 K11 L11 M10 M9 M8 M7 M6 L6 K6 J6 H6"
      ++ words "G6 F6 E6 F1 G1 A8 A2")

-- Unit 4: power.
unfoldable pub power_unit : List Step
unfolding ◌+ℤ◌ ◌-ℤ◌
power_unit = do
  text_note (codes "AD9361 POWER (Unit 4)") (pos 30000) (pos 290000) (pos 2000)
  text_note (codes "1.3V LDO from +1V8, per-group decoupling per ADI reference design") (pos 30000)
      (pos 295000) (pos 1270)
  let u4_x : ℤ = pos 100000
  let u4_y : ℤ = pos 360000
  symbol_instance (codes "cirradio:AD9361BBCZ") (fixed (codes "U10")) (codes "AD9361BBCZ") u4_x u4_y
      4 0 (codes "cirradio:BGA-144_12x12_0.8mm") unit4_pins
  text_note (codes "1.3V LDO (ADP151-style)") (pos 200000) (pos 305000) (pos 1270)
  let ldo_x : ℤ = pos 240000
  let ldo_y : ℤ = pos 325000
  symbol_instance (codes "cirradio:LDO_Generic") (next u_idx) (codes "ADP151-1.3") ldo_x ldo_y 1 0
      (codes "cirradio:SOT-23-5") (codes "1" ∷ codes "2" ∷ codes "3" ∷ codes "4" ∷ codes "5" ∷ [])
  power_symbol (codes "+1V8") (ldo_x -ℤ pos 18000) (ldo_y +ℤ pos 2540) 0
  wire (ldo_x -ℤ pos 10160) (ldo_y +ℤ pos 2540) (ldo_x -ℤ pos 18000) (ldo_y +ℤ pos 2540)
  wire (ldo_x -ℤ pos 10160) (ldo_y -ℤ pos 2540) (ldo_x -ℤ pos 14000) (ldo_y -ℤ pos 2540)
  wire (ldo_x -ℤ pos 14000) (ldo_y -ℤ pos 2540) (ldo_x -ℤ pos 14000) (ldo_y +ℤ pos 2540)
  power_symbol (codes "GND") ldo_x (ldo_y +ℤ pos 12000) 0
  wire ldo_x (ldo_y +ℤ pos 7620) ldo_x (ldo_y +ℤ pos 12000)
  global_label (codes "+1V3_AD") (ldo_x +ℤ pos 18000) (ldo_y +ℤ pos 2540) passive 0
  wire (ldo_x +ℤ pos 10160) (ldo_y +ℤ pos 2540) (ldo_x +ℤ pos 18000) (ldo_y +ℤ pos 2540)
  cap (codes "10u") (ldo_x -ℤ pos 16000) (ldo_y +ℤ pos 9000) 0
      (codes "Capacitor_SMD:C_0805_2012Metric")
  wire (ldo_x -ℤ pos 16000) (ldo_y +ℤ pos 5190) (ldo_x -ℤ pos 16000) (ldo_y +ℤ pos 2540)
  wire (ldo_x -ℤ pos 16000) (ldo_y +ℤ pos 12810) (ldo_x -ℤ pos 16000) (ldo_y +ℤ pos 15000)
  power_symbol (codes "GND") (ldo_x -ℤ pos 16000) (ldo_y +ℤ pos 15000) 0
  cap (codes "100n") (ldo_x -ℤ pos 10000) (ldo_y +ℤ pos 9000) 0
      (codes "Capacitor_SMD:C_0402_1005Metric")
  wire (ldo_x -ℤ pos 10000) (ldo_y +ℤ pos 5190) (ldo_x -ℤ pos 10000) (ldo_y +ℤ pos 2540)
  wire (ldo_x -ℤ pos 10000) (ldo_y +ℤ pos 12810) (ldo_x -ℤ pos 10000) (ldo_y +ℤ pos 15000)
  power_symbol (codes "GND") (ldo_x -ℤ pos 10000) (ldo_y +ℤ pos 15000) 0
  cap (codes "10u") (ldo_x +ℤ pos 14000) (ldo_y +ℤ pos 9000) 0
      (codes "Capacitor_SMD:C_0805_2012Metric")
  wire (ldo_x +ℤ pos 14000) (ldo_y +ℤ pos 5190) (ldo_x +ℤ pos 14000) (ldo_y +ℤ pos 2540)
  wire (ldo_x +ℤ pos 14000) (ldo_y +ℤ pos 12810) (ldo_x +ℤ pos 14000) (ldo_y +ℤ pos 15000)
  power_symbol (codes "GND") (ldo_x +ℤ pos 14000) (ldo_y +ℤ pos 15000) 0
  cap (codes "100n") (ldo_x +ℤ pos 20000) (ldo_y +ℤ pos 9000) 0
      (codes "Capacitor_SMD:C_0402_1005Metric")
  wire (ldo_x +ℤ pos 20000) (ldo_y +ℤ pos 5190) (ldo_x +ℤ pos 20000) (ldo_y +ℤ pos 2540)
  wire (ldo_x +ℤ pos 20000) (ldo_y +ℤ pos 12810) (ldo_x +ℤ pos 20000) (ldo_y +ℤ pos 15000)
  power_symbol (codes "GND") (ldo_x +ℤ pos 20000) (ldo_y +ℤ pos 15000) 0
  let pwr_left_x : ℤ = u4_x -ℤ pos 22000
  global_label (codes "+1V3_AD") pwr_left_x (u4_y +ℤ pos 25400) passive 180
  wire (u4_x -ℤ pos 15240) (u4_y +ℤ pos 25400) pwr_left_x (u4_y +ℤ pos 25400)
  wire (u4_x -ℤ pos 15240) (u4_y +ℤ pos 22860) (pwr_left_x +ℤ pos 5000) (u4_y +ℤ pos 22860)
  wire (pwr_left_x +ℤ pos 5000) (u4_y +ℤ pos 22860) (pwr_left_x +ℤ pos 5000) (u4_y +ℤ pos 25400)
  global_label (codes "+1V3_AD") pwr_left_x (u4_y +ℤ pos 20320) passive 180
  wire (u4_x -ℤ pos 15240) (u4_y +ℤ pos 20320) pwr_left_x (u4_y +ℤ pos 20320)
  wire (u4_x -ℤ pos 15240) (u4_y +ℤ pos 17780) (pwr_left_x +ℤ pos 5000) (u4_y +ℤ pos 17780)
  wire (pwr_left_x +ℤ pos 5000) (u4_y +ℤ pos 17780) (pwr_left_x +ℤ pos 5000) (u4_y +ℤ pos 20320)
  global_label (codes "+1V3_AD") pwr_left_x (u4_y +ℤ pos 15240) passive 180
  wire (u4_x -ℤ pos 15240) (u4_y +ℤ pos 15240) pwr_left_x (u4_y +ℤ pos 15240)
  wire (u4_x -ℤ pos 15240) (u4_y +ℤ pos 12700) (pwr_left_x +ℤ pos 5000) (u4_y +ℤ pos 12700)
  wire (pwr_left_x +ℤ pos 5000) (u4_y +ℤ pos 12700) (pwr_left_x +ℤ pos 5000) (u4_y +ℤ pos 15240)
  global_label (codes "+1V3_AD") pwr_left_x (u4_y +ℤ pos 7620) passive 180
  wire (u4_x -ℤ pos 15240) (u4_y +ℤ pos 7620) pwr_left_x (u4_y +ℤ pos 7620)
  wire (u4_x -ℤ pos 15240) (u4_y +ℤ pos 5080) (pwr_left_x +ℤ pos 5000) (u4_y +ℤ pos 5080)
  wire (pwr_left_x +ℤ pos 5000) (u4_y +ℤ pos 5080) (pwr_left_x +ℤ pos 5000) (u4_y +ℤ pos 7620)
  global_label (codes "+1V8") pwr_left_x u4_y passive 180
  wire (u4_x -ℤ pos 15240) u4_y pwr_left_x u4_y
  wire (u4_x -ℤ pos 15240) (u4_y -ℤ pos 2540) (pwr_left_x +ℤ pos 5000) (u4_y -ℤ pos 2540)
  wire (pwr_left_x +ℤ pos 5000) (u4_y -ℤ pos 2540) (pwr_left_x +ℤ pos 5000) u4_y
  global_label (codes "+3V3A") pwr_left_x (u4_y -ℤ pos 7620) passive 180
  wire (u4_x -ℤ pos 15240) (u4_y -ℤ pos 7620) pwr_left_x (u4_y -ℤ pos 7620)
  wire (u4_x -ℤ pos 15240) (u4_y -ℤ pos 10160) (pwr_left_x +ℤ pos 5000) (u4_y -ℤ pos 10160)
  wire (pwr_left_x +ℤ pos 5000) (u4_y -ℤ pos 10160) (pwr_left_x +ℤ pos 5000) (u4_y -ℤ pos 7620)
  let vfilt_y : ℤ = u4_y -ℤ pos 15240
  cap (codes "100n") (u4_x -ℤ pos 25000) (vfilt_y +ℤ pos 6000) 0
      (codes "Capacitor_SMD:C_0402_1005Metric")
  wire (u4_x -ℤ pos 15240) vfilt_y (u4_x -ℤ pos 25000) vfilt_y
  wire (u4_x -ℤ pos 25000) vfilt_y (u4_x -ℤ pos 25000) (vfilt_y +ℤ pos 2190)
  wire (u4_x -ℤ pos 25000) (vfilt_y +ℤ pos 9810) (u4_x -ℤ pos 25000) (vfilt_y +ℤ pos 12000)
  power_symbol (codes "GND") (u4_x -ℤ pos 25000) (vfilt_y +ℤ pos 12000) 0
  let rbias_y : ℤ = u4_y -ℤ pos 20320
  resistor (codes "10K") (u4_x -ℤ pos 25000) (rbias_y +ℤ pos 5000) 0 []
  wire (u4_x -ℤ pos 15240) rbias_y (u4_x -ℤ pos 25000) rbias_y
  wire (u4_x -ℤ pos 25000) rbias_y (u4_x -ℤ pos 25000) (rbias_y +ℤ pos 1190)
  wire (u4_x -ℤ pos 25000) (rbias_y +ℤ pos 8810) (u4_x -ℤ pos 25000) (rbias_y +ℤ pos 11000)
  power_symbol (codes "GND") (u4_x -ℤ pos 25000) (rbias_y +ℤ pos 11000) 0
  text_note (codes "TEMP_SENSE: NC") (u4_x +ℤ pos 20000) (u4_y -ℤ pos 20320) (pos 1000)
  let pwr_right_x : ℤ = u4_x +ℤ pos 22000
  power_symbol (codes "GND") pwr_right_x (u4_y +ℤ pos 25400) 0
  wire (u4_x +ℤ pos 15240) (u4_y +ℤ pos 25400) pwr_right_x (u4_y +ℤ pos 25400)
  power_symbol (codes "GND") pwr_right_x (u4_y +ℤ pos 7620) 0
  wire (u4_x +ℤ pos 15240) (u4_y +ℤ pos 7620) pwr_right_x (u4_y +ℤ pos 7620)
  power_symbol (codes "GND") pwr_right_x (u4_y -ℤ pos 15240) 0
  wire (u4_x +ℤ pos 15240) (u4_y -ℤ pos 15240) pwr_right_x (u4_y -ℤ pos 15240)

-- The decoupling capacitors.
unfoldable pub decoupling : List Step
unfolding decoupling_group
decoupling = do
  text_note (codes "AD9361 DECOUPLING (per ADI UG-570 Reference Design)") (pos 30000) (pos 430000)
      (pos 2000)
  decoupling_group (codes "+1V3_AD") (pos 30000) (pos 450000) 4 1 (codes "VDDA1P3 (BB+RX+TX)")
  decoupling_group (codes "+1V3_AD") (pos 30000) (pos 490000) 4 1 (codes "VDDD1P3_DIG")
  decoupling_group (codes "+1V8") (pos 30000) (pos 530000) 4 1 (codes "VDDD_IF")
  decoupling_group (codes "+3V3A") (pos 30000) (pos 570000) 4 1 (codes "VDDA3P3")
  decoupling_group (codes "+1V3_AD") (pos 170000) (pos 450000) 2 0 (codes "VDDA1P3 extra bypass")
  decoupling_group (codes "+3V3A") (pos 170000) (pos 490000) 2 1 (codes "OCXO +3V3A bypass")

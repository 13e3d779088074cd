-- ===== src/Sheet/Processor/Power.antt =====
-- hardware/cirradio-devboard/gen_zynq.py: the supplies of the processor.
use cirradio.Prelude.{List, Text, [], codes, pos, ℤ, ◌+ℤ◌, ◌-ℤ◌, words, ◌++◌}
use cirradio.Sheet.{
  Step, decoupling_group, fixed, global_label, passive, power_symbol, symbol_instance, text_note,
  wire, ◌>>◌,
}

abbrev pwr_unit_pins : List Text
pwr_unit_pins =
    (words "G18 G19 G20 G21 G22 G23 G24 G25 G26 G27 H18 H19 H20 H21 H22 H23 H24 H25 H26 H27"
      ++ (words "H28 J18 J19 J20 J21 J22 J23 J24 J25 J26 J27 J28 K18 K19 K20 K21 K22 K23 K24 K25"
          ++ (words
                "K26 K27 K28 L18 L19 L20 L21 L22 L23 L24 L25 L26 L27 L28 M18 M19 M20 M21 M22 M23"
              ++ words "M24 M25 M26 M27 M28 N18 N19 N20")))

-- Unit 9: power.
unfoldable pub processor_power : List Step
unfolding ◌+ℤ◌ ◌-ℤ◌
processor_power = do
  text_note (codes "ZYNQ POWER (Unit 9) + DECOUPLING") (pos 30000) (pos 860000) (pos 2000)
  let u9_x : ℤ = pos 80000
  let u9_y : ℤ = pos 920000
  symbol_instance (codes "cirradio:XC7Z045") (fixed (codes "U1")) (codes "XC7Z045-2FFG900I") u9_x
      u9_y 9 0 [] pwr_unit_pins
  global_label (codes "+1V0") (u9_x -ℤ pos 22000) (u9_y -ℤ pos 55880 +ℤ pos 53340) passive 180
  wire (u9_x -ℤ pos 15240) (u9_y -ℤ pos 55880 +ℤ pos 53340) (u9_x -ℤ pos 22000)
      (u9_y -ℤ pos 55880 +ℤ pos 53340)
  global_label (codes "+1V5") (u9_x -ℤ pos 22000) (u9_y -ℤ pos 55880 +ℤ pos 48260) passive 180
  wire (u9_x -ℤ pos 15240) (u9_y -ℤ pos 55880 +ℤ pos 48260) (u9_x -ℤ pos 22000)
      (u9_y -ℤ pos 55880 +ℤ pos 48260)
  global_label (codes "+1V0") (u9_x -ℤ pos 22000) (u9_y -ℤ pos 55880 +ℤ pos 43180) passive 180
  wire (u9_x -ℤ pos 15240) (u9_y -ℤ pos 55880 +ℤ pos 43180) (u9_x -ℤ pos 22000)
      (u9_y -ℤ pos 55880 +ℤ pos 43180)
  global_label (codes "+1V8") (u9_x -ℤ pos 22000) (u9_y -ℤ pos 55880 +ℤ pos 38100) passive 180
  wire (u9_x -ℤ pos 15240) (u9_y -ℤ pos 55880 +ℤ pos 38100) (u9_x -ℤ pos 22000)
      (u9_y -ℤ pos 55880 +ℤ pos 38100)
  global_label (codes "+1V8") (u9_x -ℤ pos 22000) (u9_y -ℤ pos 55880 +ℤ pos 35560) passive 180
  wire (u9_x -ℤ pos 15240) (u9_y -ℤ pos 55880 +ℤ pos 35560) (u9_x -ℤ pos 22000)
      (u9_y -ℤ pos 55880 +ℤ pos 35560)
  global_label (codes "+3V3") (u9_x -ℤ pos 22000) (u9_y -ℤ pos 55880 +ℤ pos 33020) passive 180
  wire (u9_x -ℤ pos 15240) (u9_y -ℤ pos 55880 +ℤ pos 33020) (u9_x -ℤ pos 22000)
      (u9_y -ℤ pos 55880 +ℤ pos 33020)
  global_label (codes "+3V3") (u9_x -ℤ pos 22000) (u9_y -ℤ pos 55880 +ℤ pos 30480) passive 180
  wire (u9_x -ℤ pos 15240) (u9_y -ℤ pos 55880 +ℤ pos 30480) (u9_x -ℤ pos 22000)
      (u9_y -ℤ pos 55880 +ℤ pos 30480)
  global_label (codes "+1V0") (u9_x -ℤ pos 22000) (u9_y -ℤ pos 55880 +ℤ pos 25400) passive 180
  wire (u9_x -ℤ pos 15240) (u9_y -ℤ pos 55880 +ℤ pos 25400) (u9_x -ℤ pos 22000)
      (u9_y -ℤ pos 55880 +ℤ pos 25400)
  global_label (codes "+1V8") (u9_x -ℤ pos 22000) (u9_y -ℤ pos 55880 +ℤ pos 20320) passive 180
  wire (u9_x -ℤ pos 15240) (u9_y -ℤ pos 55880 +ℤ pos 20320) (u9_x -ℤ pos 22000)
      (u9_y -ℤ pos 55880 +ℤ pos 20320)
  global_label (codes "+1V8") (u9_x -ℤ pos 22000) (u9_y -ℤ pos 55880 +ℤ pos 15240) passive 180
  wire (u9_x -ℤ pos 15240) (u9_y -ℤ pos 55880 +ℤ pos 15240) (u9_x -ℤ pos 22000)
      (u9_y -ℤ pos 55880 +ℤ pos 15240)
  power_symbol (codes "GND") (u9_x +ℤ pos 22000) (u9_y -ℤ pos 55880 +ℤ pos 53340) 0
  wire (u9_x +ℤ pos 15240) (u9_y -ℤ pos 55880 +ℤ pos 53340) (u9_x +ℤ pos 22000)
      (u9_y -ℤ pos 55880 +ℤ pos 53340)

-- The decoupling capacitors.
unfoldable pub processor_decoupling : List Step
unfolding decoupling_group
processor_decoupling = do
  text_note (codes "DECOUPLING CAPACITORS (per Xilinx UG483)") (pos 30000) (pos 1000000) (pos 2000)
  decoupling_group (codes "+1V0") (pos 30000) (pos 1020000) 20 4 (codes "VCCINT")
  decoupling_group (codes "+1V5") (pos 30000) (pos 1060000) 8 2 (codes "VCCAUX")
  decoupling_group (codes "+1V8") (pos 30000) (pos 1100000) 4 1 (codes "VCCO Bank 33")
  decoupling_group (codes "+1V8") (pos 30000) (pos 1140000) 4 1 (codes "VCCO Bank 34")
  decoupling_group (codes "+3V3") (pos 30000) (pos 1180000) 4 1 (codes "VCCO Bank 13")
  decoupling_group (codes "+3V3") (pos 30000) (pos 1220000) 4 1 (codes "VCCO Bank 12")
  decoupling_group (codes "+1V8") (pos 170000) (pos 1100000) 4 1 (codes "VCCO Bank 500")
  decoupling_group (codes "+1V8") (pos 170000) (pos 1140000) 4 1 (codes "VCCO Bank 501")
  decoupling_group (codes "+1V0") (pos 170000) (pos 1020000) 8 2 (codes "VCCPINT")
  decoupling_group (codes "+1V8") (pos 170000) (pos 1060000) 4 1 (codes "VCCPAUX")
  decoupling_group (codes "+1V0") (pos 30000) (pos 1260000) 4 1 (codes "VCCBRAM")
  decoupling_group (codes "+1V8") (pos 170000) (pos 1180000) 4 1 (codes "VCCPLL")

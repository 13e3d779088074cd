-- ===== src/Sheet/Transceiver/Clock.antt =====
-- hardware/cirradio-devboard/gen_ad9361.py: the RF ports and the reference clock.
use cirradio.Prelude.{List, Text, [], codes, pos, ℤ, ◌+ℤ◌, ◌-ℤ◌, words}
use cirradio.Sheet.{
  Step, cap, fixed, hier_label, power_symbol, resistor, symbol_instance, text_note, wire, ◌>>◌,
}

abbrev unit3_pins : List Text
unit3_pins = (words "K12 L12 J11 J12 H11 H12 G11 G12 E12 D12 C12 A12 A11")

abbrev ocxo_pins : List Text
ocxo_pins = (words "1 2 3 4 5 6 7 8 9 10 11 12 13 14")

-- Unit 3: RF and clock.
unfoldable pub rf_clock : List Step
unfolding ◌+ℤ◌ ◌-ℤ◌
rf_clock = do
  text_note (codes "AD9361 RF PORTS + REFERENCE CLOCK (Unit 3)") (pos 30000) (pos 175000) (pos 2000)
  text_note (codes "RX1A, TX1A to RF sheet; 40 MHz OCXO reference clock") (pos 30000) (pos 180000)
      (pos 1270)
  let u3_x : ℤ = pos 100000
  let u3_y : ℤ = pos 225000
  symbol_instance (codes "cirradio:AD9361BBCZ") (fixed (codes "U10")) (codes "AD9361BBCZ") u3_x u3_y
      3 0 (codes "cirradio:BGA-144_12x12_0.8mm") unit3_pins
  let rf_hl_x : ℤ = u3_x -ℤ pos 25000
  hier_label (codes "AD_RX1A_P") rf_hl_x (u3_y +ℤ pos 20320) (codes "input") 180
  wire (u3_x -ℤ pos 15240) (u3_y +ℤ pos 20320) rf_hl_x (u3_y +ℤ pos 20320)
  hier_label (codes "AD_RX1A_N") rf_hl_x (u3_y +ℤ pos 17780) (codes "input") 180
  wire (u3_x -ℤ pos 15240) (u3_y +ℤ pos 17780) rf_hl_x (u3_y +ℤ pos 17780)
  let rf_tx_hl_x : ℤ = u3_x +ℤ pos 25000
  hier_label (codes "AD_TX1A") rf_tx_hl_x (u3_y +ℤ pos 20320) (codes "output") 0
  wire (u3_x +ℤ pos 15240) (u3_y +ℤ pos 20320) rf_tx_hl_x (u3_y +ℤ pos 20320)
  text_note (codes "RX1B/C, RX2A, TX1B, TX2A: unused (NC)") (u3_x -ℤ pos 25000) (u3_y +ℤ pos 10000)
      (pos 1000)
  text_note (codes "40 MHz OCXO (OX200-SC)") (pos 200000) (pos 195000) (pos 1270)
  let ocxo_x : ℤ = pos 240000
  let ocxo_y : ℤ = pos 220000
  symbol_instance (codes "cirradio:OX200-SC-040.0M") (fixed (codes "Y2")) (codes "40.000MHz OCXO")
      ocxo_x ocxo_y 1 0 (codes "cirradio:DIP-14_W7.62mm") ocxo_pins
  power_symbol (codes "+3V3A") ocxo_x (ocxo_y -ℤ pos 14000) 0
  wire ocxo_x (ocxo_y -ℤ pos 10160) ocxo_x (ocxo_y -ℤ pos 14000)
  power_symbol (codes "GND") ocxo_x (ocxo_y +ℤ pos 14000) 0
  wire ocxo_x (ocxo_y +ℤ pos 10160) ocxo_x (ocxo_y +ℤ pos 14000)
  cap (codes "100n") (ocxo_x +ℤ pos 14000) (ocxo_y -ℤ pos 8000) 0
      (codes "Capacitor_SMD:C_0402_1005Metric")
  wire (ocxo_x +ℤ pos 14000) (ocxo_y -ℤ pos 11810) (ocxo_x +ℤ pos 14000) (ocxo_y -ℤ pos 14000)
  power_symbol (codes "+3V3A") (ocxo_x +ℤ pos 14000) (ocxo_y -ℤ pos 14000) 0
  wire (ocxo_x +ℤ pos 14000) (ocxo_y -ℤ pos 4190) (ocxo_x +ℤ pos 14000) (ocxo_y -ℤ pos 2000)
  power_symbol (codes "GND") (ocxo_x +ℤ pos 14000) (ocxo_y -ℤ pos 2000) 0
  cap (codes "10u") (ocxo_x +ℤ pos 20000) (ocxo_y -ℤ pos 8000) 0
      (codes "Capacitor_SMD:C_0805_2012Metric")
  wire (ocxo_x +ℤ pos 20000) (ocxo_y -ℤ pos 11810) (ocxo_x +ℤ pos 20000) (ocxo_y -ℤ pos 14000)
  power_symbol (codes "+3V3A") (ocxo_x +ℤ pos 20000) (ocxo_y -ℤ pos 14000) 0
  wire (ocxo_x +ℤ pos 20000) (ocxo_y -ℤ pos 4190) (ocxo_x +ℤ pos 20000) (ocxo_y -ℤ pos 2000)
  power_symbol (codes "GND") (ocxo_x +ℤ pos 20000) (ocxo_y -ℤ pos 2000) 0
  let out_y : ℤ = ocxo_y +ℤ pos 2540
  let ac_cap_x : ℤ = ocxo_x +ℤ pos 18000
  cap (codes "100p") ac_cap_x out_y 0 (codes "Capacitor_SMD:C_0402_1005Metric")
  wire (ocxo_x +ℤ pos 10160) out_y (ac_cap_x -ℤ pos 3810) out_y
  let ser_r_x : ℤ = ocxo_x +ℤ pos 28000
  resistor (codes "22R") ser_r_x out_y 90 []
  wire (ac_cap_x +ℤ pos 3810) out_y (ser_r_x -ℤ pos 3810) out_y
  let xtalp_y : ℤ = u3_y -ℤ pos 5080
  wire (ser_r_x +ℤ pos 3810) out_y (ser_r_x +ℤ pos 10000) out_y
  wire (ser_r_x +ℤ pos 10000) out_y (ser_r_x +ℤ pos 10000) xtalp_y
  wire (ser_r_x +ℤ pos 10000) xtalp_y (u3_x -ℤ pos 15240) xtalp_y
  let xtaln_y : ℤ = u3_y -ℤ pos 7620
  let xtaln_cap_x : ℤ = u3_x -ℤ pos 25000
  cap (codes "100p") xtaln_cap_x (xtaln_y +ℤ pos 6000) 0 (codes "Capacitor_SMD:C_0402_1005Metric")
  wire (u3_x -ℤ pos 15240) xtaln_y xtaln_cap_x xtaln_y
  wire xtaln_cap_x xtaln_y xtaln_cap_x (xtaln_y +ℤ pos 2190)
  wire xtaln_cap_x (xtaln_y +ℤ pos 9810) xtaln_cap_x (xtaln_y +ℤ pos 12000)
  power_symbol (codes "GND") xtaln_cap_x (xtaln_y +ℤ pos 12000) 0

-- ===== src/Sheet/Radio/Transmit.antt =====
-- hardware/cirradio-devboard/gen_rf.py: the transmit path up to the driver.
use cirradio.Prelude.{List, [], codes, pos, ℤ, ◌+ℤ◌, ◌-ℤ◌, words}
use cirradio.Sheet.{
  Step, cap, global_label, hier_label, next, passive, power_symbol, resistor, symbol_instance,
  text_note, u_idx, wire, ◌>>◌,
}

-- The coupling of the transmit path.
unfoldable pub transmit_coupling : List Step
unfolding ◌+ℤ◌ ◌-ℤ◌
transmit_coupling = do
  text_note (codes "TX FROM AD9361") (pos 130000) (pos 90000) (pos 2000)
  text_note (codes "AC coupled 100pF, single-ended drive to TX driver") (pos 130000) (pos 94000)
      (pos 1270)
  let tx_ac_x : ℤ = pos 135000
  let tx_ac_y : ℤ = pos 107000
  hier_label (codes "AD_TX1A") (tx_ac_x -ℤ pos 15000) tx_ac_y (codes "input") 0
  wire (tx_ac_x -ℤ pos 15000) tx_ac_y (tx_ac_x -ℤ pos 5000) tx_ac_y
  cap (codes "100p") tx_ac_x tx_ac_y 90 (codes "Capacitor_SMD:C_0402_1005Metric")
  wire (tx_ac_x +ℤ pos 3810) tx_ac_y (tx_ac_x +ℤ pos 15000) tx_ac_y

-- The driver.
unfoldable pub driver : List Step
unfolding ◌+ℤ◌ ◌-ℤ◌
driver = do
  let tx_ac_x : ℤ = pos 135000
  let tx_ac_y : ℤ = pos 107000
  text_note (codes "TX DRIVER ADL5606") (pos 175000) (pos 90000) (pos 2000)
  text_note (codes "Differential driver, Gain ~20 dB, single-ended input via INP") (pos 175000)
      (pos 94000) (pos 1270)
  let drv_x : ℤ = pos 195000
  let drv_y : ℤ = pos 107000
  symbol_instance (codes "cirradio:ADL5606ACPZ") (next u_idx) (codes "ADL5606ACPZ") drv_x drv_y 1 0
      (codes "Package_DFN_QFN:QFN-24-1EP_4x4mm_P0.5mm_EP2.65x2.65mm")
      ((words "1 2 3 4 5 6 7 8 9 10 11 12 13 14 15 16 17 18 19 20 21 22 23 24 25"))
  wire drv_x (drv_y +ℤ pos 16510) drv_x (drv_y +ℤ pos 20000)
  power_symbol (codes "GND") drv_x (drv_y +ℤ pos 20000) 0
  wire drv_x (drv_y -ℤ pos 16510) drv_x (drv_y -ℤ pos 20000)
  global_label (codes "+5V_PA") drv_x (drv_y -ℤ pos 20000) passive 0
  wire (drv_x +ℤ pos 8000) (drv_y -ℤ pos 20000) (drv_x +ℤ pos 8000) (drv_y -ℤ pos 17000)
  cap (codes "100n") (drv_x +ℤ pos 8000) (drv_y -ℤ pos 13000) 0
      (codes "Capacitor_SMD:C_0402_1005Metric")
  wire (drv_x +ℤ pos 8000) (drv_y -ℤ pos 9190) (drv_x +ℤ pos 8000) (drv_y -ℤ pos 7000)
  power_symbol (codes "GND") (drv_x +ℤ pos 8000) (drv_y -ℤ pos 7000) 0
  wire drv_x (drv_y -ℤ pos 20000) (drv_x +ℤ pos 8000) (drv_y -ℤ pos 20000)
  wire (drv_x +ℤ pos 14000) (drv_y -ℤ pos 20000) (drv_x +ℤ pos 14000) (drv_y -ℤ pos 17000)
  cap (codes "10n") (drv_x +ℤ pos 14000) (drv_y -ℤ pos 13000) 0
      (codes "Capacitor_SMD:C_0402_1005Metric")
  wire (drv_x +ℤ pos 14000) (drv_y -ℤ pos 9190) (drv_x +ℤ pos 14000) (drv_y -ℤ pos 7000)
  power_symbol (codes "GND") (drv_x +ℤ pos 14000) (drv_y -ℤ pos 7000) 0
  wire (drv_x +ℤ pos 8000) (drv_y -ℤ pos 20000) (drv_x +ℤ pos 14000) (drv_y -ℤ pos 20000)
  wire (tx_ac_x +ℤ pos 15000) tx_ac_y (drv_x -ℤ pos 10160) (drv_y +ℤ pos 10160)
  wire (drv_x -ℤ pos 10160) (drv_y +ℤ pos 7620) (drv_x -ℤ pos 15000) (drv_y +ℤ pos 7620)
  cap (codes "100n") (drv_x -ℤ pos 19000) (drv_y +ℤ pos 7620) 90
      (codes "Capacitor_SMD:C_0402_1005Metric")
  wire (drv_x -ℤ pos 22810) (drv_y +ℤ pos 7620) (drv_x -ℤ pos 25000) (drv_y +ℤ pos 7620)
  power_symbol (codes "GND") (drv_x -ℤ pos 25000) (drv_y +ℤ pos 7620) 0
  hier_label (codes "TX_DRV_PWDN") (drv_x -ℤ pos 18000) (drv_y +ℤ pos 2540) (codes "input") 0
  wire (drv_x -ℤ pos 18000) (drv_y +ℤ pos 2540) (drv_x -ℤ pos 10160) (drv_y +ℤ pos 2540)
  wire (drv_x +ℤ pos 10160) (drv_y +ℤ pos 10160) (drv_x +ℤ pos 25000) (drv_y +ℤ pos 10160)
  wire (drv_x +ℤ pos 10160) (drv_y +ℤ pos 7620) (drv_x +ℤ pos 15000) (drv_y +ℤ pos 7620)
  resistor (codes "49.9") (drv_x +ℤ pos 19000) (drv_y +ℤ pos 7620) 90 []
  wire (drv_x +ℤ pos 22810) (drv_y +ℤ pos 7620) (drv_x +ℤ pos 25000) (drv_y +ℤ pos 7620)
  power_symbol (codes "GND") (drv_x +ℤ pos 25000) (drv_y +ℤ pos 7620) 0

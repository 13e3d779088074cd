-- ===== src/Sheet/Radio/Receive.antt =====
-- hardware/cirradio-devboard/gen_rf.py: the receive path.
use cirradio.Prelude.{List, [], codes, pos, ℤ, ◌+ℤ◌, ◌-ℤ◌, ◌∷◌, words}
use cirradio.Sheet.{
  Step, cap, fixed, global_label, hier_label, inductor, next, passive, power_symbol,
  symbol_instance, text_note, u_idx, wire, ◌>>◌,
}

-- The low noise amplifier.
unfoldable pub amplifier : List Step
unfolding ◌+ℤ◌ ◌-ℤ◌
amplifier = do
  let sw_x : ℤ = pos 135000
  let sw_y : ℤ = pos 45000
  let rx_path_x : ℤ = sw_x +ℤ pos 10160
  text_note (codes "RX PATH - LNA ADL5523") (pos 170000) (pos 20000) (pos 2000)
  text_note (codes "Low-noise amplifier, Gain ~20 dB, NF ~1.2 dB") (pos 170000) (pos 24000)
      (pos 1270)
  let lna_x : ℤ = pos 185000
  let lna_y : ℤ = pos 45000
  symbol_instance (codes "cirradio:ADL5523ACPZ") (next u_idx) (codes "ADL5523ACPZ") lna_x lna_y 1 0
      (codes "Package_DFN_QFN:QFN-16-1EP_3x3mm_P0.65mm_EP1.75x1.75mm")
      ((words "1 2 3 4 5 6 7 8 9 10 11 12 13 14 15 16 17"))
  wire lna_x (lna_y +ℤ pos 12700) lna_x (lna_y +ℤ pos 16000)
  power_symbol (codes "GND") lna_x (lna_y +ℤ pos 16000) 0
  let vcc_lna_x : ℤ = lna_x
  let vcc_lna_y : ℤ = lna_y -ℤ pos 12700
  wire vcc_lna_x vcc_lna_y vcc_lna_x (vcc_lna_y -ℤ pos 5000)
  inductor (codes "100n") vcc_lna_x (vcc_lna_y -ℤ pos 9000) 0
      (codes "Inductor_SMD:L_0402_1005Metric")
  wire vcc_lna_x (vcc_lna_y -ℤ pos 12810) vcc_lna_x (vcc_lna_y -ℤ pos 15000)
  global_label (codes "+3V3A") vcc_lna_x (vcc_lna_y -ℤ pos 15000) passive 0
  wire (vcc_lna_x +ℤ pos 5000) (vcc_lna_y -ℤ pos 5000) (vcc_lna_x +ℤ pos 5000)
      (vcc_lna_y -ℤ pos 2000)
  cap (codes "100n") (vcc_lna_x +ℤ pos 5000) (vcc_lna_y +ℤ pos 2000) 0
      (codes "Capacitor_SMD:C_0402_1005Metric")
  wire (vcc_lna_x +ℤ pos 5000) (vcc_lna_y +ℤ pos 5810) (vcc_lna_x +ℤ pos 5000)
      (vcc_lna_y +ℤ pos 8000)
  power_symbol (codes "GND") (vcc_lna_x +ℤ pos 5000) (vcc_lna_y +ℤ pos 8000) 0
  wire vcc_lna_x (vcc_lna_y -ℤ pos 5000) (vcc_lna_x +ℤ pos 5000) (vcc_lna_y -ℤ pos 5000)
  wire (vcc_lna_x +ℤ pos 10000) (vcc_lna_y -ℤ pos 5000) (vcc_lna_x +ℤ pos 10000)
      (vcc_lna_y -ℤ pos 2000)
  cap (codes "10n") (vcc_lna_x +ℤ pos 10000) (vcc_lna_y +ℤ pos 2000) 0
      (codes "Capacitor_SMD:C_0402_1005Metric")
  wire (vcc_lna_x +ℤ pos 10000) (vcc_lna_y +ℤ pos 5810) (vcc_lna_x +ℤ pos 10000)
      (vcc_lna_y +ℤ pos 8000)
  power_symbol (codes "GND") (vcc_lna_x +ℤ pos 10000) (vcc_lna_y +ℤ pos 8000) 0
  wire (vcc_lna_x +ℤ pos 5000) (vcc_lna_y -ℤ pos 5000) (vcc_lna_x +ℤ pos 10000)
      (vcc_lna_y -ℤ pos 5000)
  wire (lna_x -ℤ pos 10160) (lna_y +ℤ pos 2540) (lna_x -ℤ pos 15000) (lna_y +ℤ pos 2540)
  cap (codes "100n") (lna_x -ℤ pos 19000) (lna_y +ℤ pos 2540) 90
      (codes "Capacitor_SMD:C_0402_1005Metric")
  wire (lna_x -ℤ pos 22810) (lna_y +ℤ pos 2540) (lna_x -ℤ pos 25000) (lna_y +ℤ pos 2540)
  power_symbol (codes "GND") (lna_x -ℤ pos 25000) (lna_y +ℤ pos 2540) 0
  wire (lna_x +ℤ pos 10160) (lna_y +ℤ pos 2540) (lna_x +ℤ pos 15000) (lna_y +ℤ pos 2540)
  cap (codes "100p") (lna_x +ℤ pos 19000) (lna_y +ℤ pos 2540) 90
      (codes "Capacitor_SMD:C_0402_1005Metric")
  wire (lna_x +ℤ pos 22810) (lna_y +ℤ pos 2540) (lna_x +ℤ pos 25000) (lna_y +ℤ pos 2540)
  power_symbol (codes "GND") (lna_x +ℤ pos 25000) (lna_y +ℤ pos 2540) 0
  wire (rx_path_x +ℤ pos 10000) (sw_y +ℤ pos 5080) (lna_x -ℤ pos 15000) (lna_y +ℤ pos 7620)
  wire (lna_x -ℤ pos 15000) (lna_y +ℤ pos 7620) (lna_x -ℤ pos 10160) (lna_y +ℤ pos 7620)
  wire (lna_x +ℤ pos 10160) (lna_y +ℤ pos 7620) (lna_x +ℤ pos 30000) (lna_y +ℤ pos 7620)

-- The SAW filter, whose symbol `main` writes out by hand.
unfoldable pub saw_filter : List Step
unfolding ◌+ℤ◌ ◌-ℤ◌
saw_filter = do
  let lna_x : ℤ = pos 185000
  let lna_y : ℤ = pos 45000
  text_note (codes "RX SAW FILTER") (pos 230000) (pos 20000) (pos 2000)
  text_note (codes "225-512 MHz SAW bandpass filter") (pos 230000) (pos 24000) (pos 1270)
  let saw_x : ℤ = pos 235000
  let saw_y : ℤ = pos 45000 +ℤ pos 7620
  symbol_instance (codes "Device:BPF") (fixed (codes "FL1")) (codes "SAW 225-512MHz") saw_x saw_y 1
      0 [] (codes "1" ∷ codes "2" ∷ codes "3" ∷ [])
  wire saw_x (saw_y +ℤ pos 5080) saw_x (saw_y +ℤ pos 9000)
  power_symbol (codes "GND") saw_x (saw_y +ℤ pos 9000) 0
  wire (lna_x +ℤ pos 30000) (lna_y +ℤ pos 7620) (saw_x -ℤ pos 7620) saw_y
  wire (saw_x +ℤ pos 7620) saw_y (saw_x +ℤ pos 20000) saw_y

-- The coupling of the receive path.
unfoldable pub receive_coupling : List Step
unfolding ◌+ℤ◌
receive_coupling = do
  let saw_x : ℤ = pos 235000
  let saw_y : ℤ = pos 45000 +ℤ pos 7620
  text_note (codes "RX TO AD9361") (pos 265000) (pos 20000) (pos 2000)
  text_note (codes "AC coupled 100pF differential") (pos 265000) (pos 24000) (pos 1270)
  let rx_ac_x : ℤ = saw_x +ℤ pos 20000
  let rx_ac_y : ℤ = saw_y
  cap (codes "100p") (rx_ac_x +ℤ pos 5000) rx_ac_y 90 (codes "Capacitor_SMD:C_0402_1005Metric")
  wire (rx_ac_x +ℤ pos 5000 +ℤ pos 3810) rx_ac_y (rx_ac_x +ℤ pos 15000) rx_ac_y
  hier_label (codes "AD_RX1A_P") (rx_ac_x +ℤ pos 15000) rx_ac_y (codes "output") 0
  let rx_n_y : ℤ = rx_ac_y +ℤ pos 8000
  wire rx_ac_x rx_ac_y rx_ac_x rx_n_y
  wire rx_ac_x rx_n_y (rx_ac_x +ℤ pos 1190) rx_n_y
  cap (codes "100p") (rx_ac_x +ℤ pos 5000) rx_n_y 90 (codes "Capacitor_SMD:C_0402_1005Metric")
  wire (rx_ac_x +ℤ pos 5000 +ℤ pos 3810) rx_n_y (rx_ac_x +ℤ pos 15000) rx_n_y
  hier_label (codes "AD_RX1A_N") (rx_ac_x +ℤ pos 15000) rx_n_y (codes "output") 0

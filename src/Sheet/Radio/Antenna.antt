-- ===== src/Sheet/Radio/Antenna.antt =====
-- hardware/cirradio-devboard/gen_rf.py: from the antenna to the switch.
use cirradio.Prelude.{List, codes, pos, ℤ, ◌+ℤ◌, ◌-ℤ◌, words}
use cirradio.Sheet.{
  Step, cap, fixed, global_label, hier_label, inductor, next, passive, pins_2, power_symbol,
  symbol_instance, text_note, u_idx, wire, ◌>>◌,
}

-- The SMA connector.
unfoldable pub antenna : List Step
unfolding ◌+ℤ◌
antenna = do
  text_note (codes "ANTENNA / SMA CONNECTOR") (pos 30000) (pos 20000) (pos 2000)
  text_note (codes "50 ohm SMA edge-launch connector") (pos 30000) (pos 24000) (pos 1270)
  let sma_x : ℤ = pos 40000
  let sma_y : ℤ = pos 45000
  symbol_instance (codes "Connector:Conn_Coaxial") (fixed (codes "J1")) (codes "SMA 50ohm") sma_x
      sma_y 1 0 (codes "Connector_Coaxial:SMA_Amphenol_132289_EdgeMount") pins_2
  wire sma_x (sma_y +ℤ pos 3810) sma_x (sma_y +ℤ pos 7000)
  power_symbol (codes "GND") sma_x (sma_y +ℤ pos 7000) 0
  wire (sma_x +ℤ pos 3810) sma_y (sma_x +ℤ pos 10000) sma_y

-- The input bandpass filter.
unfoldable pub input_filter : List Step
unfolding ◌+ℤ◌
input_filter = do
  let sma_x : ℤ = pos 40000
  text_note (codes "INPUT BPF 225-512 MHz") (pos 60000) (pos 20000) (pos 2000)
  text_note (codes "3-section LC: 47nH series, 22pF shunt, 0402 RF-grade") (pos 60000) (pos 24000)
      (pos 1270)
  let bpf_x : ℤ = pos 55000
  let bpf_y : ℤ = pos 45000
  wire (sma_x +ℤ pos 10000) bpf_y bpf_x bpf_y
  inductor (codes "47n") (bpf_x +ℤ pos 5000) bpf_y 90 (codes "Inductor_SMD:L_0402_1005Metric")
  wire (bpf_x +ℤ pos 5000 +ℤ pos 3810) bpf_y (bpf_x +ℤ pos 15000) bpf_y
  wire (bpf_x +ℤ pos 15000) bpf_y (bpf_x +ℤ pos 15000) (bpf_y +ℤ pos 3000)
  cap (codes "22p") (bpf_x +ℤ pos 15000) (bpf_y +ℤ pos 7000) 0
      (codes "Capacitor_SMD:C_0402_1005Metric")
  wire (bpf_x +ℤ pos 15000) (bpf_y +ℤ pos 10810) (bpf_x +ℤ pos 15000) (bpf_y +ℤ pos 13000)
  power_symbol (codes "GND") (bpf_x +ℤ pos 15000) (bpf_y +ℤ pos 13000) 0
  wire (bpf_x +ℤ pos 15000) bpf_y (bpf_x +ℤ pos 20000) bpf_y
  inductor (codes "47n") (bpf_x +ℤ pos 25000) bpf_y 90 (codes "Inductor_SMD:L_0402_1005Metric")
  wire (bpf_x +ℤ pos 25000 +ℤ pos 3810) bpf_y (bpf_x +ℤ pos 35000) bpf_y
  wire (bpf_x +ℤ pos 35000) bpf_y (bpf_x +ℤ pos 35000) (bpf_y +ℤ pos 3000)
  cap (codes "22p") (bpf_x +ℤ pos 35000) (bpf_y +ℤ pos 7000) 0
      (codes "Capacitor_SMD:C_0402_1005Metric")
  wire (bpf_x +ℤ pos 35000) (bpf_y +ℤ pos 10810) (bpf_x +ℤ pos 35000) (bpf_y +ℤ pos 13000)
  power_symbol (codes "GND") (bpf_x +ℤ pos 35000) (bpf_y +ℤ pos 13000) 0
  wire (bpf_x +ℤ pos 35000) bpf_y (bpf_x +ℤ pos 40000) bpf_y
  inductor (codes "47n") (bpf_x +ℤ pos 45000) bpf_y 90 (codes "Inductor_SMD:L_0402_1005Metric")
  wire (bpf_x +ℤ pos 45000 +ℤ pos 3810) bpf_y (bpf_x +ℤ pos 55000) bpf_y
  wire (bpf_x +ℤ pos 55000) bpf_y (bpf_x +ℤ pos 55000) (bpf_y +ℤ pos 3000)
  cap (codes "22p") (bpf_x +ℤ pos 55000) (bpf_y +ℤ pos 7000) 0
      (codes "Capacitor_SMD:C_0402_1005Metric")
  wire (bpf_x +ℤ pos 55000) (bpf_y +ℤ pos 10810) (bpf_x +ℤ pos 55000) (bpf_y +ℤ pos 13000)
  power_symbol (codes "GND") (bpf_x +ℤ pos 55000) (bpf_y +ℤ pos 13000) 0
  wire (bpf_x +ℤ pos 55000) bpf_y (bpf_x +ℤ pos 65000) bpf_y

-- The T/R switch.
unfoldable pub switch : List Step
unfolding ◌+ℤ◌ ◌-ℤ◌
switch = do
  let bpf_x : ℤ = pos 55000
  let bpf_y : ℤ = pos 45000
  text_note (codes "T/R SWITCH PE42525") (pos 130000) (pos 20000) (pos 2000)
  text_note (codes "RFC=antenna, RF1=RX, RF2=TX") (pos 130000) (pos 24000) (pos 1270)
  let sw_x : ℤ = pos 135000
  let sw_y : ℤ = pos 45000
  symbol_instance (codes "cirradio:PE42525") (next u_idx) (codes "PE42525") sw_x sw_y 1 0
      (codes "Package_DFN_QFN:QFN-16-1EP_3x3mm_P0.5mm_EP1.75x1.75mm")
      ((words "1 2 3 4 5 6 7 8 9 10 11 12 13 14 15 16 17"))
  wire sw_x (sw_y +ℤ pos 11430) sw_x (sw_y +ℤ pos 15000)
  power_symbol (codes "GND") sw_x (sw_y +ℤ pos 15000) 0
  global_label (codes "+3V3") (sw_x -ℤ pos 15000) (sw_y -ℤ pos 10000) passive 0
  wire (sw_x -ℤ pos 15000) (sw_y -ℤ pos 10000) (sw_x -ℤ pos 15000) (sw_y -ℤ pos 5000)
  cap (codes "100n") (sw_x -ℤ pos 15000) (sw_y -ℤ pos 1000) 0
      (codes "Capacitor_SMD:C_0402_1005Metric")
  wire (sw_x -ℤ pos 15000) (sw_y +ℤ pos 2810) (sw_x -ℤ pos 15000) (sw_y +ℤ pos 5000)
  power_symbol (codes "GND") (sw_x -ℤ pos 15000) (sw_y +ℤ pos 5000) 0
  wire (bpf_x +ℤ pos 65000) bpf_y (sw_x -ℤ pos 10160) (sw_y +ℤ pos 5080)
  hier_label (codes "TR_V1") (sw_x -ℤ pos 18000) (sw_y +ℤ pos 2540) (codes "input") 0
  wire (sw_x -ℤ pos 18000) (sw_y +ℤ pos 2540) (sw_x -ℤ pos 10160) (sw_y +ℤ pos 2540)
  hier_label (codes "TR_V2") (sw_x -ℤ pos 18000) sw_y (codes "input") 0
  wire (sw_x -ℤ pos 18000) sw_y (sw_x -ℤ pos 10160) sw_y
  let rx_path_x : ℤ = sw_x +ℤ pos 10160
  wire rx_path_x (sw_y +ℤ pos 5080) (rx_path_x +ℤ pos 10000) (sw_y +ℤ pos 5080)
  let tx_path_x : ℤ = sw_x +ℤ pos 10160
  wire tx_path_x (sw_y +ℤ pos 2540) (tx_path_x +ℤ pos 5000) (sw_y +ℤ pos 2540)
  wire (tx_path_x +ℤ pos 5000) (sw_y +ℤ pos 2540) (tx_path_x +ℤ pos 5000) (sw_y +ℤ pos 60000)

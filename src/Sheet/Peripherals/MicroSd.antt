-- ===== src/Sheet/Peripherals/MicroSd.antt =====
-- hardware/cirradio-devboard/gen_peripherals.py: the card slot.
use cirradio.Prelude.{List, [], codes, pos, ℤ, ◌+ℤ◌, ◌-ℤ◌, words}
use cirradio.Sheet.{
  Step, bidirectional, cap, conn_idx, connectors, hier_label, next, power_symbol, resistor,
  symbol_instance, tallied, text_note, wire, ◌>>◌,
}

-- Section 7: Micro-SD card slot.
unfoldable pub build_microsd : ℤ → ℤ → List Step
unfolding ◌+ℤ◌ ◌-ℤ◌
build_microsd base_x base_y = do
  text_note (codes "MICRO-SD CARD SLOT") base_x (base_y -ℤ pos 5000) (pos 2000)
  text_note (codes "SD0: MIO[40:45], CD# to GPIO") base_x base_y (pos 1270)
  let ux : ℤ = base_x +ℤ pos 50000
  let uy : ℤ = base_y +ℤ pos 30000
  tallied connectors
  symbol_instance (codes "Connector_Generic:Conn_01x09") (next conn_idx) (codes "Micro_SD") ux uy 1
      0 (codes "Connector_Card:microSD_HC_Hirose_DM3D-SF") ((words "1 2 3 4 5 6 7 8 9"))
  power_symbol (codes "+3V3") (ux -ℤ pos 3810) (uy -ℤ pos 3000) 0
  wire (ux -ℤ pos 3810) (uy +ℤ pos 2540) (ux -ℤ pos 3810) (uy -ℤ pos 3000)
  power_symbol (codes "GND") (ux -ℤ pos 3810) (uy +ℤ pos 8000) 0
  wire (ux -ℤ pos 3810) (uy -ℤ pos 2540) (ux -ℤ pos 3810) (uy +ℤ pos 8000)
  cap (codes "100n") (ux +ℤ pos 8000) (uy -ℤ pos 3000) 0 (codes "Capacitor_SMD:C_0402_1005Metric")
  power_symbol (codes "+3V3") (ux +ℤ pos 8000) (uy -ℤ pos 8000) 0
  wire (ux +ℤ pos 8000) (uy -ℤ pos 6810) (ux +ℤ pos 8000) (uy -ℤ pos 8000)
  power_symbol (codes "GND") (ux +ℤ pos 8000) (uy +ℤ pos 2000) 0
  wire (ux +ℤ pos 8000) (uy +ℤ pos 810) (ux +ℤ pos 8000) (uy +ℤ pos 2000)
  let hl_x : ℤ = ux -ℤ pos 15000
  wire (ux -ℤ pos 3810) (uy +ℤ pos 10160) hl_x (uy +ℤ pos 10160)
  hier_label (codes "SD_MIO42") hl_x (uy +ℤ pos 10160) bidirectional 180
  resistor (codes "10K") (hl_x -ℤ pos 5000) (uy +ℤ pos 10160) 90 []
  wire hl_x (uy +ℤ pos 10160) (hl_x -ℤ pos 5000 +ℤ pos 3810) (uy +ℤ pos 10160)
  power_symbol (codes "+3V3") (hl_x -ℤ pos 12000) (uy +ℤ pos 10160) 0
  wire (hl_x -ℤ pos 5000 -ℤ pos 3810) (uy +ℤ pos 10160) (hl_x -ℤ pos 12000) (uy +ℤ pos 10160)
  wire (ux -ℤ pos 3810) (uy +ℤ pos 7620) hl_x (uy +ℤ pos 7620)
  hier_label (codes "SD_MIO43") hl_x (uy +ℤ pos 7620) bidirectional 180
  resistor (codes "10K") (hl_x -ℤ pos 5000) (uy +ℤ pos 7620) 90 []
  wire hl_x (uy +ℤ pos 7620) (hl_x -ℤ pos 5000 +ℤ pos 3810) (uy +ℤ pos 7620)
  power_symbol (codes "+3V3") (hl_x -ℤ pos 12000) (uy +ℤ pos 7620) 0
  wire (hl_x -ℤ pos 5000 -ℤ pos 3810) (uy +ℤ pos 7620) (hl_x -ℤ pos 12000) (uy +ℤ pos 7620)
  wire (ux -ℤ pos 3810) (uy +ℤ pos 5080) hl_x (uy +ℤ pos 5080)
  hier_label (codes "SD_MIO41") hl_x (uy +ℤ pos 5080) bidirectional 180
  resistor (codes "10K") (hl_x -ℤ pos 5000) (uy +ℤ pos 5080) 90 []
  wire hl_x (uy +ℤ pos 5080) (hl_x -ℤ pos 5000 +ℤ pos 3810) (uy +ℤ pos 5080)
  power_symbol (codes "+3V3") (hl_x -ℤ pos 12000) (uy +ℤ pos 5080) 0
  wire (hl_x -ℤ pos 5000 -ℤ pos 3810) (uy +ℤ pos 5080) (hl_x -ℤ pos 12000) (uy +ℤ pos 5080)
  wire (ux -ℤ pos 3810) uy hl_x uy
  hier_label (codes "SD_MIO40") hl_x uy bidirectional 180
  wire (ux -ℤ pos 3810) (uy -ℤ pos 5080) hl_x (uy -ℤ pos 5080)
  hier_label (codes "SD_MIO44") hl_x (uy -ℤ pos 5080) bidirectional 180
  resistor (codes "10K") (hl_x -ℤ pos 5000) (uy -ℤ pos 5080) 90 []
  wire hl_x (uy -ℤ pos 5080) (hl_x -ℤ pos 5000 +ℤ pos 3810) (uy -ℤ pos 5080)
  power_symbol (codes "+3V3") (hl_x -ℤ pos 12000) (uy -ℤ pos 5080) 0
  wire (hl_x -ℤ pos 5000 -ℤ pos 3810) (uy -ℤ pos 5080) (hl_x -ℤ pos 12000) (uy -ℤ pos 5080)
  wire (ux -ℤ pos 3810) (uy -ℤ pos 7620) hl_x (uy -ℤ pos 7620)
  hier_label (codes "SD_MIO45") hl_x (uy -ℤ pos 7620) bidirectional 180
  resistor (codes "10K") (hl_x -ℤ pos 5000) (uy -ℤ pos 7620) 90 []
  wire hl_x (uy -ℤ pos 7620) (hl_x -ℤ pos 5000 +ℤ pos 3810) (uy -ℤ pos 7620)
  power_symbol (codes "+3V3") (hl_x -ℤ pos 12000) (uy -ℤ pos 7620) 0
  wire (hl_x -ℤ pos 5000 -ℤ pos 3810) (uy -ℤ pos 7620) (hl_x -ℤ pos 12000) (uy -ℤ pos 7620)
  wire (ux -ℤ pos 3810) (uy -ℤ pos 10160) hl_x (uy -ℤ pos 10160)
  hier_label (codes "SD_CD_N") hl_x (uy -ℤ pos 10160) (codes "input") 180
  resistor (codes "10K") (hl_x -ℤ pos 5000) (uy -ℤ pos 10160) 90 []
  wire hl_x (uy -ℤ pos 10160) (hl_x -ℤ pos 5000 +ℤ pos 3810) (uy -ℤ pos 10160)
  power_symbol (codes "+3V3") (hl_x -ℤ pos 12000) (uy -ℤ pos 10160) 0
  wire (hl_x -ℤ pos 5000 -ℤ pos 3810) (uy -ℤ pos 10160) (hl_x -ℤ pos 12000) (uy -ℤ pos 10160)

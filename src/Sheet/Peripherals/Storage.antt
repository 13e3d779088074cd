-- ===== src/Sheet/Peripherals/Storage.antt =====
-- hardware/cirradio-devboard/gen_peripherals.py: the QSPI flash and the eMMC.
use cirradio.Prelude.{List, Text, [], codes, gather, negsuc, pos, ℤ, ◌+ℤ◌, ◌-ℤ◌, ◌∷◌, words}
use cirradio.Sheet.{
  Step, bidirectional, cap, hier_label, ic_idx, ics, next, power_symbol, resistor, symbol_instance,
  tallied, text_note, wire, ◌>>◌,
}

-- Section 1: QSPI Flash S25FL256S.
unfoldable pub build_qspi : ℤ → ℤ → List Step
unfolding ◌+ℤ◌ ◌-ℤ◌
build_qspi base_x base_y = do
  text_note (codes "QSPI FLASH - S25FL256S (256Mbit)") base_x (base_y -ℤ pos 5000) (pos 2000)
  text_note (codes "CS#=MIO[1] SCK=MIO[6] IO[0:3]=MIO[2:5]") base_x base_y (pos 1270)
  let ux : ℤ = base_x +ℤ pos 50000
  let uy : ℤ = base_y +ℤ pos 30000
  tallied ics
  symbol_instance (codes "cirradio:S25FL256S") (next ic_idx) (codes "S25FL256S") ux uy 1 0
      (codes "Package_SON:WSON-8-1EP_6x5mm_P1.27mm_EP3.4x4mm") ((words "1 2 3 4 5 6 7 8 9"))
  power_symbol (codes "+1V8") ux (uy -ℤ pos 15000) 0
  wire ux (uy -ℤ pos 10160) ux (uy -ℤ pos 15000)
  cap (codes "100n") (ux +ℤ pos 8000) (uy -ℤ pos 15000) 0 (codes "Capacitor_SMD:C_0402_1005Metric")
  power_symbol (codes "+1V8") (ux +ℤ pos 8000) (uy -ℤ pos 20000) 0
  wire (ux +ℤ pos 8000) (uy -ℤ pos 18810) (ux +ℤ pos 8000) (uy -ℤ pos 20000)
  power_symbol (codes "GND") (ux +ℤ pos 8000) (uy -ℤ pos 10000) 0
  wire (ux +ℤ pos 8000) (uy -ℤ pos 11190) (ux +ℤ pos 8000) (uy -ℤ pos 10000)
  power_symbol (codes "GND") ux (uy +ℤ pos 15000) 0
  wire ux (uy +ℤ pos 10160) ux (uy +ℤ pos 15000)
  let hl_x : ℤ = ux -ℤ pos 20000
  wire (ux -ℤ pos 10160) (uy +ℤ pos 5080) hl_x (uy +ℤ pos 5080)
  hier_label (codes "QSPI_MIO1") hl_x (uy +ℤ pos 5080) bidirectional 180
  wire (ux -ℤ pos 10160) (uy +ℤ pos 2540) hl_x (uy +ℤ pos 2540)
  hier_label (codes "QSPI_MIO3") hl_x (uy +ℤ pos 2540) bidirectional 180
  wire (ux -ℤ pos 10160) uy hl_x uy
  hier_label (codes "QSPI_MIO4") hl_x uy bidirectional 180
  resistor (codes "10K") (ux -ℤ pos 14000) (uy -ℤ pos 6000) 0 []
  wire (ux -ℤ pos 14000) (uy -ℤ pos 2190) (ux -ℤ pos 14000) uy
  power_symbol (codes "+1V8") (ux -ℤ pos 14000) (uy -ℤ pos 13000) 0
  wire (ux -ℤ pos 14000) (uy -ℤ pos 9810) (ux -ℤ pos 14000) (uy -ℤ pos 13000)
  wire (ux +ℤ pos 10160) uy (hl_x +ℤ pos 45000) uy
  hier_label (codes "QSPI_MIO2") (hl_x +ℤ pos 45000) uy bidirectional 0
  wire (ux +ℤ pos 10160) (uy +ℤ pos 2540) (hl_x +ℤ pos 45000) (uy +ℤ pos 2540)
  hier_label (codes "QSPI_MIO6") (hl_x +ℤ pos 45000) (uy +ℤ pos 2540) bidirectional 0
  wire (ux +ℤ pos 10160) (uy +ℤ pos 5080) (hl_x +ℤ pos 45000) (uy +ℤ pos 5080)
  hier_label (codes "QSPI_MIO5") (hl_x +ℤ pos 45000) (uy +ℤ pos 5080) bidirectional 0
  resistor (codes "10K") (ux +ℤ pos 18000) (uy -ℤ pos 2000) 0 []
  wire (ux +ℤ pos 18000) (uy +ℤ pos 1810) (ux +ℤ pos 18000) (uy +ℤ pos 5080)
  wire (ux +ℤ pos 10160) (uy +ℤ pos 5080) (ux +ℤ pos 18000) (uy +ℤ pos 5080)
  power_symbol (codes "+1V8") (ux +ℤ pos 18000) (uy -ℤ pos 9000) 0
  wire (ux +ℤ pos 18000) (uy -ℤ pos 5810) (ux +ℤ pos 18000) (uy -ℤ pos 9000)

-- Section 2: eMMC MTFC8GAKAJCN.
unfoldable pub build_emmc : ℤ → ℤ → List Step
unfolding ◌+ℤ◌ ◌-ℤ◌
build_emmc base_x base_y = do
  text_note (codes "eMMC STORAGE - MTFC8GAKAJCN (8GB)") base_x (base_y -ℤ pos 5000) (pos 2000)
  text_note (codes "8-bit data via EMIO/PL pins") base_x base_y (pos 1270)
  let ux : ℤ = base_x +ℤ pos 50000
  let uy : ℤ = base_y +ℤ pos 35000
  tallied ics
  symbol_instance (codes "cirradio:MTFC8GAKAJCN") (next ic_idx) (codes "MTFC8GAKAJCN-8GB") ux uy 1 0
      (codes "cirradio:BGA-153_11.5x13mm") ((words "H2 J1 J2 H1 J3 K1 K2 K3 D1 D2 C1 A3 E1 B2"))
  power_symbol (codes "+3V3") ux (uy -ℤ pos 25000) 0
  wire ux (uy -ℤ pos 19050) ux (uy -ℤ pos 25000)
  power_symbol (codes "+1V8") (ux +ℤ pos 5080) (uy -ℤ pos 25000) 0
  wire (ux +ℤ pos 5080) (uy -ℤ pos 19050) (ux +ℤ pos 5080) (uy -ℤ pos 25000)
  cap (codes "100n") (ux -ℤ pos 8000) (uy -ℤ pos 25000) 0 (codes "Capacitor_SMD:C_0402_1005Metric")
  power_symbol (codes "+3V3") (ux -ℤ pos 8000) (uy -ℤ pos 30000) 0
  wire (ux -ℤ pos 8000) (uy -ℤ pos 28810) (ux -ℤ pos 8000) (uy -ℤ pos 30000)
  power_symbol (codes "GND") (ux -ℤ pos 8000) (uy -ℤ pos 20000) 0
  wire (ux -ℤ pos 8000) (uy -ℤ pos 21190) (ux -ℤ pos 8000) (uy -ℤ pos 20000)
  cap (codes "100n") (ux +ℤ pos 13000) (uy -ℤ pos 25000) 0 (codes "Capacitor_SMD:C_0402_1005Metric")
  power_symbol (codes "+1V8") (ux +ℤ pos 13000) (uy -ℤ pos 30000) 0
  wire (ux +ℤ pos 13000) (uy -ℤ pos 28810) (ux +ℤ pos 13000) (uy -ℤ pos 30000)
  power_symbol (codes "GND") (ux +ℤ pos 13000) (uy -ℤ pos 20000) 0
  wire (ux +ℤ pos 13000) (uy -ℤ pos 21190) (ux +ℤ pos 13000) (uy -ℤ pos 20000)
  power_symbol (codes "GND") ux (uy +ℤ pos 25000) 0
  wire ux (uy +ℤ pos 19050) ux (uy +ℤ pos 25000)
  let hl_x : ℤ = ux -ℤ pos 22000
  gather {A = Text × ℤ}
      (λ (lbl, yo). do
        wire (ux -ℤ pos 12700) (uy +ℤ yo) hl_x (uy +ℤ yo)
        hier_label lbl hl_x (uy +ℤ yo) bidirectional 180)
      ((codes "EMMC_DAT0", pos 12700)
        ∷ (codes "EMMC_DAT1", pos 10160)
        ∷ (codes "EMMC_DAT2", pos 7620)
        ∷ (codes "EMMC_DAT3", pos 5080)
        ∷ (codes "EMMC_DAT4", pos 2540)
        ∷ (codes "EMMC_DAT5", pos 0)
        ∷ (codes "EMMC_DAT6", negsuc 2539)
        ∷ (codes "EMMC_DAT7", negsuc 5079)
        ∷ [])
  wire (ux -ℤ pos 12700) (uy -ℤ pos 10160) hl_x (uy -ℤ pos 10160)
  hier_label (codes "EMMC_CLK") hl_x (uy -ℤ pos 10160) bidirectional 180
  wire (ux -ℤ pos 12700) (uy -ℤ pos 12700) hl_x (uy -ℤ pos 12700)
  hier_label (codes "EMMC_CMD") hl_x (uy -ℤ pos 12700) bidirectional 180
  let rst_x : ℤ = ux +ℤ pos 22000
  wire (ux +ℤ pos 12700) (uy +ℤ pos 12700) rst_x (uy +ℤ pos 12700)
  resistor (codes "10K") (rst_x +ℤ pos 4000) (uy +ℤ pos 6000) 0 []
  wire rst_x (uy +ℤ pos 12700) (rst_x +ℤ pos 4000) (uy +ℤ pos 12700)
  wire (rst_x +ℤ pos 4000) (uy +ℤ pos 9810) (rst_x +ℤ pos 4000) (uy +ℤ pos 12700)
  power_symbol (codes "+3V3") (rst_x +ℤ pos 4000) uy 0
  wire (rst_x +ℤ pos 4000) (uy +ℤ pos 2190) (rst_x +ℤ pos 4000) uy

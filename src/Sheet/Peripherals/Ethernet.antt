-- ===== src/Sheet/Peripherals/Ethernet.antt =====
-- hardware/cirradio-devboard/gen_peripherals.py: the Ethernet PHY.
use cirradio.Prelude.{List, Text, [], codes, gather, negsuc, pos, ℤ, ◌+ℤ◌, ◌-ℤ◌, ◌∷◌, words, ◌++◌}
use cirradio.Sheet.{
  Step, bidirectional, cap, conn_idx, connectors, crystal_idx, global_label, hier_label, ic_idx,
  ics, next, pins_2, power_symbol, resistor, symbol_instance, tallied, text_note, wire, ◌>>◌,
}

-- Section 4: Ethernet PHY KSZ9031.
unfoldable pub build_ethernet : ℤ → ℤ → List Step
unfolding ◌+ℤ◌ ◌-ℤ◌
build_ethernet base_x base_y = do
  text_note (codes "ETHERNET PHY - KSZ9031RNXIA (GigE RGMII)") base_x (base_y -ℤ pos 5000)
      (pos 2000)
  text_note (codes "RGMII to Zynq MIO[16:27], 25MHz crystal") base_x base_y (pos 1270)
  let ux : ℤ = base_x +ℤ pos 55000
  let uy : ℤ = base_y +ℤ pos 45000
  tallied ics
  symbol_instance (codes "cirradio:KSZ9031") (next ic_idx) (codes "KSZ9031RNXIA") ux uy 1 0
      (codes "Package_DFN_QFN:QFN-48-1EP_7x7mm_P0.5mm_EP5.15x5.15mm")
      ((words "20 21 22 23 19 18 27 28 29 30 26 25 42 40 41 1 2 4 5 7 8 10 11 13 14 16 17 31 32"
        ++ words "33 34 37 38 3 24 49 43 44 39"))
  power_symbol (codes "+1V8") (ux -ℤ pos 5080) (uy -ℤ pos 38000) 0
  wire (ux -ℤ pos 5080) (uy -ℤ pos 31750) (ux -ℤ pos 5080) (uy -ℤ pos 38000)
  power_symbol (codes "+1V8") (ux +ℤ pos 5080) (uy -ℤ pos 38000) 0
  wire (ux +ℤ pos 5080) (uy -ℤ pos 31750) (ux +ℤ pos 5080) (uy -ℤ pos 38000)
  cap (codes "100n") (ux -ℤ pos 14000) (uy -ℤ pos 38000) 0 (codes "Capacitor_SMD:C_0402_1005Metric")
  power_symbol (codes "+1V8") (ux -ℤ pos 14000) (uy -ℤ pos 43000) 0
  wire (ux -ℤ pos 14000) (uy -ℤ pos 41810) (ux -ℤ pos 14000) (uy -ℤ pos 43000)
  power_symbol (codes "GND") (ux -ℤ pos 14000) (uy -ℤ pos 33000) 0
  wire (ux -ℤ pos 14000) (uy -ℤ pos 34190) (ux -ℤ pos 14000) (uy -ℤ pos 33000)
  cap (codes "10u") (ux -ℤ pos 20000) (uy -ℤ pos 38000) 0 (codes "Capacitor_SMD:C_0805_2012Metric")
  power_symbol (codes "+1V8") (ux -ℤ pos 20000) (uy -ℤ pos 43000) 0
  wire (ux -ℤ pos 20000) (uy -ℤ pos 41810) (ux -ℤ pos 20000) (uy -ℤ pos 43000)
  power_symbol (codes "GND") (ux -ℤ pos 20000) (uy -ℤ pos 33000) 0
  wire (ux -ℤ pos 20000) (uy -ℤ pos 34190) (ux -ℤ pos 20000) (uy -ℤ pos 33000)
  cap (codes "100n") (ux +ℤ pos 14000) (uy -ℤ pos 38000) 0 (codes "Capacitor_SMD:C_0402_1005Metric")
  power_symbol (codes "+1V8") (ux +ℤ pos 14000) (uy -ℤ pos 43000) 0
  wire (ux +ℤ pos 14000) (uy -ℤ pos 41810) (ux +ℤ pos 14000) (uy -ℤ pos 43000)
  power_symbol (codes "GND") (ux +ℤ pos 14000) (uy -ℤ pos 33000) 0
  wire (ux +ℤ pos 14000) (uy -ℤ pos 34190) (ux +ℤ pos 14000) (uy -ℤ pos 33000)
  power_symbol (codes "GND") ux (uy +ℤ pos 38000) 0
  wire ux (uy +ℤ pos 31750) ux (uy +ℤ pos 38000)
  let hl_x : ℤ = ux -ℤ pos 28000
  gather {A = Text × ℤ}
      (λ (lbl, yo). do
        wire (ux -ℤ pos 17780) (uy +ℤ yo) hl_x (uy +ℤ yo)
        hier_label lbl hl_x (uy +ℤ yo) bidirectional 180)
      ((codes "ETH_MIO22", pos 25400)
        ∷ (codes "ETH_MIO23", pos 22860)
        ∷ (codes "ETH_MIO24", pos 20320)
        ∷ (codes "ETH_MIO25", pos 17780)
        ∷ [])
  wire (ux -ℤ pos 17780) (uy +ℤ pos 12700) hl_x (uy +ℤ pos 12700)
  hier_label (codes "ETH_MIO21") hl_x (uy +ℤ pos 12700) bidirectional 180
  wire (ux -ℤ pos 17780) (uy +ℤ pos 10160) hl_x (uy +ℤ pos 10160)
  hier_label (codes "ETH_MIO20") hl_x (uy +ℤ pos 10160) bidirectional 180
  gather {A = Text × ℤ}
      (λ (lbl, yo). do
        wire (ux -ℤ pos 17780) (uy +ℤ yo) hl_x (uy +ℤ yo)
        hier_label lbl hl_x (uy +ℤ yo) bidirectional 180)
      ((codes "ETH_MIO16", pos 5080)
        ∷ (codes "ETH_MIO17", pos 2540)
        ∷ (codes "ETH_MIO18", pos 0)
        ∷ (codes "ETH_MIO19", negsuc 2539)
        ∷ [])
  wire (ux -ℤ pos 17780) (uy -ℤ pos 7620) hl_x (uy -ℤ pos 7620)
  hier_label (codes "ETH_MIO26") hl_x (uy -ℤ pos 7620) bidirectional 180
  wire (ux -ℤ pos 17780) (uy -ℤ pos 10160) hl_x (uy -ℤ pos 10160)
  hier_label (codes "ETH_MIO27") hl_x (uy -ℤ pos 10160) bidirectional 180
  resistor (codes "10K") (ux -ℤ pos 25000) (uy -ℤ pos 20000) 0 []
  wire (ux -ℤ pos 17780) (uy -ℤ pos 15240) (ux -ℤ pos 25000) (uy -ℤ pos 15240)
  wire (ux -ℤ pos 25000) (uy -ℤ pos 16190) (ux -ℤ pos 25000) (uy -ℤ pos 15240)
  power_symbol (codes "+1V8") (ux -ℤ pos 25000) (uy -ℤ pos 27000) 0
  wire (ux -ℤ pos 25000) (uy -ℤ pos 23810) (ux -ℤ pos 25000) (uy -ℤ pos 27000)
  wire (ux -ℤ pos 17780) (uy -ℤ pos 17780) hl_x (uy -ℤ pos 17780)
  global_label (codes "ETH_MDIO") hl_x (uy -ℤ pos 17780) bidirectional 180
  wire (ux -ℤ pos 17780) (uy -ℤ pos 20320) hl_x (uy -ℤ pos 20320)
  global_label (codes "ETH_MDC") hl_x (uy -ℤ pos 20320) (codes "output") 180
  power_symbol (codes "GND") (ux -ℤ pos 25000) (uy -ℤ pos 22860) 0
  wire (ux -ℤ pos 17780) (uy -ℤ pos 22860) (ux -ℤ pos 25000) (uy -ℤ pos 22860)
  let cryst_x : ℤ = ux -ℤ pos 28000
  let cryst_y : ℤ = uy -ℤ pos 28000
  symbol_instance (codes "Device:Crystal") (next crystal_idx) (codes "25MHz") cryst_x cryst_y 1 0
      (codes "Crystal:Crystal_SMD_3215-2Pin_3.2x1.5mm") pins_2
  wire (cryst_x -ℤ pos 3810) cryst_y (ux -ℤ pos 17780) (uy -ℤ pos 25400)
  wire (cryst_x +ℤ pos 3810) cryst_y (ux -ℤ pos 17780) (uy -ℤ pos 27940)
  cap (codes "15p") (cryst_x -ℤ pos 6000) (cryst_y +ℤ pos 6000) 0
      (codes "Capacitor_SMD:C_0402_1005Metric")
  wire (cryst_x -ℤ pos 6000) (cryst_y +ℤ pos 2190) (cryst_x -ℤ pos 6000) cryst_y
  wire (cryst_x -ℤ pos 6000) cryst_y (cryst_x -ℤ pos 3810) cryst_y
  power_symbol (codes "GND") (cryst_x -ℤ pos 6000) (cryst_y +ℤ pos 13000) 0
  wire (cryst_x -ℤ pos 6000) (cryst_y +ℤ pos 9810) (cryst_x -ℤ pos 6000) (cryst_y +ℤ pos 13000)
  cap (codes "15p") (cryst_x +ℤ pos 6000) (cryst_y +ℤ pos 6000) 0
      (codes "Capacitor_SMD:C_0402_1005Metric")
  wire (cryst_x +ℤ pos 6000) (cryst_y +ℤ pos 2190) (cryst_x +ℤ pos 6000) cryst_y
  wire (cryst_x +ℤ pos 6000) cryst_y (cryst_x +ℤ pos 3810) cryst_y
  power_symbol (codes "GND") (cryst_x +ℤ pos 6000) (cryst_y +ℤ pos 13000) 0
  wire (cryst_x +ℤ pos 6000) (cryst_y +ℤ pos 9810) (cryst_x +ℤ pos 6000) (cryst_y +ℤ pos 13000)
  let rj_x : ℤ = ux +ℤ pos 55000
  tallied connectors
  symbol_instance (codes "Connector:RJ45_Shielded") (next conn_idx) (codes "RJ45_MagJack") rj_x uy 1
      0 (codes "Connector_RJ:RJ45_Amphenol_ARJM11D7") ((words "1 2 3 4 5 6 7 8 9"))
  wire (ux +ℤ pos 17780) (uy +ℤ pos 25400) (rj_x -ℤ pos 6350) (uy +ℤ pos 10160)
  wire (ux +ℤ pos 17780) (uy +ℤ pos 22860) (rj_x -ℤ pos 6350) (uy +ℤ pos 7620)
  wire (ux +ℤ pos 17780) (uy +ℤ pos 17780) (rj_x -ℤ pos 6350) (uy +ℤ pos 5080)
  wire (ux +ℤ pos 17780) (uy +ℤ pos 15240) (rj_x -ℤ pos 6350) (uy +ℤ pos 2540)
  wire (ux +ℤ pos 17780) (uy +ℤ pos 10160) (rj_x -ℤ pos 6350) uy
  wire (ux +ℤ pos 17780) (uy +ℤ pos 7620) (rj_x -ℤ pos 6350) (uy -ℤ pos 2540)
  wire (ux +ℤ pos 17780) (uy +ℤ pos 2540) (rj_x -ℤ pos 6350) (uy -ℤ pos 5080)
  wire (ux +ℤ pos 17780) uy (rj_x -ℤ pos 6350) (uy -ℤ pos 7620)
  power_symbol (codes "GND") (rj_x -ℤ pos 6350) (uy -ℤ pos 15000) 0
  wire (rj_x -ℤ pos 6350) (uy -ℤ pos 10160) (rj_x -ℤ pos 6350) (uy -ℤ pos 15000)

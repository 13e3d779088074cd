-- ===== src/Sheet/Peripherals/Usb.antt =====
-- hardware/cirradio-devboard/gen_peripherals.py: the USB PHY and the UART bridge.
use cirradio.Prelude.{List, Text, [], codes, gather, pos, ℤ, ◌+ℤ◌, ◌-ℤ◌, ◌∷◌, words}
use cirradio.Sheet.{
  Step, bidirectional, cap, conn_idx, connectors, hier_label, ic_idx, ics, next, power_symbol,
  resistor, symbol_instance, tallied, text_note, wire, ◌>>◌,
}

-- Section 3: USB PHY USB3320C.
unfoldable pub build_usb_phy : ℤ → ℤ → List Step
unfolding ◌+ℤ◌ ◌-ℤ◌
build_usb_phy base_x base_y = do
  text_note (codes "USB PHY - USB3320C (ULPI)") base_x (base_y -ℤ pos 5000) (pos 2000)
  text_note (codes "ULPI DATA[0:7]/CLK/DIR/STP/NXT via MIO[28:39]") base_x base_y (pos 1270)
  let ux : ℤ = base_x +ℤ pos 50000
  let uy : ℤ = base_y +ℤ pos 40000
  tallied ics
  symbol_instance (codes "cirradio:USB3320C") (next ic_idx) (codes "USB3320C-EZK") ux uy 1 0
      (codes "Package_DFN_QFN:QFN-32-1EP_5x5mm_P0.5mm_EP3.1x3.1mm")
      ((words "17 18 19 20 21 22 23 24 15 16 25 26 4 11 12 14 1 9 33 27 28 29 30"))
  power_symbol (codes "+3V3") (ux -ℤ pos 2540) (uy -ℤ pos 30000) 0
  wire (ux -ℤ pos 2540) (uy -ℤ pos 24130) (ux -ℤ pos 2540) (uy -ℤ pos 30000)
  power_symbol (codes "+3V3") (ux +ℤ pos 2540) (uy -ℤ pos 30000) 0
  wire (ux +ℤ pos 2540) (uy -ℤ pos 24130) (ux +ℤ pos 2540) (uy -ℤ pos 30000)
  cap (codes "100n") (ux -ℤ pos 10000) (uy -ℤ pos 30000) 0 (codes "Capacitor_SMD:C_0402_1005Metric")
  power_symbol (codes "+3V3") (ux -ℤ pos 10000) (uy -ℤ pos 35000) 0
  wire (ux -ℤ pos 10000) (uy -ℤ pos 33810) (ux -ℤ pos 10000) (uy -ℤ pos 35000)
  power_symbol (codes "GND") (ux -ℤ pos 10000) (uy -ℤ pos 25000) 0
  wire (ux -ℤ pos 10000) (uy -ℤ pos 26190) (ux -ℤ pos 10000) (uy -ℤ pos 25000)
  cap (codes "100n") (ux +ℤ pos 10000) (uy -ℤ pos 30000) 0 (codes "Capacitor_SMD:C_0402_1005Metric")
  power_symbol (codes "+3V3") (ux +ℤ pos 10000) (uy -ℤ pos 35000) 0
  wire (ux +ℤ pos 10000) (uy -ℤ pos 33810) (ux +ℤ pos 10000) (uy -ℤ pos 35000)
  power_symbol (codes "GND") (ux +ℤ pos 10000) (uy -ℤ pos 25000) 0
  wire (ux +ℤ pos 10000) (uy -ℤ pos 26190) (ux +ℤ pos 10000) (uy -ℤ pos 25000)
  power_symbol (codes "GND") ux (uy +ℤ pos 30000) 0
  wire ux (uy +ℤ pos 24130) ux (uy +ℤ pos 30000)
  let hl_x : ℤ = ux -ℤ pos 25000
  gather {A = Text × ℤ}
      (λ (lbl, yo). do
        wire (ux -ℤ pos 15240) (uy +ℤ yo) hl_x (uy +ℤ yo)
        hier_label lbl hl_x (uy +ℤ yo) bidirectional 180)
      ((codes "USB_MIO28", pos 17780)
        ∷ (codes "USB_MIO29", pos 15240)
        ∷ (codes "USB_MIO30", pos 12700)
        ∷ (codes "USB_MIO31", pos 10160)
        ∷ (codes "USB_MIO32", pos 7620)
        ∷ (codes "USB_MIO33", pos 5080)
        ∷ (codes "USB_MIO34", pos 2540)
        ∷ (codes "USB_MIO35", pos 0)
        ∷ [])
  wire (ux -ℤ pos 15240) (uy -ℤ pos 5080) hl_x (uy -ℤ pos 5080)
  hier_label (codes "USB_MIO36") hl_x (uy -ℤ pos 5080) bidirectional 180
  wire (ux -ℤ pos 15240) (uy -ℤ pos 7620) hl_x (uy -ℤ pos 7620)
  hier_label (codes "USB_MIO37") hl_x (uy -ℤ pos 7620) bidirectional 180
  wire (ux -ℤ pos 15240) (uy -ℤ pos 10160) hl_x (uy -ℤ pos 10160)
  hier_label (codes "USB_MIO38") hl_x (uy -ℤ pos 10160) bidirectional 180
  wire (ux -ℤ pos 15240) (uy -ℤ pos 12700) hl_x (uy -ℤ pos 12700)
  hier_label (codes "USB_MIO39") hl_x (uy -ℤ pos 12700) bidirectional 180
  resistor (codes "10K") (ux -ℤ pos 22000) (uy -ℤ pos 17780) 90 []
  wire (ux -ℤ pos 15240) (uy -ℤ pos 17780) (ux -ℤ pos 22000 +ℤ pos 3810) (uy -ℤ pos 17780)
  power_symbol (codes "+3V3") (ux -ℤ pos 30000) (uy -ℤ pos 17780) 0
  wire (ux -ℤ pos 22000 -ℤ pos 3810) (uy -ℤ pos 17780) (ux -ℤ pos 30000) (uy -ℤ pos 17780)
  let rb_x : ℤ = ux +ℤ pos 25000
  wire (ux +ℤ pos 15240) (uy +ℤ pos 5080) rb_x (uy +ℤ pos 5080)
  resistor (codes "12K1") (rb_x +ℤ pos 5000) (uy +ℤ pos 5080) 90 []
  wire rb_x (uy +ℤ pos 5080) (rb_x +ℤ pos 5000 -ℤ pos 3810) (uy +ℤ pos 5080)
  power_symbol (codes "GND") (rb_x +ℤ pos 12000) (uy +ℤ pos 5080) 0
  wire (rb_x +ℤ pos 5000 +ℤ pos 3810) (uy +ℤ pos 5080) (rb_x +ℤ pos 12000) (uy +ℤ pos 5080)
  let conn_x : ℤ = ux +ℤ pos 55000
  tallied connectors
  symbol_instance (codes "Connector:USB_A") (next conn_idx) (codes "USB_A") conn_x uy 1 0
      (codes "Connector_USB:USB_A_Molex_105057_Vertical")
      (codes "1" ∷ codes "2" ∷ codes "3" ∷ codes "4" ∷ codes "5" ∷ [])
  resistor (codes "22R") (ux +ℤ pos 30000) (uy +ℤ pos 15240) 90 []
  wire (ux +ℤ pos 15240) (uy +ℤ pos 15240) (ux +ℤ pos 30000 -ℤ pos 3810) (uy +ℤ pos 15240)
  wire (ux +ℤ pos 30000 +ℤ pos 3810) (uy +ℤ pos 15240) (conn_x -ℤ pos 10000) (uy +ℤ pos 15240)
  wire (conn_x -ℤ pos 10000) (uy +ℤ pos 15240) (conn_x -ℤ pos 10000) uy
  wire (conn_x -ℤ pos 10000) uy (conn_x -ℤ pos 6350) uy
  resistor (codes "22R") (ux +ℤ pos 30000) (uy +ℤ pos 12700) 90 []
  wire (ux +ℤ pos 15240) (uy +ℤ pos 12700) (ux +ℤ pos 30000 -ℤ pos 3810) (uy +ℤ pos 12700)
  wire (ux +ℤ pos 30000 +ℤ pos 3810) (uy +ℤ pos 12700) (conn_x -ℤ pos 12000) (uy +ℤ pos 12700)
  wire (conn_x -ℤ pos 12000) (uy +ℤ pos 12700) (conn_x -ℤ pos 12000) (uy +ℤ pos 2540)
  wire (conn_x -ℤ pos 12000) (uy +ℤ pos 2540) (conn_x -ℤ pos 6350) (uy +ℤ pos 2540)
  power_symbol (codes "+5V") (conn_x -ℤ pos 6350) (uy +ℤ pos 10000) 0
  wire (conn_x -ℤ pos 6350) (uy +ℤ pos 5080) (conn_x -ℤ pos 6350) (uy +ℤ pos 10000)
  power_symbol (codes "GND") (conn_x -ℤ pos 6350) (uy -ℤ pos 8000) 0
  wire (conn_x -ℤ pos 6350) (uy -ℤ pos 2540) (conn_x -ℤ pos 6350) (uy -ℤ pos 8000)
  wire (conn_x -ℤ pos 6350) (uy -ℤ pos 5080) (conn_x -ℤ pos 6350) (uy -ℤ pos 8000)
  power_symbol (codes "GND") (ux +ℤ pos 25000) (uy -ℤ pos 17780) 0
  wire (ux +ℤ pos 15240) (uy -ℤ pos 17780) (ux +ℤ pos 25000) (uy -ℤ pos 17780)

-- Section 5: UART-USB Bridge FT232RQ.
unfoldable pub build_uart_usb : ℤ → ℤ → List Step
unfolding ◌+ℤ◌ ◌-ℤ◌
build_uart_usb base_x base_y = do
  text_note (codes "UART-USB BRIDGE - FT232RQ (Console)") base_x (base_y -ℤ pos 5000) (pos 2000)
  text_note (codes "TXD=MIO[48] RXD=MIO[49] -> USB Micro-B") base_x base_y (pos 1270)
  let ux : ℤ = base_x +ℤ pos 50000
  let uy : ℤ = base_y +ℤ pos 35000
  tallied ics
  symbol_instance (codes "cirradio:FT232RQ") (next ic_idx) (codes "FT232RQ") ux uy 1 0
      (codes "Package_DFN_QFN:QFN-32-1EP_5x5mm_P0.5mm_EP3.1x3.1mm")
      ((words "1 5 15 16 12 9 19 23 22 17"))
  power_symbol (codes "+3V3") ux (uy -ℤ pos 25000) 0
  wire ux (uy -ℤ pos 19050) ux (uy -ℤ pos 25000)
  cap (codes "100n") (ux +ℤ pos 8000) (uy -ℤ pos 25000) 0 (codes "Capacitor_SMD:C_0402_1005Metric")
  power_symbol (codes "+3V3") (ux +ℤ pos 8000) (uy -ℤ pos 30000) 0
  wire (ux +ℤ pos 8000) (uy -ℤ pos 28810) (ux +ℤ pos 8000) (uy -ℤ pos 30000)
  power_symbol (codes "GND") (ux +ℤ pos 8000) (uy -ℤ pos 20000) 0
  wire (ux +ℤ pos 8000) (uy -ℤ pos 21190) (ux +ℤ pos 8000) (uy -ℤ pos 20000)
  cap (codes "4u7") (ux +ℤ pos 14000) (uy -ℤ pos 25000) 0 (codes "Capacitor_SMD:C_0805_2012Metric")
  power_symbol (codes "+3V3") (ux +ℤ pos 14000) (uy -ℤ pos 30000) 0
  wire (ux +ℤ pos 14000) (uy -ℤ pos 28810) (ux +ℤ pos 14000) (uy -ℤ pos 30000)
  power_symbol (codes "GND") (ux +ℤ pos 14000) (uy -ℤ pos 20000) 0
  wire (ux +ℤ pos 14000) (uy -ℤ pos 21190) (ux +ℤ pos 14000) (uy -ℤ pos 20000)
  power_symbol (codes "GND") ux (uy +ℤ pos 25000) 0
  wire ux (uy +ℤ pos 19050) ux (uy +ℤ pos 25000)
  let hl_x : ℤ = ux -ℤ pos 22000
  wire (ux -ℤ pos 12700) (uy +ℤ pos 12700) hl_x (uy +ℤ pos 12700)
  hier_label (codes "UART1_MIO49") hl_x (uy +ℤ pos 12700) bidirectional 180
  wire (ux -ℤ pos 12700) (uy +ℤ pos 10160) hl_x (uy +ℤ pos 10160)
  hier_label (codes "UART1_MIO48") hl_x (uy +ℤ pos 10160) bidirectional 180
  resistor (codes "10K") (ux -ℤ pos 18000) (uy -ℤ pos 4000) 0 []
  wire (ux -ℤ pos 12700) uy (ux -ℤ pos 18000) uy
  wire (ux -ℤ pos 18000) (uy -ℤ pos 190) (ux -ℤ pos 18000) uy
  power_symbol (codes "+3V3") (ux -ℤ pos 18000) (uy -ℤ pos 11000) 0
  wire (ux -ℤ pos 18000) (uy -ℤ pos 7810) (ux -ℤ pos 18000) (uy -ℤ pos 11000)
  cap (codes "100n") (ux +ℤ pos 20000) uy 0 (codes "Capacitor_SMD:C_0402_1005Metric")
  wire (ux +ℤ pos 12700) uy (ux +ℤ pos 20000) uy
  wire (ux +ℤ pos 20000) (uy -ℤ pos 3810) (ux +ℤ pos 20000) uy
  power_symbol (codes "GND") (ux +ℤ pos 20000) (uy +ℤ pos 7000) 0
  wire (ux +ℤ pos 20000) (uy +ℤ pos 3810) (ux +ℤ pos 20000) (uy +ℤ pos 7000)
  let conn_x : ℤ = ux +ℤ pos 50000
  tallied connectors
  symbol_instance (codes "Connector:USB_B_Micro") (next conn_idx) (codes "USB_Micro_B") conn_x uy 1
      0 (codes "Connector_USB:USB_Micro-B_Molex_47346-0001") ((words "1 2 3 4 5 6"))
  resistor (codes "22R") (ux +ℤ pos 30000) (uy +ℤ pos 12700) 90 []
  wire (ux +ℤ pos 12700) (uy +ℤ pos 12700) (ux +ℤ pos 30000 -ℤ pos 3810) (uy +ℤ pos 12700)
  wire (ux +ℤ pos 30000 +ℤ pos 3810) (uy +ℤ pos 12700) (conn_x -ℤ pos 10000) (uy +ℤ pos 12700)
  wire (conn_x -ℤ pos 10000) (uy +ℤ pos 12700) (conn_x -ℤ pos 10000) uy
  wire (conn_x -ℤ pos 10000) uy (conn_x -ℤ pos 6350) uy
  resistor (codes "22R") (ux +ℤ pos 30000) (uy +ℤ pos 10160) 90 []
  wire (ux +ℤ pos 12700) (uy +ℤ pos 10160) (ux +ℤ pos 30000 -ℤ pos 3810) (uy +ℤ pos 10160)
  wire (ux +ℤ pos 30000 +ℤ pos 3810) (uy +ℤ pos 10160) (conn_x -ℤ pos 12000) (uy +ℤ pos 10160)
  wire (conn_x -ℤ pos 12000) (uy +ℤ pos 10160) (conn_x -ℤ pos 12000) (uy +ℤ pos 2540)
  wire (conn_x -ℤ pos 12000) (uy +ℤ pos 2540) (conn_x -ℤ pos 6350) (uy +ℤ pos 2540)
  power_symbol (codes "+5V") (conn_x -ℤ pos 6350) (uy +ℤ pos 10000) 0
  wire (conn_x -ℤ pos 6350) (uy +ℤ pos 5080) (conn_x -ℤ pos 6350) (uy +ℤ pos 10000)
  power_symbol (codes "GND") (conn_x -ℤ pos 6350) (uy -ℤ pos 10000) 0
  wire (conn_x -ℤ pos 6350) (uy -ℤ pos 5080) (conn_x -ℤ pos 6350) (uy -ℤ pos 10000)
  wire (conn_x -ℤ pos 6350) (uy -ℤ pos 7620) (conn_x -ℤ pos 6350) (uy -ℤ pos 10000)

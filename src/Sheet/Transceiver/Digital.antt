-- ===== src/Sheet/Transceiver/Digital.antt =====
-- hardware/cirradio-devboard/gen_ad9361.py: the data and control interfaces of the transceiver.
use cirradio.Prelude.{
  List, Text, [], codes, decimal, gather, negsuc, pos, range, ℤ, ◌*◌, ◌++◌, ◌+ℤ◌, ◌-ℤ◌, ◌∷◌, words,
}
use cirradio.Sheet.{
  Step, bidirectional, fixed, hier_label, power_symbol, resistor, symbol_instance, text_note, wire,
  ◌>>◌,
}

abbrev unit1_pins : List Text
unit1_pins =
    (words "L3 L2 L5 L4 K3 K2 K5 K4 J3 J2 J5 J4 H3 H2 H5 H4 G3 G2 G5 G4 F3 F2 F5 F4 M5 M4 M3"
      ++ words "M2 E3 E2 E5 E4")

abbrev unit2_pins : List Text
unit2_pins = (words "A6 A5 A4 A7 D1 C1 B1 A1 D3 D4 D5 C2 C3 C4 C5 B2 B3 B4 B5 A3")

-- Unit 1: the LVDS data interface.
unfoldable pub lvds_interface : List Step
unfolding ◌+ℤ◌ ◌-ℤ◌
lvds_interface = do
  text_note (codes "AD9361 LVDS DATA INTERFACE (Unit 1)") (pos 30000) (pos 20000) (pos 2000)
  text_note (codes "16 LVDS pairs: P0_D[11:0], DATA_CLK, FB_CLK, RX_FRAME, TX_FRAME") (pos 30000)
      (pos 25000) (pos 1270)
  let u1_x : ℤ = pos 100000
  let u1_y : ℤ = pos 80000
  symbol_instance (codes "cirradio:AD9361BBCZ") (fixed (codes "U10")) (codes "AD9361BBCZ") u1_x u1_y
      1 0 (codes "cirradio:BGA-144_12x12_0.8mm") unit1_pins
  let hl_right : ℤ = u1_x +ℤ pos 25000
  gather {A = Text × ℤ}
      (λ (name, y_off). do
        let y : ℤ = u1_y +ℤ y_off
        wire (u1_x +ℤ pos 17780) y hl_right y
        hier_label name hl_right y bidirectional 0)
      ((codes "P0_D0_P", pos 40640)
        ∷ (codes "P0_D0_N", pos 38100)
        ∷ (codes "P0_D1_P", pos 35560)
        ∷ (codes "P0_D1_N", pos 33020)
        ∷ (codes "P0_D2_P", pos 30480)
        ∷ (codes "P0_D2_N", pos 27940)
        ∷ (codes "P0_D3_P", pos 25400)
        ∷ (codes "P0_D3_N", pos 22860)
        ∷ (codes "P0_D4_P", pos 20320)
        ∷ (codes "P0_D4_N", pos 17780)
        ∷ (codes "P0_D5_P", pos 15240)
        ∷ (codes "P0_D5_N", pos 12700)
        ∷ (codes "P0_D6_P", pos 10160)
        ∷ (codes "P0_D6_N", pos 7620)
        ∷ (codes "P0_D7_P", pos 5080)
        ∷ (codes "P0_D7_N", pos 2540)
        ∷ (codes "P0_D8_P", pos 0)
        ∷ (codes "P0_D8_N", negsuc 2539)
        ∷ (codes "P0_D9_P", negsuc 5079)
        ∷ (codes "P0_D9_N", negsuc 7619)
        ∷ (codes "P0_D10_P", negsuc 10159)
        ∷ (codes "P0_D10_N", negsuc 12699)
        ∷ (codes "P0_D11_P", negsuc 15239)
        ∷ (codes "P0_D11_N", negsuc 17779)
        ∷ [])
  let hl_left : ℤ = u1_x -ℤ pos 25000
  gather {A = Text × ℤ}
      (λ (name, y_off). do
        let y : ℤ = u1_y +ℤ y_off
        wire (u1_x -ℤ pos 17780) y hl_left y
        hier_label name hl_left y bidirectional 180)
      ((codes "DATA_CLK_P", pos 40640)
        ∷ (codes "DATA_CLK_N", pos 38100)
        ∷ (codes "FB_CLK_P", pos 35560)
        ∷ (codes "FB_CLK_N", pos 33020)
        ∷ (codes "RX_FRAME_P", pos 27940)
        ∷ (codes "RX_FRAME_N", pos 25400)
        ∷ (codes "TX_FRAME_P", pos 22860)
        ∷ (codes "TX_FRAME_N", pos 20320)
        ∷ [])

-- Unit 2: SPI and control.
unfoldable pub spi_control : List Step
unfolding decimal ◌+ℤ◌ ◌-ℤ◌
spi_control = do
  text_note (codes "AD9361 SPI + CONTROL (Unit 2)") (pos 200000) (pos 20000) (pos 2000)
  text_note (codes "SPI with 33R series, CTRL_IN/OUT, EN_AGC, ENABLE, TXNRX, RESETB") (pos 200000)
      (pos 25000) (pos 1270)
  let u2_x : ℤ = pos 270000
  let u2_y : ℤ = pos 65000
  symbol_instance (codes "cirradio:AD9361BBCZ") (fixed (codes "U10")) (codes "AD9361BBCZ") u2_x u2_y
      2 0 (codes "cirradio:BGA-144_12x12_0.8mm") unit2_pins
  let spi_hl_x : ℤ = u2_x -ℤ pos 35000
  gather {A = Text × Text × ℤ}
      (λ (label_name, _, y_off). do
        let y : ℤ = u2_y +ℤ y_off
        let res_x : ℤ = u2_x -ℤ pos 25000
        resistor (codes "33R") res_x y 90 []
        wire (u2_x -ℤ pos 15240) y (res_x +ℤ pos 3810) y
        wire (res_x -ℤ pos 3810) y spi_hl_x y
        hier_label label_name spi_hl_x y bidirectional 180)
      ((codes "AD_SCLK", codes "SPI_CLK", pos 17780)
        ∷ (codes "AD_MOSI", codes "SPI_DI", pos 15240)
        ∷ (codes "AD_MISO", codes "SPI_DO", pos 12700)
        ∷ (codes "AD_CS_N", codes "SPI_ENB", pos 10160)
        ∷ [])
  let ctrl_in_hl_x : ℤ = u2_x -ℤ pos 30000
  gather {A = Text × ℤ}
      (λ (label_name, y_off). do
        let y : ℤ = u2_y +ℤ y_off
        wire (u2_x -ℤ pos 15240) y ctrl_in_hl_x y
        hier_label label_name ctrl_in_hl_x y (codes "input") 180)
      ((codes "EN_AGC", pos 5080) ∷ (codes "ENABLE", pos 2540) ∷ (codes "TXNRX", pos 0) ∷ [])
  let resetb_y : ℤ = u2_y -ℤ pos 5080
  wire (u2_x -ℤ pos 15240) resetb_y ctrl_in_hl_x resetb_y
  hier_label (codes "RESETB") ctrl_in_hl_x resetb_y (codes "input") 180
  let pu_x : ℤ = u2_x -ℤ pos 22000
  resistor (codes "10K") pu_x (resetb_y -ℤ pos 7000) 0 []
  wire pu_x (resetb_y -ℤ pos 3190) pu_x resetb_y
  wire pu_x (resetb_y -ℤ pos 10810) pu_x (resetb_y -ℤ pos 13000)
  power_symbol (codes "+1V3_AD") pu_x (resetb_y -ℤ pos 13000) 0
  let ctrl_right_hl : ℤ = u2_x +ℤ pos 22000
  gather
      (λ i. do
        let y : ℤ = u2_y +ℤ pos 17780 -ℤ pos (i * 2540)
        wire (u2_x +ℤ pos 15240) y ctrl_right_hl y
        hier_label (codes "CTRL_IN" ++ decimal i) ctrl_right_hl y (codes "input") 0)
      (range 4)
  gather
      (λ i. do
        let y : ℤ = u2_y +ℤ pos 5080 -ℤ pos (i * 2540)
        wire (u2_x +ℤ pos 15240) y ctrl_right_hl y
        hier_label (codes "CTRL_OUT" ++ decimal i) ctrl_right_hl y (codes "output") 0)
      (range 8)

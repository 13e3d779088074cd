-- ===== src/Sheet/Processor/SpareBanks.antt =====
-- hardware/cirradio-devboard/gen_zynq.py: banks 13 and 12, and the spare pins.
use cirradio.Prelude.{
  List, Text, [], codes, decimal, gather, if◌then◌else◌, pos, range, ℤ, ◌*◌, ◌++◌, ◌+ℤ◌, ◌-ℤ◌, ◌==◌,
  words,
}
use cirradio.Sheet.{Step, bidirectional, fixed, hier_label, symbol_instance, text_note, wire, ◌>>◌}

abbrev b13_pins : List Text
b13_pins =
    (words "A14 B14 C14 D14 E14 F14 A15 B15 C15 D15 E15 F15 A16 B16 C16 D16 E16 F16 A17 B17"
      ++ (words "C17 D17 E17 F17 A18 B18 C18 D18 E18 F18 A19 B19 C19 D19 E19 F19 A20 B20 C20 D20"
          ++ words "E20 F20 A21 B21 C21 D21 E21 F21 A22 B22"))

abbrev b12_pins : List Text
b12_pins =
    (words "A23 B23 C23 D23 E23 F23 A24 B24 C24 D24 E24 F24 A25 B25 C25 D25 E25 F25 A26 B26"
      ++ (words "C26 D26 E26 F26 A27 B27 C27 D27 E27 F27 A28 B28 C28 D28 E28 F28 A29 B29 C29 D29"
          ++ words "E29 F29 A30 B30 C30 D30 G14 G15 G16 G17"))

abbrev spare_pins : List Text
spare_pins =
    (words "H14 H15 H16 H17 J14 J15 J16 J17 K14 K15 K16 K17 L14 L15 L16 L17 M14 M15 M16 M17"
      ++ (words "N14 N15 N16 N17 P14 P15 P16 P17 R14 R15 R16 R17 T14 T15 T16 T17 U14 U15 U16 U17"
          ++ words "V14 V15 V16 V17 W14 W15 W16 W17 Y6 Y7"))

-- Unit 6: bank 13.
unfoldable pub bank_13 : List Step
unfolding decimal ◌+ℤ◌ ◌-ℤ◌
bank_13 = do
  text_note (codes "PL BANK 13 HR - AD9361 SPI/CTRL (Unit 6)") (pos 30000) (pos 510000) (pos 2000)
  let u6_x : ℤ = pos 65000
  let u6_y : ℤ = pos 590000
  symbol_instance (codes "cirradio:XC7Z045") (fixed (codes "U1")) (codes "XC7Z045-2FFG900I") u6_x
      u6_y 6 0 [] b13_pins
  let b13_hl_x : ℤ = u6_x +ℤ pos 18000
  gather
      (λ i. do
        let y : ℤ = u6_y -ℤ pos 66040 +ℤ pos 63500 +ℤ pos 2540 -ℤ pos (i * 2540)
        let y : ℤ = if i == 49 then u6_y -ℤ pos 66040 -ℤ pos 63500 +ℤ pos 2540 else y
        wire (u6_x +ℤ pos 10160) y b13_hl_x y
        hier_label (codes "AD9361_B13_IO" ++ decimal i) b13_hl_x y bidirectional 0)
      (range 50)

-- Unit 7: bank 12.
unfoldable pub bank_12 : List Step
unfolding decimal ◌+ℤ◌ ◌-ℤ◌
bank_12 = do
  text_note (codes "PL BANK 12 HR - GPIO/LEDS/1PPS (Unit 7)") (pos 170000) (pos 510000) (pos 2000)
  let u7_x : ℤ = pos 205000
  let u7_y : ℤ = pos 590000
  symbol_instance (codes "cirradio:XC7Z045") (fixed (codes "U1")) (codes "XC7Z045-2FFG900I") u7_x
      u7_y 7 0 [] b12_pins
  let b12_hl_x : ℤ = u7_x +ℤ pos 18000
  gather
      (λ i. do
        let y : ℤ = u7_y -ℤ pos 66040 +ℤ pos 63500 +ℤ pos 2540 -ℤ pos (i * 2540)
        let y : ℤ = if i == 49 then u7_y -ℤ pos 66040 -ℤ pos 63500 +ℤ pos 2540 else y
        wire (u7_x +ℤ pos 10160) y b12_hl_x y
        hier_label (codes "GPIO_B12_IO" ++ decimal i) b12_hl_x y bidirectional 0)
      (range 50)

-- Unit 8: spare pins.
unfoldable pub spare_unit : List Step
spare_unit = do
  text_note (codes "PL SPARE (Unit 8)") (pos 30000) (pos 680000) (pos 2000)
  let u8_x : ℤ = pos 65000
  let u8_y : ℤ = pos 760000
  symbol_instance (codes "cirradio:XC7Z045") (fixed (codes "U1")) (codes "XC7Z045-2FFG900I") u8_x
      u8_y 8 0 [] spare_pins

-- ===== src/Sheet/Processor/Mio.antt =====
-- hardware/cirradio-devboard/gen_zynq.py: the MIO pins.
use cirradio.Prelude.{
  List, Text, [], codes, decimal, gather, pos, range_from, ℤ, ◌*◌, ◌++◌, ◌+ℤ◌, ◌-ℤ◌, words,
}
use cirradio.Sheet.{Step, bidirectional, fixed, hier_label, symbol_instance, text_note, wire, ◌>>◌}

abbrev mio_pin_nums : List Text
mio_pin_nums =
    (words "A4 B4 A5 B5 A6 B6 A7 E5 D5 E6 B7 D6 C7 E7 D7 B8 A9 B9 E8 D8 C9 E9 D9 A10 E10 D10"
      ++ (words "C11 B11 A11 E11 D11 A12 B12 C12 D12 E12 A13 B13 C13 D13 E13 F7 F8 F9 F10 F11 F12"
          ++ words "F13 G6 G9 G10 G11 G12 G13"))

-- Unit 2: the MIO pins.
unfoldable pub mio_unit : List Step
unfolding decimal ◌+ℤ◌ ◌-ℤ◌
mio_unit = do
  text_note (codes "PS MIO (Unit 2)") (pos 30000) (pos 150000) (pos 2000)
  text_note (codes "MIO pin assignments to peripheral sheets") (pos 30000) (pos 155000) (pos 1270)
  let u2_x : ℤ = pos 80000
  let u2_y : ℤ = pos 230000
  symbol_instance (codes "cirradio:XC7Z045") (fixed (codes "U1")) (codes "XC7Z045-2FFG900I") u2_x
      u2_y 2 0 [] mio_pin_nums
  let hl_x : ℤ = u2_x +ℤ pos 18000
  text_note (codes "QSPI") (hl_x +ℤ pos 5000) (u2_y -ℤ pos 72390 +ℤ pos 68580 -ℤ pos 3000)
      (pos 1000)
  gather
      (λ i. do
        let y : ℤ = u2_y -ℤ pos 72390 +ℤ pos 71120 -ℤ pos (i * 2540)
        wire (u2_x +ℤ pos 10160) y hl_x y
        hier_label (codes "QSPI_MIO" ++ decimal i) hl_x y bidirectional 0)
      (range_from 1 6)
  text_note (codes "GEM0 RGMII") (hl_x +ℤ pos 5000)
      (u2_y -ℤ pos 72390 +ℤ pos 71120 -ℤ pos (16 * 2540) -ℤ pos 3000) (pos 1000)
  gather
      (λ i. do
        let y : ℤ = u2_y -ℤ pos 72390 +ℤ pos 71120 -ℤ pos (i * 2540)
        wire (u2_x +ℤ pos 10160) y hl_x y
        hier_label (codes "ETH_MIO" ++ decimal i) hl_x y bidirectional 0)
      (range_from 16 12)
  text_note (codes "USB0 ULPI") (hl_x +ℤ pos 5000)
      (u2_y -ℤ pos 72390 +ℤ pos 71120 -ℤ pos (28 * 2540) -ℤ pos 3000) (pos 1000)
  gather
      (λ i. do
        let y : ℤ = u2_y -ℤ pos 72390 +ℤ pos 71120 -ℤ pos (i * 2540)
        wire (u2_x +ℤ pos 10160) y hl_x y
        hier_label (codes "USB_MIO" ++ decimal i) hl_x y bidirectional 0)
      (range_from 28 12)
  text_note (codes "SD0") (hl_x +ℤ pos 5000)
      (u2_y -ℤ pos 72390 +ℤ pos 71120 -ℤ pos (40 * 2540) -ℤ pos 3000) (pos 1000)
  gather
      (λ i. do
        let y : ℤ = u2_y -ℤ pos 72390 +ℤ pos 71120 -ℤ pos (i * 2540)
        wire (u2_x +ℤ pos 10160) y hl_x y
        hier_label (codes "SD_MIO" ++ decimal i) hl_x y bidirectional 0)
      (range_from 40 6)
  text_note (codes "UART0") (hl_x +ℤ pos 5000)
      (u2_y -ℤ pos 72390 +ℤ pos 71120 -ℤ pos (46 * 2540) -ℤ pos 3000) (pos 1000)
  gather
      (λ i. do
        let y : ℤ = u2_y -ℤ pos 72390 +ℤ pos 71120 -ℤ pos (i * 2540)
        wire (u2_x +ℤ pos 10160) y hl_x y
        hier_label (codes "UART0_MIO" ++ decimal i) hl_x y bidirectional 0)
      (range_from 46 2)
  text_note (codes "UART1") (hl_x +ℤ pos 5000)
      (u2_y -ℤ pos 72390 +ℤ pos 71120 -ℤ pos (48 * 2540) -ℤ pos 3000) (pos 1000)
  gather
      (λ i. do
        let y : ℤ = u2_y -ℤ pos 72390 +ℤ pos 71120 -ℤ pos (i * 2540)
        wire (u2_x +ℤ pos 10160) y hl_x y
        hier_label (codes "UART1_MIO" ++ decimal i) hl_x y bidirectional 0)
      (range_from 48 2)
  text_note (codes "I2C0") (hl_x +ℤ pos 5000)
      (u2_y -ℤ pos 72390 +ℤ pos 71120 -ℤ pos (50 * 2540) -ℤ pos 3000) (pos 1000)
  gather
      (λ i. do
        let y : ℤ = u2_y -ℤ pos 72390 +ℤ pos 71120 -ℤ pos (i * 2540)
        wire (u2_x +ℤ pos 10160) y hl_x y
        hier_label (codes "I2C_MIO" ++ decimal i) hl_x y bidirectional 0)
      (range_from 50 2)
  let y0 : ℤ = u2_y -ℤ pos 72390 +ℤ pos 71120
  wire (u2_x +ℤ pos 10160) y0 hl_x y0
  text_note (codes "BOOT_CS") (hl_x +ℤ pos 2000) y0 (pos 1000)
  gather
      (λ i. do
        let y : ℤ = u2_y -ℤ pos 72390 +ℤ pos 71120 -ℤ pos (i * 2540)
        wire (u2_x +ℤ pos 10160) y hl_x y
        hier_label (codes "MIO" ++ decimal i) hl_x y bidirectional 0)
      (range_from 7 9 ++ range_from 52 2)

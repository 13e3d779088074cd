-- ===== src/Sheet/Processor/Jtag.antt =====
-- hardware/cirradio-devboard/gen_zynq.py: the JTAG header.
use cirradio.Prelude.{List, [], codes, pos, ℤ, ◌+ℤ◌, ◌-ℤ◌, words}
use cirradio.Sheet.{Step, fixed, power_symbol, resistor, symbol_instance, text_note, wire, ◌>>◌}

-- The JTAG header.
unfoldable pub jtag_header : List Step
unfolding ◌+ℤ◌ ◌-ℤ◌
jtag_header = do
  let u1_x : ℤ = pos 80000
  let u1_y : ℤ = pos 70000
  text_note (codes "JTAG (ARM 2x7 1.27mm)") (pos 130000) (pos 35000) (pos 1270)
  let jtag_x : ℤ = pos 155000
  let jtag_y : ℤ = pos 60000
  symbol_instance (codes "Connector_Generic:Conn_02x07_Odd_Even") (fixed (codes "J2"))
      (codes "JTAG") jtag_x jtag_y 1 0
      (codes "Connector_PinHeader_1.27mm:PinHeader_2x07_P1.27mm_Vertical")
      ((words "1 2 3 4 5 6 7 8 9 10 11 12 13 14"))
  power_symbol (codes "+3V3") (jtag_x -ℤ pos 12000) (jtag_y -ℤ pos 12000) 0
  wire (jtag_x -ℤ pos 3810) (jtag_y +ℤ pos 7620) (jtag_x -ℤ pos 12000) (jtag_y +ℤ pos 7620)
  wire (jtag_x -ℤ pos 12000) (jtag_y +ℤ pos 7620) (jtag_x -ℤ pos 12000) (jtag_y -ℤ pos 12000)
  power_symbol (codes "GND") (jtag_x -ℤ pos 10000) (jtag_y +ℤ pos 14000) 0
  wire (jtag_x -ℤ pos 3810) (jtag_y +ℤ pos 5080) (jtag_x -ℤ pos 10000) (jtag_y +ℤ pos 5080)
  wire (jtag_x -ℤ pos 10000) (jtag_y +ℤ pos 5080) (jtag_x -ℤ pos 10000) (jtag_y +ℤ pos 14000)
  wire (jtag_x -ℤ pos 3810) (jtag_y +ℤ pos 2540) (jtag_x -ℤ pos 10000) (jtag_y +ℤ pos 2540)
  wire (jtag_x -ℤ pos 10000) (jtag_y +ℤ pos 2540) (jtag_x -ℤ pos 10000) (jtag_y +ℤ pos 5080)
  wire (jtag_x -ℤ pos 3810) (jtag_y -ℤ pos 2540) (jtag_x -ℤ pos 10000) (jtag_y -ℤ pos 2540)
  wire (jtag_x -ℤ pos 10000) (jtag_y -ℤ pos 2540) (jtag_x -ℤ pos 10000) (jtag_y +ℤ pos 2540)
  wire (jtag_x -ℤ pos 3810) (jtag_y -ℤ pos 5080) (jtag_x -ℤ pos 10000) (jtag_y -ℤ pos 5080)
  wire (jtag_x -ℤ pos 10000) (jtag_y -ℤ pos 5080) (jtag_x -ℤ pos 10000) (jtag_y -ℤ pos 2540)
  wire (jtag_x -ℤ pos 3810) (jtag_y -ℤ pos 7620) (jtag_x -ℤ pos 10000) (jtag_y -ℤ pos 7620)
  wire (jtag_x -ℤ pos 10000) (jtag_y -ℤ pos 7620) (jtag_x -ℤ pos 10000) (jtag_y -ℤ pos 5080)
  resistor (codes "33R") (jtag_x +ℤ pos 15000) (jtag_y +ℤ pos 7620) 90 []
  wire (jtag_x +ℤ pos 6350) (jtag_y +ℤ pos 7620) (jtag_x +ℤ pos 15000 -ℤ pos 3810)
      (jtag_y +ℤ pos 7620)
  wire (jtag_x +ℤ pos 15000 +ℤ pos 3810) (jtag_y +ℤ pos 7620) (jtag_x +ℤ pos 22000)
      (jtag_y +ℤ pos 7620)
  wire (jtag_x +ℤ pos 22000) (jtag_y +ℤ pos 7620) (jtag_x +ℤ pos 22000) u1_y
  wire (jtag_x +ℤ pos 22000) u1_y (u1_x -ℤ pos 15240) u1_y
  resistor (codes "33R") (jtag_x +ℤ pos 15000) (jtag_y +ℤ pos 5080) 90 []
  wire (jtag_x +ℤ pos 6350) (jtag_y +ℤ pos 5080) (jtag_x +ℤ pos 15000 -ℤ pos 3810)
      (jtag_y +ℤ pos 5080)
  wire (jtag_x +ℤ pos 15000 +ℤ pos 3810) (jtag_y +ℤ pos 5080) (jtag_x +ℤ pos 24000)
      (jtag_y +ℤ pos 5080)
  wire (jtag_x +ℤ pos 24000) (jtag_y +ℤ pos 5080) (jtag_x +ℤ pos 24000) (u1_y -ℤ pos 2540)
  wire (jtag_x +ℤ pos 24000) (u1_y -ℤ pos 2540) (u1_x -ℤ pos 15240) (u1_y -ℤ pos 2540)
  wire (jtag_x +ℤ pos 6350) (jtag_y +ℤ pos 2540) (jtag_x +ℤ pos 26000) (jtag_y +ℤ pos 2540)
  wire (jtag_x +ℤ pos 26000) (jtag_y +ℤ pos 2540) (jtag_x +ℤ pos 26000) (u1_y +ℤ pos 2540)
  wire (jtag_x +ℤ pos 26000) (u1_y +ℤ pos 2540) (u1_x -ℤ pos 15240) (u1_y +ℤ pos 2540)
  resistor (codes "33R") (jtag_x +ℤ pos 15000) jtag_y 90 []
  wire (jtag_x +ℤ pos 6350) jtag_y (jtag_x +ℤ pos 15000 -ℤ pos 3810) jtag_y
  wire (jtag_x +ℤ pos 15000 +ℤ pos 3810) jtag_y (jtag_x +ℤ pos 28000) jtag_y
  wire (jtag_x +ℤ pos 28000) jtag_y (jtag_x +ℤ pos 28000) (u1_y +ℤ pos 5080)
  wire (jtag_x +ℤ pos 28000) (u1_y +ℤ pos 5080) (u1_x -ℤ pos 15240) (u1_y +ℤ pos 5080)
  wire (jtag_x +ℤ pos 6350) (jtag_y -ℤ pos 2540) (jtag_x +ℤ pos 30000) (jtag_y -ℤ pos 2540)
  wire (jtag_x +ℤ pos 30000) (jtag_y -ℤ pos 2540) (jtag_x +ℤ pos 30000) (u1_y -ℤ pos 5080)
  wire (jtag_x +ℤ pos 30000) (u1_y -ℤ pos 5080) (u1_x -ℤ pos 15240) (u1_y -ℤ pos 5080)

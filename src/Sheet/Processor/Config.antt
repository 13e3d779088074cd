-- ===== src/Sheet/Processor/Config.antt =====
-- hardware/cirradio-devboard/gen_zynq.py: the configuration pins of the processor.
use cirradio.Prelude.{List, [], codes, pos, ℤ, ◌+ℤ◌, ◌-ℤ◌, ◌∷◌, words}
use cirradio.Sheet.{
  Step, cap, fixed, global_label, passive, pins_2, power_symbol, resistor, symbol_instance,
  text_note, wire, ◌>>◌,
}

-- Unit 1 up to the DONE pin.
unfoldable pub processor_config : List Step
unfolding ◌+ℤ◌ ◌-ℤ◌
processor_config = do
  text_note (codes "ZYNQ-7045 PS CONFIG (Unit 1)") (pos 30000) (pos 20000) (pos 2000)
  text_note (codes "Boot mode, JTAG, clock, reset") (pos 30000) (pos 25000) (pos 1270)
  let u1_x : ℤ = pos 80000
  let u1_y : ℤ = pos 70000
  symbol_instance (codes "cirradio:XC7Z045") (fixed (codes "U1")) (codes "XC7Z045-2FFG900I") u1_x
      u1_y 1 0 [] ((words "C8 B10 C10 T12 U11 T11 G7 G8 H7 H8 R13 P13 N13 M13 L13 C3 E3"))
  text_note (codes "PS_CLK 33.333 MHz") (pos 30000) (pos 35000) (pos 1270)
  let osc_x : ℤ = pos 40000
  let osc_y : ℤ = pos 50000
  symbol_instance (codes "cirradio:DSC1001CI2-33.333") (fixed (codes "Y1")) (codes "33.333MHz")
      osc_x osc_y 1 0 (codes "Package_SO:VDFN-4-1EP_2.5x2.0mm_P0.65mm")
      (codes "1" ∷ codes "2" ∷ codes "3" ∷ codes "4" ∷ [])
  power_symbol (codes "+3V3") osc_x (osc_y -ℤ pos 10000) 0
  wire osc_x (osc_y -ℤ pos 7620) osc_x (osc_y -ℤ pos 10000)
  power_symbol (codes "GND") osc_x (osc_y +ℤ pos 10000) 0
  wire osc_x (osc_y +ℤ pos 7620) osc_x (osc_y +ℤ pos 10000)
  cap (codes "100n") (osc_x +ℤ pos 10000) (osc_y -ℤ pos 4000) 0
      (codes "Capacitor_SMD:C_0402_1005Metric")
  wire (osc_x +ℤ pos 10000) (osc_y -ℤ pos 7810) (osc_x +ℤ pos 10000) (osc_y -ℤ pos 10000)
  power_symbol (codes "+3V3") (osc_x +ℤ pos 10000) (osc_y -ℤ pos 10000) 0
  wire (osc_x +ℤ pos 10000) (osc_y -ℤ pos 190) (osc_x +ℤ pos 10000) (osc_y +ℤ pos 2000)
  power_symbol (codes "GND") (osc_x +ℤ pos 10000) (osc_y +ℤ pos 2000) 0
  wire (osc_x -ℤ pos 7620) (osc_y +ℤ pos 2540) (osc_x -ℤ pos 7620) (osc_y -ℤ pos 7620)
  wire (osc_x -ℤ pos 7620) (osc_y -ℤ pos 7620) osc_x (osc_y -ℤ pos 7620)
  resistor (codes "22R") (pos 55000) (osc_y +ℤ pos 2540) 90 []
  wire (osc_x +ℤ pos 7620) (osc_y +ℤ pos 2540) (pos 55000 -ℤ pos 3810) (osc_y +ℤ pos 2540)
  wire (pos 55000 +ℤ pos 3810) (osc_y +ℤ pos 2540) (u1_x -ℤ pos 15240) (u1_y -ℤ pos 2060)
  wire (pos 55000 +ℤ pos 3810) (osc_y +ℤ pos 2540) (pos 62000) (osc_y +ℤ pos 2540)
  wire (pos 62000) (osc_y +ℤ pos 2540) (pos 62000) (u1_y -ℤ pos 2060)
  wire (pos 62000) (u1_y -ℤ pos 2060) (u1_x -ℤ pos 15240) (u1_y -ℤ pos 2060)
  global_label (codes "PS_POR_B") (u1_x -ℤ pos 25000) (u1_y -ℤ pos 4600) (codes "input") 0
  wire (u1_x -ℤ pos 25000) (u1_y -ℤ pos 4600) (u1_x -ℤ pos 15240) (u1_y -ℤ pos 4600)
  text_note (codes "PS_SRST_B reset") (pos 30000) (pos 90000) (pos 1270)
  let sw_x : ℤ = pos 42000
  let sw_y : ℤ = u1_y -ℤ pos 7140
  symbol_instance (codes "Switch:SW_Push") (fixed (codes "SW2")) (codes "RESET") sw_x sw_y 1 0
      (codes "Button_Switch_SMD:SW_SPST_B3U-1000P") pins_2
  power_symbol (codes "GND") (sw_x -ℤ pos 8000) sw_y 0
  wire (sw_x -ℤ pos 5080) sw_y (sw_x -ℤ pos 8000) sw_y
  wire (sw_x +ℤ pos 5080) sw_y (sw_x +ℤ pos 10000) sw_y
  resistor (codes "10K") (sw_x +ℤ pos 10000) (sw_y -ℤ pos 7000) 0 []
  power_symbol (codes "+1V8") (sw_x +ℤ pos 10000) (sw_y -ℤ pos 14000) 0
  wire (sw_x +ℤ pos 10000) (sw_y -ℤ pos 10810) (sw_x +ℤ pos 10000) (sw_y -ℤ pos 14000)
  wire (sw_x +ℤ pos 10000) (sw_y -ℤ pos 3190) (sw_x +ℤ pos 10000) sw_y
  cap (codes "100n") (sw_x +ℤ pos 16000) (sw_y +ℤ pos 4000) 0
      (codes "Capacitor_SMD:C_0402_1005Metric")
  wire (sw_x +ℤ pos 16000) (sw_y +ℤ pos 190) (sw_x +ℤ pos 16000) sw_y
  wire (sw_x +ℤ pos 10000) sw_y (sw_x +ℤ pos 16000) sw_y
  wire (sw_x +ℤ pos 16000) (sw_y +ℤ pos 7810) (sw_x +ℤ pos 16000) (sw_y +ℤ pos 10000)
  power_symbol (codes "GND") (sw_x +ℤ pos 16000) (sw_y +ℤ pos 10000) 0
  wire (sw_x +ℤ pos 16000) sw_y (u1_x -ℤ pos 15240) sw_y
  text_note (codes "BOOT MODE (JTAG=00, QSPI=01)") (pos 30000) (pos 100000) (pos 1270)
  let dip_x : ℤ = pos 42000
  let dip_y : ℤ = pos 112000
  symbol_instance (codes "Switch:SW_DIP_x02") (fixed (codes "SW1")) (codes "BOOT_MODE") dip_x dip_y
      1 0 (codes "Button_Switch_SMD:SW_DIP_SPSTx02_Slide_6.7x6.64mm_W8.61mm_P2.54mm")
      (codes "1" ∷ codes "2" ∷ codes "3" ∷ codes "4" ∷ [])
  power_symbol (codes "+1V8") (dip_x +ℤ pos 12000) dip_y 0
  wire (dip_x +ℤ pos 6350) (dip_y +ℤ pos 2540) (dip_x +ℤ pos 12000) (dip_y +ℤ pos 2540)
  wire (dip_x +ℤ pos 12000) (dip_y +ℤ pos 2540) (dip_x +ℤ pos 12000) dip_y
  wire (dip_x +ℤ pos 6350) dip_y (dip_x +ℤ pos 12000) dip_y
  resistor (codes "10K") (dip_x -ℤ pos 12000) (dip_y +ℤ pos 2540 +ℤ pos 5000) 0 []
  wire (dip_x -ℤ pos 6350) (dip_y +ℤ pos 2540) (dip_x -ℤ pos 12000) (dip_y +ℤ pos 2540)
  wire (dip_x -ℤ pos 12000) (dip_y +ℤ pos 2540) (dip_x -ℤ pos 12000) (dip_y +ℤ pos 2540 +ℤ pos 1270)
  power_symbol (codes "GND") (dip_x -ℤ pos 12000) (dip_y +ℤ pos 2540 +ℤ pos 10000) 0
  wire (dip_x -ℤ pos 12000) (dip_y +ℤ pos 2540 +ℤ pos 8810) (dip_x -ℤ pos 12000)
      (dip_y +ℤ pos 2540 +ℤ pos 10000)
  resistor (codes "10K") (dip_x -ℤ pos 18000) (dip_y +ℤ pos 5000) 0 []
  wire (dip_x -ℤ pos 6350) dip_y (dip_x -ℤ pos 18000) dip_y
  wire (dip_x -ℤ pos 18000) dip_y (dip_x -ℤ pos 18000) (dip_y +ℤ pos 1190)
  power_symbol (codes "GND") (dip_x -ℤ pos 18000) (dip_y +ℤ pos 10000) 0
  wire (dip_x -ℤ pos 18000) (dip_y +ℤ pos 8810) (dip_x -ℤ pos 18000) (dip_y +ℤ pos 10000)
  wire (dip_x -ℤ pos 12000) (dip_y +ℤ pos 2540) (u1_x -ℤ pos 15240) (u1_y -ℤ pos 12220)
  wire (dip_x -ℤ pos 18000) dip_y (dip_x -ℤ pos 18000) (u1_y -ℤ pos 14760)
  wire (dip_x -ℤ pos 18000) (u1_y -ℤ pos 14760) (u1_x -ℤ pos 15240) (u1_y -ℤ pos 14760)
  resistor (codes "10K") (u1_x -ℤ pos 25000) (u1_y -ℤ pos 17300) 0 []
  wire (u1_x -ℤ pos 25000) (u1_y -ℤ pos 17300 +ℤ pos 3810) (u1_x -ℤ pos 25000)
      (u1_y -ℤ pos 17300 +ℤ pos 6000)
  power_symbol (codes "GND") (u1_x -ℤ pos 25000) (u1_y -ℤ pos 17300 +ℤ pos 6000) 0
  wire (u1_x -ℤ pos 25000) (u1_y -ℤ pos 17300 -ℤ pos 3810) (u1_x -ℤ pos 25000)
      (u1_y -ℤ pos 17300 -ℤ pos 5000)
  wire (u1_x -ℤ pos 25000) (u1_y -ℤ pos 17300 -ℤ pos 5000) (u1_x -ℤ pos 15240) (u1_y -ℤ pos 17300)
  resistor (codes "10K") (u1_x -ℤ pos 25000) (u1_y -ℤ pos 19840) 0 []
  wire (u1_x -ℤ pos 25000) (u1_y -ℤ pos 19840 +ℤ pos 3810) (u1_x -ℤ pos 25000)
      (u1_y -ℤ pos 19840 +ℤ pos 6000)
  power_symbol (codes "GND") (u1_x -ℤ pos 25000) (u1_y -ℤ pos 19840 +ℤ pos 6000) 0
  wire (u1_x -ℤ pos 25000) (u1_y -ℤ pos 19840 -ℤ pos 3810) (u1_x -ℤ pos 25000)
      (u1_y -ℤ pos 19840 -ℤ pos 5000)
  wire (u1_x -ℤ pos 25000) (u1_y -ℤ pos 19840 -ℤ pos 5000) (u1_x -ℤ pos 15240) (u1_y -ℤ pos 19840)
  resistor (codes "4K7") (u1_x +ℤ pos 25000) (u1_y -ℤ pos 2060) 90 []
  wire (u1_x +ℤ pos 15240) (u1_y -ℤ pos 2060) (u1_x +ℤ pos 25000 -ℤ pos 3810) (u1_y -ℤ pos 2060)
  power_symbol (codes "+1V8") (u1_x +ℤ pos 25000) (u1_y -ℤ pos 2060 -ℤ pos 8000) 0
  wire (u1_x +ℤ pos 25000 +ℤ pos 3810) (u1_y -ℤ pos 2060) (u1_x +ℤ pos 30000) (u1_y -ℤ pos 2060)
  wire (u1_x +ℤ pos 30000) (u1_y -ℤ pos 2060) (u1_x +ℤ pos 30000) (u1_y -ℤ pos 2060 -ℤ pos 8000)
  wire (u1_x +ℤ pos 30000) (u1_y -ℤ pos 2060 -ℤ pos 8000) (u1_x +ℤ pos 25000)
      (u1_y -ℤ pos 2060 -ℤ pos 8000)

-- The DONE LED, whose symbol `main` writes out by hand, and the programming pins. There its
-- reference stands 0.4 mm higher than here, and its value 0.6 mm lower.
unfoldable pub done_and_program : List Step
unfolding ◌+ℤ◌ ◌-ℤ◌
done_and_program = do
  let u1_x : ℤ = pos 80000
  let u1_y : ℤ = pos 70000
  text_note (codes "DONE LED") (u1_x +ℤ pos 20000) (u1_y -ℤ pos 4600 -ℤ pos 3000) (pos 1000)
  resistor (codes "330R") (u1_x +ℤ pos 25000) (u1_y -ℤ pos 4600) 90 []
  wire (u1_x +ℤ pos 15240) (u1_y -ℤ pos 4600) (u1_x +ℤ pos 25000 -ℤ pos 3810) (u1_y -ℤ pos 4600)
  symbol_instance (codes "Device:LED") (fixed (codes "D3")) (codes "GREEN") (u1_x +ℤ pos 35000)
      (u1_y -ℤ pos 4600) 1 0 (codes "LED_SMD:LED_0603_1608Metric") pins_2
  wire (u1_x +ℤ pos 25000 +ℤ pos 3810) (u1_y -ℤ pos 4600) (u1_x +ℤ pos 35000 -ℤ pos 3810)
      (u1_y -ℤ pos 4600)
  wire (u1_x +ℤ pos 35000 +ℤ pos 3810) (u1_y -ℤ pos 4600) (u1_x +ℤ pos 42000) (u1_y -ℤ pos 4600)
  power_symbol (codes "GND") (u1_x +ℤ pos 42000) (u1_y -ℤ pos 4600) 0
  resistor (codes "4K7") (u1_x +ℤ pos 22000) (u1_y -ℤ pos 4600 -ℤ pos 6000) 0 []
  wire (u1_x +ℤ pos 22000) (u1_y -ℤ pos 4600 -ℤ pos 6000 -ℤ pos 3810) (u1_x +ℤ pos 22000)
      (u1_y -ℤ pos 4600 -ℤ pos 12000)
  power_symbol (codes "+1V8") (u1_x +ℤ pos 22000) (u1_y -ℤ pos 4600 -ℤ pos 12000) 0
  wire (u1_x +ℤ pos 22000) (u1_y -ℤ pos 4600 -ℤ pos 6000 +ℤ pos 3810) (u1_x +ℤ pos 22000)
      (u1_y -ℤ pos 4600)
  resistor (codes "4K7") (u1_x +ℤ pos 25000) (u1_y -ℤ pos 7140) 90 []
  wire (u1_x +ℤ pos 15240) (u1_y -ℤ pos 7140) (u1_x +ℤ pos 25000 -ℤ pos 3810) (u1_y -ℤ pos 7140)
  wire (u1_x +ℤ pos 25000 +ℤ pos 3810) (u1_y -ℤ pos 7140) (u1_x +ℤ pos 30000) (u1_y -ℤ pos 7140)
  wire (u1_x +ℤ pos 30000) (u1_y -ℤ pos 7140) (u1_x +ℤ pos 30000) (u1_y -ℤ pos 15000)
  power_symbol (codes "+1V8") (u1_x +ℤ pos 30000) (u1_y -ℤ pos 15000) 0
  global_label (codes "+1V8") (u1_x +ℤ pos 22000) (u1_y -ℤ pos 12220) passive 0
  wire (u1_x +ℤ pos 15240) (u1_y -ℤ pos 12220) (u1_x +ℤ pos 22000) (u1_y -ℤ pos 12220)
  wire (u1_x +ℤ pos 15240) (u1_y -ℤ pos 14760) (u1_x +ℤ pos 22000) (u1_y -ℤ pos 14760)
  global_label (codes "+1V8") (u1_x +ℤ pos 22000) (u1_y -ℤ pos 14760) passive 0

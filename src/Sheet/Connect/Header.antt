-- ===== src/Sheet/Connect/Header.antt =====
-- hardware/cirradio-devboard/gen_connectors.py: the GPIO header.
use cirradio.Prelude.{
  decimal, Bool, List, Text, [], codes, gather, if◌then◌else◌, pos, text_eq, ℕ, ℤ, ◌%◌, ◌*◌, ◌++◌,
  ◌+ℤ◌, ◌-ℤ◌, ◌-◌, ◌/◌, ◌==◌, ◌∷◌, words,
}
use cirradio.Placement.Component.{leading_number}
use cirradio.Sheet.{
  Step, bidirectional, conn_idx, global_label, hier_label, next, power_symbol, resistor,
  symbol_instance, text_note, wire, ◌>>◌,
}

abbrev pin_nums : List Text
pin_nums =
    (words "1 2 3 4 5 6 7 8 9 10 11 12 13 14 15 16 17 18 19 20 21 22 23 24 25 26 27 28 29 30"
      ++ words "31 32 33 34 35 36 37 38 39 40")

-- int(net_name.replace("PL_IO", "")), of a name that starts so, and its text.
io_number : Text → Text
unfolding leading_number decimal
io_number (_ ∷ _ ∷ _ ∷ _ ∷ _ ∷ digits) = decimal (leading_number 0 digits)
io_number net_name = decimal (leading_number 0 net_name)

-- The GPIO header.
unfoldable pub gpio_header : List Step
unfolding ◌+ℤ◌ ◌-ℤ◌ text_eq io_number
gpio_header = do
  text_note (codes "GPIO HEADER (2x20, 0.1 inch pitch)") (pos 30000) (pos 20000) (pos 2000)
  text_note (codes "PL Bank 12 I/O with 33R series protection") (pos 30000) (pos 25000) (pos 1270)
  let hdr_x : ℤ = pos 180000
  let hdr_y : ℤ = pos 90000
  symbol_instance (codes "Connector_Generic:Conn_02x20_Odd_Even") (next conn_idx)
      (codes "GPIO_2x20") hdr_x hdr_y 1 0
      (codes "Connector_PinHeader_2.54mm:PinHeader_2x20_P2.54mm_Vertical") pin_nums
  let pl_io_resistor_x : ℤ = pos 120000
  let pl_io_label_x : ℤ = pos 100000
  gather {A = ℕ × Text × Text}
      (λ (pin_num, net_name, pin_type). do
        let row : ℕ = (pin_num - 1) / 2
        let y : ℤ = hdr_y -ℤ pos 25400 +ℤ pos 24130 -ℤ pos (row * 2540)
        let is_odd : Bool = pin_num % 2 == 1
        let pin_x : ℤ = if is_odd then hdr_x -ℤ pos 3810 else hdr_x +ℤ pos 6350
        (if text_eq pin_type (codes "power")
            then if is_odd
              then (do
                power_symbol net_name (pin_x -ℤ pos 8000) y 90
                wire (pin_x -ℤ pos 8000) y pin_x y)
              else (do
                power_symbol net_name (pin_x +ℤ pos 8000) y 270
                wire pin_x y (pin_x +ℤ pos 8000) y)
            else if text_eq pin_type (codes "gnd")
            then if is_odd
              then (do
                power_symbol (codes "GND") (pin_x -ℤ pos 8000) y 90
                wire (pin_x -ℤ pos 8000) y pin_x y)
              else (do
                power_symbol (codes "GND") (pin_x +ℤ pos 8000) y 270
                wire pin_x y (pin_x +ℤ pos 8000) y)
            else if text_eq pin_type (codes "pl_io")
            then (do
              let bank12_net : Text = codes "GPIO_B12_IO" ++ io_number net_name
              (if is_odd
                  then (do
                    wire pin_x y (pl_io_resistor_x +ℤ pos 3810) y
                    resistor (codes "33R") pl_io_resistor_x y 90
                        (codes "Resistor_SMD:R_0402_1005Metric")
                    wire (pl_io_resistor_x -ℤ pos 3810) y pl_io_label_x y
                    hier_label bank12_net pl_io_label_x y bidirectional 180)
                  else (do
                    let right_res_x : ℤ = hdr_x +ℤ pos 6350 +ℤ pos 18000
                    let right_label_x : ℤ = right_res_x +ℤ pos 18000
                    wire pin_x y (right_res_x -ℤ pos 3810) y
                    resistor (codes "33R") right_res_x y 90 (codes "Resistor_SMD:R_0402_1005Metric")
                    wire (right_res_x +ℤ pos 3810) y right_label_x y
                    hier_label bank12_net right_label_x y bidirectional 0)))
            else if text_eq pin_type (codes "ps_sig")
            then if is_odd
              then (do
                global_label net_name (pin_x -ℤ pos 10000) y bidirectional 0
                wire (pin_x -ℤ pos 10000) y pin_x y)
              else (do
                global_label net_name (pin_x +ℤ pos 10000) y bidirectional 180
                wire pin_x y (pin_x +ℤ pos 10000) y)
            else []))
      ((1, codes "+3V3", codes "power")
        ∷ (2, codes "+5V", codes "power")
        ∷ (3, codes "PL_IO0", codes "pl_io")
        ∷ (4, codes "+5V", codes "power")
        ∷ (5, codes "PL_IO1", codes "pl_io")
        ∷ (6, codes "GND", codes "gnd")
        ∷ (7, codes "PL_IO2", codes "pl_io")
        ∷ (8, codes "PS_UART0_TX", codes "ps_sig")
        ∷ (9, codes "GND", codes "gnd")
        ∷ (10, codes "PS_UART0_RX", codes "ps_sig")
        ∷ (11, codes "PL_IO3", codes "pl_io")
        ∷ (12, codes "PL_IO4", codes "pl_io")
        ∷ (13, codes "PL_IO5", codes "pl_io")
        ∷ (14, codes "GND", codes "gnd")
        ∷ (15, codes "PL_IO6", codes "pl_io")
        ∷ (16, codes "PL_IO7", codes "pl_io")
        ∷ (17, codes "+3V3", codes "power")
        ∷ (18, codes "PL_IO8", codes "pl_io")
        ∷ (19, codes "PL_IO9", codes "pl_io")
        ∷ (20, codes "GND", codes "gnd")
        ∷ (21, codes "PL_IO10", codes "pl_io")
        ∷ (22, codes "PL_IO11", codes "pl_io")
        ∷ (23, codes "PL_IO12", codes "pl_io")
        ∷ (24, codes "PL_IO13", codes "pl_io")
        ∷ (25, codes "GND", codes "gnd")
        ∷ (26, codes "PL_IO14", codes "pl_io")
        ∷ (27, codes "PS_I2C_SDA", codes "ps_sig")
        ∷ (28, codes "PS_I2C_SCL", codes "ps_sig")
        ∷ (29, codes "PL_IO15", codes "pl_io")
        ∷ (30, codes "GND", codes "gnd")
        ∷ (31, codes "PL_IO16", codes "pl_io")
        ∷ (32, codes "PL_IO17", codes "pl_io")
        ∷ (33, codes "PL_IO18", codes "pl_io")
        ∷ (34, codes "GND", codes "gnd")
        ∷ (35, codes "PL_IO19", codes "pl_io")
        ∷ (36, codes "PS_SPI_CE0", codes "ps_sig")
        ∷ (37, codes "PS_SPI_MISO", codes "ps_sig")
        ∷ (38, codes "PS_SPI_MOSI", codes "ps_sig")
        ∷ (39, codes "GND", codes "gnd")
        ∷ (40, codes "PS_SPI_SCLK", codes "ps_sig")
        ∷ [])

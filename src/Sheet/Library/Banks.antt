-- ===== src/Sheet/Library/Banks.antt =====
-- hardware/cirradio-devboard/gen_zynq.py: units 4 to 8 of the symbol of the processor.
use cirradio.Prelude.{
  ℕ, ℤ, pos, suc, List, [], ◌∷◌, ◌++◌, Text, codes, decimal, range, if◌then◌else◌, ◌-ℤ◌, ◌==◌, ◌*◌,
  ◌%◌, ◌/◌, words, map,
}
use cirradio.Sheet.Library.{LibLine, raw, unit_open, pin_line, neg}

-- pin_names_list of units 6 to 8.
unfoldable pub bank_names : Text → List Text
unfolding decimal
bank_names prefix = map (λ i. prefix ++ decimal i) (range 50)

-- pin_names_list of units 4 and 5.
unfoldable pub pair_names : Text → List Text
unfolding decimal
pair_names prefix =
    map (λ i. prefix ++ (decimal (i / 2) ++ (if i % 2 == 0 then codes "P" else codes "N")))
      (range 48)
    ++ ((prefix ++ codes "24P") ∷ (prefix ++ codes "24N") ∷ [])

-- The loop over the pins of a unit, from pin `i` of 50 on.
unfoldable pub bank_pins : ℕ → List Text → List Text → List LibLine
unfolding ◌-ℤ◌
bank_pins i (name ∷ pin_names_list) (base_pin ∷ base_pins) =
    let y_pos : ℤ = if i == 49 then neg 63500 else pos 63500 -ℤ pos (i * 2540) in
    pin_line (codes "bidirectional") (pos 12700) y_pos 180 (pos 2540) name base_pin
    ∷ bank_pins (suc i) pin_names_list base_pins
bank_pins i _ _ = []

-- A turn of the loop over units 4 to 8.
unfoldable pub bank_unit : ℕ → List Text → List Text → List LibLine
unfolding bank_pins
bank_unit unit_num pin_names_list base_pins =
    unit_open (codes "XC7Z045") unit_num 1
    ∷ raw
        "        (rectangle (start -10.16 66.04) (end 10.16 -66.04) (stroke (width 0.254) (type default)) (fill (type background)))"
    ∷ (bank_pins 0 pin_names_list base_pins ++ (raw "      )" ∷ []))

abbrev unit_4_pins : List Text
unit_4_pins =
    (words "AA14 AA15 AB14 AB15 AC14 AC15 AD14 AD15 AE14 AE15 AF14 AF15 AA16 AA17 AB16 AB17"
      ++ (words "AC16 AC17 AD16 AD17 AE16 AE17 AF16 AF17 AA18 AA19 AB18 AB19 AC18 AC19 AD18 AD19"
          ++ (words
                "AE18 AE19 AF18 AF19 AA20 AA21 AB20 AB21 AC20 AC21 AD20 AD21 AE20 AE21 AF20 AF21"
              ++ words "AA22 AA23")))

abbrev unit_5_pins : List Text
unit_5_pins =
    (words "AA24 AA25 AB24 AB25 AC24 AC25 AD24 AD25 AE24 AE25 AF24 AF25 AA26 AA27 AB26 AB27"
      ++ (words "AC26 AC27 AD26 AD27 AE26 AE27 AF26 AF27 AA28 AA29 AB28 AB29 AC28 AC29 AD28 AD29"
          ++ (words "AE28 AE29 AF28 AF29 AA30 AB30 AC30 AD30 AE30 AF30 Y14 Y15 Y16 Y17 Y18 Y19 Y20"
              ++ words "Y21")))

abbrev unit_6_pins : List Text
unit_6_pins =
    (words "A14 B14 C14 D14 E14 F14 A15 B15 C15 D15 E15 F15 A16 B16 C16 D16 E16 F16 A17 B17"
      ++ (words "C17 D17 E17 F17 A18 B18 C18 D18 E18 F18 A19 B19 C19 D19 E19 F19 A20 B20 C20 D20"
          ++ words "E20 F20 A21 B21 C21 D21 E21 F21 A22 B22"))

abbrev unit_7_pins : List Text
unit_7_pins =
    (words "A23 B23 C23 D23 E23 F23 A24 B24 C24 D24 E24 F24 A25 B25 C25 D25 E25 F25 A26 B26"
      ++ (words "C26 D26 E26 F26 A27 B27 C27 D27 E27 F27 A28 B28 C28 D28 E28 F28 A29 B29 C29 D29"
          ++ words "E29 F29 A30 B30 C30 D30 G14 G15 G16 G17"))

abbrev unit_8_pins : List Text
unit_8_pins =
    (words "H14 H15 H16 H17 J14 J15 J16 J17 K14 K15 K16 K17 L14 L15 L16 L17 M14 M15 M16 M17"
      ++ (words "N14 N15 N16 N17 P14 P15 P16 P17 R14 R15 R16 R17 T14 T15 T16 T17 U14 U15 U16 U17"
          ++ words "V14 V15 V16 V17 W14 W15 W16 W17 Y6 Y7"))

-- Units 4 to 8: the banks of the programmable logic, and spare pins.
unfoldable pub zynq_banks : List LibLine
unfolding bank_unit bank_names pair_names
zynq_banks =
    bank_unit 4 (pair_names (codes "B33_L")) unit_4_pins
    ++ (bank_unit 5 (pair_names (codes "B34_L")) unit_5_pins
        ++ (bank_unit 6 (bank_names (codes "B13_IO")) unit_6_pins
            ++ (bank_unit 7 (bank_names (codes "B12_IO")) unit_7_pins
                ++ (bank_unit 8 (bank_names (codes "SPARE_IO")) unit_8_pins))))

-- ===== src/Sheet/Library/Amplifier.antt =====
-- hardware/cirradio-devboard/gen_rf.py: the symbols of the transmit path.
use cirradio.Prelude.{pos, List, [], ◌∷◌, codes}
use cirradio.Sheet.Library.{
  LibLine, raw, symbol_open, unit_open, pin, neg, no_footprint, no_datasheet,
}

-- cirradio:ADL5606ACPZ.
unfoldable pub adl5606acpz : List LibLine
adl5606acpz =
    symbol_open (codes "cirradio:ADL5606ACPZ")
    ∷ raw "      (pin_names (offset 0.254))"
    ∷ raw "      (exclude_from_sim no) (in_bom yes) (on_board yes)"
    ∷ raw "      (property \"Reference\" \"U\" (at 0 15.24 0) (effects (font (size 1.27 1.27))))"
    ∷ raw
        "      (property \"Value\" \"ADL5606ACPZ\" (at 0 -15.24 0) (effects (font (size 1.27 1.27))))"
    ∷ no_footprint
    ∷ no_datasheet
    ∷ unit_open (codes "ADL5606ACPZ") 0 1
    ∷ raw
        "        (rectangle (start -7.62 13.97) (end 7.62 -13.97) (stroke (width 0.254) (type default)) (fill (type background)))"
    ∷ raw "      )"
    ∷ unit_open (codes "ADL5606ACPZ") 1 1
    ∷ pin "input" (neg 10160) (pos 10160) 0 (pos 2540) "INP" "1"
    ∷ pin "power_in" (pos 0) (neg 16510) 90 (pos 2540) "GND" "2"
    ∷ pin "input" (neg 10160) (pos 7620) 0 (pos 2540) "INM" "3"
    ∷ pin "power_in" (pos 0) (neg 16510) 90 (pos 2540) "GND" "4"
    ∷ pin "power_in" (pos 0) (neg 16510) 90 (pos 2540) "GND" "5"
    ∷ pin "power_in" (pos 0) (neg 16510) 90 (pos 2540) "GND" "6"
    ∷ pin "output" (pos 10160) (pos 10160) 180 (pos 2540) "OUTP" "7"
    ∷ pin "power_in" (pos 0) (pos 16510) 270 (pos 2540) "VCC2" "8"
    ∷ pin "output" (pos 10160) (pos 7620) 180 (pos 2540) "OUTM" "9"
    ∷ pin "power_in" (pos 0) (neg 16510) 90 (pos 2540) "GND" "10"
    ∷ pin "power_in" (pos 0) (neg 16510) 90 (pos 2540) "GND" "11"
    ∷ pin "power_in" (pos 0) (neg 16510) 90 (pos 2540) "GND" "12"
    ∷ pin "power_in" (pos 0) (neg 16510) 90 (pos 2540) "GND" "13"
    ∷ pin "power_in" (pos 0) (pos 16510) 270 (pos 2540) "VCC3" "14"
    ∷ pin "power_in" (pos 0) (neg 16510) 90 (pos 2540) "GND" "15"
    ∷ pin "power_in" (pos 0) (neg 16510) 90 (pos 2540) "GND" "16"
    ∷ pin "power_in" (pos 0) (neg 16510) 90 (pos 2540) "GND" "17"
    ∷ pin "power_in" (pos 0) (neg 16510) 90 (pos 2540) "GND" "18"
    ∷ pin "input" (neg 10160) (pos 2540) 0 (pos 2540) "PWDN" "19"
    ∷ pin "power_in" (pos 0) (pos 16510) 270 (pos 2540) "VCC1" "20"
    ∷ pin "power_in" (pos 0) (neg 16510) 90 (pos 2540) "GND" "21"
    ∷ pin "power_in" (pos 0) (neg 16510) 90 (pos 2540) "GND" "22"
    ∷ pin "power_in" (pos 0) (neg 16510) 90 (pos 2540) "GND" "23"
    ∷ pin "power_in" (pos 0) (neg 16510) 90 (pos 2540) "GND" "24"
    ∷ pin "power_in" (pos 0) (neg 16510) 90 (pos 2540) "GND" "25"
    ∷ raw "      )"
    ∷ raw "    )"
    ∷ []

-- cirradio:TGA2594-SM.
unfoldable pub tga2594_sm : List LibLine
tga2594_sm =
    symbol_open (codes "cirradio:TGA2594-SM")
    ∷ raw "      (pin_names (offset 0.254))"
    ∷ raw "      (exclude_from_sim no) (in_bom yes) (on_board yes)"
    ∷ raw "      (property \"Reference\" \"U\" (at 0 10.16 0) (effects (font (size 1.27 1.27))))"
    ∷ raw
        "      (property \"Value\" \"TGA2594-SM\" (at 0 -10.16 0) (effects (font (size 1.27 1.27))))"
    ∷ no_footprint
    ∷ no_datasheet
    ∷ unit_open (codes "TGA2594-SM") 0 1
    ∷ raw
        "        (rectangle (start -7.62 8.89) (end 7.62 -8.89) (stroke (width 0.254) (type default)) (fill (type background)))"
    ∷ raw "      )"
    ∷ unit_open (codes "TGA2594-SM") 1 1
    ∷ pin "input" (neg 10160) (pos 5080) 0 (pos 2540) "RF_IN" "1"
    ∷ pin "power_in" (pos 0) (neg 11430) 90 (pos 2540) "GND" "2"
    ∷ pin "power_in" (pos 0) (pos 11430) 270 (pos 2540) "VDD1" "3"
    ∷ pin "power_in" (pos 0) (pos 11430) 270 (pos 2540) "VDD2" "4"
    ∷ pin "power_in" (pos 0) (neg 11430) 90 (pos 2540) "GND" "5"
    ∷ pin "output" (pos 10160) (pos 5080) 180 (pos 2540) "RF_OUT" "6"
    ∷ pin "power_in" (pos 0) (neg 11430) 90 (pos 2540) "GND" "7"
    ∷ pin "power_in" (pos 0) (pos 11430) 270 (pos 2540) "VDD3" "8"
    ∷ pin "power_in" (pos 0) (neg 11430) 90 (pos 2540) "GND" "9"
    ∷ pin "no_connect" (pos 10160) (neg 5080) 180 (pos 2540) "NC" "10"
    ∷ raw "      )"
    ∷ raw "    )"
    ∷ []

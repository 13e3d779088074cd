-- ===== src/Sheet/Library/Storage.antt =====
-- hardware/cirradio-devboard/gen_peripherals.py: the symbols of the memories and of the USB PHY.
use cirradio.Prelude.{pos, List, [], ◌∷◌, codes}
use cirradio.Sheet.Library.{LibLine, raw, symbol_open, unit_open, pin, neg, no_datasheet}

-- cirradio:S25FL256S.
unfoldable pub s25fl256s : List LibLine
s25fl256s =
    symbol_open (codes "cirradio:S25FL256S")
    ∷ raw "      (pin_names (offset 0.254))"
    ∷ raw "      (exclude_from_sim no) (in_bom yes) (on_board yes)"
    ∷ raw "      (property \"Reference\" \"U\" (at 0 8.89 0) (effects (font (size 1.27 1.27))))"
    ∷ raw
        "      (property \"Value\" \"S25FL256S\" (at 0 -8.89 0) (effects (font (size 1.27 1.27))))"
    ∷ raw
        "      (property \"Footprint\" \"Package_SON:WSON-8-1EP_6x5mm_P1.27mm_EP3.4x4mm\" (at 0 0 0) (effects (font (size 1.27 1.27)) hide))"
    ∷ no_datasheet
    ∷ unit_open (codes "S25FL256S") 0 1
    ∷ raw
        "        (rectangle (start -7.62 7.62) (end 7.62 -7.62) (stroke (width 0.254) (type default)) (fill (type background)))"
    ∷ raw "      )"
    ∷ unit_open (codes "S25FL256S") 1 1
    ∷ pin "input" (neg 10160) (pos 5080) 0 (pos 2540) "CS#" "1"
    ∷ pin "bidirectional" (neg 10160) (pos 2540) 0 (pos 2540) "IO1/SO" "2"
    ∷ pin "bidirectional" (neg 10160) (pos 0) 0 (pos 2540) "IO2/WP#" "3"
    ∷ pin "power_in" (pos 0) (neg 10160) 90 (pos 2540) "GND" "4"
    ∷ pin "bidirectional" (pos 10160) (pos 0) 180 (pos 2540) "IO0/SI" "5"
    ∷ pin "input" (pos 10160) (pos 2540) 180 (pos 2540) "SCK" "6"
    ∷ pin "bidirectional" (pos 10160) (pos 5080) 180 (pos 2540) "IO3/HOLD#" "7"
    ∷ pin "power_in" (pos 0) (pos 10160) 270 (pos 2540) "VCC" "8"
    ∷ pin "passive" (pos 0) (neg 10160) 90 (pos 2540) "EP" "9"
    ∷ raw "      )"
    ∷ raw "    )"
    ∷ []

-- cirradio:MTFC8GAKAJCN.
unfoldable pub mtfc8gakajcn : List LibLine
mtfc8gakajcn =
    symbol_open (codes "cirradio:MTFC8GAKAJCN")
    ∷ raw "      (pin_names (offset 0.254))"
    ∷ raw "      (exclude_from_sim no) (in_bom yes) (on_board yes)"
    ∷ raw "      (property \"Reference\" \"U\" (at 0 17.78 0) (effects (font (size 1.27 1.27))))"
    ∷ raw
        "      (property \"Value\" \"MTFC8GAKAJCN\" (at 0 -17.78 0) (effects (font (size 1.27 1.27))))"
    ∷ raw
        "      (property \"Footprint\" \"cirradio:BGA-153_11.5x13mm\" (at 0 0 0) (effects (font (size 1.27 1.27)) hide))"
    ∷ no_datasheet
    ∷ unit_open (codes "MTFC8GAKAJCN") 0 1
    ∷ raw
        "        (rectangle (start -10.16 16.51) (end 10.16 -16.51) (stroke (width 0.254) (type default)) (fill (type background)))"
    ∷ raw "      )"
    ∷ unit_open (codes "MTFC8GAKAJCN") 1 1
    ∷ pin "bidirectional" (neg 12700) (pos 12700) 0 (pos 2540) "DAT0" "H2"
    ∷ pin "bidirectional" (neg 12700) (pos 10160) 0 (pos 2540) "DAT1" "J1"
    ∷ pin "bidirectional" (neg 12700) (pos 7620) 0 (pos 2540) "DAT2" "J2"
    ∷ pin "bidirectional" (neg 12700) (pos 5080) 0 (pos 2540) "DAT3" "H1"
    ∷ pin "bidirectional" (neg 12700) (pos 2540) 0 (pos 2540) "DAT4" "J3"
    ∷ pin "bidirectional" (neg 12700) (pos 0) 0 (pos 2540) "DAT5" "K1"
    ∷ pin "bidirectional" (neg 12700) (neg 2540) 0 (pos 2540) "DAT6" "K2"
    ∷ pin "bidirectional" (neg 12700) (neg 5080) 0 (pos 2540) "DAT7" "K3"
    ∷ pin "input" (neg 12700) (neg 10160) 0 (pos 2540) "CLK" "D1"
    ∷ pin "bidirectional" (neg 12700) (neg 12700) 0 (pos 2540) "CMD" "D2"
    ∷ pin "input" (pos 12700) (pos 12700) 180 (pos 2540) "RST#" "C1"
    ∷ pin "power_in" (pos 0) (pos 19050) 270 (pos 2540) "VCC" "A3"
    ∷ pin "power_in" (pos 5080) (pos 19050) 270 (pos 2540) "VCCQ" "E1"
    ∷ pin "power_in" (pos 0) (neg 19050) 90 (pos 2540) "GND" "B2"
    ∷ raw "      )"
    ∷ raw "    )"
    ∷ []

-- cirradio:USB3320C.
unfoldable pub usb3320c : List LibLine
usb3320c =
    symbol_open (codes "cirradio:USB3320C")
    ∷ raw "      (pin_names (offset 0.254))"
    ∷ raw "      (exclude_from_sim no) (in_bom yes) (on_board yes)"
    ∷ raw "      (property \"Reference\" \"U\" (at 0 22.86 0) (effects (font (size 1.27 1.27))))"
    ∷ raw
        "      (property \"Value\" \"USB3320C\" (at 0 -22.86 0) (effects (font (size 1.27 1.27))))"
    ∷ raw
        "      (property \"Footprint\" \"Package_DFN_QFN:QFN-32-1EP_5x5mm_P0.5mm_EP3.1x3.1mm\" (at 0 0 0) (effects (font (size 1.27 1.27)) hide))"
    ∷ no_datasheet
    ∷ unit_open (codes "USB3320C") 0 1
    ∷ raw
        "        (rectangle (start -12.7 21.59) (end 12.7 -21.59) (stroke (width 0.254) (type default)) (fill (type background)))"
    ∷ raw "      )"
    ∷ unit_open (codes "USB3320C") 1 1
    ∷ pin "bidirectional" (neg 15240) (pos 17780) 0 (pos 2540) "DATA0" "17"
    ∷ pin "bidirectional" (neg 15240) (pos 15240) 0 (pos 2540) "DATA1" "18"
    ∷ pin "bidirectional" (neg 15240) (pos 12700) 0 (pos 2540) "DATA2" "19"
    ∷ pin "bidirectional" (neg 15240) (pos 10160) 0 (pos 2540) "DATA3" "20"
    ∷ pin "bidirectional" (neg 15240) (pos 7620) 0 (pos 2540) "DATA4" "21"
    ∷ pin "bidirectional" (neg 15240) (pos 5080) 0 (pos 2540) "DATA5" "22"
    ∷ pin "bidirectional" (neg 15240) (pos 2540) 0 (pos 2540) "DATA6" "23"
    ∷ pin "bidirectional" (neg 15240) (pos 0) 0 (pos 2540) "DATA7" "24"
    ∷ pin "output" (neg 15240) (neg 5080) 0 (pos 2540) "CLK" "15"
    ∷ pin "output" (neg 15240) (neg 7620) 0 (pos 2540) "DIR" "16"
    ∷ pin "input" (neg 15240) (neg 10160) 0 (pos 2540) "STP" "25"
    ∷ pin "output" (neg 15240) (neg 12700) 0 (pos 2540) "NXT" "26"
    ∷ pin "input" (neg 15240) (neg 17780) 0 (pos 2540) "RESETB" "4"
    ∷ pin "bidirectional" (pos 15240) (pos 15240) 180 (pos 2540) "DP" "11"
    ∷ pin "bidirectional" (pos 15240) (pos 12700) 180 (pos 2540) "DM" "12"
    ∷ pin "passive" (pos 15240) (pos 5080) 180 (pos 2540) "RBIAS" "14"
    ∷ pin "power_in" (neg 2540) (pos 24130) 270 (pos 2540) "VDD3V3" "1"
    ∷ pin "power_in" (pos 2540) (pos 24130) 270 (pos 2540) "VDDA3V3" "9"
    ∷ pin "power_in" (pos 0) (neg 24130) 90 (pos 2540) "GND" "33"
    ∷ pin "output" (pos 15240) (neg 5080) 180 (pos 2540) "REFCLK" "27"
    ∷ pin "passive" (pos 15240) (neg 12700) 180 (pos 2540) "XO" "28"
    ∷ pin "passive" (pos 15240) (neg 15240) 180 (pos 2540) "XI" "29"
    ∷ pin "input" (pos 15240) (neg 17780) 180 (pos 2540) "CLKIN" "30"
    ∷ raw "      )"
    ∷ raw "    )"
    ∷ []

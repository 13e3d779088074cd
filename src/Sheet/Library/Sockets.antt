-- ===== src/Sheet/Library/Sockets.antt =====
-- hardware/cirradio-devboard/gen_peripherals.py: the symbols of connectors.
use cirradio.Prelude.{pos, List, [], ◌∷◌, codes}
use cirradio.Sheet.Library.{
  LibLine, raw, symbol_open, unit_open, pin, neg, no_footprint, no_datasheet,
}

-- Connector:Conn_Coaxial.
unfoldable pub conn_coaxial : List LibLine
conn_coaxial =
    symbol_open (codes "Connector:Conn_Coaxial")
    ∷ raw "      (pin_names (offset 1.016) hide) (exclude_from_sim no) (in_bom yes) (on_board yes)"
    ∷ raw
        "      (property \"Reference\" \"J\" (at 0.254 3.048 0) (effects (font (size 1.27 1.27))))"
    ∷ raw
        "      (property \"Value\" \"Conn_Coaxial\" (at 2.286 -2.794 0) (effects (font (size 1.27 1.27))))"
    ∷ no_footprint
    ∷ no_datasheet
    ∷ unit_open (codes "Conn_Coaxial") 0 1
    ∷ raw
        "        (circle (center 0 0) (radius 1.778) (stroke (width 0.254) (type default)) (fill (type none)))"
    ∷ raw
        "        (arc (start -1.778 0) (mid 0 -1.778) (end 1.778 0) (stroke (width 0.254) (type default)) (fill (type none)))"
    ∷ raw "      )"
    ∷ unit_open (codes "Conn_Coaxial") 1 1
    ∷ pin "passive" (neg 3810) (pos 0) 0 (pos 2032) "In" "1"
    ∷ pin "passive" (pos 0) (neg 3810) 90 (pos 2032) "Ext" "2"
    ∷ raw "      )"
    ∷ raw "    )"
    ∷ []

-- Connector_Generic:Conn_01x09.
unfoldable pub conn_01x09 : List LibLine
conn_01x09 =
    symbol_open (codes "Connector_Generic:Conn_01x09")
    ∷ raw "      (pin_names (offset 1.016)) (exclude_from_sim no) (in_bom yes) (on_board yes)"
    ∷ raw "      (property \"Reference\" \"J\" (at 0 12.7 0) (effects (font (size 1.27 1.27))))"
    ∷ raw "      (property \"Value\" \"Micro_SD\" (at 0 -12.7 0) (effects (font (size 1.27 1.27))))"
    ∷ no_footprint
    ∷ no_datasheet
    ∷ unit_open (codes "Conn_01x09") 1 1
    ∷ raw
        "        (rectangle (start -1.27 11.43) (end 1.27 -11.43) (stroke (width 0.254) (type default)) (fill (type background)))"
    ∷ pin "passive" (neg 3810) (pos 10160) 0 (pos 2540) "DAT2" "1"
    ∷ pin "passive" (neg 3810) (pos 7620) 0 (pos 2540) "CD/DAT3" "2"
    ∷ pin "passive" (neg 3810) (pos 5080) 0 (pos 2540) "CMD" "3"
    ∷ pin "passive" (neg 3810) (pos 2540) 0 (pos 2540) "VDD" "4"
    ∷ pin "passive" (neg 3810) (pos 0) 0 (pos 2540) "CLK" "5"
    ∷ pin "passive" (neg 3810) (neg 2540) 0 (pos 2540) "GND" "6"
    ∷ pin "passive" (neg 3810) (neg 5080) 0 (pos 2540) "DAT0" "7"
    ∷ pin "passive" (neg 3810) (neg 7620) 0 (pos 2540) "DAT1" "8"
    ∷ pin "passive" (neg 3810) (neg 10160) 0 (pos 2540) "CD#" "9"
    ∷ raw "      )"
    ∷ raw "    )"
    ∷ []

-- Connector:USB_A.
unfoldable pub usb_a : List LibLine
usb_a =
    symbol_open (codes "Connector:USB_A")
    ∷ raw "      (pin_names (offset 1.016)) (exclude_from_sim no) (in_bom yes) (on_board yes)"
    ∷ raw "      (property \"Reference\" \"J\" (at 0 7.62 0) (effects (font (size 1.27 1.27))))"
    ∷ raw "      (property \"Value\" \"USB_A\" (at 0 -7.62 0) (effects (font (size 1.27 1.27))))"
    ∷ no_footprint
    ∷ no_datasheet
    ∷ unit_open (codes "USB_A") 1 1
    ∷ raw
        "        (rectangle (start -3.81 6.35) (end 3.81 -6.35) (stroke (width 0.254) (type default)) (fill (type background)))"
    ∷ pin "power_in" (neg 6350) (pos 5080) 0 (pos 2540) "VBUS" "1"
    ∷ pin "bidirectional" (neg 6350) (pos 2540) 0 (pos 2540) "D-" "2"
    ∷ pin "bidirectional" (neg 6350) (pos 0) 0 (pos 2540) "D+" "3"
    ∷ pin "power_in" (neg 6350) (neg 2540) 0 (pos 2540) "GND" "4"
    ∷ pin "passive" (neg 6350) (neg 5080) 0 (pos 2540) "Shield" "5"
    ∷ raw "      )"
    ∷ raw "    )"
    ∷ []

-- Connector:USB_B_Micro.
unfoldable pub usb_b_micro : List LibLine
usb_b_micro =
    symbol_open (codes "Connector:USB_B_Micro")
    ∷ raw "      (pin_names (offset 1.016)) (exclude_from_sim no) (in_bom yes) (on_board yes)"
    ∷ raw "      (property \"Reference\" \"J\" (at 0 7.62 0) (effects (font (size 1.27 1.27))))"
    ∷ raw
        "      (property \"Value\" \"USB_B_Micro\" (at 0 -7.62 0) (effects (font (size 1.27 1.27))))"
    ∷ no_footprint
    ∷ no_datasheet
    ∷ unit_open (codes "USB_B_Micro") 1 1
    ∷ raw
        "        (rectangle (start -3.81 6.35) (end 3.81 -6.35) (stroke (width 0.254) (type default)) (fill (type background)))"
    ∷ pin "power_in" (neg 6350) (pos 5080) 0 (pos 2540) "VBUS" "1"
    ∷ pin "bidirectional" (neg 6350) (pos 2540) 0 (pos 2540) "D-" "2"
    ∷ pin "bidirectional" (neg 6350) (pos 0) 0 (pos 2540) "D+" "3"
    ∷ pin "passive" (neg 6350) (neg 2540) 0 (pos 2540) "ID" "4"
    ∷ pin "power_in" (neg 6350) (neg 5080) 0 (pos 2540) "GND" "5"
    ∷ pin "passive" (neg 6350) (neg 7620) 0 (pos 2540) "Shield" "6"
    ∷ raw "      )"
    ∷ raw "    )"
    ∷ []

-- Connector:RJ45_Shielded.
unfoldable pub rj45_shielded : List LibLine
rj45_shielded =
    symbol_open (codes "Connector:RJ45_Shielded")
    ∷ raw "      (pin_names (offset 1.016)) (exclude_from_sim no) (in_bom yes) (on_board yes)"
    ∷ raw "      (property \"Reference\" \"J\" (at 0 12.7 0) (effects (font (size 1.27 1.27))))"
    ∷ raw
        "      (property \"Value\" \"RJ45_MagJack\" (at 0 -12.7 0) (effects (font (size 1.27 1.27))))"
    ∷ no_footprint
    ∷ no_datasheet
    ∷ unit_open (codes "RJ45_Shielded") 1 1
    ∷ raw
        "        (rectangle (start -3.81 11.43) (end 3.81 -11.43) (stroke (width 0.254) (type default)) (fill (type background)))"
    ∷ pin "passive" (neg 6350) (pos 10160) 0 (pos 2540) "TD+" "1"
    ∷ pin "passive" (neg 6350) (pos 7620) 0 (pos 2540) "TD-" "2"
    ∷ pin "passive" (neg 6350) (pos 5080) 0 (pos 2540) "RD+" "3"
    ∷ pin "passive" (neg 6350) (pos 2540) 0 (pos 2540) "RD-" "4"
    ∷ pin "passive" (neg 6350) (pos 0) 0 (pos 2540) "TCT+" "5"
    ∷ pin "passive" (neg 6350) (neg 2540) 0 (pos 2540) "TCT-" "6"
    ∷ pin "passive" (neg 6350) (neg 5080) 0 (pos 2540) "TDD+" "7"
    ∷ pin "passive" (neg 6350) (neg 7620) 0 (pos 2540) "TDD-" "8"
    ∷ pin "passive" (neg 6350) (neg 10160) 0 (pos 2540) "Shield" "9"
    ∷ raw "      )"
    ∷ raw "    )"
    ∷ []

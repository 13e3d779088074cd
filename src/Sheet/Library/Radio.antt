-- ===== src/Sheet/Library/Radio.antt =====
-- hardware/cirradio-devboard/gen_rf.py: the symbols of the receive path.
use cirradio.Prelude.{pos, List, [], ◌∷◌, codes}
use cirradio.Sheet.Library.{
  LibLine, raw, symbol_open, unit_open, pin, neg, no_footprint, no_datasheet,
}

-- Connector:Conn_Coaxial.
unfoldable pub antenna_coaxial : List LibLine
antenna_coaxial =
    symbol_open (codes "Connector:Conn_Coaxial")
    ∷ raw "      (pin_names (offset 1.016) hide) (exclude_from_sim no) (in_bom yes) (on_board yes)"
    ∷ raw
        "      (property \"Reference\" \"J\" (at 0.254 3.048 0) (effects (font (size 1.27 1.27))))"
    ∷ raw
        "      (property \"Value\" \"Conn_Coaxial\" (at 2.286 -2.286 0) (effects (font (size 1.27 1.27)) (justify left)))"
    ∷ no_footprint
    ∷ no_datasheet
    ∷ unit_open (codes "Conn_Coaxial") 0 1
    ∷ raw
        "        (arc (start -1.778 -0.508) (mid 0.7584 -2.044) (end 1.778 0) (stroke (width 0.254) (type default)) (fill (type none)))"
    ∷ raw
        "        (arc (start -1.778 0.508) (mid -0.7584 2.044) (end 1.778 0) (stroke (width 0.254) (type default)) (fill (type none)))"
    ∷ raw "      )"
    ∷ unit_open (codes "Conn_Coaxial") 1 1
    ∷ pin "passive" (neg 3810) (pos 0) 0 (pos 2540) "In" "1"
    ∷ pin "passive" (pos 0) (neg 3810) 90 (pos 2540) "Ext" "2"
    ∷ raw "      )"
    ∷ raw "    )"
    ∷ []

-- Device:BPF.
unfoldable pub device_bpf : List LibLine
device_bpf =
    symbol_open (codes "Device:BPF")
    ∷ raw "      (pin_names (offset 0.254)) (exclude_from_sim no) (in_bom yes) (on_board yes)"
    ∷ raw "      (property \"Reference\" \"FL\" (at 0 3.81 0) (effects (font (size 1.27 1.27))))"
    ∷ raw "      (property \"Value\" \"BPF\" (at 0 -3.81 0) (effects (font (size 1.27 1.27))))"
    ∷ no_footprint
    ∷ no_datasheet
    ∷ unit_open (codes "BPF") 0 1
    ∷ raw
        "        (rectangle (start -5.08 2.54) (end 5.08 -2.54) (stroke (width 0.254) (type default)) (fill (type background)))"
    ∷ raw "      )"
    ∷ unit_open (codes "BPF") 1 1
    ∷ pin "passive" (neg 7620) (pos 0) 0 (pos 2540) "IN" "1"
    ∷ pin "passive" (pos 7620) (pos 0) 180 (pos 2540) "OUT" "2"
    ∷ pin "power_in" (pos 0) (neg 5080) 90 (pos 2540) "GND" "3"
    ∷ raw "      )"
    ∷ raw "    )"
    ∷ []

-- cirradio:PE42525.
unfoldable pub pe42525 : List LibLine
pe42525 =
    symbol_open (codes "cirradio:PE42525")
    ∷ raw "      (pin_names (offset 0.254))"
    ∷ raw "      (exclude_from_sim no) (in_bom yes) (on_board yes)"
    ∷ raw "      (property \"Reference\" \"U\" (at 0 10.16 0) (effects (font (size 1.27 1.27))))"
    ∷ raw "      (property \"Value\" \"PE42525\" (at 0 -10.16 0) (effects (font (size 1.27 1.27))))"
    ∷ no_footprint
    ∷ no_datasheet
    ∷ unit_open (codes "PE42525") 0 1
    ∷ raw
        "        (rectangle (start -7.62 8.89) (end 7.62 -8.89) (stroke (width 0.254) (type default)) (fill (type background)))"
    ∷ raw "      )"
    ∷ unit_open (codes "PE42525") 1 1
    ∷ pin "bidirectional" (neg 10160) (pos 5080) 0 (pos 2540) "RFC" "1"
    ∷ pin "power_in" (pos 0) (neg 11430) 90 (pos 2540) "GND" "2"
    ∷ pin "power_in" (pos 0) (neg 11430) 90 (pos 2540) "GND" "3"
    ∷ pin "bidirectional" (pos 10160) (pos 2540) 180 (pos 2540) "RF2" "4"
    ∷ pin "power_in" (pos 0) (neg 11430) 90 (pos 2540) "GND" "5"
    ∷ pin "power_in" (pos 0) (neg 11430) 90 (pos 2540) "GND" "6"
    ∷ pin "power_in" (pos 0) (neg 11430) 90 (pos 2540) "GND" "7"
    ∷ pin "power_in" (pos 0) (neg 11430) 90 (pos 2540) "GND" "8"
    ∷ pin "power_in" (pos 0) (neg 11430) 90 (pos 2540) "GND" "9"
    ∷ pin "power_in" (pos 0) (neg 11430) 90 (pos 2540) "GND" "10"
    ∷ pin "power_in" (pos 0) (neg 11430) 90 (pos 2540) "GND" "11"
    ∷ pin "bidirectional" (pos 10160) (pos 5080) 180 (pos 2540) "RF1" "12"
    ∷ pin "power_in" (pos 0) (neg 11430) 90 (pos 2540) "GND" "13"
    ∷ pin "power_in" (pos 0) (neg 11430) 90 (pos 2540) "GND" "14"
    ∷ pin "input" (neg 10160) (pos 0) 0 (pos 2540) "V2" "15"
    ∷ pin "input" (neg 10160) (pos 2540) 0 (pos 2540) "V1" "16"
    ∷ pin "power_in" (pos 0) (neg 11430) 90 (pos 2540) "GND" "17"
    ∷ raw "      )"
    ∷ raw "    )"
    ∷ []

-- cirradio:ADL5523ACPZ.
unfoldable pub adl5523acpz : List LibLine
adl5523acpz =
    symbol_open (codes "cirradio:ADL5523ACPZ")
    ∷ raw "      (pin_names (offset 0.254))"
    ∷ raw "      (exclude_from_sim no) (in_bom yes) (on_board yes)"
    ∷ raw "      (property \"Reference\" \"U\" (at 0 11.43 0) (effects (font (size 1.27 1.27))))"
    ∷ raw
        "      (property \"Value\" \"ADL5523ACPZ\" (at 0 -11.43 0) (effects (font (size 1.27 1.27))))"
    ∷ no_footprint
    ∷ no_datasheet
    ∷ unit_open (codes "ADL5523ACPZ") 0 1
    ∷ raw
        "        (rectangle (start -7.62 10.16) (end 7.62 -10.16) (stroke (width 0.254) (type default)) (fill (type background)))"
    ∷ raw "      )"
    ∷ unit_open (codes "ADL5523ACPZ") 1 1
    ∷ pin "input" (neg 10160) (pos 7620) 0 (pos 2540) "RFIN" "1"
    ∷ pin "power_in" (pos 0) (neg 12700) 90 (pos 2540) "GND" "2"
    ∷ pin "power_in" (pos 0) (neg 12700) 90 (pos 2540) "GND" "3"
    ∷ pin "no_connect" (pos 10160) (neg 5080) 180 (pos 2540) "NC" "4"
    ∷ pin "no_connect" (pos 10160) (neg 5080) 180 (pos 2540) "NC" "5"
    ∷ pin "no_connect" (pos 10160) (neg 5080) 180 (pos 2540) "NC" "6"
    ∷ pin "power_in" (pos 0) (neg 12700) 90 (pos 2540) "GND" "7"
    ∷ pin "power_in" (pos 0) (neg 12700) 90 (pos 2540) "GND" "8"
    ∷ pin "output" (pos 10160) (pos 7620) 180 (pos 2540) "RFOUT" "9"
    ∷ pin "power_in" (pos 0) (pos 12700) 270 (pos 2540) "VCC" "10"
    ∷ pin "passive" (pos 10160) (pos 2540) 180 (pos 2540) "DECL" "11"
    ∷ pin "no_connect" (pos 10160) (neg 5080) 180 (pos 2540) "NC" "12"
    ∷ pin "power_in" (pos 0) (pos 12700) 270 (pos 2540) "VCC" "13"
    ∷ pin "power_in" (pos 0) (neg 12700) 90 (pos 2540) "GND" "14"
    ∷ pin "power_in" (pos 0) (neg 12700) 90 (pos 2540) "GND" "15"
    ∷ pin "power_in" (neg 10160) (pos 2540) 0 (pos 2540) "VPDC" "16"
    ∷ pin "power_in" (pos 0) (neg 12700) 90 (pos 2540) "GND" "17"
    ∷ raw "      )"
    ∷ raw "    )"
    ∷ []

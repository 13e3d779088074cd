-- ===== src/Sheet/Library/Boot.antt =====
-- hardware/cirradio-devboard/gen_zynq.py: the symbols around the processor.
use cirradio.Prelude.{pos, List, [], ◌∷◌, codes}
use cirradio.Sheet.Library.{
  LibLine, raw, symbol_open, unit_open, pin, neg, no_footprint, no_datasheet,
}

-- cirradio:DSC1001CI2-33.333.
unfoldable pub dsc1001ci2_33_333 : List LibLine
dsc1001ci2_33_333 =
    symbol_open (codes "cirradio:DSC1001CI2-33.333")
    ∷ raw "      (pin_names (offset 0.254))"
    ∷ raw "      (exclude_from_sim no) (in_bom yes) (on_board yes)"
    ∷ raw "      (property \"Reference\" \"Y\" (at 0 6.35 0) (effects (font (size 1.27 1.27))))"
    ∷ raw
        "      (property \"Value\" \"DSC1001CI2-33.333\" (at 0 -6.35 0) (effects (font (size 1.27 1.27))))"
    ∷ no_footprint
    ∷ no_datasheet
    ∷ unit_open (codes "DSC1001CI2-33.333") 0 1
    ∷ raw
        "        (rectangle (start -5.08 5.08) (end 5.08 -5.08) (stroke (width 0.254) (type default)) (fill (type background)))"
    ∷ raw "      )"
    ∷ unit_open (codes "DSC1001CI2-33.333") 1 1
    ∷ pin "input" (neg 7620) (pos 2540) 0 (pos 2540) "EN" "1"
    ∷ pin "power_in" (pos 0) (neg 7620) 90 (pos 2540) "GND" "2"
    ∷ pin "output" (pos 7620) (pos 2540) 180 (pos 2540) "OUT" "3"
    ∷ pin "power_in" (pos 0) (pos 7620) 270 (pos 2540) "VDD" "4"
    ∷ raw "      )"
    ∷ raw "    )"
    ∷ []

-- Connector_Generic:Conn_02x07_Odd_Even.
unfoldable pub conn_02x07_odd_even : List LibLine
conn_02x07_odd_even =
    symbol_open (codes "Connector_Generic:Conn_02x07_Odd_Even")
    ∷ raw "      (pin_names (offset 1.016) hide) (exclude_from_sim no) (in_bom yes) (on_board yes)"
    ∷ raw "      (property \"Reference\" \"J\" (at 1.27 10.16 0) (effects (font (size 1.27 1.27))))"
    ∷ raw
        "      (property \"Value\" \"Conn_02x07_Odd_Even\" (at 1.27 -10.16 0) (effects (font (size 1.27 1.27))))"
    ∷ no_footprint
    ∷ no_datasheet
    ∷ unit_open (codes "Conn_02x07_Odd_Even") 1 1
    ∷ raw
        "        (rectangle (start -1.27 8.89) (end 3.81 -8.89) (stroke (width 0.254) (type default)) (fill (type background)))"
    ∷ pin "passive" (neg 3810) (pos 7620) 0 (pos 2540) "Pin_1" "1"
    ∷ pin "passive" (pos 6350) (pos 7620) 180 (pos 2540) "Pin_2" "2"
    ∷ pin "passive" (neg 3810) (pos 5080) 0 (pos 2540) "Pin_3" "3"
    ∷ pin "passive" (pos 6350) (pos 5080) 180 (pos 2540) "Pin_4" "4"
    ∷ pin "passive" (neg 3810) (pos 2540) 0 (pos 2540) "Pin_5" "5"
    ∷ pin "passive" (pos 6350) (pos 2540) 180 (pos 2540) "Pin_6" "6"
    ∷ pin "passive" (neg 3810) (pos 0) 0 (pos 2540) "Pin_7" "7"
    ∷ pin "passive" (pos 6350) (pos 0) 180 (pos 2540) "Pin_8" "8"
    ∷ pin "passive" (neg 3810) (neg 2540) 0 (pos 2540) "Pin_9" "9"
    ∷ pin "passive" (pos 6350) (neg 2540) 180 (pos 2540) "Pin_10" "10"
    ∷ pin "passive" (neg 3810) (neg 5080) 0 (pos 2540) "Pin_11" "11"
    ∷ pin "passive" (pos 6350) (neg 5080) 180 (pos 2540) "Pin_12" "12"
    ∷ pin "passive" (neg 3810) (neg 7620) 0 (pos 2540) "Pin_13" "13"
    ∷ pin "passive" (pos 6350) (neg 7620) 180 (pos 2540) "Pin_14" "14"
    ∷ raw "      )"
    ∷ raw "    )"
    ∷ []

-- Switch:SW_DIP_x02.
unfoldable pub sw_dip_x02 : List LibLine
sw_dip_x02 =
    symbol_open (codes "Switch:SW_DIP_x02")
    ∷ raw "      (pin_names (offset 1.016)) (exclude_from_sim no) (in_bom yes) (on_board yes)"
    ∷ raw "      (property \"Reference\" \"SW\" (at 0 5.08 0) (effects (font (size 1.27 1.27))))"
    ∷ raw
        "      (property \"Value\" \"SW_DIP_x02\" (at 0 -5.08 0) (effects (font (size 1.27 1.27))))"
    ∷ no_footprint
    ∷ no_datasheet
    ∷ unit_open (codes "SW_DIP_x02") 0 1
    ∷ raw
        "        (rectangle (start -3.81 3.81) (end 3.81 -3.81) (stroke (width 0.254) (type default)) (fill (type background)))"
    ∷ raw "      )"
    ∷ unit_open (codes "SW_DIP_x02") 1 1
    ∷ pin "passive" (neg 6350) (pos 2540) 0 (pos 2540) "1" "1"
    ∷ pin "passive" (neg 6350) (pos 0) 0 (pos 2540) "2" "2"
    ∷ pin "passive" (pos 6350) (pos 2540) 180 (pos 2540) "3" "3"
    ∷ pin "passive" (pos 6350) (pos 0) 180 (pos 2540) "4" "4"
    ∷ raw "      )"
    ∷ raw "    )"
    ∷ []

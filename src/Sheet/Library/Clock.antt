-- ===== src/Sheet/Library/Clock.antt =====
-- hardware/cirradio-devboard/gen_ad9361.py: the symbols of the oscillator and of the regulator.
use cirradio.Prelude.{pos, List, [], ◌∷◌, codes}
use cirradio.Sheet.Library.{
  LibLine, raw, symbol_open, unit_open, pin, neg, no_footprint, no_datasheet,
}

-- cirradio:OX200-SC-040.0M.
unfoldable pub ox200_sc_040_0m : List LibLine
ox200_sc_040_0m =
    symbol_open (codes "cirradio:OX200-SC-040.0M")
    ∷ raw "      (pin_names (offset 0.254))"
    ∷ raw "      (exclude_from_sim no) (in_bom yes) (on_board yes)"
    ∷ raw "      (property \"Reference\" \"Y\" (at 0 8.89 0) (effects (font (size 1.27 1.27))))"
    ∷ raw
        "      (property \"Value\" \"OX200-SC-040.0M\" (at 0 -8.89 0) (effects (font (size 1.27 1.27))))"
    ∷ no_footprint
    ∷ no_datasheet
    ∷ unit_open (codes "OX200-SC-040.0M") 0 1
    ∷ raw
        "        (rectangle (start -7.62 7.62) (end 7.62 -7.62) (stroke (width 0.254) (type default)) (fill (type background)))"
    ∷ raw "      )"
    ∷ unit_open (codes "OX200-SC-040.0M") 1 1
    ∷ pin "no_connect" (neg 10160) (pos 5080) 0 (pos 2540) "NC" "1"
    ∷ pin "no_connect" (neg 10160) (pos 2540) 0 (pos 2540) "NC" "2"
    ∷ pin "no_connect" (neg 10160) (pos 0) 0 (pos 2540) "NC" "3"
    ∷ pin "no_connect" (neg 10160) (neg 2540) 0 (pos 2540) "NC" "4"
    ∷ pin "no_connect" (neg 10160) (neg 5080) 0 (pos 2540) "NC" "5"
    ∷ pin "no_connect" (pos 10160) (neg 5080) 180 (pos 2540) "NC" "6"
    ∷ pin "power_in" (pos 0) (neg 10160) 90 (pos 2540) "GND" "7"
    ∷ pin "output" (pos 10160) (pos 2540) 180 (pos 2540) "OUTPUT" "8"
    ∷ pin "no_connect" (pos 10160) (neg 2540) 180 (pos 2540) "NC" "9"
    ∷ pin "no_connect" (pos 10160) (pos 0) 180 (pos 2540) "NC" "10"
    ∷ pin "no_connect" (pos 10160) (neg 5080) 180 (pos 2540) "NC" "11"
    ∷ pin "no_connect" (pos 10160) (neg 5080) 180 (pos 2540) "NC" "12"
    ∷ pin "no_connect" (pos 10160) (neg 5080) 180 (pos 2540) "NC" "13"
    ∷ pin "power_in" (pos 0) (pos 10160) 270 (pos 2540) "VCC" "14"
    ∷ raw "      )"
    ∷ raw "    )"
    ∷ []

-- cirradio:LDO_Generic.
unfoldable pub ldo_generic : List LibLine
ldo_generic =
    symbol_open (codes "cirradio:LDO_Generic")
    ∷ raw "      (pin_names (offset 0.254))"
    ∷ raw "      (exclude_from_sim no) (in_bom yes) (on_board yes)"
    ∷ raw "      (property \"Reference\" \"U\" (at 0 6.35 0) (effects (font (size 1.27 1.27))))"
    ∷ raw
        "      (property \"Value\" \"LDO_Generic\" (at 0 -6.35 0) (effects (font (size 1.27 1.27))))"
    ∷ no_footprint
    ∷ no_datasheet
    ∷ unit_open (codes "LDO_Generic") 0 1
    ∷ raw
        "        (rectangle (start -7.62 5.08) (end 7.62 -5.08) (stroke (width 0.254) (type default)) (fill (type background)))"
    ∷ raw "      )"
    ∷ unit_open (codes "LDO_Generic") 1 1
    ∷ pin "power_in" (neg 10160) (pos 2540) 0 (pos 2540) "VIN" "1"
    ∷ pin "power_in" (pos 0) (neg 7620) 90 (pos 2540) "GND" "2"
    ∷ pin "input" (neg 10160) (neg 2540) 0 (pos 2540) "EN" "3"
    ∷ pin "passive" (pos 10160) (neg 2540) 180 (pos 2540) "NC" "4"
    ∷ pin "power_out" (pos 10160) (pos 2540) 180 (pos 2540) "VOUT" "5"
    ∷ raw "      )"
    ∷ raw "    )"
    ∷ []

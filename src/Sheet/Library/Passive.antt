-- ===== src/Sheet/Library/Passive.antt =====
-- hardware/cirradio-devboard/gen_zynq.py and the other schematic generators: symbols of simple parts,
-- which the generators that have them write alike.
use cirradio.Prelude.{pos, List, [], ◌∷◌, codes}
use cirradio.Sheet.Library.{
  LibLine, raw, symbol_open, unit_open, pin, neg, no_footprint, no_datasheet,
}

-- Device:R.
unfoldable pub device_r : List LibLine
device_r =
    symbol_open (codes "Device:R")
    ∷ raw "      (pin_names (offset 0) hide) (exclude_from_sim no) (in_bom yes) (on_board yes)"
    ∷ raw "      (property \"Reference\" \"R\" (at 2.032 0 90) (effects (font (size 1.27 1.27))))"
    ∷ raw "      (property \"Value\" \"R\" (at -2.032 0 90) (effects (font (size 1.27 1.27))))"
    ∷ raw
        "      (property \"Footprint\" \"\" (at -1.778 0 90) (effects (font (size 1.27 1.27)) hide))"
    ∷ no_datasheet
    ∷ unit_open (codes "R") 0 1
    ∷ raw
        "        (rectangle (start -1.016 -2.54) (end 1.016 2.54) (stroke (width 0.254) (type default)) (fill (type none)))"
    ∷ raw "      )"
    ∷ unit_open (codes "R") 1 1
    ∷ pin "passive" (pos 0) (pos 3810) 270 (pos 1270) "~" "1"
    ∷ pin "passive" (pos 0) (neg 3810) 90 (pos 1270) "~" "2"
    ∷ raw "      )"
    ∷ raw "    )"
    ∷ []

-- Device:C.
unfoldable pub device_c : List LibLine
device_c =
    symbol_open (codes "Device:C")
    ∷ raw "      (pin_names (offset 0.254) hide) (exclude_from_sim no) (in_bom yes) (on_board yes)"
    ∷ raw
        "      (property \"Reference\" \"C\" (at 1.524 1.651 0) (effects (font (size 1.27 1.27)) (justify left)))"
    ∷ raw
        "      (property \"Value\" \"C\" (at 1.524 -1.651 0) (effects (font (size 1.27 1.27)) (justify left)))"
    ∷ raw
        "      (property \"Footprint\" \"\" (at 0.9652 -3.81 0) (effects (font (size 1.27 1.27)) hide))"
    ∷ no_datasheet
    ∷ unit_open (codes "C") 0 1
    ∷ raw
        "        (polyline (pts (xy -2.032 -0.762) (xy 2.032 -0.762)) (stroke (width 0.508) (type default)) (fill (type none)))"
    ∷ raw
        "        (polyline (pts (xy -2.032 0.762) (xy 2.032 0.762)) (stroke (width 0.508) (type default)) (fill (type none)))"
    ∷ raw "      )"
    ∷ unit_open (codes "C") 1 1
    ∷ pin "passive" (pos 0) (pos 3810) 270 (pos 3048) "~" "1"
    ∷ pin "passive" (pos 0) (neg 3810) 90 (pos 3048) "~" "2"
    ∷ raw "      )"
    ∷ raw "    )"
    ∷ []

-- Device:LED.
unfoldable pub device_led : List LibLine
device_led =
    symbol_open (codes "Device:LED")
    ∷ raw "      (pin_names (offset 1.016) hide) (exclude_from_sim no) (in_bom yes) (on_board yes)"
    ∷ raw "      (property \"Reference\" \"D\" (at 0 2.54 0) (effects (font (size 1.27 1.27))))"
    ∷ raw "      (property \"Value\" \"LED\" (at 0 -2.54 0) (effects (font (size 1.27 1.27))))"
    ∷ no_footprint
    ∷ no_datasheet
    ∷ unit_open (codes "LED") 0 1
    ∷ raw
        "        (polyline (pts (xy -1.27 1.27) (xy -1.27 -1.27)) (stroke (width 0.254) (type default)) (fill (type none)))"
    ∷ raw
        "        (polyline (pts (xy -1.27 0) (xy 1.27 0)) (stroke (width 0) (type default)) (fill (type none)))"
    ∷ raw
        "        (polyline (pts (xy 1.27 1.27) (xy 1.27 -1.27) (xy -1.27 0) (xy 1.27 1.27)) (stroke (width 0.254) (type default)) (fill (type none)))"
    ∷ raw "      )"
    ∷ unit_open (codes "LED") 1 1
    ∷ pin "passive" (neg 3810) (pos 0) 0 (pos 2540) "K" "1"
    ∷ pin "passive" (pos 3810) (pos 0) 180 (pos 2540) "A" "2"
    ∷ raw "      )"
    ∷ raw "    )"
    ∷ []

-- Switch:SW_Push.
unfoldable pub sw_push : List LibLine
sw_push =
    symbol_open (codes "Switch:SW_Push")
    ∷ raw "      (pin_names (offset 1.016) hide) (exclude_from_sim no) (in_bom yes) (on_board yes)"
    ∷ raw "      (property \"Reference\" \"SW\" (at 0 3.81 0) (effects (font (size 1.27 1.27))))"
    ∷ raw "      (property \"Value\" \"SW_Push\" (at 0 -2.54 0) (effects (font (size 1.27 1.27))))"
    ∷ no_footprint
    ∷ no_datasheet
    ∷ unit_open (codes "SW_Push") 0 1
    ∷ raw
        "        (circle (center -2.032 0) (radius 0.508) (stroke (width 0) (type default)) (fill (type none)))"
    ∷ raw
        "        (circle (center 2.032 0) (radius 0.508) (stroke (width 0) (type default)) (fill (type none)))"
    ∷ raw
        "        (polyline (pts (xy 0 1.524) (xy 0 3.048)) (stroke (width 0) (type default)) (fill (type none)))"
    ∷ raw
        "        (polyline (pts (xy -2.54 1.524) (xy 2.54 1.524)) (stroke (width 0) (type default)) (fill (type none)))"
    ∷ raw "      )"
    ∷ unit_open (codes "SW_Push") 1 1
    ∷ pin "passive" (neg 5080) (pos 0) 0 (pos 2540) "1" "1"
    ∷ pin "passive" (pos 5080) (pos 0) 180 (pos 2540) "2" "2"
    ∷ raw "      )"
    ∷ raw "    )"
    ∷ []

-- Device:L.
unfoldable pub device_l : List LibLine
device_l =
    symbol_open (codes "Device:L")
    ∷ raw "      (pin_names (offset 0) hide) (exclude_from_sim no) (in_bom yes) (on_board yes)"
    ∷ raw
        "      (property \"Reference\" \"L\" (at 1.524 0 0) (effects (font (size 1.27 1.27)) (justify left)))"
    ∷ raw
        "      (property \"Value\" \"L\" (at -1.524 0 0) (effects (font (size 1.27 1.27)) (justify right)))"
    ∷ no_footprint
    ∷ no_datasheet
    ∷ unit_open (codes "L") 0 1
    ∷ raw
        "        (arc (start 0 -2.54) (mid 0.635 -1.905) (end 0 -1.27) (stroke (width 0.254) (type default)) (fill (type none)))"
    ∷ raw
        "        (arc (start 0 -1.27) (mid 0.635 -0.635) (end 0 0) (stroke (width 0.254) (type default)) (fill (type none)))"
    ∷ raw
        "        (arc (start 0 0) (mid 0.635 0.635) (end 0 1.27) (stroke (width 0.254) (type default)) (fill (type none)))"
    ∷ raw
        "        (arc (start 0 1.27) (mid 0.635 1.905) (end 0 2.54) (stroke (width 0.254) (type default)) (fill (type none)))"
    ∷ raw "      )"
    ∷ unit_open (codes "L") 1 1
    ∷ pin "passive" (pos 0) (pos 3810) 270 (pos 1270) "~" "1"
    ∷ pin "passive" (pos 0) (neg 3810) 90 (pos 1270) "~" "2"
    ∷ raw "      )"
    ∷ raw "    )"
    ∷ []

-- Device:Crystal.
unfoldable pub device_crystal : List LibLine
device_crystal =
    symbol_open (codes "Device:Crystal")
    ∷ raw "      (pin_names (offset 1.016) hide) (exclude_from_sim no) (in_bom yes) (on_board yes)"
    ∷ raw "      (property \"Reference\" \"Y\" (at 0 3.81 0) (effects (font (size 1.27 1.27))))"
    ∷ raw "      (property \"Value\" \"Crystal\" (at 0 -3.81 0) (effects (font (size 1.27 1.27))))"
    ∷ no_footprint
    ∷ no_datasheet
    ∷ unit_open (codes "Crystal") 0 1
    ∷ raw
        "        (rectangle (start -0.762 1.524) (end 0.762 -1.524) (stroke (width 0.254) (type default)) (fill (type none)))"
    ∷ raw
        "        (polyline (pts (xy -1.524 -1.27) (xy -1.524 1.27)) (stroke (width 0.254) (type default)) (fill (type none)))"
    ∷ raw
        "        (polyline (pts (xy 1.524 -1.27) (xy 1.524 1.27)) (stroke (width 0.254) (type default)) (fill (type none)))"
    ∷ raw "      )"
    ∷ unit_open (codes "Crystal") 1 1
    ∷ pin "passive" (neg 3810) (pos 0) 0 (pos 2286) "1" "1"
    ∷ pin "passive" (pos 3810) (pos 0) 180 (pos 2286) "2" "2"
    ∷ raw "      )"
    ∷ raw "    )"
    ∷ []

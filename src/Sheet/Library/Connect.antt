-- ===== src/Sheet/Library/Connect.antt =====
-- hardware/cirradio-devboard/gen_connectors.py: the symbols of the header and of test points.
use cirradio.Prelude.{ℕ, ℤ, pos, List, [], ◌∷◌, ◌++◌, codes, decimal, gather, range, ◌-ℤ◌, ◌*◌, ◌+◌}
use cirradio.Sheet.Library.{
  LibLine, raw, symbol_open, unit_open, pin_line, pin, neg, no_footprint, no_datasheet,
}

-- Connector_Generic:Conn_02x20_Odd_Even, with two pins in each turn.
unfoldable pub conn_02x20_odd_even : List LibLine
unfolding decimal ◌-ℤ◌
conn_02x20_odd_even =
    symbol_open (codes "Connector_Generic:Conn_02x20_Odd_Even")
    ∷ raw "      (pin_names (offset 1.016) hide) (exclude_from_sim no) (in_bom yes) (on_board yes)"
    ∷ raw "      (property \"Reference\" \"J\" (at 1.27 26.67 0) (effects (font (size 1.27 1.27))))"
    ∷ raw
        "      (property \"Value\" \"Conn_02x20_Odd_Even\" (at 1.27 -26.67 0) (effects (font (size 1.27 1.27))))"
    ∷ no_footprint
    ∷ no_datasheet
    ∷ unit_open (codes "Conn_02x20_Odd_Even") 1 1
    ∷ raw
        "        (rectangle (start -1.27 25.4) (end 3.81 -25.4) (stroke (width 0.254) (type default)) (fill (type background)))"
    ∷ (gather
          (λ i.
            let odd : ℕ = i * 2 + 1 in
            let even : ℕ = i * 2 + 2 in
            let y : ℤ = pos 24130 -ℤ pos (i * 2540) in
            pin_line (codes "passive") (neg 3810) y 0 (pos 2540) (codes "Pin_" ++ decimal odd)
              (decimal odd)
            ∷ pin_line (codes "passive") (pos 6350) y 180 (pos 2540) (codes "Pin_" ++ decimal even)
                (decimal even)
            ∷ [])
          (range 20)
        ++ (raw "      )" ∷ raw "    )" ∷ []))

-- Connector:TestPoint.
unfoldable pub test_point_symbol : List LibLine
test_point_symbol =
    symbol_open (codes "Connector:TestPoint")
    ∷ raw "      (pin_names (offset 0.762) hide) (exclude_from_sim no) (in_bom no) (on_board yes)"
    ∷ raw "      (property \"Reference\" \"TP\" (at 0 5.842 0) (effects (font (size 1.27 1.27))))"
    ∷ raw "      (property \"Value\" \"TestPoint\" (at 0 3.81 0) (effects (font (size 1.27 1.27))))"
    ∷ raw "      (property \"Footprint\" \"\" (at 5.08 0 0) (effects (font (size 1.27 1.27)) hide))"
    ∷ raw "      (property \"Datasheet\" \"\" (at 5.08 0 0) (effects (font (size 1.27 1.27)) hide))"
    ∷ unit_open (codes "TestPoint") 0 1
    ∷ raw
        "        (circle (center 0 1.778) (radius 0.762) (stroke (width 0) (type default)) (fill (type none)))"
    ∷ raw "      )"
    ∷ unit_open (codes "TestPoint") 1 1
    ∷ pin "passive" (pos 0) (pos 0) 90 (pos 1016) "1" "1"
    ∷ raw "      )"
    ∷ raw "    )"
    ∷ []

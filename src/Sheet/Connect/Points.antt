-- ===== src/Sheet/Connect/Points.antt =====
-- hardware/cirradio-devboard/gen_connectors.py: test points.
use cirradio.Prelude.{
  List, Text, [], codes, enumerate_from, gather, if◌then◌else◌, pos, text_eq, ℕ, ℤ, ◌*◌, ◌+ℤ◌, ◌-ℤ◌,
  ◌∷◌,
}
use cirradio.Sheet.{Step, global_label, passive, power_symbol, test_point, text_note, wire, ◌>>◌}

-- The test points.
unfoldable pub test_points : List Step
unfolding ◌+ℤ◌ ◌-ℤ◌ text_eq
test_points = do
  text_note (codes "TEST POINTS (SMD pads)") (pos 30000) (pos 300000) (pos 2000)
  text_note (codes "All power rails + key signals") (pos 30000) (pos 305000) (pos 1270)
  let tp_base_x : ℤ = pos 40000
  let tp_base_y : ℤ = pos 325000
  let tp_spacing_y : ℤ = pos 30000
  gather {A = ℕ × (Text × Text)}
      (λ (idx, (net, tp_type)). do
        let tx : ℤ = tp_base_x +ℤ pos (idx * 25000)
        let ty : ℤ = tp_base_y
        test_point net tx ty (codes "TestPoint:TestPoint_Pad_1.5x1.5mm")
        (if text_eq tp_type (codes "gnd")
            then (do
              power_symbol (codes "GND") tx (ty -ℤ pos 5000) 0
              wire tx ty tx (ty -ℤ pos 5000))
            else (do power_symbol net tx (ty -ℤ pos 5000) 0; wire tx ty tx (ty -ℤ pos 5000))))
      (enumerate_from 0 (
        (codes "+12V", codes "power")
        ∷ (codes "+5V", codes "power")
        ∷ (codes "+3V3", codes "power")
        ∷ (codes "+1V8", codes "power")
        ∷ (codes "+1V35", codes "power")
        ∷ (codes "+1V0", codes "power")
        ∷ (codes "+1V5", codes "power")
        ∷ (codes "VTT", codes "power")
        ∷ (codes "GND", codes "gnd")
        ∷ []))
  gather {A = ℕ × (Text × Text)}
      (λ (idx, (net, _)). do
        let tx : ℤ = tp_base_x +ℤ pos (idx * 25000)
        let ty : ℤ = tp_base_y +ℤ tp_spacing_y
        test_point net tx ty (codes "TestPoint:TestPoint_Pad_1.5x1.5mm")
        global_label net tx (ty -ℤ pos 5000) passive 0
        wire tx ty tx (ty -ℤ pos 5000))
      (enumerate_from 0
        ((codes "GPS_1PPS", codes "signal") ∷ (codes "PS_CLK", codes "signal") ∷ []))

-- The name of the board.
unfoldable pub board_id : List Step
board_id = do text_note (codes "CIRRADIO DevBoard v1.0") (pos 30000) (pos 390000) (pos 3000)

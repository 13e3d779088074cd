-- ===== src/Tests/Wires.antt =====
-- Witnesses for the theorems on what the sheets place and wire.
use mathlib.Core.Quot.{Quot}
use cirradio.Prelude.{
  ◌+◌, ◌≤◌, ◌<◌, ◌≡◌, ◌≢◌, ◌⊎◌, false, true, some, List, [], ◌∷◌, ◌++◌, Text, codes, decimal,
  text_eq, text_eq_iff, one_of, count, get, All, arith,
}
use cirradio.Netlist.Numbers.{net_map}
use cirradio.Netlist.Numbers.Order.{rank, net_map-rank}
use cirradio.Sheet.Symbols.{IsDeclared, is_pinless, page_sheet-IsDeclared}
use cirradio.Sheet.Units.{
  AreDistinct, symbol_names, all_numbers, declared_units, placed_units, page_library-AreDistinct,
  placed_units-declared_units,
}
use cirradio.Sheet.Libraries.{page_library}
use cirradio.Sheet.Pages.{gen_zynq, gen_ddr3l, gen_ad9361, gen_rf, gen_connectors, page_sheet}
use cirradio.Sheet.Wiring.{upward, downward, labelled, reached, page_wired}
use cirradio.Sheet.Wiring.Memory.{data_pins, reached-data}
use cirradio.Sheet.Wiring.Processor.{
  IsMisnamed, labelled-IsMisnamed, open_prefixes, page_wired-open,
}
use cirradio.Sheet.Wiring.Radio.{supplied, supplied-ground}
use cirradio.Sheet.Wiring.Header.{header_pin, page_wired-half}

abbrev three_nets : List Text
three_nets = codes "VCC" ∷ codes "GND" ∷ codes "+3V3" ∷ []

three_nets-once : (s : Text) → count s three_nets ≤ 1
unfolding count text_eq
three_nets-once s =
    ground (
      arith,
      text_eq_iff (codes "VCC") s,
      text_eq_iff (codes "GND") s,
      text_eq_iff (codes "+3V3") s,
    )

three_nets-here : 0 < count (codes "VCC") three_nets
unfolding count text_eq
three_nets-here = omega arith

vcc-other : codes "VCC" ≢ codes "GND"
unfolding text_eq
vcc-other e = let same = (text_eq_iff (codes "VCC") (codes "GND")).1 e in ground (arith, same)

net_map-rank_example :
    get (codes "VCC") (net_map three_nets) ≡ some (2 + rank (codes "VCC") (Quot.mk three_nets))
net_map-rank_example =
    net_map-rank three_nets (codes "VCC") three_nets-once three_nets-here vcc-other

page_sheet-IsDeclared_example : All (IsDeclared (page_library gen_ddr3l)) (page_sheet gen_ddr3l)
page_sheet-IsDeclared_example = page_sheet-IsDeclared gen_ddr3l

page_library-AreDistinct_example :
    AreDistinct (symbol_names (page_library gen_rf))
    × All
        (λ lib_id. AreDistinct (all_numbers lib_id false (page_library gen_rf)))
        (symbol_names (page_library gen_rf))
page_library-AreDistinct_example = page_library-AreDistinct gen_rf

placed_units-declared_units_example :
    All
      (λ lib_id.
        (declared_units lib_id false (page_library gen_ad9361) ≡ 1 ∷ [])
        ⊎ (placed_units lib_id (page_sheet gen_ad9361)
            ≡ declared_units lib_id false (page_library gen_ad9361)))
      (symbol_names (page_library gen_ad9361))
placed_units-declared_units_example = placed_units-declared_units gen_ad9361

reached-data_example :
    (reached upward gen_ddr3l (codes "DDR_DQ" ++ decimal 3) ≡ data_pins upward 3)
    × (reached upward gen_ddr3l (codes "DDR_DQ" ++ decimal (16 + 3)) ≡ data_pins upward 3)
reached-data_example = reached-data upward 3 (omega arith)

supplied-ground_example :
    (reached downward gen_ddr3l (codes "DDR_DQ" ++ decimal 20) ≡ [])
    ⊎ ((is_pinless (supplied downward) ≡ false)
        × All (λ name. codes "GND" ≡ name) (supplied downward))
supplied-ground_example = supplied-ground downward 20 (omega arith)

labelled-IsMisnamed_example : All IsMisnamed (labelled upward gen_zynq)
labelled-IsMisnamed_example = labelled-IsMisnamed upward

page_wired-open_example : All (λ p. page_wired upward gen_zynq p ≡ []) open_prefixes
page_wired-open_example = page_wired-open upward

page_wired-half_example :
    (one_of (page_wired upward gen_connectors (codes "Pin_")) (header_pin (1 + 7)) ≡ true)
    × (one_of (page_wired upward gen_connectors (codes "Pin_")) (header_pin (21 + 7)) ≡ false)
page_wired-half_example = page_wired-half upward 7 (omega arith)

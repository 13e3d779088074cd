-- ===== src/Tests/Traces.antt =====
-- The routing at concrete inputs.
use cirradio.Prelude.{
  ◌≡◌, ◌≤◌, ◌+◌, ◌-◌, ◌*◌, ◌/◌, ◌++◌, List, [], ◌∷◌, map, Text, codes, text_eq, get, or_else, All,
  arith,
}
use cirradio.Routing.Trace.{f_cu, dist_squared, pieces, route_point_to_point}
use cirradio.Routing.Trace.Laws.{
  Chain, scaled, IsGoodPiece, route_point_to_point-Chain, route_point_to_point-IsGoodPiece,
}
use cirradio.Routing.Entry.{comment, via, Nets, net_or_0, Wired, at}
use cirradio.Routing.Ddr3l.{gen_ddr3l_routing}
use cirradio.Routing.Ddr3l.Wired.{gen_ddr3l_routing-Wired}
use cirradio.Routing.Lvds.Overlap.{HasPair}
use cirradio.Routing.Stitching.{stops, gen_perimeter_via_stitching}
use cirradio.Routing.Stitching.Grid.{
  every, columns, rows, stops-every, gen_perimeter_via_stitching-every,
}

route_point_to_point-Chain_example :
    Chain
      (scaled (pieces (at 0 0) (at 30000 40000) 5000) (at 0 0))
      (scaled (pieces (at 0 0) (at 30000 40000) 5000) (at 30000 40000))
      (route_point_to_point (at 0 0) (at 30000 40000) 120 f_cu 7 5000)
route_point_to_point-Chain_example =
    route_point_to_point-Chain (at 0 0) (at 30000 40000) 120 f_cu 7 5000

far_apart : 5000 * 5000 ≤ dist_squared (at 0 0) (at 30000 40000)
unfolding dist_squared
far_apart = omega arith

route_point_to_point-IsGoodPiece_example :
    All
      (IsGoodPiece 120 f_cu 7 5000)
      (route_point_to_point (at 0 0) (at 30000 40000) 120 f_cu 7 5000)
route_point_to_point-IsGoodPiece_example =
    route_point_to_point-IsGoodPiece (at 0 0) (at 30000 40000) 120 f_cu 7 5000 (omega arith)
      far_apart

abbrev some_nets : Nets
some_nets =
    (codes "GND", 1) ∷ (codes "DDR_DQ0", 5) ∷ (codes "P0_D0_P", 8) ∷ (codes "P0_D0_N", 9) ∷ []

gen_ddr3l_routing-Wired_example : All (Wired some_nets) (gen_ddr3l_routing some_nets)
gen_ddr3l_routing-Wired_example = gen_ddr3l_routing-Wired some_nets

abbrev pair_nets : Nets
pair_nets =
    (codes "RX_FRAME_P", 20)
    ∷ (codes "RX_FRAME_N", 21)
    ∷ (codes "FB_CLK_P", 22)
    ∷ (codes "FB_CLK_N", 23)
    ∷ []

abbrev two_bases : List Text
two_bases = codes "RX_FRAME" ∷ codes "FB_CLK" ∷ []

two_bases-HasPair : All (HasPair pair_nets) two_bases
unfolding net_or_0 get text_eq
two_bases-HasPair = (
  record { has_p = ground arith; has_n = ground arith },
  (record { has_p = ground arith; has_n = ground arith }, tt),
)

stops-every_example : stops 6000 4000 9000 ≡ every 4000 ((9000 + 2000 - 4000) / 2000)
stops-every_example = stops-every 6000 4000 9000 (omega arith)

gen_perimeter_via_stitching-every_example :
    gen_perimeter_via_stitching some_nets
    ≡ comment (codes "  ; Board perimeter ground via stitching (every 2mm)")
      ∷ map
          (λ p. via p (or_else (get (codes "GND") some_nets) 1))
          (map (λ x. at x 4000) columns
            ++ (map (λ x. at x 96000) columns
                ++ (map (λ y. at 4000 y) rows ++ map (λ y. at 156000 y) rows)))
gen_perimeter_via_stitching-every_example = gen_perimeter_via_stitching-every some_nets

-- ===== src/Routing/Lvds.antt =====
-- hardware/cirradio-devboard/gen_pcb_routing.py: `gen_lvds_routing`, in micrometres.
pub mod Wired
pub mod Overlap
use cirradio.Prelude.{
  ℕ, ◌+◌, ◌-◌, ◌*◌, Bool, not, ◌&&◌, List, [], ◌∷◌, ◌++◌, ◌==◌, if◌then◌else◌, range, gather, Text,
  codes, decimal,
}
use cirradio.Routing.Trace.{Copper, in2_cu, Point}
use cirradio.Routing.Entry.{Entry, comment, Nets, net_or_0, traces, at}

-- AD9361_XY and ZYNQ_XY
abbrev ad9361 : Point
ad9361 = at 80000 16000

abbrev zynq : Point
zynq = at 80000 50000

-- f"P0_D{i}_P" and f"P0_D{i}_N"
abbrev pub data_name : ℕ → Text → Text
data_name i side = codes "P0_D" ++ (decimal i ++ side)

-- Data pair `i`, the two lines 0.2 mm apart, if both nets are there.
unfoldable pub data_pair : Nets → ℕ → List Entry
data_pair nets i =
    let p_net = net_or_0 nets (data_name i (codes "_P")) in
    let n_net = net_or_0 nets (data_name i (codes "_N")) in
    let src_x = ad9361.x - 8000 + i * 1200 in
    let src_y = ad9361.y + 4000 in
    let dst_x = zynq.x - 8000 + i * 1200 in
    let dst_y = zynq.y - 12000 in
    if not (p_net == 0) && not (n_net == 0)
    then traces (at src_x src_y) (at dst_x dst_y) 120 in2_cu p_net
      ++ traces (at (src_x + 200) src_y) (at (dst_x + 200) dst_y) 120 in2_cu n_net
    else []

-- Frame and clock pairs are routed from `x_base` straight to the Zynq.
unfoldable pub straight_pair : Nets → Text → ℕ → List Entry
straight_pair nets base x_base =
    let p_net = net_or_0 nets (base ++ codes "_P") in
    let n_net = net_or_0 nets (base ++ codes "_N") in
    if not (p_net == 0) && not (n_net == 0)
    then traces (at x_base (ad9361.y + 5000)) (at x_base (zynq.y - 10000)) 120 in2_cu p_net
      ++ traces (at (x_base + 200) (ad9361.y + 5000)) (at (x_base + 200) (zynq.y - 10000)) 120
          in2_cu n_net
    else []

-- The loop over the frame and clock pairs. Its variable `x_base` lives on from round to round, with
-- 1.5 mm added at the end of a round, and is set anew at the start of each.
unfoldable pub straight_pairs : Nets → ℕ → List Text → List Entry
unfolding straight_pair
straight_pairs nets x_base [] = []
straight_pairs nets x_base (base ∷ bases) =
    let x_base' = ad9361.x + 8000 in
    straight_pair nets base x_base' ++ straight_pairs nets (x_base' + 1500) bases

abbrev pub straight_bases : List Text
straight_bases = codes "RX_FRAME" ∷ codes "TX_FRAME" ∷ codes "DATA_CLK" ∷ codes "FB_CLK" ∷ []

unfoldable pub gen_lvds_routing : Nets → List Entry
unfolding straight_pairs
gen_lvds_routing nets =
    comment (codes "  ; AD9361 LVDS differential pairs (In2.Cu)")
    ∷ (gather (data_pair nets) (range 12) ++ straight_pairs nets 0 straight_bases)

-- ===== src/Routing/Ddr3l.antt =====
-- hardware/cirradio-devboard/gen_pcb_routing.py: `gen_ddr3l_routing`, in micrometres.
pub mod Wired
use cirradio.Prelude.{
  ℕ, ◌+◌, ◌-◌, ◌*◌, Bool, true, false, not, ◌&&◌, List, [], ◌∷◌, ◌++◌, ltb, ◌==◌, if◌then◌else◌,
  range, enumerate_from, gather, Text, codes, decimal,
}
use cirradio.Routing.Trace.{Copper, in2_cu, in4_cu, Point}
use cirradio.Routing.Entry.{Entry, comment, Nets, net_or_0, traces, at}

-- ZYNQ_XY, DDR0_XY and DDR1_XY
abbrev zynq : Point
zynq = at 80000 50000

abbrev ddr0 : Point
ddr0 = at 112000 35000

abbrev ddr1 : Point
ddr1 = at 128000 35000

-- f"{prefix}{n}"
abbrev pub numbered : Text → ℕ → Text
numbered prefix n = prefix ++ decimal n

abbrev lane_layer : ℕ → Copper
lane_layer byte_lane = if ltb byte_lane 2 then in2_cu else in4_cu

abbrev lane_target : ℕ → Point
lane_target byte_lane = if ltb byte_lane 2 then ddr0 else ddr1

-- Bit `bit` of the byte lane: nothing if the net is missing.
unfoldable pub data_bit : Nets → ℕ → ℕ → List Entry
data_bit nets byte_lane bit =
    let net_num = net_or_0 nets (numbered (codes "DDR_DQ") (byte_lane * 8 + bit)) in
    let y_offset = byte_lane * 1500 in
    let x_spread = bit * 400 in
    let target = lane_target byte_lane in
    if net_num == 0
    then []
    else traces (at (zynq.x + 10000 + x_spread) (zynq.y - 5000 + y_offset))
        (at (target.x - 4000 + x_spread) (target.y + y_offset)) 100 (lane_layer byte_lane) net_num

-- The DQS pair of the byte lane, 0.15 mm apart, if both nets are there.
unfoldable pub strobe_pair : Nets → ℕ → List Entry
strobe_pair nets byte_lane =
    let dqs_p = net_or_0 nets (numbered (codes "DDR_DQS_P") byte_lane) in
    let dqs_n = net_or_0 nets (numbered (codes "DDR_DQS_N") byte_lane) in
    let target = lane_target byte_lane in
    let layer = lane_layer byte_lane in
    let src_y_base = zynq.y - 5000 + byte_lane * 1500 + 500 in
    let dst_y_base = target.y + byte_lane * 1500 + 500 in
    if not (dqs_p == 0) && not (dqs_n == 0)
    then traces (at (zynq.x + 12000) (src_y_base - 75)) (at (target.x - 2000) (dst_y_base - 75)) 100
        layer dqs_p
      ++ traces (at (zynq.x + 12000) (src_y_base + 75)) (at (target.x - 2000) (dst_y_base + 75)) 100
          layer dqs_n
    else []

unfoldable pub data_mask : Nets → ℕ → List Entry
data_mask nets byte_lane =
    let dm_net = net_or_0 nets (numbered (codes "DDR_DM") byte_lane) in
    let y_offset = byte_lane * 1500 in
    let target = lane_target byte_lane in
    if dm_net == 0
    then []
    else traces (at (zynq.x + 13000) (zynq.y - 4000 + y_offset))
        (at (target.x - 1000) (target.y + 1000 + y_offset)) 100 (lane_layer byte_lane) dm_net

unfoldable pub byte_lane_routing : Nets → ℕ → List Entry
byte_lane_routing nets byte_lane =
    gather (data_bit nets byte_lane) (range 8)
    ++ (strobe_pair nets byte_lane ++ data_mask nets byte_lane)

abbrev pub address_nets : List Text
address_nets =
    gather (λ i. numbered (codes "DDR_A") i ∷ []) (range 15)
    ++ (codes "DDR_BA0"
        ∷ codes "DDR_BA1"
        ∷ codes "DDR_BA2"
        ∷ codes "DDR_CAS_B"
        ∷ codes "DDR_RAS_B"
        ∷ codes "DDR_WE_B"
        ∷ codes "DDR_CKE"
        ∷ codes "DDR_CS_B"
        ∷ codes "DDR_ODT"
        ∷ codes "DDR_RESET_B"
        ∷ [])

-- Fly-by: Zynq to the first memory, and from there to the second.
unfoldable pub address_routing : Nets → ℕ × Text → List Entry
address_routing nets (idx, net_name) =
    let net_num = net_or_0 nets net_name in
    if net_num == 0
    then []
    else traces (at (zynq.x + 14000) (zynq.y + (8000 + idx * 350)))
        (at ddr0.x (ddr0.y + 10000 + idx * 350)) 100 in4_cu net_num
      ++ traces (at (ddr0.x + 2000) (ddr0.y + 10000 + idx * 350))
          (at ddr1.x (ddr1.y + 10000 + idx * 350)) 100 in4_cu net_num

-- One line of the clock pair: `y` is its distance from the line 75 um above the pair.
unfoldable pub clock_line : ℕ → ℕ → List Entry
clock_line ck_net y =
    traces (at (zynq.x + 14000) (zynq.y + 6000 - 75 + y)) (at ddr0.x (ddr0.y + 8000 - 75 + y)) 100
      in4_cu ck_net
    ++ traces (at (ddr0.x + 2000) (ddr0.y + 8000 - 75 + y)) (at ddr1.x (ddr1.y + 8000 - 75 + y)) 100
        in4_cu ck_net

unfoldable pub clock_pair : Nets → List Entry
clock_pair nets =
    let ck_p = net_or_0 nets (codes "DDR_CK_P") in
    let ck_n = net_or_0 nets (codes "DDR_CK_N") in
    if not (ck_p == 0) && not (ck_n == 0) then clock_line ck_p 0 ++ clock_line ck_n 150 else []

unfoldable pub gen_ddr3l_routing : Nets → List Entry
gen_ddr3l_routing nets =
    comment (codes "  ; DDR3L byte lane routing (In2.Cu / In4.Cu)")
    ∷ (gather (byte_lane_routing nets) (range 4)
        ++ (comment (codes "  ; DDR3L address/command fly-by topology (In4.Cu)")
            ∷ (gather (address_routing nets) (enumerate_from 0 address_nets)
                ++ comment (codes "  ; DDR3L clock differential pair") ∷ clock_pair nets)))

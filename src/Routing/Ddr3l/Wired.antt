-- ===== src/Routing/Ddr3l/Wired.antt =====
-- Every trace of the memory interface is wired.
use cirradio.Prelude.{
  ℕ, ◌<◌, ◌≤◌, range, range-lt, enumerate_from, enumerate_from-lt, gather, All-gather, All,
  All-append, Text, arith,
}
use cirradio.Routing.Entry.{Nets, traces, Wired, IsConnected}
use cirradio.Routing.Entry.Wiring.{traces-Wired, if_net-Wired, if_pair-Wired}
use cirradio.Routing.Ddr3l.{
  data_bit, strobe_pair, data_mask, byte_lane_routing, address_routing, address_nets, clock_line,
  clock_pair, gen_ddr3l_routing,
}

data_bit-Wired :
    (nets : Nets) (byte_lane bit : ℕ)
    → byte_lane < 4
    → bit < 8
    → All (Wired nets) (data_bit nets byte_lane bit)
unfolding data_bit
data_bit-Wired nets byte_lane bit h k =
    if_net-Wired nets _ _ (traces-Wired nets _ _ _ _ _ (ground arith) (ground arith))

strobe_pair-Wired :
    (nets : Nets) (byte_lane : ℕ) → byte_lane < 4 → All (Wired nets) (strobe_pair nets byte_lane)
unfolding strobe_pair
strobe_pair-Wired nets byte_lane h = if_pair-Wired nets _ _ _ λ p n.
    All-append (Wired nets) (traces _ _ _ _ _) (traces _ _ _ _ _)
      (traces-Wired nets _ _ _ _ _ (ground arith) (ground arith) p)
      (traces-Wired nets _ _ _ _ _ (ground arith) (ground arith) n)

data_mask-Wired :
    (nets : Nets) (byte_lane : ℕ) → byte_lane < 4 → All (Wired nets) (data_mask nets byte_lane)
unfolding data_mask
data_mask-Wired nets byte_lane h =
    if_net-Wired nets _ _ (traces-Wired nets _ _ _ _ _ (ground arith) (ground arith))

byte_lane_routing-Wired :
    (nets : Nets) (byte_lane : ℕ)
    → byte_lane < 4
    → All (Wired nets) (byte_lane_routing nets byte_lane)
unfolding byte_lane_routing
byte_lane_routing-Wired nets byte_lane h =
    All-append (Wired nets) (gather (data_bit nets byte_lane) (range 8)) _
      (All-gather (λ bit. bit < 8) (Wired nets) (data_bit nets byte_lane)
        (λ bit k. data_bit-Wired nets byte_lane bit h k) (range 8) (range-lt 8))
      (All-append (Wired nets) (strobe_pair nets byte_lane) (data_mask nets byte_lane)
        (strobe_pair-Wired nets byte_lane h) (data_mask-Wired nets byte_lane h))

address_routing-Wired :
    (nets : Nets) (e : ℕ × Text) → e.0 < 25 → All (Wired nets) (address_routing nets e)
unfolding address_routing
address_routing-Wired nets (idx, name) h = if_net-Wired nets _ _ λ c.
    All-append (Wired nets) (traces _ _ _ _ _) (traces _ _ _ _ _)
      (traces-Wired nets _ _ _ _ _ (omega arith) (omega arith) c)
      (traces-Wired nets _ _ _ _ _ (omega arith) (omega arith) c)

clock_line-Wired :
    (nets : Nets) (net y : ℕ) → y ≤ 150 → IsConnected nets net → All (Wired nets) (clock_line net y)
unfolding clock_line
clock_line-Wired nets net y h c =
    All-append (Wired nets) (traces _ _ _ _ _) (traces _ _ _ _ _)
      (traces-Wired nets _ _ _ _ _ (omega arith) (omega arith) c)
      (traces-Wired nets _ _ _ _ _ (omega arith) (omega arith) c)

clock_pair-Wired : (nets : Nets) → All (Wired nets) (clock_pair nets)
unfolding clock_pair
clock_pair-Wired nets = if_pair-Wired nets _ _ _ λ p n.
    All-append (Wired nets) (clock_line _ 0) (clock_line _ 150)
      (clock_line-Wired nets _ 0 (omega arith) p) (clock_line-Wired nets _ 150 (omega arith) n)

-- Every trace of the memory routing belongs to a net that the board names, never to net 0, and
-- both its ends lie on the board, whatever nets the board has.
pub gen_ddr3l_routing-Wired : (nets : Nets) → All (Wired nets) (gen_ddr3l_routing nets)
unfolding gen_ddr3l_routing
gen_ddr3l_routing-Wired nets = (
  tt,
  All-append (Wired nets) (gather (byte_lane_routing nets) (range 4)) _
      (All-gather (λ lane. lane < 4) (Wired nets) (byte_lane_routing nets)
        (byte_lane_routing-Wired nets) (range 4) (range-lt 4))
      (
        tt,
        All-append (Wired nets) (gather (address_routing nets) (enumerate_from 0 address_nets)) _
            (All-gather (λ e. e.0 < 25) (Wired nets) (address_routing nets)
              (address_routing-Wired nets) (enumerate_from 0 address_nets)
              (enumerate_from-lt 0 address_nets))
            (tt, clock_pair-Wired nets),
      ),
)

-- ===== src/Routing/Lvds/Wired.antt =====
-- Every trace of the LVDS interface is wired.
use cirradio.Prelude.{
  ℕ, ◌≤◌, ◌<◌, List, [], ◌∷◌, range, range-lt, gather, All-gather, All, All-append, Text, arith,
}
use cirradio.Routing.Entry.{Nets, traces, Wired}
use cirradio.Routing.Entry.Wiring.{traces-Wired, if_pair-Wired}
use cirradio.Routing.Lvds.{
  data_pair, straight_pair, straight_pairs, straight_bases, gen_lvds_routing,
}

data_pair-Wired : (nets : Nets) (i : ℕ) → i < 12 → All (Wired nets) (data_pair nets i)
unfolding data_pair
data_pair-Wired nets i h = if_pair-Wired nets _ _ _ λ p n.
    All-append (Wired nets) (traces _ _ _ _ _) (traces _ _ _ _ _)
      (traces-Wired nets _ _ _ _ _ (omega arith) (omega arith) p)
      (traces-Wired nets _ _ _ _ _ (omega arith) (omega arith) n)

straight_pair-Wired :
    (nets : Nets) (base : Text) (x_base : ℕ)
    → x_base ≤ 100000
    → All (Wired nets) (straight_pair nets base x_base)
unfolding straight_pair
straight_pair-Wired nets base x_base h = if_pair-Wired nets _ _ _ λ p n.
    All-append (Wired nets) (traces _ _ _ _ _) (traces _ _ _ _ _)
      (traces-Wired nets _ _ _ _ _ (omega arith) (omega arith) p)
      (traces-Wired nets _ _ _ _ _ (omega arith) (omega arith) n)

straight_pairs-Wired :
    (nets : Nets) (bases : List Text) (x_base : ℕ)
    → All (Wired nets) (straight_pairs nets x_base bases)
unfolding straight_pairs
straight_pairs-Wired nets [] x_base = tt
straight_pairs-Wired nets (base ∷ bases) x_base =
    All-append (Wired nets) (straight_pair nets base 88000) _
      (straight_pair-Wired nets base 88000 (omega arith)) (straight_pairs-Wired nets bases 89500)

-- Every trace of the LVDS routing belongs to a net that the board names, never to net 0, and both
-- its ends lie on the board, whatever nets the board has.
pub gen_lvds_routing-Wired : (nets : Nets) → All (Wired nets) (gen_lvds_routing nets)
unfolding gen_lvds_routing
gen_lvds_routing-Wired nets = (
  tt,
  All-append (Wired nets) (gather (data_pair nets) (range 12)) _
      (All-gather (λ i. i < 12) (Wired nets) (data_pair nets) (data_pair-Wired nets) (range 12)
        (range-lt 12))
      (straight_pairs-Wired nets straight_bases 0),
)

-- ===== src/Netlist/Numbers.antt =====
-- hardware/cirradio-devboard/gen_pcb_netlist.py: how `generate_pcb` orders and numbers the nets.
pub mod Injective
pub mod Order
use cirradio.Prelude.{
  ℕ, zero, suc, ◌+◌, Bool, true, false, List, [], ◌∷◌, if◌then◌else◌, Text, codes, text_eq, sorted,
  Dict, put,
}

-- all_nets - {"GND"}
unfoldable pub drop_gnd : List Text → List Text
drop_gnd [] = []
drop_gnd (n ∷ nets) = let rest = drop_gnd nets in if text_eq n (codes "GND") then rest else n ∷ rest

-- `net_names`, of the set `all_nets` in any order
unfoldable pub net_names : List Text → List Text
unfolding drop_gnd
net_names all_nets = codes "GND" ∷ sorted (drop_gnd all_nets)

-- for i, name in enumerate(net_names): net_map[name] = i + 1
unfoldable pub number_from : ℕ → List Text → Dict ℕ → Dict ℕ
number_from i [] net_map = net_map
number_from i (name ∷ names) net_map = number_from (suc i) names (put name (i + 1) net_map)

unfoldable pub net_map : List Text → Dict ℕ
unfolding number_from net_names
net_map all_nets = number_from 0 (net_names all_nets) []

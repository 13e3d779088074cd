-- ===== src/Routing/Main/Declared.antt =====
-- The nets of hardware/cirradio-devboard/gen_pcb_routing.py: what all the traces and vias that `main`
-- adds belong to.
use cirradio.Prelude.{
  ℕ, zero, suc, Bool, true, false, List, [], ◌∷◌, map, gather, range, Text, codes, get, or_else,
  All, All-append, All-gather, All-imp, arith,
}
use cirradio.Routing.Trace.{Point, Copper, route_from, pieces, route_point_to_point}
use cirradio.Routing.Entry.{
  Entry, comment, trace, via, Nets, net_or_0, traces_by, IsConnected, Wired,
}
use cirradio.Routing.Ddr3l.{gen_ddr3l_routing}
use cirradio.Routing.Ddr3l.Wired.{gen_ddr3l_routing-Wired}
use cirradio.Routing.Lvds.{gen_lvds_routing}
use cirradio.Routing.Lvds.Wired.{gen_lvds_routing-Wired}
use cirradio.Routing.Rf.{rx_path, tx_path, legs, leg_traces, leg_vias, net_else, gen_rf_routing}
use cirradio.Routing.Fallback.{
  power_rails, spi_signals, uart_signals, i2c_signals, jtag_signals, gen_power_routing,
  gen_general_io_routing,
}
use cirradio.Routing.Fallback.Known.{HasNet, gen_power_routing-Wired, gen_general_io_routing-Wired}
use cirradio.Routing.Stitching.{positions, gen_perimeter_via_stitching}
use cirradio.Routing.Main.{all_entries}

-- The net of the entry, if it has one, is a net of the board.
abbrev pub Refers : Nets → Entry → Type 0
Refers nets (comment t) = Unit
Refers nets (trace s) = IsConnected nets s.net_num
Refers nets (via p net) = IsConnected nets net

Wired-Refers : (nets : Nets) (e : Entry) → Wired nets e → Refers nets e
Wired-Refers nets (comment t) w = tt
Wired-Refers nets (trace s) w = w.connected
Wired-Refers nets (via p net) w = w.0

-- The nets that the routing refers to by name.
pub record HasNets (nets : Nets) : Type 0 where
  pub gnd : HasNet nets (codes "GND", 1)
  pub rx : HasNet nets (codes "AD_RX1A_P", 178)
  pub tx : HasNet nets (codes "AD_TX1A", 180)
  pub input : HasNet nets (codes "+12V", 2)
  pub rails : All (λ r. HasNet nets r.0) power_rails
  pub spi : All (HasNet nets) spi_signals
  pub uart : All (HasNet nets) uart_signals
  pub i2c : All (HasNet nets) i2c_signals
  pub jtag : All (HasNet nets) jtag_signals

net_else-IsConnected :
    (nets : Nets) (name : Text) (fallback : ℕ)
    → HasNet nets (name, fallback)
    → IsConnected nets (net_else nets name fallback)
unfolding net_else net_or_0
net_else-IsConnected nets name fallback h = record {
  name = name;
  known = ground (arith, h.known, h.nonzero);
  nonzero = ground (arith, h.known, h.nonzero);
}

module _ (nets : Nets) (net : ℕ) (c : IsConnected nets net) where
  route_from-Refers :
      (p q : Point) (width : ℕ) (layer : Copper) (n rest i : ℕ)
      → All (Refers nets) (map trace (route_from p q width layer net n rest i))
  unfolding route_from
  route_from-Refers p q width layer n zero i = tt
  route_from-Refers p q width layer n (suc rest) i =
      (c, route_from-Refers p q width layer n rest (suc i))

  leg_traces-Refers : (leg : Point × Point) → Unit {0} → All (Refers nets) (leg_traces net leg)
  unfolding leg_traces traces_by route_point_to_point
  leg_traces-Refers (p, q) u = route_from-Refers p q 280 _ (pieces p q 3000) (pieces p q 3000) 0

  vias-Refers : (points : List Point) → All (Refers nets) (map (λ p. via p net) points)
  vias-Refers [] = tt
  vias-Refers (p ∷ points) = (c, vias-Refers points)

  side_vias-Refers :
      (at_one at_other : ℕ → Point) (js : List ℕ)
      → All (Refers nets) (gather (λ j. via (at_one j) net ∷ via (at_other j) net ∷ []) js)
  side_vias-Refers at_one at_other [] = tt
  side_vias-Refers at_one at_other (j ∷ js) = (c, (c, side_vias-Refers at_one at_other js))

  leg_vias-Refers :
      (beside : Point → Point → ℕ → Bool → Point) (leg : Point × Point)
      → Unit {0}
      → All (Refers nets) (leg_vias beside net leg)
  unfolding leg_vias
  leg_vias-Refers beside (p, q) u =
      side_vias-Refers (λ j. beside p q j false) (λ j. beside p q j true)
        (range (suc (pieces p q 1000)))

gnd-IsConnected :
    (nets : Nets)
    → HasNet nets (codes "GND", 1)
    → IsConnected nets (or_else (get (codes "GND") nets) 1)
gnd-IsConnected nets h =
    rw h.known (record { name = codes "GND"; known = h.known; nonzero = h.nonzero })

trivial : {A : Type 0} (xs : List A) → All (λ x. Unit {0}) xs
trivial [] = tt
trivial (x ∷ xs) = (tt, trivial xs)

gen_rf_routing-Refers :
    (beside : Point → Point → ℕ → Bool → Point) (nets : Nets)
    → HasNets nets
    → All (Refers nets) (gen_rf_routing beside nets)
unfolding gen_rf_routing leg_vias
gen_rf_routing-Refers beside nets h =
    let gnd = gnd-IsConnected nets h.gnd in
    let rx = net_else-IsConnected nets (codes "AD_RX1A_P") 178 h.rx in
    let tx = net_else-IsConnected nets (codes "AD_TX1A") 180 h.tx in
    (
      tt,
      All-append (Refers nets) (gather (leg_traces _) (legs rx_path)) _
          (All-gather (λ leg. Unit {0}) (Refers nets) (leg_traces _) (leg_traces-Refers nets _ rx)
            (legs rx_path) (trivial (legs rx_path)))
          (
            tt,
            All-append (Refers nets) (gather (leg_traces _) (legs tx_path)) _
                (All-gather (λ leg. Unit {0}) (Refers nets) (leg_traces _)
                  (leg_traces-Refers nets _ tx) (legs tx_path) (trivial (legs tx_path)))
                (
                  tt,
                  All-gather (λ leg. Unit {0}) (Refers nets) (leg_vias beside _)
                      (leg_vias-Refers nets _ gnd beside) (legs rx_path) (trivial (legs rx_path)),
                ),
          ),
    )

gen_perimeter_via_stitching-Refers :
    (nets : Nets)
    → HasNet nets (codes "GND", 1)
    → All (Refers nets) (gen_perimeter_via_stitching nets)
unfolding gen_perimeter_via_stitching
gen_perimeter_via_stitching-Refers nets h =
    (tt, vias-Refers nets (or_else (get (codes "GND") nets) 1) (gnd-IsConnected nets h) positions)

Refers-of :
    (nets : Nets) (entries : List Entry) → All (Wired nets) entries → All (Refers nets) entries
Refers-of nets entries a = All-imp (Wired nets) (Refers nets) (Wired-Refers nets) entries a

-- Where the board has the nets that the routing refers to by name, each trace and each via of the
-- whole routing has the number of a net of the board, and not 0, wherever the stitching vias of the
-- radio paths stand.
pub all_entries-Refers :
    (beside : Point → Point → ℕ → Bool → Point) (nets : Nets)
    → HasNets nets
    → All (Refers nets) (all_entries beside nets)
unfolding all_entries
all_entries-Refers beside nets h = (
  tt,
  All-append (Refers nets) (gen_ddr3l_routing nets) _
      (Refers-of nets (gen_ddr3l_routing nets) (gen_ddr3l_routing-Wired nets))
      (All-append (Refers nets) (gen_lvds_routing nets) _
        (Refers-of nets (gen_lvds_routing nets) (gen_lvds_routing-Wired nets))
        (All-append (Refers nets) (gen_rf_routing beside nets) _
          (gen_rf_routing-Refers beside nets h)
          (All-append (Refers nets) (gen_power_routing nets) _
            (Refers-of nets (gen_power_routing nets) (gen_power_routing-Wired nets h.rails h.input))
            (All-append (Refers nets) (gen_general_io_routing nets) _
              (Refers-of nets (gen_general_io_routing nets)
                (gen_general_io_routing-Wired nets h.spi h.uart h.i2c h.jtag))
              (gen_perimeter_via_stitching-Refers nets h.gnd))))),
)

-- ===== src/Routing/Rf.antt =====
-- hardware/cirradio-devboard/gen_pcb_routing.py: `gen_rf_routing`, in micrometres. Where the vias
-- stand beside a trace, which the code computes with floats and square roots, is a parameter.
use cirradio.Prelude.{
  ℕ, zero, suc, Bool, true, false, List, [], ◌∷◌, ◌++◌, gather, range, Text, codes, get, or_else,
}
use cirradio.Routing.Trace.{Point, f_cu, pieces}
use cirradio.Routing.Entry.{Entry, comment, via, Nets, net_or_0, traces_by, at}

-- nets.get(name, 0) or fallback
unfoldable pub net_else : Nets → Text → ℕ → ℕ
unfolding net_or_0
net_else nets name fallback = elim (net_or_0 nets name) [ zero ↦ fallback | suc n ↦ suc n ]

-- `rx_path`, from SMA_RX_XY to AD9361_RF_XY, and `tx_path`, from there to SMA_TX_XY.
abbrev pub rx_path : List Point
rx_path =
    at 10000 10000
    ∷ at 22000 10000
    ∷ at 34000 10000
    ∷ at 46000 12000
    ∷ at 58000 14000
    ∷ at 80000 16000
    ∷ []

abbrev pub tx_path : List Point
tx_path =
    at 80000 16000
    ∷ at 58000 8000
    ∷ at 46000 8000
    ∷ at 34000 10000
    ∷ at 22000 16000
    ∷ at 10000 20000
    ∷ []

-- A path cut into pairs of neighbours.
abbrev pub legs : List Point → List (Point × Point)
legs [] = []
legs (p ∷ []) = []
legs (p ∷ q ∷ path) = (p, q) ∷ legs (q ∷ path)

-- The traces of a leg.
unfoldable pub leg_traces : ℕ → Point × Point → List Entry
leg_traces net (p, q) = traces_by 3000 p q 280 f_cu net

-- The vias of a leg. `beside p q j mirror` is the point of via `j` on one side or the other.
unfoldable pub leg_vias : (Point → Point → ℕ → Bool → Point) → ℕ → Point × Point → List Entry
unfolding pieces
leg_vias beside gnd_net (p, q) =
    gather (λ j. via (beside p q j false) gnd_net ∷ via (beside p q j true) gnd_net ∷ [])
      (range (suc (pieces p q 1000)))

unfoldable pub gen_rf_routing : (Point → Point → ℕ → Bool → Point) → Nets → List Entry
unfolding leg_traces leg_vias net_else
gen_rf_routing beside nets =
    let gnd_net = or_else (get (codes "GND") nets) 1 in
    let rx_net = net_else nets (codes "AD_RX1A_P") 178 in
    let tx_net = net_else nets (codes "AD_TX1A") 180 in
    comment (codes "  ; RF 50-ohm microstrip routing (F.Cu)")
    ∷ (gather (leg_traces rx_net) (legs rx_path)
        ++ (comment (codes "  ; RF TX path")
            ∷ (gather (leg_traces tx_net) (legs tx_path)
                ++ (comment (codes "  ; RF ground via stitching")
                    ∷ gather (leg_vias beside gnd_net) (legs rx_path)))))

-- ===== src/Netlist/Classify/Strobes.antt =====
-- How the data strobes of the memories are classified.
use cirradio.Prelude.{ℕ, ◌≡◌, true, [], ◌∷◌, ◌++◌, is_digit, Text, codes, arith}
use cirradio.Netlist.Classify.{classify_net, ddr3}

-- The strobes as the memory sheet names them, with the number of the byte lane behind the side, get
-- the class of the single-ended signals and not that of the differential pairs.
classify_net-strobe :
    (d : ℕ) (t : Text)
    → is_digit d ≡ true
    → (classify_net (codes "DDR_DQS_P" ++ d ∷ t) ≡ ddr3)
      × (classify_net (codes "DDR_DQS_N" ++ d ∷ t) ≡ ddr3)
unfolding classify_net
classify_net-strobe d [] h = (ground arith, ground arith)
classify_net-strobe d (e ∷ t) h = (ground arith, ground arith)

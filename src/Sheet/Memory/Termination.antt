-- ===== src/Sheet/Memory/Termination.antt =====
-- hardware/cirradio-devboard/gen_ddr3l.py: the resistors at the end of the fly-by.
use cirradio.Prelude.{
  map, List, Text, codes, decimal, enumerate_from, gather, pos, range, ℕ, ℤ, ◌%◌, ◌*◌, ◌++◌, ◌+ℤ◌,
  ◌-ℤ◌, ◌/◌, words,
}
use cirradio.Sheet.{Step, global_label, hier_label, passive, resistor, text_note, wire, ◌>>◌}

-- term_signals
unfoldable pub term_signals : List Text
unfolding decimal
term_signals =
    map (λ i. codes "DDR_A" ++ decimal i) (range 15)
    ++ ((words "DDR_BA0 DDR_BA1 DDR_BA2 DDR_RAS_B DDR_CAS_B DDR_WE_B DDR_CKE DDR_CS_B DDR_ODT"))

-- Place 47R series termination resistors at end of fly-by for address/command.
unfoldable pub place_vtt_termination : ℤ → ℤ → List Step
unfolding term_signals ◌+ℤ◌ ◌-ℤ◌
place_vtt_termination x y = do
  text_note (codes "VTT TERMINATION (47R at fly-by end)") x (y -ℤ pos 5000) (pos 1270)
  text_note (codes "Connect VTT to +1V35/2 = 0.675V from power sheet") x (y -ℤ pos 8000) (pos 1000)
  gather {A = ℕ × Text}
      (λ (i, sig). do
        let row : ℕ = i / 12
        let col : ℕ = i % 12
        let rx : ℤ = x +ℤ pos (col * 8000)
        let ry : ℤ = y +ℤ pos (row * 18000)
        hier_label sig (rx -ℤ pos 3000) ry (codes "input") 0
        wire (rx -ℤ pos 3000) ry rx ry
        resistor (codes "47R") (rx +ℤ pos 4000) ry 90 (codes "Resistor_SMD:R_0402_1005Metric")
        wire rx ry (rx +ℤ pos 4000 -ℤ pos 3810) ry
        wire (rx +ℤ pos 4000 +ℤ pos 3810) ry (rx +ℤ pos 10000) ry
        global_label (codes "VTT") (rx +ℤ pos 10000) ry passive 0)
      (enumerate_from 0 term_signals)

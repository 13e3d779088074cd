-- ===== src/Sheet/Library/Transceiver.antt =====
-- hardware/cirradio-devboard/gen_ad9361.py: the symbol of the transceiver.
use cirradio.Prelude.{ℤ, pos, List, [], ◌∷◌, ◌++◌, Text, codes, gather}
use cirradio.Sheet.Library.{
  LibLine, raw, symbol_open, unit_open, pin_line, pin, neg, no_footprint, no_datasheet,
}

-- cirradio:AD9361BBCZ, with its four units.
unfoldable pub ad9361bbcz : List LibLine
ad9361bbcz =
    symbol_open (codes "cirradio:AD9361BBCZ")
    ∷ raw "      (pin_names (offset 0.254))"
    ∷ raw "      (exclude_from_sim no) (in_bom yes) (on_board yes)"
    ∷ raw "      (property \"Reference\" \"U\" (at 0 1.27 0) (effects (font (size 1.27 1.27))))"
    ∷ raw
        "      (property \"Value\" \"AD9361BBCZ\" (at 0 -1.27 0) (effects (font (size 1.27 1.27))))"
    ∷ no_footprint
    ∷ no_datasheet
    ∷ unit_open (codes "AD9361BBCZ") 0 1
    ∷ raw
        "        (rectangle (start -15.24 43.18) (end 15.24 -43.18) (stroke (width 0.254) (type default)) (fill (type background)))"
    ∷ raw "      )"
    ∷ unit_open (codes "AD9361BBCZ") 1 1
    ∷ (gather {A = Text × Text × ℤ}
          (λ (name, num, y).
            pin_line (codes "bidirectional") (pos 17780) y 180 (pos 2540) name num ∷ [])
          ((codes "P0_D0+", codes "L3", pos 40640)
            ∷ (codes "P0_D0-", codes "L2", pos 38100)
            ∷ (codes "P0_D1+", codes "L5", pos 35560)
            ∷ (codes "P0_D1-", codes "L4", pos 33020)
            ∷ (codes "P0_D2+", codes "K3", pos 30480)
            ∷ (codes "P0_D2-", codes "K2", pos 27940)
            ∷ (codes "P0_D3+", codes "K5", pos 25400)
            ∷ (codes "P0_D3-", codes "K4", pos 22860)
            ∷ (codes "P0_D4+", codes "J3", pos 20320)
            ∷ (codes "P0_D4-", codes "J2", pos 17780)
            ∷ (codes "P0_D5+", codes "J5", pos 15240)
            ∷ (codes "P0_D5-", codes "J4", pos 12700)
            ∷ (codes "P0_D6+", codes "H3", pos 10160)
            ∷ (codes "P0_D6-", codes "H2", pos 7620)
            ∷ (codes "P0_D7+", codes "H5", pos 5080)
            ∷ (codes "P0_D7-", codes "H4", pos 2540)
            ∷ (codes "P0_D8+", codes "G3", pos 0)
            ∷ (codes "P0_D8-", codes "G2", neg 2540)
            ∷ (codes "P0_D9+", codes "G5", neg 5080)
            ∷ (codes "P0_D9-", codes "G4", neg 7620)
            ∷ (codes "P0_D10+", codes "F3", neg 10160)
            ∷ (codes "P0_D10-", codes "F2", neg 12700)
            ∷ (codes "P0_D11+", codes "F5", neg 15240)
            ∷ (codes "P0_D11-", codes "F4", neg 17780)
            ∷ [])
        ++ (gather {A = Text × Text × ℤ × Text}
              (λ (name, num, y, ptype). pin_line ptype (neg 17780) y 0 (pos 2540) name num ∷ [])
              ((codes "DATA_CLK+", codes "M5", pos 40640, codes "output")
                ∷ (codes "DATA_CLK-", codes "M4", pos 38100, codes "output")
                ∷ (codes "FB_CLK+", codes "M3", pos 35560, codes "input")
                ∷ (codes "FB_CLK-", codes "M2", pos 33020, codes "input")
                ∷ (codes "RX_FRAME+", codes "E3", pos 27940, codes "output")
                ∷ (codes "RX_FRAME-", codes "E2", pos 25400, codes "output")
                ∷ (codes "TX_FRAME+", codes "E5", pos 22860, codes "input")
                ∷ (codes "TX_FRAME-", codes "E4", pos 20320, codes "input")
                ∷ [])
            ++ (raw "      )"
                ∷ unit_open (codes "AD9361BBCZ") 2 1
                ∷ raw
                    "        (rectangle (start -12.7 20.32) (end 12.7 -20.32) (stroke (width 0.254) (type default)) (fill (type background)))"
                ∷ pin "input" (neg 15240) (pos 17780) 0 (pos 2540) "SPI_CLK" "A6"
                ∷ pin "input" (neg 15240) (pos 15240) 0 (pos 2540) "SPI_DI" "A5"
                ∷ pin "output" (neg 15240) (pos 12700) 0 (pos 2540) "SPI_DO" "A4"
                ∷ pin "input" (neg 15240) (pos 10160) 0 (pos 2540) "SPI_ENB" "A7"
                ∷ pin "input" (pos 15240) (pos 17780) 180 (pos 2540) "CTRL_IN0" "D1"
                ∷ pin "input" (pos 15240) (pos 15240) 180 (pos 2540) "CTRL_IN1" "C1"
                ∷ pin "input" (pos 15240) (pos 12700) 180 (pos 2540) "CTRL_IN2" "B1"
                ∷ pin "input" (pos 15240) (pos 10160) 180 (pos 2540) "CTRL_IN3" "A1"
                ∷ pin "output" (pos 15240) (pos 5080) 180 (pos 2540) "CTRL_OUT0" "D3"
                ∷ pin "output" (pos 15240) (pos 2540) 180 (pos 2540) "CTRL_OUT1" "D4"
                ∷ pin "output" (pos 15240) (pos 0) 180 (pos 2540) "CTRL_OUT2" "D5"
                ∷ pin "output" (pos 15240) (neg 2540) 180 (pos 2540) "CTRL_OUT3" "C2"
                ∷ pin "output" (pos 15240) (neg 5080) 180 (pos 2540) "CTRL_OUT4" "C3"
                ∷ pin "output" (pos 15240) (neg 7620) 180 (pos 2540) "CTRL_OUT5" "C4"
                ∷ pin "output" (pos 15240) (neg 10160) 180 (pos 2540) "CTRL_OUT6" "C5"
                ∷ pin "output" (pos 15240) (neg 12700) 180 (pos 2540) "CTRL_OUT7" "B2"
                ∷ pin "input" (neg 15240) (pos 5080) 0 (pos 2540) "EN_AGC" "B3"
                ∷ pin "input" (neg 15240) (pos 2540) 0 (pos 2540) "ENABLE" "B4"
                ∷ pin "input" (neg 15240) (pos 0) 0 (pos 2540) "TXNRX" "B5"
                ∷ pin "input" (neg 15240) (neg 5080) 0 (pos 2540) "RESETB" "A3"
                ∷ raw "      )"
                ∷ unit_open (codes "AD9361BBCZ") 3 1
                ∷ raw
                    "        (rectangle (start -12.7 22.86) (end 12.7 -22.86) (stroke (width 0.254) (type default)) (fill (type background)))"
                ∷ pin "passive" (neg 15240) (pos 20320) 0 (pos 2540) "RX1A_P" "K12"
                ∷ pin "passive" (neg 15240) (pos 17780) 0 (pos 2540) "RX1A_N" "L12"
                ∷ pin "passive" (neg 15240) (pos 15240) 0 (pos 2540) "RX1B_P" "J11"
                ∷ pin "passive" (neg 15240) (pos 12700) 0 (pos 2540) "RX1B_N" "J12"
                ∷ pin "passive" (neg 15240) (pos 10160) 0 (pos 2540) "RX1C_P" "H11"
                ∷ pin "passive" (neg 15240) (pos 7620) 0 (pos 2540) "RX1C_N" "H12"
                ∷ pin "passive" (neg 15240) (pos 2540) 0 (pos 2540) "RX2A_P" "G11"
                ∷ pin "passive" (neg 15240) (pos 0) 0 (pos 2540) "RX2A_N" "G12"
                ∷ pin "passive" (pos 15240) (pos 20320) 180 (pos 2540) "TX1A" "E12"
                ∷ pin "passive" (pos 15240) (pos 17780) 180 (pos 2540) "TX1B" "D12"
                ∷ pin "passive" (pos 15240) (pos 12700) 180 (pos 2540) "TX2A" "C12"
                ∷ pin "passive" (neg 15240) (neg 5080) 0 (pos 2540) "XTALP" "A12"
                ∷ pin "passive" (neg 15240) (neg 7620) 0 (pos 2540) "XTALN" "A11"
                ∷ raw "      )"
                ∷ unit_open (codes "AD9361BBCZ") 4 1
                ∷ raw
                    "        (rectangle (start -12.7 27.94) (end 12.7 -27.94) (stroke (width 0.254) (type default)) (fill (type background)))"
                ∷ pin "power_in" (neg 15240) (pos 25400) 0 (pos 2540) "VDDA1P3_BB" "M12"
                ∷ pin "power_in" (neg 15240) (pos 22860) 0 (pos 2540) "VDDA1P3_BB" "M11"
                ∷ pin "power_in" (neg 15240) (pos 20320) 0 (pos 2540) "VDDA1P3_RX" "F12"
                ∷ pin "power_in" (neg 15240) (pos 17780) 0 (pos 2540) "VDDA1P3_RX" "F11"
                ∷ pin "power_in" (neg 15240) (pos 15240) 0 (pos 2540) "VDDA1P3_TX" "B12"
                ∷ pin "power_in" (neg 15240) (pos 12700) 0 (pos 2540) "VDDA1P3_TX" "B11"
                ∷ pin "power_in" (neg 15240) (pos 7620) 0 (pos 2540) "VDDD1P3_DIG" "M1"
                ∷ pin "power_in" (neg 15240) (pos 5080) 0 (pos 2540) "VDDD1P3_DIG" "L1"
                ∷ pin "power_in" (neg 15240) (pos 0) 0 (pos 2540) "VDDD_IF" "D2"
                ∷ pin "power_in" (neg 15240) (neg 2540) 0 (pos 2540) "VDDD_IF" "E1"
                ∷ pin "power_in" (neg 15240) (neg 7620) 0 (pos 2540) "VDDA3P3" "A10"
                ∷ pin "power_in" (neg 15240) (neg 10160) 0 (pos 2540) "VDDA3P3" "A9"
                ∷ pin "power_in" (pos 15240) (pos 25400) 180 (pos 2540) "GNDA" "K11"
                ∷ pin "power_in" (pos 15240) (pos 22860) 180 (pos 2540) "GNDA" "L11"
                ∷ pin "power_in" (pos 15240) (pos 20320) 180 (pos 2540) "GNDA" "M10"
                ∷ pin "power_in" (pos 15240) (pos 17780) 180 (pos 2540) "GNDA" "M9"
                ∷ pin "power_in" (pos 15240) (pos 15240) 180 (pos 2540) "GNDA" "M8"
                ∷ pin "power_in" (pos 15240) (pos 12700) 180 (pos 2540) "GNDA" "M7"
                ∷ pin "power_in" (pos 15240) (pos 7620) 180 (pos 2540) "GNDD" "M6"
                ∷ pin "power_in" (pos 15240) (pos 5080) 180 (pos 2540) "GNDD" "L6"
                ∷ pin "power_in" (pos 15240) (pos 2540) 180 (pos 2540) "GNDD" "K6"
                ∷ pin "power_in" (pos 15240) (pos 0) 180 (pos 2540) "GNDD" "J6"
                ∷ pin "power_in" (pos 15240) (neg 2540) 180 (pos 2540) "GNDD" "H6"
                ∷ pin "power_in" (pos 15240) (neg 5080) 180 (pos 2540) "GNDD" "G6"
                ∷ pin "power_in" (pos 15240) (neg 7620) 180 (pos 2540) "GNDD" "F6"
                ∷ pin "power_in" (pos 15240) (neg 10160) 180 (pos 2540) "GNDD" "E6"
                ∷ pin "power_in" (pos 15240) (neg 15240) 180 (pos 2540) "DGND_FILT" "F1"
                ∷ pin "power_in" (neg 15240) (neg 15240) 0 (pos 2540) "VDDD_FILT" "G1"
                ∷ pin "passive" (neg 15240) (neg 20320) 0 (pos 2540) "RBIAS" "A8"
                ∷ pin "passive" (pos 15240) (neg 20320) 180 (pos 2540) "TEMP_SENSE" "A2"
                ∷ raw "      )"
                ∷ raw "    )"
                ∷ [])))

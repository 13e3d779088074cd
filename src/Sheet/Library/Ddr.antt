-- ===== src/Sheet/Library/Ddr.antt =====
-- hardware/cirradio-devboard/gen_zynq.py: unit 3 of the symbol of the processor.
use cirradio.Prelude.{
  ℕ, ℤ, pos, List, [], ◌∷◌, ◌++◌, Text, codes, decimal, gather, enumerate_from, if◌then◌else◌, ◌-ℤ◌,
  ◌*◌, starts_with, contains, words,
}
use cirradio.Sheet.Library.{LibLine, raw, unit_open, pin_line, neg}

-- Unit 3: the memory interface.
unfoldable pub zynq_ddr : List LibLine
unfolding decimal ◌-ℤ◌ contains starts_with
zynq_ddr =
    unit_open (codes "XC7Z045") 3 1
    ∷ raw
        "        (rectangle (start -12.7 53.34) (end 12.7 -53.34) (stroke (width 0.254) (type default)) (fill (type background)))"
    ∷ (gather {A = ℕ × Text}
          (λ (i, dq_pin).
            pin_line (codes "bidirectional") (pos 15240) (pos 50800 -ℤ pos (i * 2540)) 180
              (pos 2540) (codes "DDR_DQ" ++ decimal i) dq_pin
            ∷ [])
          (enumerate_from 0 (
            (words
                "H1 H2 H3 J1 J2 J3 K1 K2 K3 L1 L2 L3 M1 M2 M3 N1 N2 N3 P1 P2 P3 R1 R2 R3 T1 T2 T3"
              ++ words "U1 U2 U3 V1 V2")))
        ++ (gather {A = Text × Text × ℤ}
              (λ (name, ball, y).
                pin_line (codes "bidirectional") (neg 15240) y 0 (pos 2540) name ball ∷ [])
              ((codes "DDR_DQS_P0", codes "H4", pos 50800)
                ∷ (codes "DDR_DQS_N0", codes "H5", pos 48260)
                ∷ (codes "DDR_DQS_P1", codes "J4", pos 45720)
                ∷ (codes "DDR_DQS_N1", codes "J5", pos 43180)
                ∷ (codes "DDR_DQS_P2", codes "K4", pos 40640)
                ∷ (codes "DDR_DQS_N2", codes "K5", pos 38100)
                ∷ (codes "DDR_DQS_P3", codes "L4", pos 35560)
                ∷ (codes "DDR_DQS_N3", codes "L5", pos 33020)
                ∷ [])
            ++ (gather {A = Text × Text × ℤ}
                  (λ (name, ball, y).
                    pin_line (codes "output") (neg 15240) y 0 (pos 2540) name ball ∷ [])
                  ((codes "DDR_DM0", codes "M4", pos 27940)
                    ∷ (codes "DDR_DM1", codes "M5", pos 25400)
                    ∷ (codes "DDR_DM2", codes "N4", pos 22860)
                    ∷ (codes "DDR_DM3", codes "N5", pos 20320)
                    ∷ [])
                ++ (gather {A = ℕ × Text}
                      (λ (i, addr_pin).
                        pin_line (codes "output") (neg 15240) (pos 15240 -ℤ pos (i * 2540)) 0
                          (pos 2540) (codes "DDR_A" ++ decimal i) addr_pin
                        ∷ [])
                      (enumerate_from 0 ((words "P4 P5 R4 R5 T4 T5 U4 U5 V3 V4 V5 W3 W4 W5 Y3")))
                    ++ (gather {A = Text × Text × ℤ}
                          (λ (name, ball, y).
                            pin_line (codes "output") (neg 15240) y 0 (pos 2540) name ball ∷ [])
                          ((codes "DDR_BA0", codes "Y4", neg 25400)
                            ∷ (codes "DDR_BA1", codes "Y5", neg 27940)
                            ∷ (codes "DDR_BA2", codes "AA3", neg 30480)
                            ∷ [])
                        ++ (gather {A = Text × Text × ℤ}
                              (λ (name, ball, y).
                                pin_line (codes "output") (neg 15240) y 0 (pos 2540) name ball ∷ [])
                              ((codes "DDR_CAS_B", codes "AA4", neg 33020)
                                ∷ (codes "DDR_RAS_B", codes "AA5", neg 35560)
                                ∷ (codes "DDR_WE_B", codes "AB3", neg 38100)
                                ∷ (codes "DDR_CK_P", codes "AB4", neg 40640)
                                ∷ (codes "DDR_CK_N", codes "AB5", neg 43180)
                                ∷ (codes "DDR_CKE", codes "AC3", neg 45720)
                                ∷ (codes "DDR_CS_B", codes "AC4", neg 48260)
                                ∷ (codes "DDR_ODT", codes "AC5", neg 50800)
                                ∷ [])
                            ++ (gather {A = Text × Text × ℤ}
                                  (λ (name, ball, y).
                                    let ptype : Text =
                                      if contains (codes "RESET") name
                                      then codes "output"
                                      else codes "passive" in
                                    pin_line ptype (pos 15240) y 180 (pos 2540) name ball ∷ [])
                                  ((codes "DDR_RESET_B", codes "AD3", neg 33020)
                                    ∷ (codes "DDR_VREF0", codes "AD4", neg 38100)
                                    ∷ (codes "DDR_VREF1", codes "AD5", neg 40640)
                                    ∷ (codes "PS_DDR_VRN", codes "AE3", neg 45720)
                                    ∷ (codes "PS_DDR_VRP", codes "AE4", neg 48260)
                                    ∷ [])
                                ++ (raw "      )" ∷ []))))))))

-- ===== src/Sheet/Library/Memory.antt =====
-- hardware/cirradio-devboard/gen_ddr3l.py: the symbol of a memory chip.
use cirradio.Prelude.{
  ℕ, ℤ, pos, List, [], ◌∷◌, ◌++◌, Text, codes, decimal, gather, enumerate_from, if◌then◌else◌,
  text_eq, ◌-ℤ◌, words,
}
use cirradio.Sheet.Library.{
  LibLine, raw, symbol_open, unit_open, pin_line, pin, neg, no_footprint, no_datasheet,
}

-- The loop over `dq_ball_map`, with the variable `y`, which jumps behind the first byte lane.
unfoldable pub dq_lines : ℤ → List (Text × Text) → List LibLine
unfolding text_eq ◌-ℤ◌
dq_lines y [] = []
dq_lines y ((name, ball) ∷ rest) =
    pin_line (codes "bidirectional") (pos 15240) y 180 (pos 2540) name ball
    ∷ dq_lines (if text_eq name (codes "DQ7") then pos 30480 else y -ℤ pos 2540) rest

-- The loop over `addr_balls`, with the variable `y`.
unfoldable pub address_lines : ℤ → List (ℕ × Text) → List LibLine
unfolding decimal ◌-ℤ◌
address_lines y [] = []
address_lines y ((i, ball) ∷ rest) =
    pin_line (codes "input") (neg 15240) y 0 (pos 2540) (codes "A" ++ decimal i) ball
    ∷ address_lines (y -ℤ pos 2540) rest

-- cirradio:MT41K256M16HA.
unfoldable pub mt41k256m16ha : List LibLine
unfolding dq_lines address_lines
mt41k256m16ha =
    symbol_open (codes "cirradio:MT41K256M16HA")
    ∷ raw "      (pin_names (offset 0.254))"
    ∷ raw "      (exclude_from_sim no) (in_bom yes) (on_board yes)"
    ∷ raw "      (property \"Reference\" \"U\" (at 0 1.27 0) (effects (font (size 1.27 1.27))))"
    ∷ raw
        "      (property \"Value\" \"MT41K256M16HA\" (at 0 -1.27 0) (effects (font (size 1.27 1.27))))"
    ∷ no_footprint
    ∷ no_datasheet
    ∷ unit_open (codes "MT41K256M16HA") 0 1
    ∷ raw "        (rectangle (start -12.7 55.88) (end 12.7 -55.88)"
    ∷ raw "          (stroke (width 0.254) (type default))"
    ∷ raw "          (fill (type background))"
    ∷ raw "        )"
    ∷ raw "      )"
    ∷ unit_open (codes "MT41K256M16HA") 1 1
    ∷ (dq_lines (pos 53340) (
          (codes "DQ0", codes "B7")
          ∷ (codes "DQ1", codes "C7")
          ∷ (codes "DQ2", codes "D6")
          ∷ (codes "DQ3", codes "E6")
          ∷ (codes "DQ4", codes "F7")
          ∷ (codes "DQ5", codes "F8")
          ∷ (codes "DQ6", codes "G7")
          ∷ (codes "DQ7", codes "G8")
          ∷ (codes "DQ8", codes "B2")
          ∷ (codes "DQ9", codes "C2")
          ∷ (codes "DQ10", codes "D1")
          ∷ (codes "DQ11", codes "D2")
          ∷ (codes "DQ12", codes "E1")
          ∷ (codes "DQ13", codes "E2")
          ∷ (codes "DQ14", codes "F1")
          ∷ (codes "DQ15", codes "F2")
          ∷ [])
        ++ (gather {A = Text × Text × ℤ}
              (λ (name, ball, yp).
                pin_line (codes "bidirectional") (pos 15240) yp 180 (pos 2540) name ball ∷ [])
              ((codes "LDQS", codes "C8", pos 7620)
                ∷ (codes "~{LDQS}", codes "D8", pos 5080)
                ∷ (codes "UDQS", codes "C1", pos 2540)
                ∷ (codes "~{UDQS}", codes "D3", pos 0)
                ∷ [])
            ++ (gather {A = Text × Text × ℤ}
                  (λ (name, ball, yp).
                    pin_line (codes "input") (pos 15240) yp 180 (pos 2540) name ball ∷ [])
                  ((codes "LDM", codes "E7", neg 2540) ∷ (codes "UDM", codes "G1", neg 5080) ∷ [])
                ++ (address_lines (pos 53340)
                      (enumerate_from 0 ((words "H2 G4 H3 G6 H4 H5 J2 J3 K2 K3 G5 J1 H1 K1 L3")))
                    ++ (gather {A = Text × Text × ℤ}
                          (λ (name, ball, yp).
                            pin_line (codes "input") (neg 15240) yp 0 (pos 2540) name ball ∷ [])
                          ((codes "BA0", codes "H7", pos 12700)
                            ∷ (codes "BA1", codes "H8", pos 10160)
                            ∷ (codes "BA2", codes "J8", pos 7620)
                            ∷ [])
                        ++ (gather {A = Text × Text × ℤ}
                              (λ (name, ball, yp).
                                pin_line (codes "input") (neg 15240) yp 0 (pos 2540) name ball ∷ [])
                              ((codes "~{RAS}", codes "H6", pos 2540)
                                ∷ (codes "~{CAS}", codes "J6", pos 0)
                                ∷ (codes "~{WE}", codes "K6", neg 2540)
                                ∷ (codes "CK", codes "J4", neg 7620)
                                ∷ (codes "~{CK}", codes "K4", neg 10160)
                                ∷ (codes "CKE", codes "L4", neg 12700)
                                ∷ (codes "~{CS}", codes "L6", neg 15240)
                                ∷ (codes "ODT", codes "K7", neg 17780)
                                ∷ (codes "~{RESET}", codes "L1", neg 20320)
                                ∷ [])
                            ++ (pin "passive" (neg 15240) (neg 25400) 0 (pos 2540) "ZQ" "A8"
                                ∷ pin "input" (neg 15240) (neg 27940) 0 (pos 2540) "VREFDQ" "K8"
                                ∷ (gather
                                      (λ ball.
                                        pin_line (codes "power_in") (neg 15240) (neg 33020) 0
                                          (pos 2540) (codes "VDD") ball
                                        ∷ [])
                                      (codes "A4" ∷ codes "G3" ∷ codes "L8" ∷ [])
                                    ++ (gather
                                          (λ ball.
                                            pin_line (codes "power_in") (neg 15240) (neg 40640) 0
                                              (pos 2540) (codes "VDDQ") ball
                                            ∷ [])
                                          (codes "A2" ∷ codes "A5" ∷ codes "A7" ∷ [])
                                        ++ (gather
                                              (λ ball.
                                                pin_line (codes "power_in") (pos 0) (neg 58420) 90
                                                  (pos 2540) (codes "VSS") ball
                                                ∷ [])
                                              (codes "A1"
                                                ∷ codes "A3"
                                                ∷ codes "A6"
                                                ∷ codes "B4"
                                                ∷ codes "B5"
                                                ∷ [])
                                            ++ (gather
                                                  (λ ball.
                                                    pin_line (codes "power_in") (pos 0) (neg 58420)
                                                      90 (pos 2540) (codes "VSSQ") ball
                                                    ∷ [])
                                                  (codes "B1"
                                                    ∷ codes "B3"
                                                    ∷ codes "B6"
                                                    ∷ codes "B8"
                                                    ∷ [])
                                                ++ (raw "      )" ∷ raw "    )" ∷ []))))))))))))

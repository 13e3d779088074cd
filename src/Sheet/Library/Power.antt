-- ===== src/Sheet/Library/Power.antt =====
-- hardware/cirradio-devboard/gen_zynq.py: unit 9 of the symbol of the processor.
use cirradio.Prelude.{pos, List, [], ◌∷◌, ◌++◌, codes, gather, words}
use cirradio.Sheet.Library.{LibLine, raw, unit_open, pin_line, neg}

-- Unit 9: power.
unfoldable pub zynq_power : List LibLine
zynq_power =
    unit_open (codes "XC7Z045") 9 1
    ∷ raw
        "        (rectangle (start -12.7 55.88) (end 12.7 -55.88) (stroke (width 0.254) (type default)) (fill (type background)))"
    ∷ (gather
          (λ p.
            pin_line (codes "power_in") (neg 15240) (pos 53340) 0 (pos 2540) (codes "VCCINT") p
            ∷ [])
          ((words "G18 G19 G20 G21 G22 G23 G24 G25 G26 G27 H18 H19 H20 H21 H22"))
        ++ (gather
              (λ p.
                pin_line (codes "power_in") (neg 15240) (pos 48260) 0 (pos 2540) (codes "VCCAUX") p
                ∷ [])
              (codes "H23" ∷ codes "H24" ∷ codes "H25" ∷ codes "H26" ∷ [])
            ++ (gather
                  (λ p.
                    pin_line (codes "power_in") (neg 15240) (pos 43180) 0 (pos 2540)
                      (codes "VCCBRAM") p
                    ∷ [])
                  (codes "H27" ∷ codes "H28" ∷ [])
                ++ (gather
                      (λ p.
                        pin_line (codes "power_in") (neg 15240) (pos 38100) 0 (pos 2540)
                          (codes "VCCO_33") p
                        ∷ [])
                      (codes "J18" ∷ codes "J19" ∷ [])
                    ++ (gather
                          (λ p.
                            pin_line (codes "power_in") (neg 15240) (pos 35560) 0 (pos 2540)
                              (codes "VCCO_34") p
                            ∷ [])
                          (codes "J20" ∷ codes "J21" ∷ [])
                        ++ (gather
                              (λ p.
                                pin_line (codes "power_in") (neg 15240) (pos 33020) 0 (pos 2540)
                                  (codes "VCCO_13") p
                                ∷ [])
                              (codes "J22" ∷ codes "J23" ∷ [])
                            ++ (gather
                                  (λ p.
                                    pin_line (codes "power_in") (neg 15240) (pos 30480) 0 (pos 2540)
                                      (codes "VCCO_12") p
                                    ∷ [])
                                  (codes "J24" ∷ codes "J25" ∷ [])
                                ++ (gather
                                      (λ p.
                                        pin_line (codes "power_in") (neg 15240) (pos 25400) 0
                                          (pos 2540) (codes "VCCPINT") p
                                        ∷ [])
                                      (codes "J26" ∷ codes "J27" ∷ codes "J28" ∷ codes "K18" ∷ [])
                                    ++ (gather
                                          (λ p.
                                            pin_line (codes "power_in") (neg 15240) (pos 20320) 0
                                              (pos 2540) (codes "VCCPAUX") p
                                            ∷ [])
                                          (codes "K19" ∷ codes "K20" ∷ [])
                                        ++ (gather
                                              (λ p.
                                                pin_line (codes "power_in") (neg 15240) (pos 15240)
                                                  0 (pos 2540) (codes "VCCPLL") p
                                                ∷ [])
                                              (codes "K21" ∷ codes "K22" ∷ [])
                                            ++ (gather
                                                  (λ p.
                                                    pin_line (codes "power_in") (pos 15240)
                                                      (pos 53340) 180 (pos 2540) (codes "GND") p
                                                    ∷ [])
                                                  ((words
                                                      "K23 K24 K25 K26 K27 K28 L18 L19 L20 L21 L22 L23 L24 L25 L26 L27 L28 M18 M19 M20"
                                                    ++ words
                                                        "M21 M22 M23 M24 M25 M26 M27 M28 N18 N19 N20"))
                                                ++ (raw "      )" ∷ raw "    )" ∷ []))))))))))))

-- ===== src/Sheet/Library/Config.antt =====
-- hardware/cirradio-devboard/gen_zynq.py: units 1 and 2 of the symbol of the processor.
use cirradio.Prelude.{
  ℕ, pos, List, [], ◌∷◌, ◌++◌, Text, codes, decimal, gather, enumerate_from, ◌-ℤ◌, ◌*◌, words,
}
use cirradio.Sheet.Library.{
  LibLine, raw, symbol_open, unit_open, pin_line, pin, neg, no_footprint, no_datasheet,
}

-- cirradio:XC7Z045 with its unit 1, the configuration pins.
unfoldable pub zynq_config : List LibLine
zynq_config =
    symbol_open (codes "cirradio:XC7Z045")
    ∷ raw "      (pin_names (offset 0.254))"
    ∷ raw "      (exclude_from_sim no) (in_bom yes) (on_board yes)"
    ∷ raw "      (property \"Reference\" \"U\" (at 0 1.27 0) (effects (font (size 1.27 1.27))))"
    ∷ raw
        "      (property \"Value\" \"XC7Z045-2FFG900I\" (at 0 -1.27 0) (effects (font (size 1.27 1.27))))"
    ∷ no_footprint
    ∷ no_datasheet
    ∷ unit_open (codes "XC7Z045") 1 1
    ∷ raw
        "        (rectangle (start -12.7 30.48) (end 12.7 -30.48) (stroke (width 0.254) (type default)) (fill (type background)))"
    ∷ pin "input" (neg 15240) (pos 27940) 0 (pos 2540) "PS_CLK" "C8"
    ∷ pin "input" (neg 15240) (pos 25400) 0 (pos 2540) "PS_POR_B" "B10"
    ∷ pin "input" (neg 15240) (pos 22860) 0 (pos 2540) "PS_SRST_B" "C10"
    ∷ pin "bidirectional" (pos 15240) (pos 27940) 180 (pos 2540) "INIT_B" "T12"
    ∷ pin "output" (pos 15240) (pos 25400) 180 (pos 2540) "DONE" "U11"
    ∷ pin "input" (pos 15240) (pos 22860) 180 (pos 2540) "PROG_B" "T11"
    ∷ pin "input" (neg 15240) (pos 17780) 0 (pos 2540) "BOOT_MODE0" "G7"
    ∷ pin "input" (neg 15240) (pos 15240) 0 (pos 2540) "BOOT_MODE1" "G8"
    ∷ pin "input" (neg 15240) (pos 12700) 0 (pos 2540) "BOOT_MODE2" "H7"
    ∷ pin "input" (neg 15240) (pos 10160) 0 (pos 2540) "BOOT_MODE3" "H8"
    ∷ pin "input" (neg 15240) (pos 5080) 0 (pos 2540) "TDI" "R13"
    ∷ pin "output" (neg 15240) (pos 2540) 0 (pos 2540) "TDO" "P13"
    ∷ pin "input" (neg 15240) (pos 0) 0 (pos 2540) "TMS" "N13"
    ∷ pin "input" (neg 15240) (neg 2540) 0 (pos 2540) "TCK" "M13"
    ∷ pin "input" (neg 15240) (neg 5080) 0 (pos 2540) "TRST" "L13"
    ∷ pin "passive" (pos 15240) (pos 17780) 180 (pos 2540) "PS_MIO_VREF_500" "C3"
    ∷ pin "passive" (pos 15240) (pos 15240) 180 (pos 2540) "PS_MIO_VREF_501" "E3"
    ∷ raw "      )"
    ∷ []

-- Unit 2: the MIO pins; `mio_pins` is a dictionary from 0 to 53.
unfoldable pub zynq_mio : List LibLine
unfolding decimal ◌-ℤ◌
zynq_mio =
    unit_open (codes "XC7Z045") 2 1
    ∷ raw
        "        (rectangle (start -10.16 72.39) (end 10.16 -72.39) (stroke (width 0.254) (type default)) (fill (type background)))"
    ∷ (gather {A = ℕ × Text}
          (λ (i, pin_num).
            pin_line (codes "bidirectional") (pos 12700) (pos 71120 -ℤ pos (i * 2540)) 180
              (pos 2540) (codes "MIO" ++ decimal i) pin_num
            ∷ [])
          (enumerate_from 0 (
            (words
                "A4 B4 A5 B5 A6 B6 A7 E5 D5 E6 B7 D6 C7 E7 D7 B8 A9 B9 E8 D8 C9 E9 D9 A10 E10 D10"
              ++ (words
                    "C11 B11 A11 E11 D11 A12 B12 C12 D12 E12 A13 B13 C13 D13 E13 F7 F8 F9 F10 F11 F12"
                  ++ words "F13 G6 G9 G10 G11 G12 G13"))))
        ++ (raw "      )" ∷ []))

-- ===== src/Sheet/Library/Ports.antt =====
-- hardware/cirradio-devboard/gen_peripherals.py: the symbols of the Ethernet PHY, the UART bridge and the
-- GPS receiver.
use cirradio.Prelude.{pos, List, [], ◌∷◌, codes}
use cirradio.Sheet.Library.{LibLine, raw, symbol_open, unit_open, pin, neg, no_datasheet}

-- cirradio:KSZ9031.
unfoldable pub ksz9031 : List LibLine
ksz9031 =
    symbol_open (codes "cirradio:KSZ9031")
    ∷ raw "      (pin_names (offset 0.254))"
    ∷ raw "      (exclude_from_sim no) (in_bom yes) (on_board yes)"
    ∷ raw "      (property \"Reference\" \"U\" (at 0 30.48 0) (effects (font (size 1.27 1.27))))"
    ∷ raw
        "      (property \"Value\" \"KSZ9031RNXIA\" (at 0 -30.48 0) (effects (font (size 1.27 1.27))))"
    ∷ raw
        "      (property \"Footprint\" \"Package_DFN_QFN:QFN-48-1EP_7x7mm_P0.5mm_EP5.15x5.15mm\" (at 0 0 0) (effects (font (size 1.27 1.27)) hide))"
    ∷ no_datasheet
    ∷ unit_open (codes "KSZ9031") 0 1
    ∷ raw
        "        (rectangle (start -15.24 29.21) (end 15.24 -29.21) (stroke (width 0.254) (type default)) (fill (type background)))"
    ∷ raw "      )"
    ∷ unit_open (codes "KSZ9031") 1 1
    ∷ pin "bidirectional" (neg 17780) (pos 25400) 0 (pos 2540) "RXD0" "20"
    ∷ pin "bidirectional" (neg 17780) (pos 22860) 0 (pos 2540) "RXD1" "21"
    ∷ pin "bidirectional" (neg 17780) (pos 20320) 0 (pos 2540) "RXD2" "22"
    ∷ pin "bidirectional" (neg 17780) (pos 17780) 0 (pos 2540) "RXD3" "23"
    ∷ pin "output" (neg 17780) (pos 12700) 0 (pos 2540) "RX_CLK" "19"
    ∷ pin "output" (neg 17780) (pos 10160) 0 (pos 2540) "RX_CTL" "18"
    ∷ pin "input" (neg 17780) (pos 5080) 0 (pos 2540) "TXD0" "27"
    ∷ pin "input" (neg 17780) (pos 2540) 0 (pos 2540) "TXD1" "28"
    ∷ pin "input" (neg 17780) (pos 0) 0 (pos 2540) "TXD2" "29"
    ∷ pin "input" (neg 17780) (neg 2540) 0 (pos 2540) "TXD3" "30"
    ∷ pin "input" (neg 17780) (neg 7620) 0 (pos 2540) "TX_CLK" "26"
    ∷ pin "input" (neg 17780) (neg 10160) 0 (pos 2540) "TX_CTL" "25"
    ∷ pin "input" (neg 17780) (neg 15240) 0 (pos 2540) "RESET#" "42"
    ∷ pin "bidirectional" (neg 17780) (neg 17780) 0 (pos 2540) "MDIO" "40"
    ∷ pin "input" (neg 17780) (neg 20320) 0 (pos 2540) "MDC" "41"
    ∷ pin "output" (pos 17780) (pos 25400) 180 (pos 2540) "TXP_A" "1"
    ∷ pin "output" (pos 17780) (pos 22860) 180 (pos 2540) "TXN_A" "2"
    ∷ pin "input" (pos 17780) (pos 17780) 180 (pos 2540) "RXP_A" "4"
    ∷ pin "input" (pos 17780) (pos 15240) 180 (pos 2540) "RXN_A" "5"
    ∷ pin "output" (pos 17780) (pos 10160) 180 (pos 2540) "TXP_B" "7"
    ∷ pin "output" (pos 17780) (pos 7620) 180 (pos 2540) "TXN_B" "8"
    ∷ pin "input" (pos 17780) (pos 2540) 180 (pos 2540) "RXP_B" "10"
    ∷ pin "input" (pos 17780) (pos 0) 180 (pos 2540) "RXN_B" "11"
    ∷ pin "output" (pos 17780) (neg 5080) 180 (pos 2540) "TXP_C" "13"
    ∷ pin "output" (pos 17780) (neg 7620) 180 (pos 2540) "TXN_C" "14"
    ∷ pin "input" (pos 17780) (neg 12700) 180 (pos 2540) "RXP_C" "16"
    ∷ pin "input" (pos 17780) (neg 15240) 180 (pos 2540) "RXN_C" "17"
    ∷ pin "output" (pos 17780) (neg 20320) 180 (pos 2540) "TXP_D" "31"
    ∷ pin "output" (pos 17780) (neg 22860) 180 (pos 2540) "TXN_D" "32"
    ∷ pin "input" (pos 17780) (neg 25400) 180 (pos 2540) "RXP_D" "33"
    ∷ pin "input" (pos 17780) (neg 27940) 180 (pos 2540) "RXN_D" "34"
    ∷ pin "input" (neg 17780) (neg 25400) 0 (pos 2540) "XI" "37"
    ∷ pin "output" (neg 17780) (neg 27940) 0 (pos 2540) "XO" "38"
    ∷ pin "power_in" (neg 5080) (pos 31750) 270 (pos 2540) "VDD" "3"
    ∷ pin "power_in" (pos 5080) (pos 31750) 270 (pos 2540) "VDDIO" "24"
    ∷ pin "power_in" (pos 0) (neg 31750) 90 (pos 2540) "GND" "49"
    ∷ pin "input" (pos 17780) (neg 5080) 180 (pos 2540) "LED0" "43"
    ∷ pin "input" (pos 17780) (neg 7620) 180 (pos 2540) "LED1" "44"
    ∷ pin "input" (neg 17780) (neg 22860) 0 (pos 2540) "PHYAD0" "39"
    ∷ raw "      )"
    ∷ raw "    )"
    ∷ []

-- cirradio:FT232RQ.
unfoldable pub ft232rq : List LibLine
ft232rq =
    symbol_open (codes "cirradio:FT232RQ")
    ∷ raw "      (pin_names (offset 0.254))"
    ∷ raw "      (exclude_from_sim no) (in_bom yes) (on_board yes)"
    ∷ raw "      (property \"Reference\" \"U\" (at 0 17.78 0) (effects (font (size 1.27 1.27))))"
    ∷ raw "      (property \"Value\" \"FT232RQ\" (at 0 -17.78 0) (effects (font (size 1.27 1.27))))"
    ∷ raw
        "      (property \"Footprint\" \"Package_DFN_QFN:QFN-32-1EP_5x5mm_P0.5mm_EP3.1x3.1mm\" (at 0 0 0) (effects (font (size 1.27 1.27)) hide))"
    ∷ no_datasheet
    ∷ unit_open (codes "FT232RQ") 0 1
    ∷ raw
        "        (rectangle (start -10.16 16.51) (end 10.16 -16.51) (stroke (width 0.254) (type default)) (fill (type background)))"
    ∷ raw "      )"
    ∷ unit_open (codes "FT232RQ") 1 1
    ∷ pin "output" (neg 12700) (pos 12700) 0 (pos 2540) "TXD" "1"
    ∷ pin "input" (neg 12700) (pos 10160) 0 (pos 2540) "RXD" "5"
    ∷ pin "bidirectional" (pos 12700) (pos 12700) 180 (pos 2540) "USBDP" "15"
    ∷ pin "bidirectional" (pos 12700) (pos 10160) 180 (pos 2540) "USBDM" "16"
    ∷ pin "power_in" (pos 0) (pos 19050) 270 (pos 2540) "VCC" "12"
    ∷ pin "power_in" (pos 0) (neg 19050) 90 (pos 2540) "GND" "9"
    ∷ pin "input" (neg 12700) (pos 0) 0 (pos 2540) "RESET#" "19"
    ∷ pin "output" (neg 12700) (neg 5080) 0 (pos 2540) "CBUS0" "23"
    ∷ pin "output" (neg 12700) (neg 7620) 0 (pos 2540) "CBUS1" "22"
    ∷ pin "passive" (pos 12700) (pos 0) 180 (pos 2540) "3V3OUT" "17"
    ∷ raw "      )"
    ∷ raw "    )"
    ∷ []

-- cirradio:MAX-M10S.
unfoldable pub max_m10s : List LibLine
max_m10s =
    symbol_open (codes "cirradio:MAX-M10S")
    ∷ raw "      (pin_names (offset 0.254))"
    ∷ raw "      (exclude_from_sim no) (in_bom yes) (on_board yes)"
    ∷ raw "      (property \"Reference\" \"U\" (at 0 15.24 0) (effects (font (size 1.27 1.27))))"
    ∷ raw
        "      (property \"Value\" \"MAX-M10S\" (at 0 -15.24 0) (effects (font (size 1.27 1.27))))"
    ∷ raw
        "      (property \"Footprint\" \"cirradio:LCC-16_MAX-M10S\" (at 0 0 0) (effects (font (size 1.27 1.27)) hide))"
    ∷ no_datasheet
    ∷ unit_open (codes "MAX-M10S") 0 1
    ∷ raw
        "        (rectangle (start -10.16 13.97) (end 10.16 -13.97) (stroke (width 0.254) (type default)) (fill (type background)))"
    ∷ raw "      )"
    ∷ unit_open (codes "MAX-M10S") 1 1
    ∷ pin "power_in" (pos 0) (pos 16510) 270 (pos 2540) "VCC" "9"
    ∷ pin "power_in" (pos 0) (neg 16510) 90 (pos 2540) "GND" "1"
    ∷ pin "input" (neg 12700) (pos 10160) 0 (pos 2540) "RF_IN" "3"
    ∷ pin "output" (pos 12700) (pos 10160) 180 (pos 2540) "TXD" "6"
    ∷ pin "input" (pos 12700) (pos 7620) 180 (pos 2540) "RXD" "5"
    ∷ pin "output" (pos 12700) (pos 2540) 180 (pos 2540) "TIMEPULSE" "4"
    ∷ pin "input" (neg 12700) (neg 2540) 0 (pos 2540) "D_SEL" "10"
    ∷ pin "input" (neg 12700) (neg 5080) 0 (pos 2540) "RESET#" "8"
    ∷ pin "passive" (neg 12700) (neg 10160) 0 (pos 2540) "V_BCKP" "11"
    ∷ pin "bidirectional" (pos 12700) (neg 5080) 180 (pos 2540) "SDA" "14"
    ∷ pin "input" (pos 12700) (neg 7620) 180 (pos 2540) "SCL" "13"
    ∷ raw "      )"
    ∷ raw "    )"
    ∷ []

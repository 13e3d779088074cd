-- ===== src/Sheet/Top.antt =====
-- hardware/cirradio-devboard/gen_toplevel.py: the schematic that refers to the sheets.
pub mod Level
use cirradio.Prelude.{zero, suc, ℕ, ℤ, pos, ◌+ℤ◌, ◌-ℤ◌, List, [], ◌∷◌, ◌++◌, Text, codes, map}
use cirradio.Sheet.{Item, text_item}
use cirradio.Sheet.Print.{
  Piece, field, number, uid, l, Printer, format, item_lines, Heading, heading_lines,
}
use cirradio.Sheet.Pages.{
  Page, gen_zynq, gen_ddr3l, gen_ad9361, gen_rf, gen_peripherals, gen_connectors,
}

-- What `main` emits: `sheet_ref`, `text_note`, `arrow_line` and the empty line between two sections.
-- `rect_note` is not called.
pub data TopItem : Type 0 where
  sheet_ref : Text → Text → ℤ → ℤ → ℤ → ℤ → TopItem
  text_note : Text → ℤ → ℤ → ℤ → TopItem
  arrow_line : ℤ → ℤ → ℤ → ℤ → TopItem
  empty_line : TopItem

-- The lines of an item, each with its line break.
unfoldable pub top_lines : TopItem → List Piece
unfolding item_lines
top_lines (sheet_ref name filename x y w h) =
    l "    (sheet (at "
    ∷ number x
    ∷ l " "
    ∷ number y
    ∷ l ") (size "
    ∷ number w
    ∷ l " "
    ∷ number h
    ∷ l
        ")\n      (stroke (width 0.001) (type solid))\n      (fill (color 255 255 255 1.0))\n      (uuid \""
    ∷ uid 0
    ∷ l "\")\n      (property \"Sheetname\" \""
    ∷ field name
    ∷ l "\" (at "
    ∷ number x
    ∷ l " "
    ∷ number (y -ℤ pos 1000)
    ∷ l " 0)\n        (effects (font (size 1.27 1.27))))\n      (property \"Sheetfile\" \""
    ∷ field filename
    ∷ l "\" (at "
    ∷ number x
    ∷ l " "
    ∷ number (y +ℤ h +ℤ pos 1000)
    ∷ l " 0)\n        (effects (font (size 1.27 1.27))))\n    )\n"
    ∷ []
top_lines (text_note txt x y size) = item_lines (text_item txt x y size)
top_lines (arrow_line x1 y1 x2 y2) =
    l "    (polyline\n      (pts (xy "
    ∷ number x1
    ∷ l " "
    ∷ number y1
    ∷ l ") (xy "
    ∷ number x2
    ∷ l " "
    ∷ number y2
    ∷ l "))\n      (stroke (width "
    ∷ number (pos 300)
    ∷ l ") (type default) (color 0 100 0 1.0))\n      (uuid \""
    ∷ uid 0
    ∷ l "\")\n    )\n"
    ∷ []
top_lines empty_line = l "\n" ∷ []

abbrev pub top_heading : Heading
top_heading = record {
  generator = codes "custom";
  title = codes "CIRRADIO Dev Board";
  comment_1 = codes "Tactical SDR Development Board";
  comment_2 = codes "Zynq-7045 + AD9361";
}

-- The sheets.
unfoldable pub sheet_refs : List TopItem
sheet_refs =
    sheet_ref (codes "Power Supply") (codes "power.kicad_sch") (pos 30000) (pos 195000) (pos 60000)
      (pos 30000)
    ∷ sheet_ref (codes "Zynq-7045") (codes "zynq.kicad_sch") (pos 145000) (pos 105000) (pos 70000)
        (pos 45000)
    ∷ sheet_ref (codes "DDR3L Memory") (codes "ddr3l.kicad_sch") (pos 270000) (pos 105000)
        (pos 55000) (pos 35000)
    ∷ sheet_ref (codes "AD9361 + LVDS") (codes "ad9361.kicad_sch") (pos 165000) (pos 30000)
        (pos 65000) (pos 40000)
    ∷ sheet_ref (codes "RF Front-End") (codes "rf-frontend.kicad_sch") (pos 30000) (pos 30000)
        (pos 65000) (pos 40000)
    ∷ sheet_ref (codes "Peripherals") (codes "peripherals.kicad_sch") (pos 145000) (pos 195000)
        (pos 65000) (pos 30000)
    ∷ sheet_ref (codes "Connectors & Debug") (codes "connectors.kicad_sch") (pos 270000)
        (pos 195000) (pos 65000) (pos 30000)
    ∷ []

-- The notes of the block diagram.
unfoldable pub block_notes : List TopItem
block_notes =
    text_note (codes "CIRRADIO Tactical SDR - Top-Level Block Diagram") (pos 130000) (pos 12000)
      (pos 3000)
    ∷ text_note (codes "225-512 MHz") (pos 40000) (pos 53000) (pos 1500)
    ∷ text_note (codes "SMA, BPF, T/R Switch") (pos 40000) (pos 57000) (pos 1270)
    ∷ text_note (codes "LNA, SAW, TX Driver, PA") (pos 40000) (pos 61000) (pos 1270)
    ∷ text_note (codes "AD9361 RF Transceiver") (pos 175000) (pos 43000) (pos 1500)
    ∷ text_note (codes "LVDS Data Interface") (pos 175000) (pos 47000) (pos 1270)
    ∷ text_note (codes "SPI Control") (pos 175000) (pos 51000) (pos 1270)
    ∷ text_note (codes "Xilinx Zynq-7045 SoC") (pos 155000) (pos 118000) (pos 1500)
    ∷ text_note (codes "ARM Cortex-A9 + FPGA") (pos 155000) (pos 122000) (pos 1270)
    ∷ text_note (codes "PS MIO + PL GPIO") (pos 155000) (pos 126000) (pos 1270)
    ∷ text_note (codes "DDR3L x32 Memory") (pos 280000) (pos 118000) (pos 1500)
    ∷ text_note (codes "2x MT41K256M16") (pos 280000) (pos 122000) (pos 1270)
    ∷ text_note (codes "533 MHz / 1066 MT/s") (pos 280000) (pos 126000) (pos 1270)
    ∷ text_note (codes "Power Management") (pos 40000) (pos 208000) (pos 1500)
    ∷ text_note (codes "+12V -> 5V/3.3V/1.8V/1.5V/1.35V/1.0V") (pos 40000) (pos 212000) (pos 1270)
    ∷ text_note (codes "Sequenced rails, POR") (pos 40000) (pos 216000) (pos 1270)
    ∷ text_note (codes "GbE, USB, I2C EEPROM") (pos 155000) (pos 208000) (pos 1500)
    ∷ text_note (codes "GPS, uSD, QSPI Flash") (pos 155000) (pos 212000) (pos 1270)
    ∷ text_note (codes "JTAG, UART, FMC-LPC") (pos 280000) (pos 208000) (pos 1500)
    ∷ text_note (codes "PL GPIO Header") (pos 280000) (pos 212000) (pos 1270)
    ∷ []

-- The arrows between the blocks.
unfoldable pub signal_flow : List TopItem
signal_flow =
    arrow_line (pos 95000) (pos 50000) (pos 165000) (pos 50000)
    ∷ text_note (codes "RF Ports (RX/TX)") (pos 110000) (pos 46000) (pos 1270)
    ∷ arrow_line (pos 195000) (pos 70000) (pos 180000) (pos 105000)
    ∷ text_note (codes "LVDS Data + SPI Control") (pos 183000) (pos 88000) (pos 1270)
    ∷ arrow_line (pos 215000) (pos 127000) (pos 270000) (pos 122000)
    ∷ text_note (codes "DDR3 Bus (Addr/Data/Ctrl)") (pos 225000) (pos 115000) (pos 1270)
    ∷ arrow_line (pos 180000) (pos 150000) (pos 180000) (pos 195000)
    ∷ text_note (codes "PS MIO Groups") (pos 183000) (pos 175000) (pos 1270)
    ∷ arrow_line (pos 210000) (pos 150000) (pos 300000) (pos 195000)
    ∷ text_note (codes "PL GPIO + JTAG/UART") (pos 240000) (pos 170000) (pos 1270)
    ∷ arrow_line (pos 60000) (pos 195000) (pos 60000) (pos 155000)
    ∷ arrow_line (pos 60000) (pos 155000) (pos 145000) (pos 135000)
    ∷ text_note (codes "Power Rails + POR") (pos 70000) (pos 160000) (pos 1270)
    ∷ arrow_line (pos 50000) (pos 195000) (pos 50000) (pos 70000)
    ∷ text_note (codes "+3V3, +3V3A, +5V_PA") (pos 32000) (pos 140000) (pos 1000)
    ∷ arrow_line (pos 70000) (pos 195000) (pos 180000) (pos 70000)
    ∷ text_note (codes "+1V8, +3V3A") (pos 110000) (pos 130000) (pos 1000)
    ∷ arrow_line (pos 80000) (pos 195000) (pos 290000) (pos 140000)
    ∷ text_note (codes "+1V35, VTT") (pos 170000) (pos 165000) (pos 1000)
    ∷ arrow_line (pos 90000) (pos 215000) (pos 145000) (pos 210000)
    ∷ text_note (codes "+3V3, +1V8") (pos 110000) (pos 220000) (pos 1000)
    ∷ arrow_line (pos 90000) (pos 220000) (pos 270000) (pos 210000)
    ∷ text_note (codes "+3V3") (pos 175000) (pos 222000) (pos 1000)
    ∷ []

-- The notes on the labels.
unfoldable pub label_notes : List TopItem
label_notes =
    text_note (codes "INTER-SHEET CONNECTIVITY (via Global Labels)") (pos 30000) (pos 250000)
      (pos 2000)
    ∷ text_note
        (codes "Power rails: +1V0, +1V35, +1V5, +1V8, +3V3, +3V3A, +5V, +5V_PA, VTT, VTTREF")
        (pos 30000) (pos 255000) (pos 1000)
    ∷ text_note
        (codes
          "Power control: +1V0_EN/PG, +1V35_EN/PG, +1V5_EN/PG, +1V8_EN/PG, +3V3_EN/PG, +5V_EN/PG, PS_POR_B")
        (pos 30000) (pos 259000) (pos 1000)
    ∷ text_note (codes "Peripherals: ETH_MDC, ETH_MDIO, GPS_1PPS") (pos 30000) (pos 263000)
        (pos 1000)
    ∷ text_note (codes "Connectors: PS_CLK, PS_UART0_TX/RX, PS_SPI_*, PS_I2C_*") (pos 30000)
        (pos 267000) (pos 1000)
    ∷ []

-- The notes on the design.
unfoldable pub design_notes : List TopItem
design_notes =
    text_note (codes "DESIGN NOTES") (pos 30000) (pos 275000) (pos 1500)
    ∷ text_note
        (codes "1. All inter-sheet signals use global labels - no explicit wires on top-level")
        (pos 30000) (pos 279000) (pos 1000)
    ∷ text_note
        (codes
          "2. Power sequencing: +5V -> +3V3/+3V3A -> +1V8 -> +1V5 -> +1V35 -> +1V0 -> PS_POR_B")
        (pos 30000) (pos 283000) (pos 1000)
    ∷ text_note (codes "3. DDR3L requires VTT termination and VTTREF midpoint from power sheet")
        (pos 30000) (pos 287000) (pos 1000)
    ∷ text_note (codes "4. AD9361 LVDS pairs: matched-length differential routing required")
        (pos 30000) (pos 291000) (pos 1000)
    ∷ []

unfoldable pub top_items : List TopItem
unfolding sheet_refs block_notes signal_flow label_notes design_notes
top_items =
    sheet_refs
    ++ (empty_line ∷ block_notes
        ++ (empty_line ∷ signal_flow ++ (empty_line ∷ label_notes ++ (empty_line ∷ design_notes))))

-- The items, numbered from `n` on.
unfoldable pub print_top : Printer → ℕ → List TopItem → Text
unfolding format top_lines
print_top p n [] = []
print_top p n (e ∷ entries) = format p n (top_lines e) ++ print_top p (suc n) entries

-- What stands ahead of the items, and behind them.
abbrev pub no_symbols : Text
no_symbols = codes "  (lib_symbols)\n\n"

abbrev pub instances : Text
instances =
    codes
      "  (symbol_instances)\n  (sheet_instances\n    (path \"/\"\n      (page \"1\")\n    )\n  )\n)"

-- `output`
unfoldable pub top_text : Printer → Text
unfolding format heading_lines print_top
top_text p =
    format p 0 (heading_lines top_heading) ++ (no_symbols ++ (print_top p 1 top_items ++ instances))

-- The file that a generator writes, without its directory.
abbrev pub page_file : Page → Text
page_file gen_zynq = codes "zynq.kicad_sch"
page_file gen_ddr3l = codes "ddr3l.kicad_sch"
page_file gen_ad9361 = codes "ad9361.kicad_sch"
page_file gen_rf = codes "rf-frontend.kicad_sch"
page_file gen_peripherals = codes "peripherals.kicad_sch"
page_file gen_connectors = codes "connectors.kicad_sch"

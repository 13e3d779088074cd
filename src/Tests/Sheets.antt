-- ===== src/Tests/Sheets.antt =====
-- The sheets of the board.
use cirradio.Prelude.{
  ℕ, Text, ◌≤◌, ◌≡◌, refl, pos, true, some, List, [], ◌∷◌, ◌++◌, codes, one_of, IfOk, arith,
}
use cirradio.Placement.Component.{Component, first_number}
use cirradio.Placement.Plan.{Sheets, build_placement_plan}
use cirradio.Placement.Plan.Steps.{AllOnBoard}
use cirradio.Netlist.Unique.{unique_components}
use cirradio.Netlist.Unique.First.{find_component, occurrences}
use cirradio.Sheet.{
  symbol, pins_2, State, symbols, wires, gl_labels, hier_labels, pwr_idx, conn_idx, reference_of,
  run, decoupling_group,
}
use cirradio.Schematic.{sym_block}
use cirradio.Sheet.Print.Block.{sym_block-format}
use cirradio.Sheet.Print.{format, item_lines, pin_lines, Printer, balance_status}
use cirradio.Sheet.Print.Balance.{depth_after, IsPlainPrinter}
use cirradio.Sheet.Numbering.{drawn}
use cirradio.Sheet.Checks.{every_item}
use cirradio.Sheet.Collision.{is_kept, unique_components-shared}
use cirradio.Sheet.References.{first_number-reference_of}
use cirradio.Sheet.Counting.{entries_of, run-page_counts}
use cirradio.Sheet.Labels.{hier_names, hier_names-processor}
use cirradio.Sheet.Level.{level_pieces, level_pieces-All, page_text, balance_status-page}
use cirradio.Sheet.Placed.{kept_parts, build_placement_plan-connect}
use cirradio.Sheet.Decoupling.{Decoupled, run-decoupling_group}
use cirradio.Sheet.Pages.{
  Page, gen_zynq, gen_ddr3l, gen_peripherals, gen_rf, gen_connectors, page_sheet, page_start,
}
use cirradio.Sheet.Processor.{processor_sheet, processor_idx}
use cirradio.Sheet.Radio.{radio_sheet, radio_idx}
use cirradio.Sheet.Peripherals.{peripherals_sheet, peripherals_idx}
use cirradio.Sheet.Connect.{connect_sheet, connect_idx}

abbrev page_state : Page → State
page_state page = run (page_sheet page) (page_start page)

abbrev two_pages : List Component
two_pages =
    kept_parts (page_state gen_peripherals).entries
    ++ kept_parts (page_state gen_connectors).entries

-- The GPIO header and the USB connector are both J10.
unique_components-shared_example :
    (2 ≤ occurrences (reference_of conn_idx 10) two_pages)
    × (occurrences (reference_of conn_idx 10) (unique_components two_pages) ≡ 1)
    × (find_component (reference_of conn_idx 10) (unique_components two_pages)
        ≡ find_component
            (reference_of conn_idx 10)
            (kept_parts (page_state gen_peripherals).entries))
unfolding drawn page_start connect_sheet peripherals_sheet connect_idx peripherals_idx every_item
    is_kept run
unique_components-shared_example =
    unique_components-shared conn_idx (page_sheet gen_peripherals) (page_sheet gen_connectors)
      (page_start gen_peripherals) (page_start gen_connectors) 0 refl (omega arith) (omega arith)
      refl refl

hier_names-processor_example :
    one_of (hier_names (page_sheet gen_zynq)) (codes "GPIO_B12_IO7") ≡ true
unfolding hier_names one_of connect_sheet
hier_names-processor_example = hier_names-processor gen_connectors (codes "GPIO_B12_IO7") refl

first_number-reference_of_example : first_number (reference_of pwr_idx 207) ≡ some 207
first_number-reference_of_example = first_number-reference_of pwr_idx 207

run-page_counts_example :
    ((page_state gen_rf).counts symbols ≡ entries_of symbols (page_state gen_rf).entries)
    × ((page_state gen_rf).counts wires ≡ entries_of wires (page_state gen_rf).entries)
    × ((page_state gen_rf).counts gl_labels ≡ entries_of gl_labels (page_state gen_rf).entries)
    × ((page_state gen_rf).counts hier_labels ≡ entries_of hier_labels (page_state gen_rf).entries)
run-page_counts_example = run-page_counts gen_rf

abbrev connectors_only : Sheets
connectors_only = record {
  zynq = [];
  ddr3l = [];
  ad9361 = [];
  rf = [];
  power = [];
  peripherals = [];
  connectors = kept_parts (page_state gen_connectors).entries;
}

build_placement_plan-connect_example : IfOk AllOnBoard (build_placement_plan connectors_only)
build_placement_plan-connect_example = build_placement_plan-connect connectors_only refl

run-decoupling_group_example : Decoupled 4 1 (page_start gen_zynq) (
    run
      (decoupling_group (codes "+1V8") (pos 30000) (pos 570000) 4 1 (codes "VDD"))
      (page_start gen_zynq))
run-decoupling_group_example =
    run-decoupling_group (codes "+1V8") (pos 30000) (pos 570000) 4 1 (codes "VDD")
      (page_start gen_zynq)

-- A printer that writes every number as 0, and every identifier as id.
abbrev plain : Printer
plain = record { show = λ n x. codes "0"; identifier = λ n k. codes "id" }

plain-IsPlainPrinter : IsPlainPrinter plain
unfolding depth_after
plain-IsPlainPrinter = record { show_level = λ n x. refl; identifier_level = λ n k. refl }

balance_status-page_example : balance_status (page_text plain gen_ddr3l) ≡ 0
balance_status-page_example = balance_status-page plain gen_ddr3l plain-IsPlainPrinter

sym_block-format_example :
    (block : Text) × (format plain 7 (
        item_lines
          (symbol (codes "Device:R") (codes "R200") (codes "33R") (pos 0) (pos 0) 1 90 [] pins_2))
      ≡ codes "    " ++ (block ++ codes "\n"))
    × (sym_block (block ++ (codes "\n" ++ codes ")")) ≡ block)
unfolding item_lines pin_lines level_pieces
sym_block-format_example =
    sym_block-format plain 7 (codes "Device:R") (codes "R200") (codes "33R") (pos 0) (pos 0) 1 90 []
      pins_2 (codes ")") plain-IsPlainPrinter
      (level_pieces-All
        (item_lines
          (symbol (codes "Device:R") (codes "R200") (codes "33R") (pos 0) (pos 0) 1 90 [] pins_2))
        refl)

-- The wires, hierarchical labels, global labels and symbols of a sheet.
page_entries : Page → List ℕ
unfolding entries_of run page_start
page_entries page =
    entries_of wires (page_state page).entries
    ∷ entries_of hier_labels (page_state page).entries
    ∷ entries_of gl_labels (page_state page).entries
    ∷ entries_of symbols (page_state page).entries
    ∷ []

-- As many as zynq.kicad_sch and rf-frontend.kicad_sch hold.
processor_entries : page_entries gen_zynq ≡ 626 ∷ 324 ∷ 28 ∷ 229 ∷ []
unfolding page_entries processor_sheet processor_idx
processor_entries = refl

radio_entries : page_entries gen_rf ≡ 87 ∷ 6 ∷ 4 ∷ 54 ∷ []
unfolding page_entries radio_sheet radio_idx
radio_entries = refl

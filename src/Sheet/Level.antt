-- ===== src/Sheet/Level.antt =====
-- hardware/cirradio-devboard/gen_*.py: the parentheses of the sheets of the board.
use cirradio.Prelude.{
  ◌==◌, ◌≡◌, refl, Bool, true, false, ◌&&◌, none, some, Option-cases, inl, inr, List, [], ◌∷◌, Text,
  All, arith,
}
use cirradio.Sheet.{Item, run}
use cirradio.Sheet.Print.{
  Piece, lit, field, number, int, uid, Printer, format, item_lines, heading_lines, print_sheet,
  balance_status,
}
use cirradio.Sheet.Print.Balance.{
  depth_after, rise, depth_after-format, IsLevel, HasLevel, IsLevelItem, IsPlainPrinter,
  print_sheet-Balanced, balance_status-Balanced,
}
use cirradio.Sheet.Pages.{
  Page, gen_zynq, gen_ddr3l, gen_ad9361, gen_rf, gen_peripherals, gen_connectors, page_sheet,
  page_start, page_heading,
}
use cirradio.Sheet.Library.{library_pieces}
use cirradio.Sheet.Libraries.{
  page_library, processor_library, memory_library, transceiver_library, radio_library,
  peripherals_library, connect_library,
}
use cirradio.Sheet.Processor.{processor_sheet, processor_idx}
use cirradio.Sheet.Memory.{memory_sheet, memory_idx}
use cirradio.Sheet.Transceiver.{transceiver_sheet, transceiver_idx}
use cirradio.Sheet.Radio.{radio_sheet, radio_idx}
use cirradio.Sheet.Peripherals.{peripherals_sheet, peripherals_idx}
use cirradio.Sheet.Connect.{connect_sheet, connect_idx}

is_level : Text → Bool
unfolding depth_after
is_level t = elim (depth_after 0 t) [ none ↦ false | some d ↦ d == 0 ]

is_level-IsLevel : (t : Text) → is_level t ≡ true → IsLevel t
unfolding is_level
is_level-IsLevel t h = elim (Option-cases (depth_after 0 t)) [
  | inl e ↦ absurd (ground (arith, e, h))
  | inr (d, e) ↦ ground (arith, e, h)
]

unfoldable pub level_pieces : List Piece → Bool
unfolding is_level
level_pieces [] = true
level_pieces (field t ∷ ps) = is_level t && level_pieces ps
level_pieces (lit t ∷ ps) = level_pieces ps
level_pieces (number x ∷ ps) = level_pieces ps
level_pieces (int k ∷ ps) = level_pieces ps
level_pieces (uid k ∷ ps) = level_pieces ps

pub level_pieces-All : (ps : List Piece) → level_pieces ps ≡ true → All HasLevel ps
unfolding level_pieces
level_pieces-All [] h = tt
level_pieces-All (field t ∷ ps) h =
    (is_level-IsLevel t (ground arith), level_pieces-All ps (ground arith))
level_pieces-All (lit t ∷ ps) h = (tt, level_pieces-All ps h)
level_pieces-All (number x ∷ ps) h = (tt, level_pieces-All ps h)
level_pieces-All (int k ∷ ps) h = (tt, level_pieces-All ps h)
level_pieces-All (uid k ∷ ps) h = (tt, level_pieces-All ps h)

level_items : List (Item Text) → Bool
unfolding level_pieces
level_items [] = true
level_items (e ∷ entries) = level_pieces (item_lines e) && level_items entries

level_items-All :
    (entries : List (Item Text)) → level_items entries ≡ true → All IsLevelItem entries
unfolding level_items
level_items-All [] h = tt
level_items-All (e ∷ entries) h =
    (level_pieces-All (item_lines e) (ground arith), level_items-All entries (ground arith))

page-level : (page : Page) → level_items (run (page_sheet page) (page_start page)).entries ≡ true
unfolding level_items run page_start item_lines memory_sheet processor_sheet connect_sheet
    transceiver_sheet radio_sheet peripherals_sheet memory_idx processor_idx connect_idx
    transceiver_idx radio_idx peripherals_idx
page-level gen_zynq = refl
page-level gen_ddr3l = refl
page-level gen_ad9361 = refl
page-level gen_rf = refl
page-level gen_peripherals = refl
page-level gen_connectors = refl

heading-level : (page : Page) → level_pieces (heading_lines (page_heading page)) ≡ true
unfolding level_pieces heading_lines
heading-level gen_zynq = refl
heading-level gen_ddr3l = refl
heading-level gen_ad9361 = refl
heading-level gen_rf = refl
heading-level gen_peripherals = refl
heading-level gen_connectors = refl

library-level : (page : Page) → level_pieces (library_pieces (page_library page)) ≡ true
unfolding level_pieces library_pieces processor_library memory_library transceiver_library
    radio_library peripherals_library connect_library
library-level gen_zynq = refl
library-level gen_ddr3l = refl
library-level gen_ad9361 = refl
library-level gen_rf = refl
library-level gen_peripherals = refl
library-level gen_connectors = refl

rise-library : (page : Page) → rise 0 (library_pieces (page_library page)) ≡ some 0
unfolding rise library_pieces processor_library memory_library transceiver_library radio_library
    peripherals_library connect_library
rise-library gen_zynq = refl
rise-library gen_ddr3l = refl
rise-library gen_ad9361 = refl
rise-library gen_rf = refl
rise-library gen_peripherals = refl
rise-library gen_connectors = refl

-- The text of a sheet: its heading, its library symbols, then what its statements make.
unfoldable pub page_text : Printer → Page → Text
page_text p page =
    print_sheet p (page_heading page) (format p 0 (library_pieces (page_library page)))
      (run (page_sheet page) (page_start page)).entries

-- For every sheet of the board: where numbers and identifiers are written with balanced
-- parentheses, the check of the parentheses passes on the whole text of the sheet, its library
-- symbols included, so the sheet is written.
pub balance_status-page :
    (p : Printer) (page : Page) → IsPlainPrinter p → balance_status (page_text p page) ≡ 0
unfolding page_text
balance_status-page p page plain = balance_status-Balanced (
    print_sheet-Balanced p plain (page_heading page)
      (format p 0 (library_pieces (page_library page)))
      (run (page_sheet page) (page_start page)).entries
      (level_pieces-All (heading_lines (page_heading page)) (heading-level page))
      (depth_after-format p plain 0 (library_pieces (page_library page)) 0 0
        (level_pieces-All (library_pieces (page_library page)) (library-level page))
        (rise-library page))
      (level_items-All (run (page_sheet page) (page_start page)).entries (page-level page)))

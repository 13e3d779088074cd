-- ===== src/Sheet/Symbols.antt =====
-- hardware/cirradio-devboard/gen_*.py: the symbols that a sheet places, against those that its
-- library declares.
use cirradio.Prelude.{
  ℕ, ◌==◌, ◌≡◌, refl, if◌then◌else◌, Bool, true, false, ◌&&◌, ◌||◌, not, List, [], ◌∷◌, Text,
  text_eq, arith, All, All-imp,
}
use cirradio.Sheet.Checks.{every_item, every_item-All, texts_eq, texts_eq-true}
use cirradio.Sheet.{symbol, Step, item}
use cirradio.Sheet.Library.{LibLine, line, symbol_open, unit_open, pin_line}
use cirradio.Sheet.Libraries.{
  page_library, processor_library, memory_library, transceiver_library, radio_library,
  peripherals_library, connect_library,
}
use cirradio.Sheet.Processor.{processor_sheet}
use cirradio.Sheet.Memory.{memory_sheet}
use cirradio.Sheet.Transceiver.{transceiver_sheet}
use cirradio.Sheet.Radio.{radio_sheet}
use cirradio.Sheet.Peripherals.{peripherals_sheet}
use cirradio.Sheet.Connect.{connect_sheet}
use cirradio.Sheet.Pages.{
  Page, gen_zynq, gen_ddr3l, gen_ad9361, gen_rf, gen_peripherals, gen_connectors, page_sheet,
}

-- The numbers of the pins of unit `unit` of symbol `lib_id`, those of unit 0 included. `here` and
-- `inside` say whether the lines so far end in that symbol, and in one of these units.
numbers_from : Text → ℕ → Bool → Bool → List LibLine → List Text
numbers_from lib_id unit here inside [] = []
numbers_from lib_id unit here inside (line t ∷ lines) = numbers_from lib_id unit here inside lines
numbers_from lib_id unit here inside (symbol_open id ∷ lines) =
    numbers_from lib_id unit (text_eq id lib_id) false lines
numbers_from lib_id unit here inside (unit_open name u style ∷ lines) =
    numbers_from lib_id unit here (here && (u == 0 || u == unit)) lines
numbers_from lib_id unit here inside (pin_line ptype x y angle length name pin_number ∷ lines) =
    let rest = numbers_from lib_id unit here inside lines in
    if inside then pin_number ∷ rest else rest

unfoldable pub pin_numbers : Text → ℕ → List LibLine → List Text
unfolding numbers_from
pin_numbers lib_id unit lines = numbers_from lib_id unit false false lines

abbrev pub is_pinless : List Text → Bool
is_pinless [] = true
is_pinless (t ∷ names) = false

-- All that a sheet asks of a symbol it places: the library declares it, and unit `unit` of it has
-- just the pins of the symbol, in their order.
abbrev pub IsDeclared : List LibLine → Step → Type 0
IsDeclared lines (item (symbol lib_id ref value x y unit angle fp pins)) =
    (pin_numbers lib_id unit lines ≡ pins) × (is_pinless pins ≡ false)
IsDeclared lines _ = Unit

-- `declared lines step` says so.
declared : List LibLine → Step → Bool
unfolding pin_numbers texts_eq
declared lines (item (symbol lib_id ref value x y unit angle fp pins)) =
    texts_eq (pin_numbers lib_id unit lines) pins && not (is_pinless pins)
declared lines _ = true

declared-IsDeclared :
    (lines : List LibLine) (step : Step) → declared lines step ≡ true → IsDeclared lines step
unfolding declared
declared-IsDeclared lines (item (symbol lib_id ref value x y unit angle fp pins)) h =
    (texts_eq-true (pin_numbers lib_id unit lines) pins (ground (arith, h)), ground (arith, h))
declared-IsDeclared lines _ h = tt

page-declared : (page : Page) → every_item (declared (page_library page)) (page_sheet page) ≡ true
unfolding every_item declared processor_library memory_library transceiver_library radio_library
    peripherals_library connect_library memory_sheet processor_sheet connect_sheet transceiver_sheet
    radio_sheet peripherals_sheet
page-declared gen_zynq = refl
page-declared gen_ddr3l = refl
page-declared gen_ad9361 = refl
page-declared gen_rf = refl
page-declared gen_peripherals = refl
page-declared gen_connectors = refl

-- On every sheet, each symbol placed is one that the library of the sheet declares: the numbers of
-- its pins are those of its unit and of unit 0 there, in the same order, and it has at least one.
pub page_sheet-IsDeclared : (page : Page) → All (IsDeclared (page_library page)) (page_sheet page)
page_sheet-IsDeclared page =
    All-imp (λ step. declared (page_library page) step ≡ true) (IsDeclared (page_library page))
      (declared-IsDeclared (page_library page)) (page_sheet page)
      (every_item-All (declared (page_library page)) (page_sheet page) (page-declared page))

-- ===== src/Sheet/Wiring.antt =====
-- hardware/cirradio-devboard/gen_*.py: which pins the labels of a sheet are wired to. A symbol of
-- the library is drawn with its own axes, so the direction in which its y axis runs on the sheet is
-- a parameter. Pins of symbols that are turned are left out.
pub mod Memory
pub mod Processor
pub mod Transceiver
pub mod Radio
pub mod Header
use cirradio.Prelude.{
  ℕ, zero, suc, ◌==◌, if◌then◌else◌, Bool, true, false, ◌&&◌, ◌||◌, ℤ, ◌+ℤ◌, ◌-ℤ◌, List, [], ◌∷◌,
  ◌++◌, Text, text_eq, starts_with,
}
use cirradio.Sheet.{Item, symbol, wire_item, hier_item, global_item, Step, item}
use cirradio.Sheet.Library.{LibLine, line, symbol_open, unit_open, pin_line}
use cirradio.Sheet.Libraries.{page_library}
use cirradio.Sheet.Labels.{same, on_end}
use cirradio.Sheet.Pages.{Page, page_sheet}

-- Whether the y axis of a symbol runs up the sheet, or down as that of the sheet.
pub data Direction : Type 0 where
  upward downward : Direction

-- A pin on a sheet: its name and its point.
pub data PinPoint : Type 0 where
  pin_point : Text → ℤ → ℤ → PinPoint

abbrev pin_y : Direction → ℤ → ℤ → ℤ
pin_y upward y off = y -ℤ off
pin_y downward y off = y +ℤ off

-- The pins of unit `unit` of symbol `lib_id` placed at a point. `here` and `inside` say whether the
-- lines so far end in that symbol, and in that unit or in unit 0.
unfoldable pub unit_pins : Direction → ℤ → ℤ → Text → ℕ → Bool → Bool → List LibLine → List PinPoint
unit_pins d sx sy lib_id unit here inside [] = []
unit_pins d sx sy lib_id unit here inside (line t ∷ lines) =
    unit_pins d sx sy lib_id unit here inside lines
unit_pins d sx sy lib_id unit here inside (symbol_open id ∷ lines) =
    unit_pins d sx sy lib_id unit (text_eq id lib_id) false lines
unit_pins d sx sy lib_id unit here inside (unit_open name u style ∷ lines) =
    unit_pins d sx sy lib_id unit here (here && (u == 0 || u == unit)) lines
unit_pins d sx sy lib_id unit here inside
      (pin_line ptype x y angle length name pin_number ∷ lines) =
    let rest = unit_pins d sx sy lib_id unit here inside lines in
    if inside then pin_point name (sx +ℤ x) (pin_y d sy y) ∷ rest else rest

-- The pins of the symbols on a sheet that are not turned.
unfoldable pub placed_pins : Direction → List LibLine → List Step → List PinPoint
unfolding unit_pins
placed_pins d lines [] = []
placed_pins d lines (item (symbol lib_id ref value x y unit zero fp pins) ∷ steps) =
    unit_pins d x y lib_id unit false false lines ++ placed_pins d lines steps
placed_pins d lines (_ ∷ steps) = placed_pins d lines steps

-- The names of the pins at a point.
unfoldable pub pins_at : ℤ → ℤ → List PinPoint → List Text
unfolding same
pins_at x y [] = []
pins_at x y (pin_point name a b ∷ pins) =
    let rest = pins_at x y pins in if same x a && same y b then name ∷ rest else rest

-- The pins at a point, and those at the other end of a wire that ends there.
unfoldable pub wired_to : ℤ → ℤ → List PinPoint → List Step → List Text
unfolding same pins_at
wired_to x y pins [] = pins_at x y pins
wired_to x y pins (item (wire_item x1 y1 x2 y2) ∷ steps) =
    let rest = wired_to x y pins steps in
    if same x x1 && same y y1
    then pins_at x2 y2 pins ++ rest
    else if same x x2 && same y y2
    then pins_at x1 y1 pins ++ rest
    else rest
wired_to x y pins (_ ∷ steps) = wired_to x y pins steps

label_pairs : Text → List Text → List (Text × Text)
label_pairs label [] = []
label_pairs label (name ∷ names) = (label, name) ∷ label_pairs label names

-- The labels among `steps`, each with the name of a pin it is wired to.
unfoldable pub labelled_from : List PinPoint → List Step → List Step → List (Text × Text)
unfolding wired_to label_pairs
labelled_from pins sheet [] = []
labelled_from pins sheet (item (hier_item name x y shape angle) ∷ steps) =
    label_pairs name (wired_to x y pins sheet) ++ labelled_from pins sheet steps
labelled_from pins sheet (item (global_item name x y shape angle) ∷ steps) =
    label_pairs name (wired_to x y pins sheet) ++ labelled_from pins sheet steps
labelled_from pins sheet (_ ∷ steps) = labelled_from pins sheet steps

unfoldable pub labelled : Direction → Page → List (Text × Text)
unfolding labelled_from placed_pins
labelled d page =
    labelled_from (placed_pins d (page_library page) (page_sheet page)) (page_sheet page)
      (page_sheet page)

-- The names of the pins that go with a label.
unfoldable pub pins_of : Text → List (Text × Text) → List Text
pins_of label [] = []
pins_of label ((other, name) ∷ pairs) =
    let rest = pins_of label pairs in if text_eq other label then name ∷ rest else rest

-- The pins of a sheet that the label of that name is wired to.
unfoldable pub reached : Direction → Page → Text → List Text
unfolding pins_of labelled
reached d page label = pins_of label (labelled d page)

-- Of some pins, those at which a wire of the sheet ends.
unfoldable pub wired_pins : List Step → List PinPoint → List Text
unfolding on_end
wired_pins sheet [] = []
wired_pins sheet (pin_point name x y ∷ pins) =
    let rest = wired_pins sheet pins in if on_end x y sheet then name ∷ rest else rest

-- The pins whose name starts with `prefix`.
unfoldable pub named : Text → List PinPoint → List PinPoint
unfolding starts_with
named prefix [] = []
named prefix (pin_point name x y ∷ pins) =
    let rest = named prefix pins in
    if starts_with prefix name then pin_point name x y ∷ rest else rest

-- The pins of a sheet whose name starts with `prefix` and at which a wire of the sheet ends.
unfoldable pub page_wired : Direction → Page → Text → List Text
unfolding wired_pins named placed_pins
page_wired d page prefix =
    wired_pins (page_sheet page)
      (named prefix (placed_pins d (page_library page) (page_sheet page)))

-- ===== src/Sheet/Units.antt =====
-- hardware/cirradio-devboard/gen_*.py: the libraries of the sheets taken by themselves, and the units
-- of a symbol that a sheet places.
use cirradio.Prelude.{
  ℕ, zero, suc, ◌==◌, ==_iff, ◌≡◌, ◌≢◌, refl, if◌then◌else◌, Bool, true, false, ◌&&◌, ◌||◌, not,
  ◌⊎◌, inl, inr, Bool-cases, List, [], ◌∷◌, Text, text_eq, text_eq_iff, one_of, All, All-imp, Pairs,
  &&-true, arith,
}
use cirradio.Sheet.{symbol, Step, item}
use cirradio.Sheet.Checks.{every_item, every_item-All}
use cirradio.Sheet.Library.{LibLine, symbol_open, unit_open, pin_line}
use cirradio.Sheet.Libraries.{
  page_library, processor_library, memory_library, transceiver_library, radio_library,
  peripherals_library, connect_library,
}
use cirradio.Sheet.Pages.{
  Page, gen_zynq, gen_ddr3l, gen_ad9361, gen_rf, gen_peripherals, gen_connectors, page_sheet,
}
use cirradio.Sheet.Processor.{processor_sheet}
use cirradio.Sheet.Memory.{memory_sheet}
use cirradio.Sheet.Transceiver.{transceiver_sheet}
use cirradio.Sheet.Radio.{radio_sheet}
use cirradio.Sheet.Peripherals.{peripherals_sheet}
use cirradio.Sheet.Connect.{connect_sheet}

-- The symbols that a library declares.
unfoldable pub symbol_names : List LibLine → List Text
symbol_names [] = []
symbol_names (symbol_open lib_id ∷ lines) = lib_id ∷ symbol_names lines
symbol_names (_ ∷ lines) = symbol_names lines

-- The numbers of the pins of a symbol, of all its units; `here` says whether the lines so far end in
-- it.
unfoldable pub all_numbers : Text → Bool → List LibLine → List Text
all_numbers lib_id here [] = []
all_numbers lib_id here (symbol_open id ∷ lines) = all_numbers lib_id (text_eq id lib_id) lines
all_numbers lib_id here (pin_line ptype x y angle length name pin_number ∷ lines) =
    let rest = all_numbers lib_id here lines in if here then pin_number ∷ rest else rest
all_numbers lib_id here (_ ∷ lines) = all_numbers lib_id here lines

-- No two names of a list are the same.
abbrev pub AreDistinct : List Text → Type 0
AreDistinct names = Pairs (λ s t. s ≢ t) names

distinct : List Text → Bool
unfolding one_of
distinct [] = true
distinct (t ∷ names) = not (one_of names t) && distinct names

absent-All : (t : Text) (names : List Text) → one_of names t ≡ false → All (λ s. t ≢ s) names
unfolding one_of
absent-All t [] h = tt
absent-All t (s ∷ names) h = (
  λ same. let eq = (text_eq_iff s t).1 (cc same) in ground (arith, h, eq),
  absent-All t names (ground (arith, h)),
)

distinct-AreDistinct : (names : List Text) → distinct names ≡ true → AreDistinct names
unfolding distinct
distinct-AreDistinct [] h = tt
distinct-AreDistinct (t ∷ names) h =
    (absent-All t names (ground (arith, h)), distinct-AreDistinct names (ground (arith, h)))

distinct_pins : List LibLine → Text → Bool
unfolding distinct all_numbers
distinct_pins lines lib_id = distinct (all_numbers lib_id false lines)

library-distinct :
    (page : Page)
    → every_item (distinct_pins (page_library page)) (symbol_names (page_library page)) ≡ true
unfolding every_item distinct_pins symbol_names processor_library memory_library transceiver_library
    radio_library peripherals_library connect_library
library-distinct gen_zynq = refl
library-distinct gen_ddr3l = refl
library-distinct gen_ad9361 = refl
library-distinct gen_rf = refl
library-distinct gen_peripherals = refl
library-distinct gen_connectors = refl

names-distinct : (page : Page) → distinct (symbol_names (page_library page)) ≡ true
unfolding distinct symbol_names processor_library memory_library transceiver_library radio_library
    peripherals_library connect_library
names-distinct gen_zynq = refl
names-distinct gen_ddr3l = refl
names-distinct gen_ad9361 = refl
names-distinct gen_rf = refl
names-distinct gen_peripherals = refl
names-distinct gen_connectors = refl

-- The library of a sheet declares no symbol twice, and the pins of each of its symbols, of all the
-- units together, have different numbers.
pub page_library-AreDistinct :
    (page : Page)
    → AreDistinct (symbol_names (page_library page))
      × All
          (λ lib_id. AreDistinct (all_numbers lib_id false (page_library page)))
          (symbol_names (page_library page))
unfolding distinct_pins
page_library-AreDistinct page = (
  distinct-AreDistinct (symbol_names (page_library page)) (names-distinct page),
  All-imp (λ lib_id. distinct_pins (page_library page) lib_id ≡ true)
      (λ lib_id. AreDistinct (all_numbers lib_id false (page_library page)))
      (λ lib_id. distinct-AreDistinct (all_numbers lib_id false (page_library page)))
      (symbol_names (page_library page))
      (every_item-All (distinct_pins (page_library page)) (symbol_names (page_library page))
        (library-distinct page)),
)

-- The units of a symbol, without unit 0.
unfoldable pub declared_units : Text → Bool → List LibLine → List ℕ
declared_units lib_id here [] = []
declared_units lib_id here (symbol_open id ∷ lines) =
    declared_units lib_id (text_eq id lib_id) lines
declared_units lib_id here (unit_open name zero style ∷ lines) = declared_units lib_id here lines
declared_units lib_id here (unit_open name (suc u) style ∷ lines) =
    let rest = declared_units lib_id here lines in if here then suc u ∷ rest else rest
declared_units lib_id here (_ ∷ lines) = declared_units lib_id here lines

-- The units of a symbol that a sheet places, in its order.
unfoldable pub placed_units : Text → List Step → List ℕ
placed_units lib_id [] = []
placed_units lib_id (item (symbol id ref value x y unit angle fp pins) ∷ steps) =
    let rest = placed_units lib_id steps in if text_eq id lib_id then unit ∷ rest else rest
placed_units lib_id (_ ∷ steps) = placed_units lib_id steps

numbers_eq : List ℕ → List ℕ → Bool
numbers_eq [] [] = true
numbers_eq (a ∷ xs) (b ∷ ys) = a == b && numbers_eq xs ys
numbers_eq xs ys = false

numbers_eq-true : (xs ys : List ℕ) → numbers_eq xs ys ≡ true → xs ≡ ys
unfolding numbers_eq
numbers_eq-true [] [] h = refl
numbers_eq-true (a ∷ xs) (b ∷ ys) h =
    let both = &&-true (a == b) (numbers_eq xs ys) h in
    let same : a ≡ b = (==_iff a b).0 both.0 in cc (same, numbers_eq-true xs ys both.1)
numbers_eq-true [] (b ∷ ys) h = absurd (ground (arith, h))
numbers_eq-true (a ∷ xs) [] h = absurd (ground (arith, h))

units_placed : List LibLine → List Step → Text → Bool
unfolding declared_units placed_units numbers_eq
units_placed lines steps lib_id =
    numbers_eq (declared_units lib_id false lines) (1 ∷ [])
    || numbers_eq (placed_units lib_id steps) (declared_units lib_id false lines)

units-placed :
    (page : Page)
    → every_item
        (units_placed (page_library page) (page_sheet page))
        (symbol_names (page_library page))
      ≡ true
unfolding every_item units_placed symbol_names processor_library memory_library transceiver_library
    radio_library peripherals_library connect_library memory_sheet processor_sheet connect_sheet
    transceiver_sheet radio_sheet peripherals_sheet
units-placed gen_zynq = refl
units-placed gen_ddr3l = refl
units-placed gen_ad9361 = refl
units-placed gen_rf = refl
units-placed gen_peripherals = refl
units-placed gen_connectors = refl

-- For each symbol that the library of a sheet declares: it has unit 1 only, or the sheet places just
-- its units, each once and in order.
pub placed_units-declared_units :
    (page : Page)
    → All
        (λ lib_id.
          (declared_units lib_id false (page_library page) ≡ 1 ∷ [])
          ⊎ (placed_units lib_id (page_sheet page)
              ≡ declared_units lib_id false (page_library page)))
        (symbol_names (page_library page))
unfolding units_placed
placed_units-declared_units page =
    All-imp (λ lib_id. units_placed (page_library page) (page_sheet page) lib_id ≡ true)
      (λ lib_id.
        (declared_units lib_id false (page_library page) ≡ 1 ∷ [])
        ⊎ (placed_units lib_id (page_sheet page) ≡ declared_units lib_id false (page_library page)))
      (λ lib_id h.
        elim (Bool-cases (numbers_eq (declared_units lib_id false (page_library page)) (1 ∷ []))) [
          | inl e ↦
              inl (numbers_eq-true (declared_units lib_id false (page_library page)) (1 ∷ []) e)
          | inr e ↦ inr (
              numbers_eq-true (placed_units lib_id (page_sheet page))
                (declared_units lib_id false (page_library page)) (ground (arith, h, e)))
        ])
      (symbol_names (page_library page))
      (every_item-All (units_placed (page_library page) (page_sheet page))
        (symbol_names (page_library page)) (units-placed page))

-- ===== src/Sheet/Labels.antt =====
-- hardware/cirradio-devboard/gen_*.py: the labels of the sheets, where they stand and which sheets
-- share them.
use cirradio.Prelude.{
  ◌==◌, ◌≡◌, refl, ap, if◌then◌else◌, Bool, true, false, ◌&&◌, ◌||◌, not, ℤ, pos, negsuc, List, [],
  ◌∷◌, ◌++◌, Text, codes, text_eq, text_eq_iff, one_of, arith, inl, inr, Bool-cases, words,
}
use cirradio.Sheet.{wire_item, global_item, hier_item, Step, item}
use cirradio.Sheet.Processor.{processor_sheet}
use cirradio.Sheet.Memory.{memory_sheet}
use cirradio.Sheet.Transceiver.{transceiver_sheet}
use cirradio.Sheet.Radio.{radio_sheet}
use cirradio.Sheet.Peripherals.{peripherals_sheet}
use cirradio.Sheet.Connect.{connect_sheet}
use cirradio.Sheet.Pages.{
  Page, gen_zynq, gen_ddr3l, gen_ad9361, gen_rf, gen_peripherals, gen_connectors, page_sheet,
}

unfoldable pub same : ℤ → ℤ → Bool
same (pos a) (pos b) = a == b
same (negsuc a) (negsuc b) = a == b
same a b = false

-- Whether a wire of the sheet ends at a point.
unfoldable pub on_end : ℤ → ℤ → List Step → Bool
unfolding same
on_end x y [] = false
on_end x y (item (wire_item x1 y1 x2 y2) ∷ steps) =
    (same x x1 && same y y1) || (same x x2 && same y y2) || on_end x y steps
on_end x y (_ ∷ steps) = on_end x y steps

-- The labels among `steps` at which no wire of the sheet ends.
unfoldable pub unwired_from : List Step → List Step → List Text
unfolding on_end
unwired_from sheet [] = []
unwired_from sheet (item (hier_item name x y shape angle) ∷ steps) =
    let rest = unwired_from sheet steps in if on_end x y sheet then rest else name ∷ rest
unwired_from sheet (item (global_item name x y shape angle) ∷ steps) =
    let rest = unwired_from sheet steps in if on_end x y sheet then rest else name ∷ rest
unwired_from sheet (_ ∷ steps) = unwired_from sheet steps

unfoldable pub unwired : List Step → List Text
unfolding unwired_from
unwired sheet = unwired_from sheet sheet

-- The names of the hierarchical labels, and of the global ones.
unfoldable pub hier_names : List Step → List Text
hier_names [] = []
hier_names (item (hier_item name x y shape angle) ∷ steps) = name ∷ hier_names steps
hier_names (_ ∷ steps) = hier_names steps

unfoldable pub global_names : List Step → List Text
global_names [] = []
global_names (item (global_item name x y shape angle) ∷ steps) = name ∷ global_names steps
global_names (_ ∷ steps) = global_names steps

differ : Bool → Bool → Bool
differ a b = if a then not b else b

differ-true : (a b : Bool) → differ a b ≡ true → a ≡ not b
unfolding differ
differ-true a b h = ground arith

-- A test holds of all names.
all_names : (Text → Bool) → List Text → Bool
all_names test [] = true
all_names test (name ∷ names) = test name && all_names test names

all_names-one_of :
    (test : Text → Bool) (names : List Text) (t : Text)
    → all_names test names ≡ true
    → one_of names t ≡ true
    → test t ≡ true
unfolding all_names one_of
all_names-one_of test [] t c h = ground arith
all_names-one_of test (name ∷ names) t c h = elim (Bool-cases (text_eq name t)) [
  | inl e ↦ let same : test name ≡ test t = ap test ((text_eq_iff name t).0 e) in ground arith
  | inr e ↦ all_names-one_of test names t (ground arith) (ground (arith, h, e))
]

-- On every sheet, each label stands where a wire ends, but for one: `GPIO_ENV_ALERT`, of the
-- peripherals.
page_sheet-unwired :
    (page : Page)
    → unwired (page_sheet page)
      ≡ elim page [ gen_peripherals ↦ codes "GPIO_ENV_ALERT" ∷ [] | _ ↦ [] ]
unfolding unwired memory_sheet processor_sheet connect_sheet transceiver_sheet radio_sheet
    peripherals_sheet
page_sheet-unwired gen_zynq = refl
page_sheet-unwired gen_ddr3l = refl
page_sheet-unwired gen_ad9361 = refl
page_sheet-unwired gen_rf = refl
page_sheet-unwired gen_peripherals = refl
page_sheet-unwired gen_connectors = refl

-- The labels of a sheet that the processor's sheet does not have: none of the memory and of the
-- connectors; those of the eMMC, of the serial lines of the GPS receiver and of the card detection;
-- all of the transceiver and of the radio.
abbrev pub unmatched : Page → List Text
unmatched gen_zynq = []
unmatched gen_ddr3l = []
unmatched gen_connectors = []
unmatched gen_peripherals =
    (words "EMMC_DAT0 EMMC_DAT1 EMMC_DAT2 EMMC_DAT3 EMMC_DAT4 EMMC_DAT5 EMMC_DAT6 EMMC_DAT7"
      ++ words "EMMC_CLK EMMC_CMD GPS_TXD GPS_RXD SD_CD_N")
unmatched gen_ad9361 = hier_names (page_sheet gen_ad9361)
unmatched gen_rf = hier_names (page_sheet gen_rf)

page-differ :
    (page : Page)
    → all_names
        (λ n. differ (one_of (hier_names (page_sheet gen_zynq)) n) (one_of (unmatched page) n))
        (hier_names (page_sheet page))
      ≡ true
unfolding all_names differ hier_names one_of text_eq memory_sheet processor_sheet connect_sheet
    transceiver_sheet radio_sheet peripherals_sheet
page-differ gen_zynq = refl
page-differ gen_ddr3l = refl
page-differ gen_ad9361 = refl
page-differ gen_rf = refl
page-differ gen_peripherals = refl
page-differ gen_connectors = refl

-- The processor's sheet has each hierarchical label of the memory sheet and of the connectors' sheet,
-- and each of the peripherals' sheet but those of the eMMC, of the serial lines of the GPS receiver
-- and of the card detection; of those of the transceiver's sheet and of the radio's it has none.
pub hier_names-processor :
    (page : Page) (t : Text)
    → one_of (hier_names (page_sheet page)) t ≡ true
    → one_of (hier_names (page_sheet gen_zynq)) t ≡ not (one_of (unmatched page) t)
hier_names-processor page t h = differ-true _ _ (
    all_names-one_of
      (λ n. differ (one_of (hier_names (page_sheet gen_zynq)) n) (one_of (unmatched page) n))
      (hier_names (page_sheet page)) t (page-differ page) h)

one_of-append : (a b : List Text) (t : Text) → one_of (a ++ b) t ≡ (one_of a t || one_of b t)
unfolding one_of
one_of-append [] b t = refl
one_of-append (s ∷ a) b t = ground (arith, one_of-append a b t)

pages : List Page
pages = gen_zynq ∷ gen_ddr3l ∷ gen_ad9361 ∷ gen_rf ∷ gen_peripherals ∷ gen_connectors ∷ []

-- The names of all sheets together.
all_of : (List Step → List Text) → List Page → List Text
all_of names [] = []
all_of names (page ∷ rest) = names (page_sheet page) ++ all_of names rest

one_of-all_of :
    (names : List Step → List Text) (page : Page) (t : Text)
    → one_of (names (page_sheet page)) t ≡ true
    → one_of (all_of names pages) t ≡ true
unfolding all_of pages one_of
one_of-all_of names gen_zynq t h = simp (one_of-append) (ground (arith, h))
one_of-all_of names gen_ddr3l t h = simp (one_of-append) (ground (arith, h))
one_of-all_of names gen_ad9361 t h = simp (one_of-append) (ground (arith, h))
one_of-all_of names gen_rf t h = simp (one_of-append) (ground (arith, h))
one_of-all_of names gen_peripherals t h = simp (one_of-append) (ground (arith, h))
one_of-all_of names gen_connectors t h = simp (one_of-append) (ground (arith, h))

all_apart :
    all_names (λ n. not (one_of (all_of hier_names pages) n)) (all_of global_names pages) ≡ true
unfolding all_names all_of pages hier_names global_names one_of text_eq memory_sheet processor_sheet
    connect_sheet transceiver_sheet radio_sheet peripherals_sheet
all_apart = refl

-- The name of a hierarchical label of one sheet is a global label of none, so no sheet is connected
-- to the ports of another by a global label.
hier_names-apart :
    (page other : Page) (t : Text)
    → one_of (hier_names (page_sheet page)) t ≡ true
    → one_of (global_names (page_sheet other)) t ≡ false
hier_names-apart page other t h = elim (Bool-cases (one_of (global_names (page_sheet other)) t)) [
  | inl e ↦ absurd (
      ground (
        arith,
        one_of-all_of hier_names page t h,
        all_names-one_of (λ n. not (one_of (all_of hier_names pages) n)) (all_of global_names pages)
            t all_apart (one_of-all_of global_names other t e),
      ))
  | inr e ↦ e
]

-- ===== src/Sheet/Counting.antt =====
-- hardware/cirradio-devboard/gen_*.py: the dictionary `counts`, as the entries that it counts.
use cirradio.Prelude.{ℕ, ◌+◌, ◌==◌, ◌≡◌, Text, refl, if◌then◌else◌, List, [], ◌∷◌, ◌++◌, arith}
use cirradio.Sheet.{
  Tally, tally_code, symbols, wires, gl_labels, hier_labels, labels, Item, symbol, wire_item,
  global_item, hier_item, label_item, text_item, no_connect_item, Ref, fixed, next, Step, tally,
  item, State, emit_item, do_item, do_step, bump_count, run,
}
use cirradio.Sheet.Pages.{
  Page, gen_zynq, gen_ddr3l, gen_ad9361, gen_rf, gen_peripherals, gen_connectors, page_sheet,
  page_start,
}
use cirradio.Sheet.Processor.{processor_sheet}
use cirradio.Sheet.Memory.{memory_sheet}
use cirradio.Sheet.Transceiver.{transceiver_sheet}
use cirradio.Sheet.Radio.{radio_sheet}
use cirradio.Sheet.Peripherals.{peripherals_sheet}
use cirradio.Sheet.Connect.{connect_sheet}

-- What kind of entry a key counts: a code for each kind.
kind_of : {R : Type 0} → Item R → ℕ
kind_of (symbol _ _ _ _ _ _ _ _ _) = tally_code symbols
kind_of (wire_item _ _ _ _) = tally_code wires
kind_of (global_item _ _ _ _ _) = tally_code gl_labels
kind_of (hier_item _ _ _ _ _) = tally_code hier_labels
kind_of (label_item _ _ _ _) = tally_code labels
kind_of (text_item _ _ _ _) = 100
kind_of (no_connect_item _ _) = 100

-- How many entries are of the kind that a key counts.
unfoldable pub entries_of : Tally → List (Item Text) → ℕ
unfolding kind_of
entries_of t [] = 0
entries_of t (e ∷ entries) = (if tally_code t == kind_of e then 1 else 0) + entries_of t entries

-- The same of steps: the increments of a key, and the items of its kind.
unfoldable pub increments : Tally → List Step → ℕ
increments t [] = 0
increments t (tally k ∷ steps) =
    (if tally_code k == tally_code t then 1 else 0) + increments t steps
increments t (item e ∷ steps) = increments t steps

items_of : Tally → List Step → ℕ
unfolding kind_of
items_of t [] = 0
items_of t (tally k ∷ steps) = items_of t steps
items_of t (item e ∷ steps) = (if tally_code t == kind_of e then 1 else 0) + items_of t steps

do_item-counts : (t : Tally) (e : Item Ref) (s : State) → (do_item e s).counts t ≡ s.counts t
unfolding do_item emit_item
do_item-counts t (symbol lib_id (fixed ref) value x y unit angle fp pins) s = refl
do_item-counts t (symbol lib_id (next k) value x y unit angle fp pins) s = refl
do_item-counts t (wire_item x1 y1 x2 y2) s = refl
do_item-counts t (global_item name x y shape angle) s = refl
do_item-counts t (hier_item name x y shape angle) s = refl
do_item-counts t (label_item name x y angle) s = refl
do_item-counts t (text_item txt x y size) s = refl
do_item-counts t (no_connect_item x y) s = refl

pub run-counts :
    (t : Tally) (steps : List Step) (s : State)
    → (run steps s).counts t ≡ s.counts t + increments t steps
unfolding run do_step increments bump_count
run-counts t [] s = omega arith
run-counts t (tally k ∷ steps) s = ground (arith, run-counts t steps (do_step (tally k) s))
run-counts t (item e ∷ steps) s =
    omega (arith, run-counts t steps (do_item e s), do_item-counts t e s)

entries_of-append :
    (t : Tally) (a b : List (Item Text)) → entries_of t (a ++ b) ≡ entries_of t a + entries_of t b
unfolding entries_of
entries_of-append t [] b = omega arith
entries_of-append t (e ∷ a) b = omega (arith, entries_of-append t a b)

do_item-entries :
    (t : Tally) (e : Item Ref) (s : State)
    → entries_of t (do_item e s).entries ≡ entries_of t s.entries + items_of t (item e ∷ [])
unfolding do_item emit_item entries_of items_of kind_of
do_item-entries t (symbol lib_id (fixed ref) value x y unit angle fp pins) s =
    entries_of-append t s.entries _
do_item-entries t (symbol lib_id (next k) value x y unit angle fp pins) s =
    entries_of-append t s.entries _
do_item-entries t (wire_item x1 y1 x2 y2) s = entries_of-append t s.entries _
do_item-entries t (global_item name x y shape angle) s = entries_of-append t s.entries _
do_item-entries t (hier_item name x y shape angle) s = entries_of-append t s.entries _
do_item-entries t (label_item name x y angle) s = entries_of-append t s.entries _
do_item-entries t (text_item txt x y size) s = entries_of-append t s.entries _
do_item-entries t (no_connect_item x y) s = entries_of-append t s.entries _

run-entries :
    (t : Tally) (steps : List Step) (s : State)
    → entries_of t (run steps s).entries ≡ entries_of t s.entries + items_of t steps
unfolding run do_step items_of
run-entries t [] s = omega arith
run-entries t (tally k ∷ steps) s = run-entries t steps (do_step (tally k) s)
run-entries t (item e ∷ steps) s =
    omega (arith, run-entries t steps (do_item e s), do_item-entries t e s)

page-even :
    (page : Page)
    → (increments symbols (page_sheet page) ≡ items_of symbols (page_sheet page))
      × (increments wires (page_sheet page) ≡ items_of wires (page_sheet page))
      × (increments gl_labels (page_sheet page) ≡ items_of gl_labels (page_sheet page))
      × (increments hier_labels (page_sheet page) ≡ items_of hier_labels (page_sheet page))
unfolding increments items_of memory_sheet processor_sheet connect_sheet transceiver_sheet
    radio_sheet peripherals_sheet
page-even gen_zynq = (refl, refl, refl, refl)
page-even gen_ddr3l = (refl, refl, refl, refl)
page-even gen_ad9361 = (refl, refl, refl, refl)
page-even gen_rf = (refl, refl, refl, refl)
page-even gen_peripherals = (refl, refl, refl, refl)
page-even gen_connectors = (refl, refl, refl, refl)

page-count :
    (t : Tally) (page : Page)
    → increments t (page_sheet page) ≡ items_of t (page_sheet page)
    → (run (page_sheet page) (page_start page)).counts t
      ≡ entries_of t (run (page_sheet page) (page_start page)).entries
unfolding page_start entries_of
page-count t page e = omega (
  arith,
  e,
  run-counts t (page_sheet page) (page_start page),
  run-entries t (page_sheet page) (page_start page),
)

-- On every sheet, what the dictionary `counts` holds under the keys of symbols, wires, global labels
-- and hierarchical labels at the end is the number of such entries.
pub run-page_counts :
    (page : Page)
    → let s = run (page_sheet page) (page_start page) in
      (s.counts symbols ≡ entries_of symbols s.entries)
      × (s.counts wires ≡ entries_of wires s.entries)
      × (s.counts gl_labels ≡ entries_of gl_labels s.entries)
      × (s.counts hier_labels ≡ entries_of hier_labels s.entries)
run-page_counts page =
    let (a, b, c, d) = page-even page in
    (
      page-count symbols page a,
      page-count wires page b,
      page-count gl_labels page c,
      page-count hier_labels page d,
    )

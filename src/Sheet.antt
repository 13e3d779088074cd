-- ===== src/Sheet.antt =====
-- hardware/cirradio-devboard/gen_peripherals.py and the other schematic generators: the functions
-- that they share, word for word the same but for their parameters and defaults. A sheet is the list of the steps
-- that its generator makes, in order; `run` makes them, on the counters and the entries so far.
-- Coordinates are in micrometres.
pub mod Print
pub mod Peripherals
pub mod Connect
pub mod Memory
pub mod Pages
pub mod Library
pub mod Libraries
pub mod Symbols
pub mod Units
pub mod Checks
pub mod Wiring
pub mod Labels
pub mod Numbering
pub mod Collision
pub mod References
pub mod Counting
pub mod Level
pub mod Top
pub mod Placed
pub mod Decoupling
pub mod Radio
pub mod Transceiver
pub mod Processor
use cirradio.Prelude.{
  ℕ, zero, suc, ◌+◌, ◌-◌, ◌*◌, ◌==◌, ltb, if◌then◌else◌, ℤ, pos, ◌+ℤ◌, ◌-ℤ◌, List, [], ◌∷◌, ◌++◌,
  Text, codes, decimal, length,
}

-- The counters that references are numbered by.
pub data Series : Type 0 where
  cap_idx res_idx pwr_idx ind_idx ic_idx u_idx conn_idx crystal_idx led_idx btn_idx tp_idx : Series

-- The keys of `counts`.
pub data Tally : Type 0 where
  capacitors resistors inductors symbols wires labels gl_labels hier_labels : Tally
  ics connectors leds buttons test_points : Tally

abbrev pub series_code : Series → ℕ
series_code cap_idx = 0
series_code res_idx = 1
series_code pwr_idx = 2
series_code ind_idx = 3
series_code ic_idx = 4
series_code u_idx = 5
series_code conn_idx = 6
series_code crystal_idx = 7
series_code led_idx = 8
series_code btn_idx = 9
series_code tp_idx = 10

abbrev pub tally_code : Tally → ℕ
tally_code capacitors = 0
tally_code resistors = 1
tally_code inductors = 2
tally_code symbols = 3
tally_code wires = 4
tally_code labels = 5
tally_code gl_labels = 6
tally_code hier_labels = 7
tally_code ics = 8
tally_code connectors = 9
tally_code leds = 10
tally_code buttons = 11
tally_code test_points = 12

-- A reference: given, or the next one of a series.
pub data Ref : Type 0 where
  fixed : Text → Ref
  next : Series → Ref

-- What a sheet holds; `R` is the type of the references of symbols. A symbol stands with its pins.
pub data Item (R : Type 0) : Type 0 where
  symbol : Text → R → Text → ℤ → ℤ → ℕ → ℕ → Text → List Text → Item R
  wire_item : ℤ → ℤ → ℤ → ℤ → Item R
  global_item hier_item : Text → ℤ → ℤ → Text → ℕ → Item R
  label_item : Text → ℤ → ℤ → ℕ → Item R
  text_item : Text → ℤ → ℤ → ℤ → Item R
  no_connect_item : ℤ → ℤ → Item R

-- A step: `counts[key] += 1`, or an item.
pub data Step : Type 0 where
  tally : Tally → Step
  item : Item Ref → Step

-- One statement after another.
infixr 1 ◌>>◌
abbrev pub ◌>>◌ : List Step → List Step → List Step
m >> k = m ++ k

-- symbol_instance(lib_id, ref, value, x, y, unit, angle, footprint); symbol_pins(pins)
abbrev pub symbol_instance : Text → Ref → Text → ℤ → ℤ → ℕ → ℕ → Text → List Text → List Step
symbol_instance lib_id ref value x y unit angle footprint pins =
    tally symbols ∷ item (symbol lib_id ref value x y unit angle footprint pins) ∷ []

abbrev pub wire : ℤ → ℤ → ℤ → ℤ → List Step
wire x1 y1 x2 y2 = tally wires ∷ item (wire_item x1 y1 x2 y2) ∷ []

abbrev pub global_label : Text → ℤ → ℤ → Text → ℕ → List Step
global_label name x y shape angle = tally gl_labels ∷ item (global_item name x y shape angle) ∷ []

abbrev pub hier_label : Text → ℤ → ℤ → Text → ℕ → List Step
hier_label name x y shape angle = tally hier_labels ∷ item (hier_item name x y shape angle) ∷ []

abbrev pub net_label : Text → ℤ → ℤ → ℕ → List Step
net_label name x y angle = tally labels ∷ item (label_item name x y angle) ∷ []

abbrev pub text_note : Text → ℤ → ℤ → ℤ → List Step
text_note txt x y size = item (text_item txt x y size) ∷ []

abbrev pub no_connect : ℤ → ℤ → List Step
no_connect x y = item (no_connect_item x y) ∷ []

abbrev pub pins_1 : List Text
pins_1 = codes "1" ∷ []

abbrev pub pins_2 : List Text
pins_2 = codes "1" ∷ codes "2" ∷ []

abbrev pub power_symbol : Text → ℤ → ℤ → ℕ → List Step
power_symbol net x y angle =
    symbol_instance (codes "power:" ++ net) (next pwr_idx) net x y 1 angle [] pins_1

abbrev pub cap : Text → ℤ → ℤ → ℕ → Text → List Step
cap value x y angle fp =
    tally capacitors ∷ symbol_instance (codes "Device:C") (next cap_idx) value x y 1 angle fp pins_2

abbrev pub inductor : Text → ℤ → ℤ → ℕ → Text → List Step
inductor value x y angle fp =
    tally inductors ∷ symbol_instance (codes "Device:L") (next ind_idx) value x y 1 angle fp pins_2

abbrev pub resistor : Text → ℤ → ℤ → ℕ → Text → List Step
resistor value x y angle fp =
    tally resistors ∷ symbol_instance (codes "Device:R") (next res_idx) value x y 1 angle fp pins_2

abbrev pub test_point : Text → ℤ → ℤ → Text → List Step
test_point name x y fp =
    tally test_points
    ∷ symbol_instance (codes "Connector:TestPoint") (next tp_idx) name x y 1 0 fp pins_1

abbrev pub tallied : Tally → List Step
tallied t = tally t ∷ []

-- The shapes of labels.
abbrev pub bidirectional : Text
bidirectional = codes "bidirectional"

abbrev pub passive : Text
passive = codes "passive"

-- One of the two loops of `decoupling_group`, over `n` capacitors from `cx` on.
unfoldable pub cap_row : Text → Text → ℕ → ℤ → ℤ → List Step
unfolding ◌+ℤ◌
cap_row value fp zero cx y = []
cap_row value fp (suc n) cx y = do
  wire cx y cx (y +ℤ pos 1270)
  cap value cx (y +ℤ pos 5080) 0 fp
  wire cx (y +ℤ pos 8890) cx (y +ℤ pos 10000)
  power_symbol (codes "GND") cx (y +ℤ pos 10000) 0
  cap_row value fp n (cx +ℤ pos 5000) y

-- The wire along a group of `n` capacitors, if there is more than one.
unfoldable pub joining_wire : ℤ → ℤ → ℕ → List Step
unfolding ◌+ℤ◌
joining_wire x y n = if ltb 1 n then wire x y (x +ℤ pos ((n - 1) * 5000)) y else []

unfoldable pub decoupling_group : Text → ℤ → ℤ → ℕ → ℕ → Text → List Step
unfolding cap_row joining_wire ◌+ℤ◌ ◌-ℤ◌
decoupling_group rail_net x y n_100nf n_10uf label_text = do
  text_note (label_text ++ codes " decoupling") x (y -ℤ pos 5000) (pos 1270)
  global_label rail_net x (y -ℤ pos 2000) (codes "passive") 0
  wire x (y -ℤ pos 2000) x y
  cap_row (codes "100n") (codes "Capacitor_SMD:C_0402_1005Metric") n_100nf x y
  cap_row (codes "10u") (codes "Capacitor_SMD:C_0805_2012Metric") n_10uf (x +ℤ pos (n_100nf * 5000))
      y
  joining_wire x y (n_100nf + n_10uf)

-- f"{n:04d}"
abbrev pub pad_4 : Text → Text
pad_4 (a ∷ b ∷ c ∷ d ∷ t) = a ∷ b ∷ c ∷ d ∷ t
pad_4 (a ∷ b ∷ c ∷ []) = b'0' ∷ a ∷ b ∷ c ∷ []
pad_4 (a ∷ b ∷ []) = b'0' ∷ b'0' ∷ a ∷ b ∷ []
pad_4 (a ∷ []) = b'0' ∷ b'0' ∷ b'0' ∷ a ∷ []
pad_4 [] = codes "0000"

-- What `next_cap`, `next_res` and the like return.
unfoldable pub reference_of : Series → ℕ → Text
unfolding decimal
reference_of cap_idx n = codes "C" ++ decimal n
reference_of res_idx n = codes "R" ++ decimal n
reference_of pwr_idx n = codes "#PWR" ++ pad_4 (decimal n)
reference_of ind_idx n = codes "L" ++ decimal n
reference_of ic_idx n = codes "U" ++ decimal n
reference_of u_idx n = codes "U" ++ decimal n
reference_of conn_idx n = codes "J" ++ decimal n
reference_of crystal_idx n = codes "Y" ++ decimal n
reference_of led_idx n = codes "D" ++ decimal n
reference_of btn_idx n = codes "SW" ++ decimal n
reference_of tp_idx n = codes "TP" ++ decimal n

-- The global variables of a generator; the entries in the order in which they are emitted.
pub record State : Type 0 where
  pub idx : Series → ℕ
  pub counts : Tally → ℕ
  pub entries : List (Item Text)

unfoldable pub bump_idx : Series → (Series → ℕ) → Series → ℕ
bump_idx s idx t = if series_code s == series_code t then suc (idx t) else idx t

unfoldable pub bump_count : Tally → (Tally → ℕ) → Tally → ℕ
bump_count s counts t = if tally_code s == tally_code t then suc (counts t) else counts t

unfoldable pub emit_item : Item Text → State → State
emit_item e s = record s { entries = s.entries ++ (e ∷ []) }

-- What a step does to the state.
unfoldable pub do_item : Item Ref → State → State
unfolding emit_item bump_idx reference_of
do_item (symbol lib_id (fixed ref) value x y unit angle fp pins) s =
    emit_item (symbol lib_id ref value x y unit angle fp pins) s
do_item (symbol lib_id (next k) value x y unit angle fp pins) s =
    emit_item (symbol lib_id (reference_of k (s.idx k)) value x y unit angle fp pins)
      (record s { idx = bump_idx k s.idx })
do_item (wire_item x1 y1 x2 y2) s = emit_item (wire_item x1 y1 x2 y2) s
do_item (global_item name x y shape angle) s = emit_item (global_item name x y shape angle) s
do_item (hier_item name x y shape angle) s = emit_item (hier_item name x y shape angle) s
do_item (label_item name x y angle) s = emit_item (label_item name x y angle) s
do_item (text_item txt x y size) s = emit_item (text_item txt x y size) s
do_item (no_connect_item x y) s = emit_item (no_connect_item x y) s

unfoldable pub do_step : Step → State → State
unfolding do_item bump_count
do_step (tally t) s = record s { counts = bump_count t s.counts }
do_step (item i) s = do_item i s

unfoldable pub run : List Step → State → State
unfolding do_step
run [] s = s
run (step ∷ steps) s = run steps (do_step step s)

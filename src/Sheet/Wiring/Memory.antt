-- ===== src/Sheet/Wiring/Memory.antt =====
-- hardware/cirradio-devboard/gen_ddr3l.py: the pins that the labels of the memory sheet are wired to.
use cirradio.Prelude.{
  ℕ, ◌+◌, ◌<◌, ◌≡◌, refl, Bool, true, ◌&&◌, &&-true, List, [], ◌∷◌, ◌++◌, Text, codes, decimal,
  arith,
}
use cirradio.Sheet.Checks.{each_below, each_below-lt, texts_eq, texts_eq-true}
use cirradio.Sheet.Libraries.{memory_library}
use cirradio.Sheet.Memory.{memory_sheet}
use cirradio.Sheet.Pages.{gen_ddr3l}
use cirradio.Sheet.Wiring.{Direction, upward, downward, pins_of, labelled, reached}

pairs : List (Text × Text)
unfolding labelled memory_library memory_sheet
pairs = labelled downward gen_ddr3l

wired_data : ℕ → Bool
unfolding pairs pins_of texts_eq
wired_data i =
    texts_eq (pins_of (codes "DDR_DQ" ++ decimal i) pairs) ((codes "DQ" ++ decimal i) ∷ [])
    && texts_eq (pins_of (codes "DDR_DQ" ++ decimal (16 + i)) pairs)
        ((codes "DQ" ++ decimal i) ∷ [])

each-wired_data : each_below 16 wired_data ≡ true
unfolding each_below wired_data
each-wired_data = refl

wired_address : ℕ → Bool
unfolding pairs pins_of texts_eq
wired_address i =
    texts_eq (pins_of (codes "DDR_A" ++ decimal i) pairs)
      ((codes "A" ++ decimal i) ∷ (codes "A" ++ decimal i) ∷ [])

each-wired_address : each_below 15 wired_address ≡ true
unfolding each_below wired_address
each-wired_address = refl

reached-down :
    (i : ℕ)
    → i < 16
    → (reached downward gen_ddr3l (codes "DDR_DQ" ++ decimal i) ≡ (codes "DQ" ++ decimal i) ∷ [])
      × (reached downward gen_ddr3l (codes "DDR_DQ" ++ decimal (16 + i))
          ≡ (codes "DQ" ++ decimal i) ∷ [])
unfolding reached wired_data pairs
reached-down i h =
    let both =
      &&-true
        (texts_eq (pins_of (codes "DDR_DQ" ++ decimal i) pairs) ((codes "DQ" ++ decimal i) ∷ []))
        (texts_eq (pins_of (codes "DDR_DQ" ++ decimal (16 + i)) pairs)
          ((codes "DQ" ++ decimal i) ∷ []))
        (each_below-lt 16 wired_data i each-wired_data h) in
    (
      texts_eq-true (pins_of (codes "DDR_DQ" ++ decimal i) pairs) ((codes "DQ" ++ decimal i) ∷ [])
          both.0,
      texts_eq-true (pins_of (codes "DDR_DQ" ++ decimal (16 + i)) pairs)
          ((codes "DQ" ++ decimal i) ∷ []) both.1,
    )

pairs_up : List (Text × Text)
unfolding labelled memory_library memory_sheet
pairs_up = labelled upward gen_ddr3l

no_pin : ℕ → Bool
unfolding pairs_up pins_of texts_eq
no_pin i = texts_eq (pins_of (codes "DDR_DQ" ++ decimal i) pairs_up) []

each-no_pin : each_below 32 no_pin ≡ true
unfolding each_below no_pin
each-no_pin = refl

pub reached-no_pin : (i : ℕ) → i < 32 → reached upward gen_ddr3l (codes "DDR_DQ" ++ decimal i) ≡ []
unfolding reached no_pin pairs_up
reached-no_pin i h =
    texts_eq-true (pins_of (codes "DDR_DQ" ++ decimal i) pairs_up) []
      (each_below-lt 32 no_pin i each-no_pin h)

-- The pins that data line `i` of one chip's half should reach, by the direction in which the y axis
-- of the symbols runs.
abbrev pub data_pins : Direction → ℕ → List Text
data_pins upward i = []
data_pins downward i = (codes "DQ" ++ decimal i) ∷ []

-- On the memory sheet, for each `i` below 16: where the y axis of the library's symbols runs upward,
-- as KiCad draws them, data line `i` and data line `16 + i` are wired to no pin at all; where it ran
-- downward, as the generator computes, each would be wired to one pin, which is named `DQ` and `i`.
pub reached-data :
    (d : Direction) (i : ℕ)
    → i < 16
    → (reached d gen_ddr3l (codes "DDR_DQ" ++ decimal i) ≡ data_pins d i)
      × (reached d gen_ddr3l (codes "DDR_DQ" ++ decimal (16 + i)) ≡ data_pins d i)
reached-data upward i h =
    (reached-no_pin i (omega (arith, h)), reached-no_pin (16 + i) (omega (arith, h)))
reached-data downward i h = reached-down i h

-- On the memory sheet, where symbols are drawn with their y axis down, address line `i`, for each
-- `i` below 15, is wired to two pins, both named `A` and `i`: one of each chip.
pub reached-address :
    (i : ℕ)
    → i < 15
    → reached downward gen_ddr3l (codes "DDR_A" ++ decimal i)
      ≡ (codes "A" ++ decimal i) ∷ (codes "A" ++ decimal i) ∷ []
unfolding reached wired_address pairs
reached-address i h =
    texts_eq-true (pins_of (codes "DDR_A" ++ decimal i) pairs)
      ((codes "A" ++ decimal i) ∷ (codes "A" ++ decimal i) ∷ [])
      (each_below-lt 15 wired_address i each-wired_address h)

-- ===== src/Sheet/Wiring/Radio.antt =====
-- hardware/cirradio-devboard/gen_rf.py: the pins that the supply of the amplifiers is wired to.
use cirradio.Prelude.{
  ℕ, ◌<◌, ◌≡◌, refl, true, false, ◌⊎◌, inl, inr, List, [], ◌++◌, Text, codes, decimal, text_eq,
  text_eq_iff, All, All-imp,
}
use cirradio.Sheet.Checks.{every_item, every_item-All}
use cirradio.Sheet.Libraries.{radio_library}
use cirradio.Sheet.Radio.{radio_sheet}
use cirradio.Sheet.Pages.{gen_rf, gen_ddr3l}
use cirradio.Sheet.Symbols.{is_pinless}
use cirradio.Sheet.Wiring.Memory.{reached-no_pin}
use cirradio.Sheet.Wiring.{Direction, upward, downward, pins_of, labelled, reached}

-- The pins that the supply of the amplifiers is wired to.
abbrev pub supplied : Direction → List Text
supplied d = reached d gen_rf (codes "+5V_PA")

every-ground : every_item (text_eq (codes "GND")) (supplied downward) ≡ true
unfolding every_item text_eq reached labelled pins_of radio_library radio_sheet
every-ground = refl

supplied-some : is_pinless (supplied downward) ≡ false
unfolding reached labelled pins_of radio_library radio_sheet
supplied-some = refl

-- In whichever direction the y axis of the symbols runs: on the memory sheet data line `i`, for each
-- `i` below 32, is wired to no pin; or on the sheet of the radio the supply of the amplifiers, +5V_PA,
-- is wired to some pins, and all of them are named `GND`.
pub supplied-ground :
    (d : Direction) (i : ℕ)
    → i < 32
    → (reached d gen_ddr3l (codes "DDR_DQ" ++ decimal i) ≡ [])
      ⊎ ((is_pinless (supplied d) ≡ false) × All (λ name. codes "GND" ≡ name) (supplied d))
supplied-ground upward i h = inl (reached-no_pin i h)
supplied-ground downward i h = inr (
  supplied-some,
  All-imp (λ name. text_eq (codes "GND") name ≡ true) (λ name. codes "GND" ≡ name)
      (λ name e. (text_eq_iff (codes "GND") name).0 e) (supplied downward)
      (every_item-All (text_eq (codes "GND")) (supplied downward) every-ground),
)

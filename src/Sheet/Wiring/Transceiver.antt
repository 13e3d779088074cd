-- ===== src/Sheet/Wiring/Transceiver.antt =====
-- hardware/cirradio-devboard/gen_ad9361.py: the pins that the labels of the transceiver's sheet are
-- wired to.
use cirradio.Prelude.{
  ℕ, ◌<◌, ◌≡◌, refl, Bool, true, ◌&&◌, &&-true, List, [], ◌∷◌, ◌++◌, Text, codes, decimal,
}
use cirradio.Sheet.Checks.{each_below, each_below-lt, texts_eq, texts_eq-true}
use cirradio.Sheet.Libraries.{transceiver_library}
use cirradio.Sheet.Transceiver.{transceiver_sheet}
use cirradio.Sheet.Pages.{gen_ad9361}
use cirradio.Sheet.Wiring.{downward, pins_of, labelled, reached}

pairs : List (Text × Text)
unfolding labelled transceiver_library transceiver_sheet
pairs = labelled downward gen_ad9361

-- The name of one side of data pair `i`.
abbrev pub data_line : ℕ → Text → Text
data_line i side = codes "P0_D" ++ (decimal i ++ side)

wired_pair : ℕ → Bool
unfolding pairs pins_of texts_eq
wired_pair i =
    texts_eq (pins_of (data_line i (codes "_P")) pairs) (data_line i (codes "+") ∷ [])
    && texts_eq (pins_of (data_line i (codes "_N")) pairs) (data_line i (codes "-") ∷ [])

each-wired_pair : each_below 12 wired_pair ≡ true
unfolding each_below wired_pair
each-wired_pair = refl

-- On the transceiver's sheet, where symbols are drawn with their y axis down, both sides of data
-- pair `i`, for each `i` below 12, are wired to one pin each: the positive side to the pin named
-- `P0_D`, `i` and `+`, the negative side to the one with `-`.
pub reached-pair :
    (i : ℕ)
    → i < 12
    → (reached downward gen_ad9361 (data_line i (codes "_P")) ≡ data_line i (codes "+") ∷ [])
      × (reached downward gen_ad9361 (data_line i (codes "_N")) ≡ data_line i (codes "-") ∷ [])
unfolding reached wired_pair pairs
reached-pair i h =
    let both =
      &&-true (texts_eq (pins_of (data_line i (codes "_P")) pairs) (data_line i (codes "+") ∷ []))
        (texts_eq (pins_of (data_line i (codes "_N")) pairs) (data_line i (codes "-") ∷ []))
        (each_below-lt 12 wired_pair i each-wired_pair h) in
    (
      texts_eq-true (pins_of (data_line i (codes "_P")) pairs) (data_line i (codes "+") ∷ [])
          both.0,
      texts_eq-true (pins_of (data_line i (codes "_N")) pairs) (data_line i (codes "-") ∷ [])
          both.1,
    )

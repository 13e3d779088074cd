-- ===== src/Sheet/Wiring/Header.antt =====
-- hardware/cirradio-devboard/gen_connectors.py: the pins of the header that are wired.
use cirradio.Prelude.{
  ℕ, ◌+◌, ◌<◌, ◌≡◌, refl, Bool, true, false, ◌&&◌, not, &&-true, ◌++◌, Text, codes, decimal, one_of,
  arith,
}
use cirradio.Sheet.Checks.{each_below, each_below-lt}
use cirradio.Sheet.Libraries.{connect_library}
use cirradio.Sheet.Connect.{connect_sheet}
use cirradio.Sheet.Pages.{gen_connectors}
use cirradio.Sheet.Wiring.{Direction, upward, downward, page_wired}

abbrev pub header_pin : ℕ → Text
header_pin k = codes "Pin_" ++ decimal k

-- The first pin of the half of the header that is wired, and of the other half.
abbrev pub first_wired : Direction → ℕ
first_wired upward = 1
first_wired downward = 21

abbrev pub first_open : Direction → ℕ
first_open upward = 21
first_open downward = 1

half_wired : Direction → ℕ → Bool
unfolding one_of page_wired
half_wired d k =
    one_of (page_wired d gen_connectors (codes "Pin_")) (header_pin (first_wired d + k))
    && not (one_of (page_wired d gen_connectors (codes "Pin_")) (header_pin (first_open d + k)))

each-half_wired : (d : Direction) → each_below 20 (half_wired d) ≡ true
unfolding each_below half_wired page_wired connect_library connect_sheet
each-half_wired upward = refl
each-half_wired downward = refl

-- Of the 40 pins of the header, a wire ends at 20 only: where the y axis of the symbols runs up, at
-- those from 1 to 20 and at none from 21 to 40; where it runs down, the other way round.
pub page_wired-half :
    (d : Direction) (k : ℕ)
    → k < 20
    → (one_of (page_wired d gen_connectors (codes "Pin_")) (header_pin (first_wired d + k)) ≡ true)
      × (one_of (page_wired d gen_connectors (codes "Pin_")) (header_pin (first_open d + k))
          ≡ false)
unfolding half_wired
page_wired-half d k h =
    let both =
      &&-true (one_of (page_wired d gen_connectors (codes "Pin_")) (header_pin (first_wired d + k)))
        (not (one_of (page_wired d gen_connectors (codes "Pin_")) (header_pin (first_open d + k))))
        (each_below-lt 20 (half_wired d) k (each-half_wired d) h) in
    let none_open = both.1 in (both.0, ground (arith, none_open))

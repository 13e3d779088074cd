-- ===== src/Sheet/Wiring/Processor.antt =====
-- hardware/cirradio-devboard/gen_zynq.py: the pins that the labels of the processor's sheet are wired
-- to.
use cirradio.Prelude.{
  ◌≡◌, ◌≢◌, refl, Bool, true, ◌&&◌, ◌||◌, not, ◌⊎◌, inl, inr, List, [], Text, codes, starts_with,
  text_eq, text_eq_iff, All, All-imp, Bool-cases, arith, words,
}
use cirradio.Sheet.Checks.{every_item, every_item-All}
use cirradio.Sheet.Libraries.{processor_library}
use cirradio.Sheet.Processor.{processor_sheet}
use cirradio.Sheet.Pages.{gen_zynq}
use cirradio.Sheet.Wiring.{Direction, upward, downward, labelled, page_wired}

-- A label with the pin it is wired to: a supply; or a memory line, which is `DDR_DQ10` or whose pin
-- has another name.
abbrev pub IsMisnamed : Text × Text → Type 0
IsMisnamed (label, name) =
    (starts_with (codes "+") label ≡ true)
    ⊎ ((starts_with (codes "DDR_") label ≡ true) × ((label ≢ name) ⊎ (label ≡ codes "DDR_DQ10")))

misnamed : Text × Text → Bool
unfolding text_eq starts_with
misnamed (label, name) =
    starts_with (codes "+") label
    || (starts_with (codes "DDR_") label
        && (not (text_eq label name) || text_eq label (codes "DDR_DQ10")))

misnamed-IsMisnamed : (pair : Text × Text) → misnamed pair ≡ true → IsMisnamed pair
unfolding misnamed
misnamed-IsMisnamed (label, name) h = elim (Bool-cases (starts_with (codes "+") label)) [
  | inl s ↦ inl s
  | inr s ↦ inr (
    ground (arith, h, s),
    elim (Bool-cases (text_eq label (codes "DDR_DQ10"))) [
      | inl e ↦ inr ((text_eq_iff label (codes "DDR_DQ10")).0 e)
      | inr e ↦
          inl (λ same. let eq = (text_eq_iff label name).1 same in ground (arith, h, s, e, eq))
    ],
  )
]

misnamed-upward : every_item misnamed (labelled upward gen_zynq) ≡ true
unfolding every_item misnamed labelled processor_library processor_sheet
misnamed-upward = refl

misnamed-downward : every_item misnamed (labelled downward gen_zynq) ≡ true
unfolding every_item misnamed labelled processor_library processor_sheet
misnamed-downward = refl

every-misnamed : (d : Direction) → every_item misnamed (labelled d gen_zynq) ≡ true
every-misnamed upward = misnamed-upward
every-misnamed downward = misnamed-downward

-- On the processor's sheet, in whichever direction the y axis of the symbols runs, the labels that a
-- wire joins to a pin are supplies and memory lines only, and the pin of a memory line has another
-- name than the line, but where the line is `DDR_DQ10`.
pub labelled-IsMisnamed : (d : Direction) → All IsMisnamed (labelled d gen_zynq)
labelled-IsMisnamed d =
    All-imp (λ pair. misnamed pair ≡ true) IsMisnamed misnamed-IsMisnamed (labelled d gen_zynq)
      (every_item-All misnamed (labelled d gen_zynq) (every-misnamed d))

-- What the names start with of the pins that the other sheets are to be joined to, and of those of
-- the supply of the logic.
abbrev pub open_prefixes : List Text
open_prefixes = (words "MIO B33_ B34_ B13_ B12_ VCCINT")

page_wired-upward : All (λ p. page_wired upward gen_zynq p ≡ []) open_prefixes
unfolding page_wired processor_library processor_sheet
page_wired-upward = (refl, (refl, (refl, (refl, (refl, (refl, tt))))))

page_wired-downward : All (λ p. page_wired downward gen_zynq p ≡ []) open_prefixes
unfolding page_wired processor_library processor_sheet
page_wired-downward = (refl, (refl, (refl, (refl, (refl, (refl, tt))))))

-- On the processor's sheet, in whichever direction the y axis of the symbols runs, no wire ends at a
-- pin of the multiplexed lines, of the banks 33, 34, 13 and 12, or of the supply of the logic.
pub page_wired-open : (d : Direction) → All (λ p. page_wired d gen_zynq p ≡ []) open_prefixes
page_wired-open upward = page_wired-upward
page_wired-open downward = page_wired-downward

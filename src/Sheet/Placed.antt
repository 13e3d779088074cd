-- ===== src/Sheet/Placed.antt =====
-- hardware/cirradio-devboard/gen_connectors.py and gen_pcb_placement.py: the placement of the parts
-- that the connectors' sheet holds.
use cirradio.Prelude.{
  ℕ, ◌≤◌, leb, ◌≡◌, refl, Bool, true, ◌&&◌, ◌||◌, not, if◌then◌else◌, none, some, List, [], ◌∷◌,
  Text, codes, starts_with, All, IfOk, arith,
}
use cirradio.Placement.Component.{Component, first_number}
use cirradio.Placement.Plan.{Sheets, build_placement_plan}
use cirradio.Placement.Plan.Sections.{IsNumbered}
use cirradio.Placement.Plan.Steps.{AllOnBoard}
use cirradio.Placement.Plan.OnBoard.{build_placement_plan-AllOnBoard}
use cirradio.Sheet.{Item, symbol, run}
use cirradio.Sheet.Connect.{connect_sheet, connect_idx}
use cirradio.Sheet.Pages.{gen_connectors, page_sheet, page_start}

-- The symbols of a sheet that `parse_schematic` takes for components: those from no power library
-- whose reference does not start with `#`.
unfoldable pub kept_parts : List (Item Text) → List Component
kept_parts [] = []
kept_parts (symbol lib_id ref value x y unit angle fp pins ∷ entries) =
    let rest = kept_parts entries in
    if starts_with (codes "power:") lib_id || starts_with (codes "#") ref
    then rest
    else record { reference = ref; value = value; footprint = fp; lib_id = lib_id } ∷ rest
kept_parts (_ ∷ entries) = kept_parts entries

-- A number of at most `n`, where the reference starts with `p` and has one.
within : Text → ℕ → Text → Bool
within p n ref =
    not (starts_with p ref) || elim (first_number ref) [ none ↦ true | some m ↦ leb m n ]

within-bound :
    (p : Text) (n : ℕ) (ref : Text) (m : ℕ)
    → within p n ref ≡ true
    → starts_with p ref ≡ true
    → first_number ref ≡ some m
    → m ≤ n
unfolding within
within-bound p n ref m w s e = ground (arith, w, s, e)

numbered : Component → Bool
unfolding within
numbered c =
    within (codes "TP") 24 c.reference
    && within (codes "LED") 19 c.reference
    && within (codes "SW") 7 c.reference

numbered-IsNumbered : (c : Component) → numbered c ≡ true → IsNumbered c
unfolding numbered
numbered-IsNumbered c h = record {
  test_point = λ m. within-bound (codes "TP") 24 c.reference m (ground arith);
  led = λ m. within-bound (codes "LED") 19 c.reference m (ground arith);
  switch = λ m. within-bound (codes "SW") 7 c.reference m (ground arith);
}

all_numbered : List Component → Bool
unfolding numbered
all_numbered [] = true
all_numbered (c ∷ comps) = numbered c && all_numbered comps

all_numbered-All : (comps : List Component) → all_numbered comps ≡ true → All IsNumbered comps
unfolding all_numbered
all_numbered-All [] h = tt
all_numbered-All (c ∷ comps) h =
    (numbered-IsNumbered c (ground arith), all_numbered-All comps (ground arith))

connect-numbered :
    all_numbered (kept_parts (run (page_sheet gen_connectors) (page_start gen_connectors)).entries)
    ≡ true
unfolding all_numbered kept_parts run page_start connect_sheet connect_idx first_number starts_with
connect-numbered = refl

-- Where the connectors' components are those of the sheet that its generator makes, a plan that is
-- made with no exception has the centre of every placement on the board of 160 mm by 100 mm,
-- whatever the other sheets hold.
pub build_placement_plan-connect :
    (sheets : Sheets)
    → sheets.connectors
      ≡ kept_parts (run (page_sheet gen_connectors) (page_start gen_connectors)).entries
    → IfOk AllOnBoard (build_placement_plan sheets)
build_placement_plan-connect sheets e = build_placement_plan-AllOnBoard sheets (
    rw e (
      all_numbered-All
        (kept_parts (run (page_sheet gen_connectors) (page_start gen_connectors)).entries)
        connect-numbered))

-- ===== src/Placement/Main.antt =====
-- hardware/cirradio-devboard/gen_pcb_placement.py: `main`. The schematics are given parsed; what
-- `main` prints and the file that it rewrites are not modelled.
pub mod Complete
use cirradio.Prelude.{
  ℕ, Bool, true, false, ◌&&◌, ◌||◌, Option, none, some, List, [], ◌∷◌, ◌++◌, map, ltb, leb,
  if◌then◌else◌, Text, text_eq, sorted, Result, ok, ◌>>=◌,
}
use cirradio.Placement.Footprint.{Size, estimate_footprint_size}
use cirradio.Placement.Zone.{Zone, Spot, new_zone, place}
use cirradio.Placement.Component.{Component, Placements, find_spot, is_placed, set_spot}
use cirradio.Placement.Plan.{Sheets, Desk, spot, build_placement_plan}

-- ref in all_components
unfoldable pub has_reference : Text → List Component → Bool
has_reference ref [] = false
has_reference ref (c ∷ comps) = text_eq c.reference ref || has_reference ref comps

-- What the loop over the schematics changes: the components of all sheets in the order of the
-- dictionary `all_components`, and those of the sheet at hand.
pub record Collected : Type 0 where
  pub all_components : List Component
  pub zone_components : List Component

-- The loop over the components of one sheet: a reference that is known already is passed over.
unfoldable pub collect_sheet : List Component → Collected → Collected
unfolding has_reference
collect_sheet [] s = s
collect_sheet (c ∷ comps) s = collect_sheet comps (
    if has_reference c.reference s.all_components then s else record {
      all_components = s.all_components ++ c ∷ [];
      zone_components = s.zone_components ++ c ∷ [];
    })

abbrev open_sheet : List Component → Collected
open_sheet all = record { all_components = all; zone_components = [] }

-- The sheets in the order of SCHEMATIC_FILES: what is kept of each, and all components.
unfoldable pub collect : Sheets → Sheets × List Component
unfolding collect_sheet
collect parsed =
    let power = collect_sheet parsed.power (open_sheet []) in
    let zynq = collect_sheet parsed.zynq (open_sheet power.all_components) in
    let ddr3l = collect_sheet parsed.ddr3l (open_sheet zynq.all_components) in
    let ad9361 = collect_sheet parsed.ad9361 (open_sheet ddr3l.all_components) in
    let rf = collect_sheet parsed.rf (open_sheet ad9361.all_components) in
    let peripherals = collect_sheet parsed.peripherals (open_sheet rf.all_components) in
    let connectors = collect_sheet parsed.connectors (open_sheet peripherals.all_components) in
    (
      record {
        zynq = zynq.zone_components;
        ddr3l = ddr3l.zone_components;
        ad9361 = ad9361.zone_components;
        rf = rf.zone_components;
        power = power.zone_components;
        peripherals = peripherals.zone_components;
        connectors = connectors.zone_components;
      },
      connectors.all_components,
    )

-- The spot of a part that fits nowhere: what `overflow_zone.place` returns, or (5.0, 50.0).
abbrev overflow_spot : Option Spot → Spot
overflow_spot none = spot 5000 50000 0
overflow_spot (some s) = s

-- The body of the loop over all components, for those that the plan left out.
unfoldable pub place_left_out : Component → Desk → Desk
place_left_out c d =
    let size = estimate_footprint_size c.footprint in
    let (result, zone) = place d.zone size.w size.h in
    if is_placed c.reference d.placements then d else record {
      placements = set_spot c.reference (overflow_spot result) d.placements;
      zone = zone;
    }

unfoldable pub place_rest : List Component → Desk → Desk
unfolding place_left_out
place_rest [] d = d
place_rest (c ∷ comps) d = place_rest comps (place_left_out c d)

-- The placements that `main` writes.
unfoldable pub all_placements : Sheets → Result Placements
unfolding place_rest
all_placements parsed =
    let (sheets, all) = collect parsed in
    do
      placements ← build_placement_plan sheets
      let overflow_zone = new_zone 2000 42000 40000 60000
      ok (place_rest all (record { placements = placements; zone = overflow_zone })).placements

-- The names of the groups in the output.
pub data Region : Type 0 where
  rf_front_end ad9361 zynq ddr3l_or_top power gps connectors : Region

-- The chain of tests that assigns a placement to a group.
unfoldable pub region : Spot → Region
region s =
    if ltb s.x 60000 && ltb s.y 40000
    then rf_front_end
    else if leb 60000 s.x && ltb s.x 100000 && ltb s.y 32000
    then ad9361
    else if leb 40000 s.x && ltb s.x 100000 && (leb 32000 s.y && ltb s.y 80000)
    then zynq
    else if leb 100000 s.x && ltb s.y 62000
    then ddr3l_or_top
    else if ltb s.x 60000 && leb 60000 s.y
    then power
    else if leb 140000 s.x && ltb s.y 30000
    then gps
    else connectors

abbrev region_eq : Region → Region → Bool
region_eq rf_front_end rf_front_end = true
region_eq ad9361 ad9361 = true
region_eq zynq zynq = true
region_eq ddr3l_or_top ddr3l_or_top = true
region_eq power power = true
region_eq gps gps = true
region_eq connectors connectors = true
region_eq _ _ = false

abbrev pub zone_order : List Region
zone_order = rf_front_end ∷ ad9361 ∷ zynq ∷ ddr3l_or_top ∷ power ∷ gps ∷ connectors ∷ []

-- `placements[ref]` of a reference that is there
unfoldable pub spot_region : Placements → Text → Option Region
unfolding region
spot_region placements ref = elim (find_spot ref placements) [
  | none ↦ none
  | some s ↦ some (region s)
]

abbrev pub in_region : Region → Option Region → Bool
in_region z none = false
in_region z (some r) = region_eq z r

-- zone_assignments[z], filled in the order of the references
unfoldable pub assigned : Placements → Region → List Text → List Text
unfolding spot_region
assigned placements z [] = []
assigned placements z (ref ∷ refs) =
    let rest = assigned placements z refs in
    if in_region z (spot_region placements ref) then ref ∷ rest else rest

-- for zone_name in zone_order: for ref in sorted(refs): output the footprint
unfoldable pub output_groups : Placements → List Text → List Region → List Text
unfolding assigned
output_groups placements refs [] = []
output_groups placements refs (z ∷ zones) =
    sorted (assigned placements z refs) ++ output_groups placements refs zones

-- placements.keys()
unfoldable pub references : Placements → List Text
references placements = map (λ e. e.0) placements

-- The references in the order in which `main` outputs their footprints.
unfoldable pub output_order : Placements → List Text
unfolding output_groups references
output_order placements = output_groups placements (sorted (references placements)) zone_order

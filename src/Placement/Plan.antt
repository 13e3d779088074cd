-- ===== src/Placement/Plan.antt =====
-- hardware/cirradio-devboard/gen_pcb_placement.py: `build_placement_plan`, a function for each of
-- its sections. A section's loop is `for_each` of its body, over the placements and the zone that
-- the section fills. Coordinates are in micrometres.
pub mod OnBoard
pub mod Sections
pub mod Steps
use cirradio.Prelude.{
  ℕ, ◌+◌, ◌*◌, Bool, true, false, ◌&&◌, ◌||◌, Option, none, some, List, [], ◌∷◌, ltb, if◌then◌else◌,
  Text, codes, text_eq, starts_with, contains, Result, ok, ◌>>=◌, for_each,
}
use cirradio.Placement.Footprint.{Size, estimate_footprint_size}
use cirradio.Placement.Zone.{Layer, front, back, Zone, Spot, new_zone, place}
use cirradio.Placement.Component.{
  Component, is_passive, first_number, Placements, find_spot, is_placed, set_spot, set_result,
}

-- The argument of `build_placement_plan`: the components of each schematic.
pub record Sheets : Type 0 where
  pub zynq : List Component
  pub ddr3l : List Component
  pub ad9361 : List Component
  pub rf : List Component
  pub power : List Component
  pub peripherals : List Component
  pub connectors : List Component

-- What a section's loop changes: the placements, and the zone that it fills.
pub record Desk : Type 0 where
  pub placements : Placements
  pub zone : Zone

-- (x, y, rot, "F.Cu")
abbrev pub spot : ℕ → ℕ → ℕ → Spot
spot x y rotation = record { x = x; y = y; rotation = rotation; layer = front }

-- placements[ref] = spot
unfoldable pub fix : Component → Spot → Desk → Desk
fix comp s d = record d { placements = set_spot comp.reference s d.placements }

-- `(x, y, rot, "B.Cu")` in place of the front layer of a result
abbrev on_back : Option Spot → Option Spot
on_back none = none
on_back (some s) = some (record s { layer = back })

-- estimate the size, place, and keep the result if there is one
unfoldable pub auto : Component → Desk → Desk
auto comp d =
    let size = estimate_footprint_size comp.footprint in
    let (result, zone) = place d.zone size.w size.h in
    record { placements = set_result comp.reference result d.placements; zone = zone }

-- the same, for a part of the back side
unfoldable pub auto_back : Component → Desk → Desk
auto_back comp d =
    let size = estimate_footprint_size comp.footprint in
    let (result, zone) = place d.zone size.w size.h in
    record { placements = set_result comp.reference (on_back result) d.placements; zone = zone }

-- 1. Zynq-7045 at board center
unfoldable pub plan_zynq : Component → Desk → Result Desk
plan_zynq comp d =
    if text_eq comp.reference (codes "U1") then ok (fix comp (spot 80000 50000 0) d) else do
      passive ← is_passive comp
      ok (
          if passive
          then (if ltb (d.zone.cursor_y + (estimate_footprint_size comp.footprint).h) 78000
              then auto_back comp d
              else d)
          else auto comp d)

-- 2. DDR3L memories
unfoldable pub plan_ddr3l : Component → Desk → Result Desk
plan_ddr3l comp d =
    if text_eq comp.reference (codes "U2")
    then ok (fix comp (spot 112000 35000 0) d)
    else if text_eq comp.reference (codes "U3")
    then ok (fix comp (spot 128000 35000 0) d)
    else do passive ← is_passive comp; ok (if passive then auto_back comp d else auto comp d)

-- 3. AD9361
unfoldable pub plan_ad9361 : Component → Desk → Result Desk
plan_ad9361 comp d =
    if text_eq comp.reference (codes "U9")
    then ok (fix comp (spot 80000 16000 0) d)
    else if text_eq comp.reference (codes "Y1") || text_eq comp.reference (codes "Y2")
    then ok
        (fix comp (spot 92000 (if text_eq comp.reference (codes "Y1") then 10000 else 22000) 0) d)
    else ok (auto comp d)

-- rf_ic_positions
abbrev rf_ic_positions : Placements
rf_ic_positions =
    (codes "U16", spot 15000 10000 0)
    ∷ (codes "U17", spot 30000 10000 0)
    ∷ (codes "FL1", spot 42000 10000 0)
    ∷ (codes "U18", spot 30000 25000 0)
    ∷ (codes "U19", spot 15000 25000 0)
    ∷ (codes "J1", spot 5000 18000 0)
    ∷ []

-- placements at the position that a table gives for the reference, or what follows in the chain
unfoldable pub fixed_or : Placements → Component → Desk → Desk → Desk
fixed_or table comp d other = elim (find_spot comp.reference table) [
  | none ↦ other
  | some s ↦ fix comp s d
]

-- 4. RF front-end
unfoldable pub plan_rf : Component → Desk → Result Desk
unfolding fixed_or
plan_rf comp d = ok (
    fixed_or rf_ic_positions comp d (
      if contains (codes "BPF") comp.value || contains (codes "Harmonic") comp.value
      then (if is_placed comp.reference d.placements then d else auto comp d)
      else auto comp d))

-- power_ic_positions
abbrev power_ic_positions : Placements
power_ic_positions =
    (codes "U4", spot 10000 72000 0)
    ∷ (codes "U5", spot 10000 82000 0)
    ∷ (codes "U6", spot 28000 68000 0)
    ∷ (codes "U7", spot 28000 76000 0)
    ∷ (codes "U8", spot 28000 84000 0)
    ∷ (codes "U20", spot 44000 68000 0)
    ∷ (codes "U21", spot 44000 78000 0)
    ∷ (codes "U22", spot 44000 88000 0)
    ∷ []

-- 5. Power supply
unfoldable pub plan_power : Component → Desk → Result Desk
unfolding fixed_or
plan_power comp d =
    if is_placed comp.reference d.placements
    then ok d
    else ok (
        fixed_or power_ic_positions comp d (
          if text_eq comp.reference (codes "J2")
          then fix comp (spot 8000 94000 0) d
          else auto comp d))

-- periph_ic_positions
abbrev periph_ic_positions : Placements
periph_ic_positions =
    (codes "U10", spot 148000 10000 0)
    ∷ (codes "U11", spot 138000 22000 0)
    ∷ (codes "U12", spot 110000 80000 0)
    ∷ (codes "U13", spot 130000 80000 0)
    ∷ (codes "U14", spot 110000 90000 0)
    ∷ (codes "U15", spot 148000 80000 0)
    ∷ (codes "U23", spot 130000 90000 0)
    ∷ (codes "Y3", spot 140000 86000 0)
    ∷ []

-- What the loop over the peripherals changes: it fills a zone of its own, and then `zone_conn`.
pub record Desks : Type 0 where
  pub placements : Placements
  pub passive_zone : Zone
  pub zone_conn : Zone

-- place in the peripherals' zone, or else in `zone_conn`
unfoldable pub auto_or_conn : Component → Desks → Desks
auto_or_conn comp d =
    let size = estimate_footprint_size comp.footprint in
    let (result, zone) = place d.passive_zone size.w size.h in
    let (other, conn) = place d.zone_conn size.w size.h in
    elim result [
      | some s ↦ record d {
        placements = set_spot comp.reference s d.placements;
        passive_zone = zone;
      }
      | none ↦ record {
        placements = set_result comp.reference other d.placements;
        passive_zone = zone;
        zone_conn = conn;
      }
    ]

-- 6. Peripherals
unfoldable pub plan_peripherals : Component → Desks → Result Desks
plan_peripherals comp d =
    if is_placed comp.reference d.placements
    then ok d
    else ok (elim (find_spot comp.reference periph_ic_positions) [
      | some s ↦ record d { placements = set_spot comp.reference s d.placements }
      | none ↦
          if starts_with (codes "J") comp.reference && contains (codes "U.FL") comp.footprint
          then record d { placements = set_spot comp.reference (spot 155000 10000 0) d.placements }
          else auto_or_conn comp d
    ])

-- conn_positions
abbrev conn_positions : Placements
conn_positions =
    (codes "J3", spot 156000 40000 90)
    ∷ (codes "J4", spot 150000 94000 0)
    ∷ (codes "J5", spot 120000 96000 0)
    ∷ (codes "J6", spot 108000 96000 0)
    ∷ (codes "J7", spot 135000 70000 0)
    ∷ (codes "J8", spot 115000 70000 0)
    ∷ (codes "J9", spot 125000 96000 0)
    ∷ []

-- `if match: placements[ref] = (base + number * step, y, 0, "F.Cu")`
unfoldable pub numbered : Component → ℕ → ℕ → ℕ → Desk → Desk
numbered comp base step y d = elim (first_number comp.reference) [
  | none ↦ d
  | some n ↦ fix comp (spot (base + n * step) y 0) d
]

-- 7. Connectors
unfoldable pub plan_connectors : Component → Desk → Result Desk
unfolding fixed_or
plan_connectors comp d =
    if is_placed comp.reference d.placements
    then ok d
    else ok (
        fixed_or conn_positions comp d (
          if starts_with (codes "TP") comp.reference
          then numbered comp 62000 4000 96000 d
          else if starts_with (codes "LED") comp.reference
          then numbered comp 102000 3000 60000 d
          else if starts_with (codes "SW") comp.reference
          then numbered comp 102000 8000 56000 d
          else auto comp d))

-- A section with a zone of its own: the placements after it.
unfoldable pub section :
    (Component → Desk → Result Desk) → Zone → List Component → Placements → Result Placements
section step zone comps placements = do
  d ← for_each step comps (record { placements = placements; zone = zone })
  ok d.placements

unfoldable pub build_placement_plan : Sheets → Result Placements
unfolding section
build_placement_plan sheets = do
  p ← section plan_zynq (new_zone 42000 34000 98000 78000) sheets.zynq []
  p ← section plan_ddr3l (new_zone 102000 27000 138000 53000) sheets.ddr3l p
  p ← section plan_ad9361 (new_zone 62000 2000 98000 30000) sheets.ad9361 p
  p ← section plan_rf (new_zone 2000 2000 58000 38000) sheets.rf p
  p ← section plan_power (new_zone 2000 62000 58000 98000) sheets.power p
  d ← for_each plan_peripherals sheets.peripherals (record {
    placements = p;
    passive_zone = new_zone 102000 62000 158000 68000;
    zone_conn = new_zone 102000 62000 158000 98000;
  })
  section plan_connectors d.zone_conn sheets.connectors d.placements

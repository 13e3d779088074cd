-- ===== src/Placement/Main/Complete.antt =====
-- `main` places every component, and outputs each placement once.
use cirradio.Prelude.{
  ℕ, ◌+◌, ◌≡◌, ◌≢◌, refl, ◌∙◌, sorted, inl, inr, true, none, List, [], ◌∷◌, ◌++◌, if◌then◌else◌,
  Text, text_eq, text_eq_iff, text_eq_refl, count, count-sorted, count-append, All, Bool-cases,
  arith,
}
use cirradio.Placement.Zone.{Spot}
use cirradio.Placement.Component.{Component, Placements, find_spot, is_placed}
use cirradio.Placement.Plan.{Sheets}
use cirradio.Placement.Main.{
  has_reference, Region, gps, region, in_region, zone_order, spot_region, assigned, output_groups,
  references, output_order,
}

-- A reference that the placements hold.
abbrev pub IsPlaced : Placements → Component → Type 0
IsPlaced p c = is_placed c.reference p ≡ true

-- The components have references that were collected.
abbrev AreKnown : List Component → List Component → Type 0
AreKnown all comps = All (λ c. has_reference c.reference all ≡ true) comps

-- The components of all sheets.
abbrev pub of_sheets : Sheets → List Component
of_sheets parsed =
    ((((([] ++ parsed.power) ++ parsed.zynq) ++ parsed.ddr3l) ++ parsed.ad9361) ++ parsed.rf)
    ++ parsed.peripherals
    ++ parsed.connectors

-- No placement falls into the group "GPS": the tests before it take every such spot.
region-ne-gps : (s : Spot) → region s ≢ gps
unfolding region
region-ne-gps s = ground arith

module _ (p : Placements) (ref : Text) where
  count-assigned :
      (z : Region) (refs : List Text)
      → count ref (assigned p z refs)
        ≡ (if in_region z (spot_region p ref) then count ref refs else 0)
  unfolding assigned count
  count-assigned z [] = ground arith
  count-assigned z (r ∷ refs) = elim (Bool-cases (text_eq r ref)) [
    | inl e ↦
        let same : r ≡ ref = (text_eq_iff r ref).0 e in
        rw same (ground (arith, count-assigned z refs, text_eq_refl ref))
    | inr e ↦ ground (arith, count-assigned z refs)
  ]

  -- How often the groups of these zones hold the reference.
  count_groups : List Region → ℕ → ℕ
  count_groups [] n = 0
  count_groups (z ∷ zones) n =
      (if in_region z (spot_region p ref) then n else 0) + count_groups zones n

  count-output_groups :
      (refs : List Text) (zones : List Region)
      → count ref (output_groups p refs zones) ≡ count_groups zones (count ref refs)
  unfolding output_groups count count_groups
  count-output_groups refs [] = refl
  count-output_groups refs (z ∷ zones) = omega (
    arith,
    count-append ref (sorted (assigned p z refs)) (output_groups p refs zones),
    count-sorted ref (assigned p z refs),
    count-assigned z refs,
    count-output_groups refs zones,
  )

  count_groups-zone_order :
      (n : ℕ) → (spot_region p ref ≡ none → n ≡ 0) → count_groups zone_order n ≡ n
  unfolding count_groups
  count_groups-zone_order n h = ground (arith, h)

find_spot-count :
    (ref : Text) (p : Placements) → find_spot ref p ≡ none → count ref (references p) ≡ 0
unfolding find_spot count references
find_spot-count ref [] e = refl
find_spot-count ref ((r, s) ∷ p) e = ground (arith, find_spot-count ref p)

spot_region-count :
    (ref : Text) (p : Placements) → spot_region p ref ≡ none → count ref (references p) ≡ 0
unfolding spot_region
spot_region-count ref p e = find_spot-count ref p (ground arith)

-- The output holds the footprint of each placement as often as the dictionary holds its reference:
-- the groups neither drop a placement nor repeat one.
pub count-output_order :
    (p : Placements) (ref : Text) → count ref (output_order p) ≡ count ref (references p)
unfolding output_order references
count-output_order p ref =
    let keys : List Text = references p in
    count-output_groups p ref (sorted keys) zone_order
    ∙ count_groups-zone_order p ref (count ref (sorted keys))
        (λ e. rw count-sorted (spot_region-count ref p e))
    ∙ count-sorted ref keys

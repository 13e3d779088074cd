-- ===== src/Placement/Plan/OnBoard.antt =====
-- The plan as a whole: where the seven sections put the components.
use cirradio.Prelude.{
  ℕ, ◌+◌, ◌≤◌, Result, ok, IfOk, IfOk-bind, for_each-IfOk, List, [], ◌∷◌, All, arith,
}
use cirradio.Placement.Zone.{Zone, new_zone}
use cirradio.Placement.Component.{Component, Placements}
use cirradio.Placement.Plan.{
  Sheets, Desk, plan_zynq, plan_ddr3l, plan_ad9361, plan_rf, plan_power, plan_peripherals,
  plan_connectors, section, build_placement_plan,
}
use cirradio.Placement.Plan.Steps.{AllOnBoard, IsRoomy, DeskInv}
use cirradio.Placement.Plan.Sections.{
  DesksInv, IsNumbered, plan_zynq-IfOk, plan_ddr3l-IfOk, plan_ad9361-IfOk, plan_rf-IfOk,
  plan_power-IfOk, plan_connectors-IfOk, plan_peripherals-IfOk,
}

new_zone-IsRoomy :
    (a b c d : ℕ) → a + 32500 ≤ c → c ≤ 160000 → d ≤ 100000 → IsRoomy (new_zone a b c d)
unfolding new_zone
new_zone-IsRoomy a b c d h k l = omega arith

section-IfOk :
    (Q : Component → Type 0) (step : Component → Desk → Result Desk)
    → ((c : Component) (d : Desk) → Q c → DeskInv d → IfOk DeskInv (step c d))
    → (zone : Zone) (comps : List Component) (p : Placements) → IsRoomy zone
    → All Q comps
    → AllOnBoard p
    → IfOk AllOnBoard (section step zone comps p)
unfolding section
section-IfOk Q step keeps zone comps p roomy q a =
    IfOk-bind DeskInv AllOnBoard _ (λ d. ok d.placements)
      (for_each-IfOk Q DeskInv step keeps comps _ q (record { placed = a; roomy = roomy }))
      (λ d v. v.placed)

abbrev Anything : Component → Type 0
Anything c = Unit

All-Anything : (comps : List Component) → All Anything comps
All-Anything [] = tt
All-Anything (c ∷ comps) = (tt, All-Anything comps)

-- A section that asks nothing of its components.
module _ (step : Component → Desk → Result Desk)
    (keeps : (c : Component) (d : Desk) → DeskInv d → IfOk DeskInv (step c d)) where
  plain_section-IfOk :
      (a b c d : ℕ) (comps : List Component) (p : Placements)
      → IsRoomy (new_zone a b c d)
      → AllOnBoard p
      → IfOk AllOnBoard (section step (new_zone a b c d) comps p)
  plain_section-IfOk a b c d comps p roomy on =
      section-IfOk Anything step (λ x s _. keeps x s) (new_zone a b c d) comps p roomy
        (All-Anything comps) on

-- When the connectors sheet numbers its test points up to 24, its LEDs up to 19 and its switches up
-- to 7, a plan that is made with no exception has the centre of every placement on the board of
-- 160 mm by 100 mm, whatever components the sheets hold and whatever their footprints.
pub build_placement_plan-AllOnBoard :
    (sheets : Sheets)
    → All IsNumbered sheets.connectors
    → IfOk AllOnBoard (build_placement_plan sheets)
unfolding build_placement_plan
build_placement_plan-AllOnBoard sheets numbers =
    IfOk-bind AllOnBoard AllOnBoard _ _
      (plain_section-IfOk plan_zynq plan_zynq-IfOk _ _ _ _ sheets.zynq []
        (new_zone-IsRoomy _ _ _ _ (omega arith) (omega arith) (omega arith)) tt)
      λ p on.
        IfOk-bind AllOnBoard AllOnBoard _ _
          (plain_section-IfOk plan_ddr3l plan_ddr3l-IfOk _ _ _ _ sheets.ddr3l p
            (new_zone-IsRoomy _ _ _ _ (omega arith) (omega arith) (omega arith)) on)
          λ p on.
            IfOk-bind AllOnBoard AllOnBoard _ _
              (plain_section-IfOk plan_ad9361 plan_ad9361-IfOk _ _ _ _ sheets.ad9361 p
                (new_zone-IsRoomy _ _ _ _ (omega arith) (omega arith) (omega arith)) on)
              λ p on.
                IfOk-bind AllOnBoard AllOnBoard _ _
                  (plain_section-IfOk plan_rf plan_rf-IfOk _ _ _ _ sheets.rf p
                    (new_zone-IsRoomy _ _ _ _ (omega arith) (omega arith) (omega arith)) on)
                  λ p on.
                    IfOk-bind AllOnBoard AllOnBoard _ _
                      (plain_section-IfOk plan_power plan_power-IfOk _ _ _ _ sheets.power p
                        (new_zone-IsRoomy _ _ _ _ (omega arith) (omega arith) (omega arith)) on)
                      λ p on.
                        IfOk-bind DesksInv AllOnBoard _ _
                          (for_each-IfOk Anything DesksInv plan_peripherals
                            (λ x s _. plan_peripherals-IfOk x s) sheets.peripherals _
                            (All-Anything sheets.peripherals)
                            (record {
                              placed = on;
                              passive_roomy =
                                  new_zone-IsRoomy _ _ _ _ (omega arith) (omega arith)
                                    (omega arith);
                              conn_roomy =
                                  new_zone-IsRoomy _ _ _ _ (omega arith) (omega arith)
                                    (omega arith);
                            }))
                          λ d v.
                            section-IfOk IsNumbered plan_connectors plan_connectors-IfOk d.zone_conn
                              sheets.connectors d.placements v.conn_roomy numbers v.placed

-- ===== src/Placement/Plan/Sections.antt =====
-- Each section of the plan places components on the board only, and keeps its zone in order.
use cirradio.Prelude.{
  ℕ, ◌+◌, ◌*◌, ◌≤◌, ◌≡◌, inl, inr, true, if◌then◌else◌, some, [], ◌∷◌, codes, Text, starts_with,
  IfOk, Bool-cases, Option-cases, arith,
}
use cirradio.Placement.Footprint.{Size, estimate_footprint_size}
use cirradio.Placement.Zone.{Spot, place}
use cirradio.Placement.Component.{
  Component, first_number, Placements, is_placed, find_spot, set_spot, All-set_spot,
}
use cirradio.Placement.Plan.{
  Desk, spot, auto, plan_zynq, plan_ddr3l, plan_ad9361, plan_rf, plan_power, fixed_or, Desks,
  auto_or_conn, plan_peripherals, numbered, plan_connectors, rf_ic_positions, power_ic_positions,
  periph_ic_positions, conn_positions,
}
use cirradio.Placement.Plan.Steps.{
  OnBoard, AllOnBoard, IsRoomy, DeskInv, place-IsRoomy, fix-DeskInv, set_result-AllOnBoard,
  spot-OnBoard, auto-DeskInv, auto_back-DeskInv,
}

pub plan_zynq-IfOk : (c : Component) (d : Desk) → DeskInv d → IfOk DeskInv (plan_zynq c d)
unfolding plan_zynq
plan_zynq-IfOk c d v = ground (
  arith,
  fix-DeskInv c (spot 80000 50000 0) d (omega arith) v,
  auto-DeskInv c d v,
  auto_back-DeskInv c d v,
)

pub plan_ddr3l-IfOk : (c : Component) (d : Desk) → DeskInv d → IfOk DeskInv (plan_ddr3l c d)
unfolding plan_ddr3l
plan_ddr3l-IfOk c d v = ground (
  arith,
  fix-DeskInv c (spot 112000 35000 0) d (omega arith) v,
  fix-DeskInv c (spot 128000 35000 0) d (omega arith) v,
  auto-DeskInv c d v,
  auto_back-DeskInv c d v,
)

pub plan_ad9361-IfOk : (c : Component) (d : Desk) → DeskInv d → IfOk DeskInv (plan_ad9361 c d)
unfolding plan_ad9361
plan_ad9361-IfOk c d v = ground (
  arith,
  fix-DeskInv c (spot 80000 16000 0) d (omega arith) v,
  fix-DeskInv c (spot 92000 10000 0) d (omega arith) v,
  fix-DeskInv c (spot 92000 22000 0) d (omega arith) v,
  auto-DeskInv c d v,
)

find_spot-OnBoard :
    (ref : Text) (table : Placements) (s : Spot)
    → AllOnBoard table
    → find_spot ref table ≡ some s
    → OnBoard s
unfolding find_spot
find_spot-OnBoard ref [] s a e = ground arith
find_spot-OnBoard ref ((r, t) ∷ table) s a e =
    ground (arith, find_spot-OnBoard ref table s a.1, a.0)

fixed_or-DeskInv :
    (table : Placements) (c : Component) (d other : Desk)
    → AllOnBoard table
    → DeskInv d
    → DeskInv other
    → DeskInv (fixed_or table c d other)
unfolding fixed_or
fixed_or-DeskInv table c d other a v w = elim (Option-cases (find_spot c.reference table)) [
  | inl e ↦ rw (e, fixed_or) w
  | inr (s, e) ↦ rw (e, fixed_or) (fix-DeskInv c s d (find_spot-OnBoard c.reference table s a e) v)
]

pub plan_rf-IfOk : (c : Component) (d : Desk) → DeskInv d → IfOk DeskInv (plan_rf c d)
unfolding plan_rf
plan_rf-IfOk c d v =
    fixed_or-DeskInv rf_ic_positions c d _ (omega arith) v (ground (arith, auto-DeskInv c d v))

pub plan_power-IfOk : (c : Component) (d : Desk) → DeskInv d → IfOk DeskInv (plan_power c d)
unfolding plan_power
plan_power-IfOk c d v = elim (Bool-cases (is_placed c.reference d.placements)) [
  | inl e ↦ rw e v
  | inr e ↦ rw e (
      fixed_or-DeskInv power_ic_positions c d _ (omega arith) v
        (ground (arith, auto-DeskInv c d v, fix-DeskInv c (spot 8000 94000 0) d (omega arith) v)))
]

-- The numbers for which the rows of test points, LEDs and switches end on the board.
pub record IsNumbered (c : Component) : Type 0 where
  pub test_point :
      (n : ℕ)
      → starts_with (codes "TP") c.reference ≡ true
      → first_number c.reference ≡ some n
      → n ≤ 24
  pub led :
      (n : ℕ)
      → starts_with (codes "LED") c.reference ≡ true
      → first_number c.reference ≡ some n
      → n ≤ 19
  pub switch :
      (n : ℕ)
      → starts_with (codes "SW") c.reference ≡ true
      → first_number c.reference ≡ some n
      → n ≤ 7

numbered-DeskInv :
    (c : Component) (base step y : ℕ) (d : Desk)
    → ((n : ℕ) → first_number c.reference ≡ some n → base + n * step ≤ 160000)
    → y ≤ 100000
    → DeskInv d
    → DeskInv (numbered c base step y d)
unfolding numbered
numbered-DeskInv c base step y d on_x on_y v = elim (Option-cases (first_number c.reference)) [
  | inl e ↦ rw (e, numbered) v
  | inr (n, e) ↦
      rw (e, numbered)
        (fix-DeskInv c (spot (base + n * step) y 0) d
          (record { x_bound = on_x n e; y_bound = on_y }) v)
]

module _ (c : Component) (d : Desk) (i : IsNumbered c) (v : DeskInv d) where
  connector_rows-DeskInv : DeskInv (
      if starts_with (codes "TP") c.reference
      then numbered c 62000 4000 96000 d
      else if starts_with (codes "LED") c.reference
      then numbered c 102000 3000 60000 d
      else if starts_with (codes "SW") c.reference
      then numbered c 102000 8000 56000 d
      else auto c d)
  connector_rows-DeskInv = elim (Bool-cases (starts_with (codes "TP") c.reference)) [
    | inl e ↦ rw e (
        numbered-DeskInv c 62000 4000 96000 d (λ n q. omega (arith, i.test_point n e q))
          (omega arith) v)
    | inr e ↦ rw e (elim (Bool-cases (starts_with (codes "LED") c.reference)) [
      | inl f ↦ rw f (
          numbered-DeskInv c 102000 3000 60000 d (λ n q. omega (arith, i.led n f q)) (omega arith)
            v)
      | inr f ↦ rw f (elim (Bool-cases (starts_with (codes "SW") c.reference)) [
        | inl g ↦ rw g (
            numbered-DeskInv c 102000 8000 56000 d (λ n q. omega (arith, i.switch n g q))
              (omega arith) v)
        | inr g ↦ rw g (auto-DeskInv c d v)
      ])
    ])
  ]

pub plan_connectors-IfOk :
    (c : Component) (d : Desk) → IsNumbered c → DeskInv d → IfOk DeskInv (plan_connectors c d)
unfolding plan_connectors
plan_connectors-IfOk c d i v = elim (Bool-cases (is_placed c.reference d.placements)) [
  | inl e ↦ rw e v
  | inr e ↦
      rw e (fixed_or-DeskInv conn_positions c d _ (omega arith) v (connector_rows-DeskInv c d i v))
]

pub record DesksInv (d : Desks) : Type 0 where
  pub placed : AllOnBoard d.placements
  pub passive_roomy : IsRoomy d.passive_zone
  pub conn_roomy : IsRoomy d.zone_conn

auto_or_conn-DesksInv : (c : Component) (d : Desks) → DesksInv d → DesksInv (auto_or_conn c d)
unfolding auto_or_conn
auto_or_conn-DesksInv c d v =
    let size : Size = estimate_footprint_size c.footprint in
    elim (Option-cases (place d.passive_zone size.w size.h).0) [
      | inl e ↦
          rw (e, auto_or_conn)
            (record {
              placed =
                  set_result-AllOnBoard c.reference _ d.placements
                    (spot-OnBoard c d.zone_conn v.conn_roomy) v.placed;
              passive_roomy = place-IsRoomy d.passive_zone size v.passive_roomy;
              conn_roomy = place-IsRoomy d.zone_conn size v.conn_roomy;
            })
      | inr (s, e) ↦
          rw (e, auto_or_conn)
            (record {
              placed =
                  All-set_spot OnBoard c.reference s d.placements
                    (spot-OnBoard c d.passive_zone v.passive_roomy s e) v.placed;
              passive_roomy = place-IsRoomy d.passive_zone size v.passive_roomy;
              conn_roomy = v.conn_roomy;
            })
    ]

placed-DesksInv :
    (c : Component) (s : Spot) (d : Desks)
    → OnBoard s
    → DesksInv d
    → DesksInv (record d { placements = set_spot c.reference s d.placements })
placed-DesksInv c s d b v = record {
  placed = All-set_spot OnBoard c.reference s d.placements b v.placed;
  passive_roomy = v.passive_roomy;
  conn_roomy = v.conn_roomy;
}

pub plan_peripherals-IfOk :
    (c : Component) (d : Desks) → DesksInv d → IfOk DesksInv (plan_peripherals c d)
unfolding plan_peripherals
plan_peripherals-IfOk c d v = elim (Bool-cases (is_placed c.reference d.placements)) [
  | inl e ↦ rw e v
  | inr e ↦ elim (Option-cases (find_spot c.reference periph_ic_positions)) [
    | inl f ↦
        rw (e, f)
          (ground (
            arith,
            auto_or_conn-DesksInv c d v,
            placed-DesksInv c (spot 155000 10000 0) d (omega arith) v,
          ))
    | inr (s, f) ↦
        rw (e, f)
          (placed-DesksInv c s d
            (find_spot-OnBoard c.reference periph_ic_positions s (omega arith) f) v)
  ]
]

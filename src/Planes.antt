-- ===== src/Planes.antt =====
-- hardware/cirradio-devboard/gen_pcb_planes.py: the copper zones of the ground planes, of the power
-- plane and of the ground fills. Coordinates are in millimetres, as the code has them, and
-- clearances in micrometres.
use cirradio.Prelude.{ℕ, List, [], ◌∷◌, ◌++◌, Text, codes, map, gather}

abbrev pub Corner : Type 0
Corner = ℕ × ℕ

pub record Fill : Type 0 where
  pub net_num : ℕ
  pub net_name : Text
  pub layer : Text
  pub zone_name : Text
  pub corners : List Corner
  pub priority : ℕ
  pub clearance : ℕ

-- `zone_sexpr`: a zone for each polygon. The defaults for the thermal gap, the thermal bridge and the
-- least thickness, which no call changes, are left out.
unfoldable pub zone_sexpr : ℕ → Text → Text → Text → List (List Corner) → ℕ → ℕ → List Fill
zone_sexpr net_num net_name layer zone_name polygons priority clearance =
    map
      (λ corners. record {
        net_num = net_num;
        net_name = net_name;
        layer = layer;
        zone_name = zone_name;
        corners = corners;
        priority = priority;
        clearance = clearance;
      })
      polygons

abbrev pub full_board : List Corner
full_board = (0, 0) ∷ (160, 0) ∷ (160, 100) ∷ (0, 100) ∷ []

-- The ground zone of a layer.
unfoldable pub ground_zone : Text × Text → List Fill
unfolding zone_sexpr
ground_zone (layer, name) = zone_sexpr 1 (codes "GND") layer name (full_board ∷ []) 0 200

abbrev pub plane_layers : List (Text × Text)
plane_layers =
    (codes "In1.Cu", codes "GND1")
    ∷ (codes "In3.Cu", codes "GND2")
    ∷ (codes "In7.Cu", codes "GND3")
    ∷ []

abbrev pub fill_layers : List (Text × Text)
fill_layers = (codes "F.Cu", codes "GND_TOP") ∷ (codes "B.Cu", codes "GND_BOT") ∷ []

-- A split of the power plane: the net, the name of the zone, and its polygons.
pub record Split : Type 0 where
  pub net_num : ℕ
  pub net_name : Text
  pub zone_name : Text
  pub polygons : List (List Corner)

abbrev split : ℕ → Text → Text → List (List Corner) → Split
split n net name polygons = record {
  net_num = n;
  net_name = net;
  zone_name = name;
  polygons = polygons;
}

abbrev pub power_splits : List Split
power_splits =
    split 3 (codes "+1V0") (codes "PWR_1V0")
      (((30, 30) ∷ (130, 30) ∷ (130, 70) ∷ (30, 70) ∷ []) ∷ [])
    ∷ split 6 (codes "+1V35") (codes "PWR_1V35")
        (((100, 20) ∷ (145, 20) ∷ (145, 60) ∷ (100, 60) ∷ []) ∷ [])
    ∷ split 10 (codes "+1V5") (codes "PWR_1V5")
        (((55, 30) ∷ (75, 30) ∷ (75, 50) ∷ (55, 50) ∷ []) ∷ [])
    ∷ split 13 (codes "+1V8") (codes "PWR_1V8") (
        ((60, 0) ∷ (100, 0) ∷ (100, 35) ∷ (60, 35) ∷ [])
        ∷ ((40, 30) ∷ (60, 30) ∷ (60, 60) ∷ (40, 60) ∷ [])
        ∷ [])
    ∷ split 16 (codes "+3V3") (codes "PWR_3V3") (
        ((100, 60) ∷ (160, 60) ∷ (160, 100) ∷ (100, 100) ∷ [])
        ∷ ((135, 0) ∷ (160, 0) ∷ (160, 30) ∷ (135, 30) ∷ [])
        ∷ [])
    ∷ split 20 (codes "+5V") (codes "PWR_5V") (((0, 15) ∷ (25, 15) ∷ (25, 35) ∷ (0, 35) ∷ []) ∷ [])
    ∷ []

unfoldable pub power_zone : Split → List Fill
unfolding zone_sexpr
power_zone s = zone_sexpr s.net_num s.net_name (codes "In5.Cu") s.zone_name s.polygons 1 150

-- The zones of `generate_all_zones`, without the comments between them.
unfoldable pub generate_all_zones : List Fill
unfolding ground_zone power_zone
generate_all_zones =
    gather ground_zone plane_layers
    ++ (gather power_zone power_splits ++ gather ground_zone fill_layers)

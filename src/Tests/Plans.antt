-- ===== src/Tests/Plans.antt =====
-- The placement at concrete inputs.
use cirradio.Prelude.{◌≡◌, ◌≢◌, List, [], ◌∷◌, Text, codes, count, All, Pairs, IfOk, arith}
use cirradio.Placement.Footprint.{Size}
use cirradio.Placement.Zone.{new_zone}
use cirradio.Placement.Zone.Packing.{fill, Apart, fill-Apart}
use cirradio.Placement.Zone.Bounds.{HasRoom}
use cirradio.Placement.Component.{Component, first_number}
use cirradio.Placement.Plan.{Sheets, spot, build_placement_plan}
use cirradio.Placement.Plan.Steps.{AllOnBoard}
use cirradio.Placement.Plan.Sections.{IsNumbered}
use cirradio.Placement.Plan.OnBoard.{build_placement_plan-AllOnBoard}
use cirradio.Placement.Main.{references, output_order}
use cirradio.Placement.Main.Complete.{count-output_order}
use cirradio.Placement.Pads.{get_pad_info}
use cirradio.Placement.Pads.Sound.{IsConsistent, get_pad_info-IsConsistent}

abbrev soic : Text
soic = codes "Package_SO:SOIC-8"

abbrev three_parts : List Size
three_parts =
    record { w = 6000; h = 5000 }
    ∷ record { w = 20000; h = 3000 }
    ∷ record { w = 16000; h = 2000 }
    ∷ []

fill-Apart_example : Pairs Apart (fill (new_zone 2000 42000 40000 60000) three_parts)
fill-Apart_example = fill-Apart (new_zone 2000 42000 40000 60000) three_parts

three_parts-HasRoom : All (HasRoom (new_zone 2000 42000 40000 60000)) three_parts
unfolding new_zone
three_parts-HasRoom = (omega arith, (omega arith, (omega arith, tt)))

abbrev test_point_5 : Component
test_point_5 = record {
  reference = codes "TP5";
  value = codes "TestPoint";
  footprint = codes "TestPoint:TestPoint_Pad_D1.5mm";
  lib_id = codes "Connector:TestPoint";
}

abbrev resistor_1 : Component
resistor_1 = record {
  reference = codes "R1";
  value = codes "10k";
  footprint = codes "Resistor_SMD:R_0402_1005Metric";
  lib_id = codes "Device:R";
}

abbrev two_sheets : Sheets
two_sheets = record {
  zynq = [];
  ddr3l = [];
  ad9361 = resistor_1 ∷ [];
  rf = [];
  power = [];
  peripherals = [];
  connectors = test_point_5 ∷ [];
}

test_point_5-IsNumbered : IsNumbered test_point_5
unfolding first_number
test_point_5-IsNumbered = record {
  test_point = λ n p e. ground arith;
  led = λ n p e. ground arith;
  switch = λ n p e. ground arith;
}

build_placement_plan-AllOnBoard_example : IfOk AllOnBoard (build_placement_plan two_sheets)
build_placement_plan-AllOnBoard_example =
    build_placement_plan-AllOnBoard two_sheets (test_point_5-IsNumbered, tt)

count-output_order_example :
    count
      (codes "U9")
      (output_order ((codes "U9", spot 80000 16000 0) ∷ (codes "U1", spot 80000 50000 0) ∷ []))
    ≡ count
        (codes "U9")
        (references ((codes "U9", spot 80000 16000 0) ∷ (codes "U1", spot 80000 50000 0) ∷ []))
count-output_order_example =
    count-output_order ((codes "U9", spot 80000 16000 0) ∷ (codes "U1", spot 80000 50000 0) ∷ [])
      (codes "U9")

get_pad_info-IsConsistent_example :
    (get_pad_info soic (codes "U15") ≢ []) × All IsConsistent (get_pad_info soic (codes "U15"))
get_pad_info-IsConsistent_example = get_pad_info-IsConsistent soic (codes "U15")

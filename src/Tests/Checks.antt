-- ===== src/Tests/Checks.antt =====
-- The netlist and the design rule check at concrete inputs.
use cirradio.Prelude.{
  ◌≡◌, ◌↔◌, refl, true, false, some, List, [], ◌∷◌, Text, codes, contains, text_eq, All,
}
use cirradio.Placement.Component.{Component}
use cirradio.Drc.{check_parens, exit_status, all_refs}
use cirradio.Drc.Emitted.{Route, segment, via, route_lines, is_plain, all_refs-route_lines}
use cirradio.Drc.Parens.{Balanced, check_parens-iff-Balanced}
use cirradio.Drc.Verdict.{IsClean, exit_status-iff-IsClean}
use cirradio.Netlist.Classify.{add_nets}
use cirradio.Netlist.Classify.Classes.{Lists, emitted_classes, add_nets-Lists}
use cirradio.Netlist.Numbers.{net_map}
use cirradio.Netlist.Numbers.Injective.{IsNetMap, net_map-IsNetMap}
use cirradio.Netlist.Unique.{cap}
use cirradio.Netlist.Blocks.{opens_class, closes_block}
use cirradio.Netlist.Blocks.Removed.{IsOutside, IsInside}

check_parens-iff-Balanced_example :
    ((check_parens (codes "(net (1))")).0 ≡ true) ↔ Balanced (codes "(net (1))")
check_parens-iff-Balanced_example = check_parens-iff-Balanced (codes "(net (1))")

abbrev small_board : Text
small_board = codes "(pcb\n (net 1 \"GND\")\n (segment (net 1))\n (via (net 3)))"

exit_status-iff-IsClean_example :
    (exit_status small_board (some (160000, 100000)) ≡ 0)
    ↔ IsClean small_board (some (160000, 100000))
exit_status-iff-IsClean_example = exit_status-iff-IsClean small_board (some (160000, 100000))

abbrev two_routes : List Route
two_routes =
    segment (codes "1.000") (codes "2.000") (codes "3.000") (codes "2.000") (codes "0.28")
      (codes "F.Cu") (codes "77") (codes "5f")
    ∷ via (codes "1.000") (codes "2.000") (codes "0.55") (codes "0.3") (codes "F.Cu") (codes "B.Cu")
        (codes "78") (codes "60")
    ∷ []

all_refs-route_lines_example : all_refs (route_lines two_routes) ≡ []
unfolding is_plain
all_refs-route_lines_example = all_refs-route_lines two_routes (
  (refl, (refl, (refl, (refl, (refl, (refl, (refl, (refl, tt)))))))),
  ((refl, (refl, (refl, (refl, (refl, (refl, (refl, (refl, tt)))))))), tt),
)

abbrev four_nets : List Text
four_nets = codes "GND" ∷ codes "+5V" ∷ codes "DDR_A0" ∷ codes "MIO10" ∷ []

add_nets-Lists_example : Lists four_nets emitted_classes (add_nets four_nets)
add_nets-Lists_example = add_nets-Lists four_nets

net_map-IsNetMap_example : IsNetMap four_nets (net_map four_nets)
net_map-IsNetMap_example = net_map-IsNetMap four_nets

abbrev two_caps : List Component
two_caps =
    cap (codes "C200") (codes "100n") (codes "C_0402")
    ∷ cap (codes "C200") (codes "10u") (codes "C_0805")
    ∷ []

abbrev head_line : Text
head_line = codes "(kicad_pcb"

abbrev class_line : Text
class_line = codes "  (net_class \"Power\" \"\""

abbrev inner_line : Text
inner_line = codes "    (clearance 0.2)"

abbrev close_line : Text
close_line = codes "  )"

head-IsOutside : All IsOutside (head_line ∷ [])
unfolding opens_class contains
head-IsOutside = (refl, tt)

class-opens : opens_class class_line ≡ true
unfolding opens_class contains
class-opens = refl

inner-IsInside : All IsInside (inner_line ∷ [])
unfolding opens_class closes_block contains text_eq
inner-IsInside = ((refl, refl), tt)

close-opens : opens_class close_line ≡ false
unfolding opens_class contains
close-opens = refl

close-closes : closes_block close_line ≡ true
unfolding closes_block text_eq
close-closes = refl

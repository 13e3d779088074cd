-- ===== src/Placement/Pads/Chips.antt =====
-- hardware/cirradio-devboard/gen_pcb_placement.py: `get_pad_info`, the small parts.
use cirradio.Prelude.{none, some, List, [], ◌∷◌, minus, codes}
use cirradio.Placement.Pad.{
  Pad, pad, smd, thru_hole, rect, roundrect, circle, front_copper, all_copper,
}

unfoldable pub r_0402 : List Pad
r_0402 =
    (pad (codes "1") smd roundrect (minus 0 480) (minus 0 0) 560 620 none front_copper
      ∷ pad (codes "2") smd roundrect (minus 480 0) (minus 0 0) 560 620 none front_copper
      ∷ [])

unfoldable pub r_0603 : List Pad
r_0603 =
    (pad (codes "1") smd roundrect (minus 0 750) (minus 0 0) 800 950 none front_copper
      ∷ pad (codes "2") smd roundrect (minus 750 0) (minus 0 0) 800 950 none front_copper
      ∷ [])

unfoldable pub r_0805 : List Pad
r_0805 =
    (pad (codes "1") smd roundrect (minus 0 900) (minus 0 0) 1000 1450 none front_copper
      ∷ pad (codes "2") smd roundrect (minus 900 0) (minus 0 0) 1000 1450 none front_copper
      ∷ [])

unfoldable pub r_1206 : List Pad
r_1206 =
    (pad (codes "1") smd roundrect (minus 0 1400) (minus 0 0) 1300 1800 none front_copper
      ∷ pad (codes "2") smd roundrect (minus 1400 0) (minus 0 0) 1300 1800 none front_copper
      ∷ [])

unfoldable pub d_sma : List Pad
d_sma =
    (pad (codes "1") smd rect (minus 0 2000) (minus 0 0) 1500 1800 none front_copper
      ∷ pad (codes "2") smd rect (minus 2000 0) (minus 0 0) 1500 1800 none front_copper
      ∷ [])

unfoldable pub test_point : List Pad
test_point = (pad (codes "1") smd rect (minus 0 0) (minus 0 0) 1500 1500 none front_copper ∷ [])

unfoldable pub cp_radial : List Pad
cp_radial =
    (pad (codes "1") thru_hole rect (minus 0 0) (minus 0 0) 1800 1800 (some 800) all_copper
      ∷ pad (codes "2") thru_hole circle (minus 3500 0) (minus 0 0) 1800 1800 (some 800) all_copper
      ∷ [])

unfoldable pub sot_23_5 : List Pad
sot_23_5 =
    (pad (codes "1") smd rect (minus 0 1100) (minus 950 0) 1000 600 none front_copper
      ∷ pad (codes "2") smd rect (minus 0 1100) (minus 0 0) 1000 600 none front_copper
      ∷ pad (codes "3") smd rect (minus 0 1100) (minus 0 950) 1000 600 none front_copper
      ∷ pad (codes "4") smd rect (minus 1100 0) (minus 0 950) 1000 600 none front_copper
      ∷ pad (codes "5") smd rect (minus 1100 0) (minus 950 0) 1000 600 none front_copper
      ∷ [])

unfoldable pub sot_23 : List Pad
sot_23 =
    (pad (codes "1") smd rect (minus 0 1100) (minus 950 0) 1000 600 none front_copper
      ∷ pad (codes "2") smd rect (minus 0 1100) (minus 0 950) 1000 600 none front_copper
      ∷ pad (codes "3") smd rect (minus 1100 0) (minus 0 0) 1000 600 none front_copper
      ∷ [])

unfoldable pub vdfn_4 : List Pad
vdfn_4 =
    (pad (codes "1") smd rect (minus 0 550) (minus 0 325) 850 420 none front_copper
      ∷ pad (codes "2") smd rect (minus 550 0) (minus 0 325) 850 420 none front_copper
      ∷ pad (codes "3") smd rect (minus 550 0) (minus 325 0) 850 420 none front_copper
      ∷ pad (codes "4") smd rect (minus 0 550) (minus 325 0) 850 420 none front_copper
      ∷ [])

unfoldable pub crystal_3215 : List Pad
crystal_3215 =
    (pad (codes "1") smd rect (minus 0 1200) (minus 0 0) 1000 1300 none front_copper
      ∷ pad (codes "2") smd rect (minus 1200 0) (minus 0 0) 1000 1300 none front_copper
      ∷ [])

unfoldable pub u_fl : List Pad
u_fl =
    (pad (codes "1") smd rect (minus 0 0) (minus 0 0) 1000 1000 none front_copper
      ∷ pad (codes "2") smd rect (minus 0 1300) (minus 0 0) 900 2000 none front_copper
      ∷ pad (codes "2") smd rect (minus 1300 0) (minus 0 0) 900 2000 none front_copper
      ∷ [])

unfoldable pub sw_spst : List Pad
sw_spst =
    (pad (codes "1") smd rect (minus 0 1700) (minus 0 0) 800 1000 none front_copper
      ∷ pad (codes "2") smd rect (minus 1700 0) (minus 0 0) 800 1000 none front_copper
      ∷ [])

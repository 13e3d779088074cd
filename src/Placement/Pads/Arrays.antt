-- ===== src/Placement/Pads/Arrays.antt =====
-- hardware/cirradio-devboard/gen_pcb_placement.py: `get_pad_info`, the arrays of balls and pins.
use cirradio.Prelude.{
  ◌+◌, ◌-◌, ◌*◌, none, some, List, [], ◌∷◌, ◌++◌, minus, decimal, codes, gather, range,
  enumerate_from, ◌==◌, if◌then◌else◌,
}
use cirradio.Placement.Pad.{Pad, pad, smd, thru_hole, rect, circle, oval, front_copper, all_copper}

unfoldable pub bga_96 : List Pad
bga_96 =
    gather
      (λ row.
        gather
          (λ (ci, col).
            (pad (col ∷ decimal (row + 1)) smd circle (minus (ci * 800) 3200)
                (minus (row * 800) 5200) 400 400 none front_copper
              ∷ []))
          (enumerate_from 0 (codes "ABCDEFGHJ")))
      (range 14)

unfoldable pub bga_144 : List Pad
bga_144 =
    gather
      (λ row.
        gather
          (λ (ci, col).
            (pad (col ∷ decimal (row + 1)) smd circle (minus (ci * 800) 4400)
                (minus (row * 800) 4400) 400 400 none front_copper
              ∷ []))
          (enumerate_from 0 (codes "ABCDEFGHJKLM")))
      (range 12)

unfoldable pub bga_153 : List Pad
bga_153 =
    gather
      (λ row.
        gather
          (λ (ci, col).
            (pad (col ∷ decimal (row + 1)) smd circle (minus (ci * 800) 4000)
                (minus (row * 800) 5200) 450 450 none front_copper
              ∷ []))
          (enumerate_from 0 (codes "ABCDEFGHJKL")))
      (range 14)

unfoldable pub dip_14 : List Pad
dip_14 =
    gather
      (λ i.
        ((pad (decimal (i + 1)) thru_hole (if i == 0 then rect else oval) (minus 0 3810)
              (minus (i * 2540) 7620) 1600 1600 (some 800) all_copper
            ∷ [])
          ++ ((pad (decimal (14 - i)) thru_hole oval (minus 3810 0) (minus (i * 2540) 7620) 1600
                1600 (some 800) all_copper
              ∷ []))))
      (range 7)

unfoldable pub pin_header_2x07 : List Pad
pin_header_2x07 =
    gather
      (λ row.
        gather
          (λ col.
            (pad (decimal (row * 2 + col + 1)) thru_hole
                (if row * 2 + col + 1 == 1 then rect else oval) (minus (col * 1270) 0)
                (minus (row * 1270) 0) 850 850 (some 500) all_copper
              ∷ []))
          (range 2))
      (range 7)

unfoldable pub pin_header_2x20 : List Pad
pin_header_2x20 =
    gather
      (λ row.
        gather
          (λ col.
            (pad (decimal (row * 2 + col + 1)) thru_hole
                (if row * 2 + col + 1 == 1 then rect else oval) (minus (col * 2540) 0)
                (minus (row * 2540) 0) 1700 1700 (some 1000) all_copper
              ∷ []))
          (range 2))
      (range 20)

unfoldable pub sw_dip : List Pad
sw_dip =
    gather
      (λ i.
        ((pad (decimal (i + 1)) thru_hole (if i == 0 then rect else oval) (minus 0 0)
              (minus (i * 2540) 0) 1600 1600 (some 800) all_copper
            ∷ [])
          ++ ((pad (decimal (4 - i)) thru_hole oval (minus 7620 0) (minus (i * 2540) 0) 1600 1600
                (some 800) all_copper
              ∷ []))))
      (range 2)

unfoldable pub zynq_bga : List Pad
zynq_bga =
    gather
      (λ row.
        gather
          (λ col.
            (pad (decimal (row * 30 + col + 1)) smd circle (minus (col * 1000) 14500)
                (minus (row * 1000) 14500) 500 500 none front_copper
              ∷ []))
          (range 30))
      (range 30)

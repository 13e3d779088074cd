-- ===== src/Placement/Pads/Connectors.antt =====
-- hardware/cirradio-devboard/gen_pcb_placement.py: `get_pad_info`, the connectors, and the pads of other parts.
use cirradio.Prelude.{
  ◌+◌, ◌*◌, none, some, List, [], ◌∷◌, ◌++◌, minus, decimal, codes, gather, range,
}
use cirradio.Placement.Pad.{Pad, pad, smd, thru_hole, rect, circle, oval, front_copper, all_copper}

unfoldable pub barrel_jack : List Pad
barrel_jack =
    (pad (codes "1") thru_hole rect (minus 0 0) (minus 0 0) 3500 3500 (some 1200) all_copper
      ∷ pad (codes "2") thru_hole oval (minus 6000 0) (minus 0 0) 3500 3500 (some 1200) all_copper
      ∷ pad (codes "3") thru_hole oval (minus 3000 0) (minus 4700 0) 3500 3500 (some 1200)
          all_copper
      ∷ [])

unfoldable pub sma_amphenol : List Pad
sma_amphenol =
    (pad (codes "1") smd rect (minus 0 0) (minus 0 0) 1500 1500 none front_copper
      ∷ pad (codes "2") thru_hole circle (minus 0 2500) (minus 0 2500) 2000 2000 (some 1000)
          all_copper
      ∷ pad (codes "2") thru_hole circle (minus 2500 0) (minus 0 2500) 2000 2000 (some 1000)
          all_copper
      ∷ pad (codes "2") thru_hole circle (minus 0 2500) (minus 2500 0) 2000 2000 (some 1000)
          all_copper
      ∷ pad (codes "2") thru_hole circle (minus 2500 0) (minus 2500 0) 2000 2000 (some 1000)
          all_copper
      ∷ [])

unfoldable pub usb_a : List Pad
usb_a =
    (pad (codes "1") thru_hole rect (minus 0 0) (minus 0 0) 1500 1500 (some 800) all_copper
      ∷ pad (codes "2") thru_hole oval (minus 2500 0) (minus 0 0) 1500 1500 (some 800) all_copper
      ∷ pad (codes "3") thru_hole oval (minus 5000 0) (minus 0 0) 1500 1500 (some 800) all_copper
      ∷ pad (codes "4") thru_hole oval (minus 7500 0) (minus 0 0) 1500 1500 (some 800) all_copper
      ∷ pad (codes "S1") thru_hole oval (minus 0 1250) (minus 3500 0) 2500 2500 (some 1400)
          all_copper
      ∷ pad (codes "S2") thru_hole oval (minus 8750 0) (minus 3500 0) 2500 2500 (some 1400)
          all_copper
      ∷ [])

unfoldable pub usb_micro : List Pad
usb_micro =
    (gather
        (λ i.
          (pad (decimal (i + 1)) smd rect (minus (i * 650) 1300) (minus 0 0) 400 1350 none
              front_copper
            ∷ []))
        (range 5)
      ++ ((pad (codes "S1") smd rect (minus 0 3100) (minus 1800 0) 1600 1500 none front_copper ∷ [])
          ++ ((pad (codes "S2") smd rect (minus 3100 0) (minus 1800 0) 1600 1500 none front_copper
              ∷ []))))

unfoldable pub rj45 : List Pad
rj45 =
    (gather
        (λ i.
          (pad (decimal (i + 1)) thru_hole oval (minus (i * 1270) 4445) (minus 0 0) 1100 1100
              (some 650) all_copper
            ∷ []))
        (range 8)
      ++ ((pad (codes "S1") thru_hole oval (minus 0 6350) (minus 6350 0) 2300 2300 (some 1600)
              all_copper
            ∷ [])
          ++ ((pad (codes "S2") thru_hole oval (minus 6350 0) (minus 6350 0) 2300 2300 (some 1600)
                all_copper
              ∷ []))))

unfoldable pub micro_sd : List Pad
micro_sd =
    (gather
        (λ i.
          (pad (decimal (i + 1)) smd rect (minus (i * 1100) 3850) (minus 0 0) 700 1600 none
              front_copper
            ∷ []))
        (range 8)
      ++ ((pad (codes "S1") smd rect (minus 0 6850) (minus 5500 0) 1200 2500 none front_copper ∷ [])
          ++ ((pad (codes "S2") smd rect (minus 6850 0) (minus 5500 0) 1200 2500 none front_copper
              ∷ []))))

unfoldable pub saw_filter : List Pad
saw_filter =
    (pad (codes "1") smd rect (minus 0 2000) (minus 0 0) 1000 1500 none front_copper
      ∷ pad (codes "2") smd rect (minus 2000 0) (minus 0 0) 1000 1500 none front_copper
      ∷ pad (codes "3") smd rect (minus 0 0) (minus 0 1500) 3000 1000 none front_copper
      ∷ [])

unfoldable pub generic : List Pad
generic =
    (pad (codes "1") smd rect (minus 0 500) (minus 0 0) 600 600 none front_copper
      ∷ pad (codes "2") smd rect (minus 500 0) (minus 0 0) 600 600 none front_copper
      ∷ [])

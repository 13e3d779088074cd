-- ===== src/Placement/Pads/Packages.antt =====
-- hardware/cirradio-devboard/gen_pcb_placement.py: `get_pad_info`, the packages with pads on two or four sides.
use cirradio.Prelude.{
  ◌+◌, ◌-◌, ◌*◌, none, List, [], ◌∷◌, ◌++◌, minus, decimal, codes, gather, range,
}
use cirradio.Placement.Pad.{Pad, pad, smd, rect, front_copper}

unfoldable pub soic_8 : List Pad
soic_8 =
    (gather
        (λ i.
          (pad (decimal (i + 1)) smd rect (minus 0 2700) (minus (i * 1270) 1905) 1550 600 none
              front_copper
            ∷ []))
        (range 4)
      ++ (gather
          (λ i.
            (pad (decimal (8 - i)) smd rect (minus 2700 0) (minus (i * 1270) 1905) 1550 600 none
                front_copper
              ∷ []))
          (range 4)))

unfoldable pub wson_8_2x2 : List Pad
wson_8_2x2 =
    (gather
        (λ i.
          (pad (decimal (i + 1)) smd rect (minus 0 900) (minus (i * 500) 750) 650 300 none
              front_copper
            ∷ []))
        (range 4)
      ++ (gather
            (λ i.
              (pad (decimal (8 - i)) smd rect (minus 900 0) (minus (i * 500) 750) 650 300 none
                  front_copper
                ∷ []))
            (range 4)
          ++ ((pad (codes "9") smd rect (minus 0 0) (minus 0 0) 840 840 none front_copper ∷ []))))

unfoldable pub qfn_16 : List Pad
qfn_16 =
    (gather
        (λ i.
          (pad (decimal (i + 1)) smd rect (minus 0 1450) (minus (i * 500) 750) 800 300 none
              front_copper
            ∷ []))
        (range 4)
      ++ (gather
            (λ i.
              (pad (decimal (i + 5)) smd rect (minus (i * 500) 750) (minus 1450 0) 300 800 none
                  front_copper
                ∷ []))
            (range 4)
          ++ (gather
                (λ i.
                  (pad (decimal (i + 9)) smd rect (minus 1450 0) (minus 750 (i * 500)) 800 300 none
                      front_copper
                    ∷ []))
                (range 4)
              ++ (gather
                    (λ i.
                      (pad (decimal (i + 13)) smd rect (minus 750 (i * 500)) (minus 0 1450) 300 800
                          none front_copper
                        ∷ []))
                    (range 4)
                  ++ ((pad (codes "17") smd rect (minus 0 0) (minus 0 0) 1750 1750 none front_copper
                      ∷ []))))))

unfoldable pub qfn_24 : List Pad
qfn_24 =
    (gather
        (λ i.
          (pad (decimal (i + 1)) smd rect (minus 0 1950) (minus (i * 500) 1250) 800 300 none
              front_copper
            ∷ []))
        (range 6)
      ++ (gather
            (λ i.
              (pad (decimal (i + 7)) smd rect (minus (i * 500) 1250) (minus 1950 0) 300 800 none
                  front_copper
                ∷ []))
            (range 6)
          ++ (gather
                (λ i.
                  (pad (decimal (i + 13)) smd rect (minus 1950 0) (minus 1250 (i * 500)) 800 300
                      none front_copper
                    ∷ []))
                (range 6)
              ++ (gather
                    (λ i.
                      (pad (decimal (i + 19)) smd rect (minus 1250 (i * 500)) (minus 0 1950) 300 800
                          none front_copper
                        ∷ []))
                    (range 6)
                  ++ ((pad (codes "25") smd rect (minus 0 0) (minus 0 0) 2650 2650 none front_copper
                      ∷ []))))))

unfoldable pub qfn_32 : List Pad
qfn_32 =
    (gather
        (λ i.
          (pad (decimal (i + 1)) smd rect (minus 0 2450) (minus (i * 500) 1750) 800 300 none
              front_copper
            ∷ []))
        (range 8)
      ++ (gather
            (λ i.
              (pad (decimal (i + 9)) smd rect (minus (i * 500) 1750) (minus 2450 0) 300 800 none
                  front_copper
                ∷ []))
            (range 8)
          ++ (gather
                (λ i.
                  (pad (decimal (i + 17)) smd rect (minus 2450 0) (minus 1750 (i * 500)) 800 300
                      none front_copper
                    ∷ []))
                (range 8)
              ++ (gather
                    (λ i.
                      (pad (decimal (i + 25)) smd rect (minus 1750 (i * 500)) (minus 0 2450) 300 800
                          none front_copper
                        ∷ []))
                    (range 8)
                  ++ ((pad (codes "33") smd rect (minus 0 0) (minus 0 0) 3100 3100 none front_copper
                      ∷ []))))))

unfoldable pub qfn_48 : List Pad
qfn_48 =
    (gather
        (λ i.
          (pad (decimal (i + 1)) smd rect (minus 0 3450) (minus (i * 500) 2750) 800 300 none
              front_copper
            ∷ []))
        (range 12)
      ++ (gather
            (λ i.
              (pad (decimal (i + 13)) smd rect (minus (i * 500) 2750) (minus 3450 0) 300 800 none
                  front_copper
                ∷ []))
            (range 12)
          ++ (gather
                (λ i.
                  (pad (decimal (i + 25)) smd rect (minus 3450 0) (minus 2750 (i * 500)) 800 300
                      none front_copper
                    ∷ []))
                (range 12)
              ++ (gather
                    (λ i.
                      (pad (decimal (i + 37)) smd rect (minus 2750 (i * 500)) (minus 0 3450) 300 800
                          none front_copper
                        ∷ []))
                    (range 12)
                  ++ ((pad (codes "49") smd rect (minus 0 0) (minus 0 0) 5150 5150 none front_copper
                      ∷ []))))))

unfoldable pub wson_8_6x5 : List Pad
wson_8_6x5 =
    (gather
        (λ i.
          (pad (decimal (i + 1)) smd rect (minus 0 2750) (minus (i * 1270) 1905) 1200 600 none
              front_copper
            ∷ []))
        (range 4)
      ++ (gather
            (λ i.
              (pad (decimal (8 - i)) smd rect (minus 2750 0) (minus (i * 1270) 1905) 1200 600 none
                  front_copper
                ∷ []))
            (range 4)
          ++ ((pad (codes "9") smd rect (minus 0 0) (minus 0 0) 3400 4000 none front_copper ∷ []))))

unfoldable pub lcc_16 : List Pad
lcc_16 =
    (gather
        (λ i.
          (pad (decimal (i + 1)) smd rect (minus 0 5500) (minus (i * 1500) 2250) 1000 800 none
              front_copper
            ∷ []))
        (range 4)
      ++ (gather
            (λ i.
              (pad (decimal (i + 5)) smd rect (minus (i * 1500) 2250) (minus 7500 0) 800 1000 none
                  front_copper
                ∷ []))
            (range 4)
          ++ (gather
                (λ i.
                  (pad (decimal (i + 9)) smd rect (minus 5500 0) (minus 2250 (i * 1500)) 1000 800
                      none front_copper
                    ∷ []))
                (range 4)
              ++ (gather
                  (λ i.
                    (pad (decimal (i + 13)) smd rect (minus 2250 (i * 1500)) (minus 0 7500) 800 1000
                        none front_copper
                      ∷ []))
                  (range 4)))))

unfoldable pub tga2594 : List Pad
tga2594 =
    (gather
        (λ i.
          (pad (decimal (i + 1)) smd rect (minus 0 2250) (minus (i * 500) 750) 800 300 none
              front_copper
            ∷ []))
        (range 4)
      ++ (gather
            (λ i.
              (pad (decimal (i + 5)) smd rect (minus (i * 500) 750) (minus 2250 0) 300 800 none
                  front_copper
                ∷ []))
            (range 4)
          ++ (gather
                (λ i.
                  (pad (decimal (i + 9)) smd rect (minus 2250 0) (minus 750 (i * 500)) 800 300 none
                      front_copper
                    ∷ []))
                (range 4)
              ++ (gather
                    (λ i.
                      (pad (decimal (i + 13)) smd rect (minus 750 (i * 500)) (minus 0 2250) 300 800
                          none front_copper
                        ∷ []))
                    (range 4)
                  ++ ((pad (codes "17") smd rect (minus 0 0) (minus 0 0) 2500 2500 none front_copper
                      ∷ []))))))

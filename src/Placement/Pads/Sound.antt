-- ===== src/Placement/Pads/Sound.antt =====
-- Every pad that `get_pad_info` returns is consistent.
use cirradio.Prelude.{
  ℕ, ◌<◌, ◌≡◌, ◌≢◌, refl, Bool, true, false, ◌&&◌, Option, none, some, List, [], ◌∷◌, ltb,
  if◌then◌else◌, Text, codes, text_eq, starts_with, All, arith,
}
use cirradio.Placement.Pad.{Mount, smd, thru_hole, PadLayers, front_copper, all_copper, Pad}
use cirradio.Placement.Pads.Chips.{
  r_0402, r_0603, r_0805, r_1206, d_sma, test_point, cp_radial, sot_23_5, sot_23, vdfn_4,
  crystal_3215, u_fl, sw_spst,
}
use cirradio.Placement.Pads.Packages.{
  soic_8, wson_8_2x2, qfn_16, qfn_24, qfn_32, qfn_48, wson_8_6x5, lcc_16, tga2594,
}
use cirradio.Placement.Pads.Arrays.{
  bga_96, bga_144, bga_153, dip_14, pin_header_2x07, pin_header_2x20, sw_dip, zynq_bga,
}
use cirradio.Placement.Pads.Connectors.{
  barrel_jack, sma_amphenol, usb_a, usb_micro, rj45, micro_sd, saw_filter, generic,
}
use cirradio.Placement.Pads.{pad_rules, first_pads, pads_of_reference, get_pad_info}

-- A surface pad has no hole and lies on the front; a through-hole pad has a hole smaller than its
-- copper, and goes through all layers.
is_consistent : Mount → Option ℕ → PadLayers → ℕ → ℕ → Bool
is_consistent smd none front_copper sx sy = ltb 0 sx && ltb 0 sy
is_consistent thru_hole (some drill) all_copper sx sy =
    ltb 0 drill && (ltb drill sx && ltb drill sy)
is_consistent _ _ _ sx sy = false

all_consistent : List Pad → Bool
all_consistent [] = true
all_consistent (p ∷ pads) =
    is_consistent p.pad_type p.drill p.layers p.sx p.sy && all_consistent pads

-- What the check means.
pub data IsConsistent : Pad → Type 0 where
  surface :
      {p : Pad}
      → p.pad_type ≡ smd
      → p.drill ≡ none
      → p.layers ≡ front_copper
      → 0 < p.sx
      → 0 < p.sy
      → IsConsistent p
  through :
      {p : Pad} {drill : ℕ}
      → p.pad_type ≡ thru_hole
      → p.drill ≡ some drill
      → p.layers ≡ all_copper
      → 0 < drill
      → drill < p.sx
      → drill < p.sy
      → IsConsistent p

IsConsistent-if :
    (p : Pad) (m : Mount) (d : Option ℕ) (l : PadLayers)
    → p.pad_type ≡ m
    → p.drill ≡ d
    → p.layers ≡ l
    → is_consistent m d l p.sx p.sy ≡ true
    → IsConsistent p
unfolding is_consistent
IsConsistent-if p smd none front_copper e f g h = surface e f g (ground arith) (ground arith)
IsConsistent-if p thru_hole (some drill) all_copper e f g h =
    through e f g (ground arith) (ground arith) (ground arith)
IsConsistent-if p smd none all_copper e f g h = ground arith
IsConsistent-if p smd (some drill) l e f g h = ground arith
IsConsistent-if p thru_hole none l e f g h = ground arith
IsConsistent-if p thru_hole (some drill) front_copper e f g h = ground arith

all_consistent-All : (pads : List Pad) → all_consistent pads ≡ true → All IsConsistent pads
unfolding all_consistent
all_consistent-All [] h = tt
all_consistent-All (p ∷ pads) h = (
  IsConsistent-if p p.pad_type p.drill p.layers refl refl refl (ground arith),
  all_consistent-All pads (ground arith),
)

ne_nil : {p : Pad} {pads : List Pad} → p ∷ pads ≢ []
ne_nil = ground arith

-- A list of pads that is not empty, and consistent.
abbrev Sound : List Pad → Type 0
Sound pads = (pads ≢ []) × (all_consistent pads ≡ true)

if-Sound : (b : Bool) (x y : List Pad) → Sound x → Sound y → Sound (if b then x else y)
if-Sound true x y h k = h
if-Sound false x y h k = k

first_pads-Sound :
    (rules : List (Bool × List Pad)) (other : List Pad)
    → All (λ r. Sound r.1) rules
    → Sound other
    → Sound (first_pads rules other)
unfolding first_pads
first_pads-Sound [] other a o = o
first_pads-Sound ((true, pads) ∷ rules) other a o = a.0
first_pads-Sound ((false, pads) ∷ rules) other a o = first_pads-Sound rules other a.1 o

pad_rules-Sound : (fp : Text) → All (λ r. Sound r.1) (pad_rules fp)
unfolding all_consistent is_consistent r_0402 r_0603 r_0805 r_1206 d_sma test_point cp_radial
    sot_23_5 sot_23 vdfn_4 crystal_3215 u_fl sw_spst soic_8 wson_8_2x2 qfn_16 qfn_24 qfn_32 qfn_48
    wson_8_6x5 lcc_16 tga2594 bga_96 bga_144 bga_153 dip_14 pin_header_2x07 pin_header_2x20 sw_dip
    barrel_jack sma_amphenol usb_a usb_micro rj45 micro_sd
pad_rules-Sound fp = (
  (ne_nil, refl),
  (
    (ne_nil, refl),
    (
      (ne_nil, refl),
      (
        (ne_nil, refl),
        (
          (ne_nil, refl),
          (
            (ne_nil, refl),
            (
              (ne_nil, refl),
              (
                (ne_nil, refl),
                (
                  (ne_nil, refl),
                  (
                    (ne_nil, refl),
                    (
                      (ne_nil, refl),
                      (
                        (ne_nil, refl),
                        (
                          (ne_nil, refl),
                          (
                            (ne_nil, refl),
                            (
                              (ne_nil, refl),
                              (
                                (ne_nil, refl),
                                (
                                  (ne_nil, refl),
                                  (
                                    (ne_nil, refl),
                                    (
                                      (ne_nil, refl),
                                      (
                                        (ne_nil, refl),
                                        (
                                          (ne_nil, refl),
                                          (
                                            (ne_nil, refl),
                                            (
                                              (ne_nil, refl),
                                              (
                                                (ne_nil, refl),
                                                (
                                                  (ne_nil, refl),
                                                  (
                                                    (ne_nil, refl),
                                                    (
                                                      (ne_nil, refl),
                                                      (
                                                        (ne_nil, refl),
                                                        (
                                                          (ne_nil, refl),
                                                          (
                                                            (ne_nil, refl),
                                                            (
                                                            (ne_nil, refl),
                                                            (
                                                            (ne_nil, refl),
                                                            (
                                                            (ne_nil, refl),
                                                            ((ne_nil, refl), ((ne_nil, refl), tt)),
                                                            ),
                                                            ),
                                                            ),
                                                          ),
                                                        ),
                                                      ),
                                                    ),
                                                  ),
                                                ),
                                              ),
                                            ),
                                          ),
                                        ),
                                      ),
                                    ),
                                  ),
                                ),
                              ),
                            ),
                          ),
                        ),
                      ),
                    ),
                  ),
                ),
              ),
            ),
          ),
        ),
      ),
    ),
  ),
)

pads_of_reference-Sound : (ref : Text) → Sound (pads_of_reference ref)
unfolding all_consistent is_consistent pads_of_reference zynq_bga saw_filter generic
pads_of_reference-Sound ref =
    if-Sound (text_eq ref (codes "U1")) zynq_bga
      (if starts_with (codes "FL") ref then saw_filter else generic) (ne_nil, refl)
      (if-Sound (starts_with (codes "FL") ref) saw_filter generic (ne_nil, refl) (ne_nil, refl))

-- Whatever the names of the footprint and of the part, there is a pad; every surface pad has no
-- hole and lies on the front layer, and every through-hole pad has a hole that is smaller than its
-- copper in both directions, and goes through all layers.
pub get_pad_info-IsConsistent :
    (fp ref : Text) → (get_pad_info fp ref ≢ []) × All IsConsistent (get_pad_info fp ref)
unfolding get_pad_info
get_pad_info-IsConsistent fp ref =
    let sound =
      first_pads-Sound (pad_rules fp) (pads_of_reference ref) (pad_rules-Sound fp)
        (pads_of_reference-Sound ref) in
    (sound.0, all_consistent-All (get_pad_info fp ref) sound.1)

-- ===== src/Placement/Footprint.antt =====
-- hardware/cirradio-devboard/gen_pcb_placement.py: `estimate_footprint_size`, in micrometres.
use cirradio.Prelude.{
  ℕ, ◌≤◌, List, [], ◌∷◌, Bool, false, ◌||◌, if◌then◌else◌, Text, codes, contains, All, arith,
}

-- Width and height.
pub record Size : Type 0 where
  pub w : ℕ
  pub h : ℕ

-- One `if "..." in fp or ...: return (w, h)`.
record Rule : Type 0 where
  keys : List Text
  size : Size

abbrev rule : List Text → ℕ → ℕ → Rule
rule keys w h = record { keys = keys; size = record { w = w; h = h } }

-- any(p in fp for p in keys)
unfoldable pub any_in : List Text → Text → Bool
unfolding contains
any_in [] fp = false
any_in (k ∷ keys) fp = contains k fp || any_in keys fp

-- The `if` statements of the function, in their order.
abbrev size_rules : List Rule
size_rules =
    rule (codes "0402" ∷ []) 1000 500
    ∷ rule (codes "0603" ∷ []) 1600 800
    ∷ rule (codes "0805" ∷ []) 2000 1250
    ∷ rule (codes "1206" ∷ codes "1210" ∷ []) 3200 1600
    ∷ rule (codes "BGA-900" ∷ codes "FFG900" ∷ []) 31000 31000
    ∷ rule (codes "BGA-144" ∷ []) 10000 10000
    ∷ rule (codes "BGA-96" ∷ []) 8000 13000
    ∷ rule (codes "BGA-153" ∷ []) 12000 16000
    ∷ rule (codes "QFN-48" ∷ []) 7000 7000
    ∷ rule (codes "QFN-32" ∷ []) 5000 5000
    ∷ rule (codes "QFN-24" ∷ codes "QFN-16" ∷ []) 3000 3000
    ∷ rule (codes "SOIC-8" ∷ []) 5000 4000
    ∷ rule (codes "SOT-23-5" ∷ []) 3000 3000
    ∷ rule (codes "SOT-23" ∷ []) 3000 2500
    ∷ rule (codes "WSON-8_2x2" ∷ []) 2000 2000
    ∷ rule (codes "WSON-8-1EP_6x5" ∷ []) 6000 5000
    ∷ rule (codes "DIP-14" ∷ []) 8000 20000
    ∷ rule (codes "PinHeader_2x20_P2.54" ∷ []) 5100 50800
    ∷ rule (codes "PinHeader_2x07_P1.27" ∷ []) 2500 8900
    ∷ rule (codes "SMA_Amphenol" ∷ []) 5000 5000
    ∷ rule (codes "BarrelJack" ∷ []) 9000 11000
    ∷ rule (codes "USB_A" ∷ []) 12000 14000
    ∷ rule (codes "USB_Micro" ∷ []) 8000 6000
    ∷ rule (codes "RJ45" ∷ []) 16000 14000
    ∷ rule (codes "microSD" ∷ []) 14000 15000
    ∷ rule (codes "U.FL" ∷ []) 3000 3000
    ∷ rule (codes "LCC-16" ∷ []) 12000 16000
    ∷ rule (codes "TGA2594" ∷ []) 5000 5000
    ∷ rule (codes "TestPoint" ∷ []) 1500 1500
    ∷ rule (codes "CP_Radial" ∷ []) 8000 8000
    ∷ rule (codes "Crystal" ∷ codes "VDFN" ∷ []) 3200 1500
    ∷ rule (codes "SW_DIP" ∷ []) 10000 5000
    ∷ rule (codes "SW_Push" ∷ codes "SW_SPST" ∷ []) 4000 3000
    ∷ rule (codes "D_SMA" ∷ codes "LED_0603" ∷ []) 1600 800
    ∷ rule (codes "FerriteBead" ∷ []) 1000 500
    ∷ []

-- The first rule that applies, and the size that the function ends with.
first_size : List Rule → Text → Size
unfolding any_in
first_size [] fp = record { w = 2000; h = 1000 }
first_size (r ∷ rules) fp = if any_in r.keys fp then r.size else first_size rules fp

unfoldable pub estimate_footprint_size : Text → Size
unfolding first_size
estimate_footprint_size fp = first_size size_rules fp

-- What every size of the table satisfies.
pub record IsPart (s : Size) : Type 0 where
  pub wide : 1000 ≤ s.w
  pub high : 500 ≤ s.h
  pub width_bound : s.w ≤ 31000
  pub height_bound : s.h ≤ 50800

first_size-IsPart :
    (rules : List Rule) (fp : Text) → All (λ r. IsPart r.size) rules → IsPart (first_size rules fp)
unfolding first_size
first_size-IsPart [] fp a = omega arith
first_size-IsPart (r ∷ rules) fp a = ground (arith, first_size-IsPart rules fp a.1, a.0)

-- Whatever the footprint's name, its estimated width lies between 1 mm and 31 mm, and its
-- estimated height between 0.5 mm and 50.8 mm.
pub estimate_footprint_size-IsPart : (fp : Text) → IsPart (estimate_footprint_size fp)
unfolding estimate_footprint_size
estimate_footprint_size-IsPart fp = first_size-IsPart size_rules fp (omega arith)

-- ===== src/Placement/Pads.antt =====
-- hardware/cirradio-devboard/gen_pcb_placement.py: `get_pad_info`. A branch of its chain of tests
-- is a rule, and the pads of each branch are a list of the module below.
pub mod Chips
pub mod Packages
pub mod Arrays
pub mod Connectors
pub mod Sound
use cirradio.Prelude.{
  Bool, ◌&&◌, ◌||◌, List, [], ◌∷◌, if◌then◌else◌, Text, codes, text_eq, starts_with, contains,
}
use cirradio.Placement.Footprint.{any_in}
use cirradio.Placement.Pad.{Pad}
use cirradio.Placement.Pads.Chips.{
  r_0402, r_0603, r_0805, r_1206, d_sma, test_point, cp_radial, sot_23_5, sot_23, vdfn_4,
  crystal_3215, u_fl, sw_spst,
}
use cirradio.Placement.Pads.Packages.{
  soic_8, wson_8_2x2, qfn_16, qfn_24, qfn_32, qfn_48, wson_8_6x5, lcc_16, tga2594,
}
use cirradio.Placement.Pads.Arrays.{
  bga_96, bga_144, bga_153, dip_14, pin_header_2x07, pin_header_2x20, sw_dip, zynq_bga,
}
use cirradio.Placement.Pads.Connectors.{
  barrel_jack, sma_amphenol, usb_a, usb_micro, rj45, micro_sd, saw_filter, generic,
}

-- The tests on the footprint name, each with its pads, in their order.
abbrev pub pad_rules : Text → List (Bool × List Pad)
pad_rules fp =
    (
      any_in (codes "R_0402" ∷ codes "C_0402" ∷ codes "L_0402" ∷ codes "FerriteBead_0402" ∷ []) fp,
      r_0402,
    )
    ∷ (any_in (codes "R_0603" ∷ codes "C_0603" ∷ codes "LED_0603" ∷ []) fp, r_0603)
    ∷ (any_in (codes "R_0805" ∷ codes "C_0805" ∷ codes "L_0805" ∷ []) fp, r_0805)
    ∷ (any_in (codes "C_1206" ∷ codes "L_1210" ∷ []) fp, r_1206)
    ∷ (contains (codes "D_SMA") fp, d_sma)
    ∷ (contains (codes "TestPoint") fp, test_point)
    ∷ (contains (codes "BarrelJack") fp, barrel_jack)
    ∷ (contains (codes "SMA_Amphenol") fp, sma_amphenol)
    ∷ (contains (codes "CP_Radial") fp, cp_radial)
    ∷ (contains (codes "SOIC-8") fp, soic_8)
    ∷ (contains (codes "WSON-8_2x2") fp, wson_8_2x2)
    ∷ (contains (codes "SOT-23-5") fp, sot_23_5)
    ∷ (contains (codes "SOT-23") fp, sot_23)
    ∷ (contains (codes "QFN-16") fp && contains (codes "3x3") fp, qfn_16)
    ∷ (contains (codes "QFN-24") fp && contains (codes "4x4") fp, qfn_24)
    ∷ (contains (codes "QFN-32") fp && contains (codes "5x5") fp, qfn_32)
    ∷ (contains (codes "QFN-48") fp && contains (codes "7x7") fp, qfn_48)
    ∷ (contains (codes "WSON-8-1EP_6x5") fp, wson_8_6x5)
    ∷ (contains (codes "BGA-96") fp, bga_96)
    ∷ (contains (codes "BGA-144") fp, bga_144)
    ∷ (contains (codes "BGA-153") fp, bga_153)
    ∷ (contains (codes "VDFN-4") fp, vdfn_4)
    ∷ (contains (codes "Crystal_SMD_3215") fp, crystal_3215)
    ∷ (contains (codes "DIP-14") fp, dip_14)
    ∷ (contains (codes "PinHeader_2x07_P1.27") fp, pin_header_2x07)
    ∷ (contains (codes "PinHeader_2x20_P2.54") fp, pin_header_2x20)
    ∷ (contains (codes "USB_A") fp, usb_a)
    ∷ (contains (codes "USB_Micro") fp, usb_micro)
    ∷ (contains (codes "RJ45") fp, rj45)
    ∷ (contains (codes "U.FL") fp, u_fl)
    ∷ (contains (codes "microSD") fp, micro_sd)
    ∷ (contains (codes "LCC-16") fp, lcc_16)
    ∷ (contains (codes "TGA2594") fp, tga2594)
    ∷ (contains (codes "SW_SPST") fp || contains (codes "SW_Push") fp, sw_spst)
    ∷ (contains (codes "SW_DIP") fp, sw_dip)
    ∷ []

unfoldable pub first_pads : List (Bool × List Pad) → List Pad → List Pad
first_pads [] other = other
first_pads ((applies, pads) ∷ rules) other = if applies then pads else first_pads rules other

-- The last `else`: by the reference.
unfoldable pub pads_of_reference : Text → List Pad
pads_of_reference ref =
    if text_eq ref (codes "U1")
    then zynq_bga
    else if starts_with (codes "FL") ref
    then saw_filter
    else generic

unfoldable pub get_pad_info : Text → Text → List Pad
unfolding first_pads pads_of_reference any_in
get_pad_info fp ref = first_pads (pad_rules fp) (pads_of_reference ref)

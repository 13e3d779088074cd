-- ===== src/Schematic/Parts.antt =====
-- Which instances become components, and which nets are kept.
use cirradio.Prelude.{
  ◌≡◌, false, List, [], ◌∷◌, Text, codes, text_eq, starts_with, All, All-append, gather, arith,
}
use cirradio.Placement.Component.{Component}
use cirradio.Schematic.{Searches, components_of, power_net, body, parse_components, parse_schematic}

-- A component that is no power symbol and no other virtual symbol.
pub record IsReal (c : Component) : Type 0 where
  pub no_power : starts_with (codes "power:") c.lib_id ≡ false
  pub no_hash : starts_with (codes "#") c.reference ≡ false

-- A name of a net: not empty, and not that of a flag.
abbrev pub IsNet : Text → Type 0
IsNet n = (text_eq n [] ≡ false) × (text_eq n (codes "PWR_FLAG") ≡ false)

module _ (search : Searches) where
  components_of-IsReal : (ms : List (Text × Text)) → All IsReal (components_of search ms)
  unfolding components_of
  components_of-IsReal [] = tt
  components_of-IsReal (m ∷ ms) = ground (arith, components_of-IsReal ms)

  -- Whatever the searches find, no component of the result is a power symbol, and none has a
  -- reference that starts with `#`.
  pub parse_components-IsReal : (content : Text) → All IsReal (parse_components search content)
  unfolding parse_components
  parse_components-IsReal content = components_of-IsReal (search.instances (body content))

  power_net-IsNet : (m : Text × Text) → All IsNet (power_net search m)
  unfolding power_net
  power_net-IsNet m = ground arith

  power_nets-IsNet : (ms : List (Text × Text)) → All IsNet (gather (power_net search) ms)
  power_nets-IsNet [] = tt
  power_nets-IsNet (m ∷ ms) =
      All-append IsNet (power_net search m) (gather (power_net search) ms) (power_net-IsNet m)
        (power_nets-IsNet ms)

  -- Where no label is empty or called PWR_FLAG, no net is: the flags among the power symbols are no
  -- nets.
  pub parse_schematic-IsNet :
      (content : Text)
      → All IsNet (search.global_labels (body content))
      → All IsNet (search.hierarchical_labels (body content))
      → All IsNet (search.labels (body content))
      → All IsNet (parse_schematic search content).1
  unfolding parse_schematic
  parse_schematic-IsNet content g h l =
      All-append IsNet _ _ (power_nets-IsNet (search.instances (body content)))
        (All-append IsNet _ _ g (All-append IsNet _ _ h l))

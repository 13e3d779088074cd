-- ===== src/Netlist/Classify.antt =====
-- hardware/cirradio-devboard/gen_pcb_netlist.py: `classify_net`, and the lists of nets that
-- `generate_pcb` makes for the net classes.
pub mod Strobes
pub mod Classes
use cirradio.Prelude.{
  ℕ, Bool, true, false, not, ◌&&◌, ◌||◌, Option, none, some, List, [], ◌∷◌, ◌++◌, ◌==◌,
  if◌then◌else◌, is_digit, Text, codes, one_of, starts_with, sorted,
}

pub data NetClass : Type 0 where
  power_wide power ddr3_diff_pair ddr3 lvds rf_50ohm default : NetClass

abbrev power_wide_nets : List Text
power_wide_nets = codes "+12V" ∷ codes "+12V_IN" ∷ []

abbrev power_nets : List Text
power_nets =
    codes "+5V"
    ∷ codes "+3V3"
    ∷ codes "+3V3A"
    ∷ codes "+1V8"
    ∷ codes "+1V5"
    ∷ codes "+1V35"
    ∷ codes "+1V0"
    ∷ codes "VTT"
    ∷ codes "VTTREF"
    ∷ codes "+5V_PA"
    ∷ codes "+1V3_AD"
    ∷ []

-- The text behind the prefix, if there.
unfoldable pub behind : Text → Text → Option Text
behind [] t = some t
behind (x ∷ p) [] = none
behind (x ∷ p) (y ∷ t) = elim (x == y) [ true ↦ behind p t | false ↦ none ]

-- \d*
unfoldable pub skip_digits : Text → Text
skip_digits [] = []
skip_digits (c ∷ t) = if is_digit c then skip_digits t else c ∷ t

-- [_]?
unfoldable pub skip_underscore : Text → Text
skip_underscore [] = []
skip_underscore (c ∷ t) = if c == b'_' then t else c ∷ t

-- [PN]?
unfoldable pub skip_side : Text → Text
skip_side [] = []
skip_side (c ∷ t) = if c == b'P' || c == b'N' then t else c ∷ t

-- `$`: the end, or a newline at the end
unfoldable pub at_end : Text → Bool
at_end [] = true
at_end (c ∷ []) = c == b'\n'
at_end (c ∷ d ∷ t) = false

-- `\d*[_]?[PN]?$` behind the prefix. No character fits two of the parts, so that there is nothing
-- to try again.
unfoldable pub is_pair_tail : Option Text → Bool
unfolding skip_digits skip_underscore skip_side at_end
is_pair_tail none = false
is_pair_tail (some t) = at_end (skip_side (skip_underscore (skip_digits t)))

-- re.match(r"DDR_(CK|DQS)\d*[_]?[PN]?$", name)
unfoldable pub is_ddr_pair : Text → Bool
unfolding behind is_pair_tail
is_ddr_pair name =
    is_pair_tail (behind (codes "DDR_CK") name) || is_pair_tail (behind (codes "DDR_DQS") name)

-- any(name.startswith(p) for p in prefixes)
unfoldable pub starts_with_any : List Text → Text → Bool
unfolding starts_with
starts_with_any [] name = false
starts_with_any (p ∷ prefixes) name = starts_with p name || starts_with_any prefixes name

-- re.match(r"DDR_(DQ|A|BA|...|RESET)", name)
abbrev ddr_prefixes : List Text
ddr_prefixes =
    codes "DDR_DQ"
    ∷ codes "DDR_A"
    ∷ codes "DDR_BA"
    ∷ codes "DDR_CK"
    ∷ codes "DDR_DM"
    ∷ codes "DDR_DQS"
    ∷ codes "DDR_RAS"
    ∷ codes "DDR_CAS"
    ∷ codes "DDR_WE"
    ∷ codes "DDR_CS"
    ∷ codes "DDR_CKE"
    ∷ codes "DDR_ODT"
    ∷ codes "DDR_RESET"
    ∷ []

abbrev lvds_prefixes : List Text
lvds_prefixes =
    codes "P0_D"
    ∷ codes "P1_D"
    ∷ codes "DATA_CLK_P"
    ∷ codes "DATA_CLK_N"
    ∷ codes "FB_CLK_P"
    ∷ codes "FB_CLK_N"
    ∷ codes "RX_FRAME_P"
    ∷ codes "RX_FRAME_N"
    ∷ codes "TX_FRAME_P"
    ∷ codes "TX_FRAME_N"
    ∷ []

abbrev rf_nets : List Text
rf_nets =
    codes "AD_RX1A_P"
    ∷ codes "AD_RX1A_N"
    ∷ codes "AD_TX1A"
    ∷ codes "AD_RX1B_P"
    ∷ codes "AD_RX1B_N"
    ∷ codes "AD_TX1B"
    ∷ codes "AD_RX2A_P"
    ∷ codes "AD_RX2A_N"
    ∷ codes "AD_TX2A"
    ∷ []

unfoldable pub classify_net : Text → NetClass
unfolding is_ddr_pair starts_with_any one_of
classify_net name =
    if one_of power_wide_nets name
    then power_wide
    else if one_of power_nets name
    then power
    else if is_ddr_pair name
    then ddr3_diff_pair
    else if starts_with_any ddr_prefixes name
    then ddr3
    else if starts_with_any lvds_prefixes name
    then lvds
    else if one_of rf_nets name
    then rf_50ohm
    else default

abbrev pub class_eq : NetClass → NetClass → Bool
class_eq power_wide power_wide = true
class_eq power power = true
class_eq ddr3_diff_pair ddr3_diff_pair = true
class_eq ddr3 ddr3 = true
class_eq lvds lvds = true
class_eq rf_50ohm rf_50ohm = true
class_eq default default = true
class_eq _ _ = false

-- net_classes.get(cls, []), in the order of `net_names`
unfoldable pub nets_of_class : NetClass → List Text → List Text
nets_of_class cls [] = []
nets_of_class cls (name ∷ names) =
    let rest = nets_of_class cls names in
    if class_eq cls (classify_net name) then name ∷ rest else rest

-- [n for n in xs if n not in set(ys)]
unfoldable pub without : List Text → List Text → List Text
unfolding one_of
without ys [] = []
without ys (n ∷ xs) = let rest = without ys xs in if one_of ys n then rest else n ∷ rest

-- The `add_net` lines of the net classes, in the order in which they are emitted. The class
-- "Default" has none.
unfoldable pub add_nets : List Text → List (List Text)
unfolding nets_of_class without
add_nets names =
    let ddr3dp_list = nets_of_class ddr3_diff_pair names in
    let ddr3_list = without ddr3dp_list (nets_of_class ddr3 names) in
    []
    ∷ sorted (nets_of_class power names)
    ∷ sorted (nets_of_class power_wide names)
    ∷ sorted (nets_of_class rf_50ohm names)
    ∷ sorted (nets_of_class lvds names)
    ∷ sorted ddr3_list
    ∷ sorted ddr3dp_list
    ∷ []

-- ===== src/Schematic.antt =====
-- hardware/cirradio-devboard/gen_pcb_placement.py and gen_pcb_netlist.py: `parse_schematic`, which
-- finds components, and in the second script nets too. What the regular expressions find in a text
-- is a parameter.
pub mod Extent
pub mod Parts
use cirradio.Prelude.{
  ℕ, zero, suc, Bool, true, false, ◌||◌, Option, none, some, List, [], ◌∷◌, ◌++◌, ◌==◌,
  if◌then◌else◌, Text, codes, text_eq, starts_with, or_else, gather,
}
use cirradio.Placement.Component.{Component}

abbrev pub push : ℕ → Option (Text × Text) → Option (Text × Text)
push c none = none
push c (some (block, rest)) = some (c ∷ block, rest)

-- The loop that looks for the closing parenthesis, `depth` more than one deep: the text up to it,
-- and the text behind it; none if there is no such parenthesis.
unfoldable pub inside : ℕ → Text → Option (Text × Text)
inside depth [] = none
inside depth (c ∷ t) =
    let opened = push c (inside (suc depth) t) in
    let closed : Option (Text × Text) = elim depth [
      | zero ↦ some (c ∷ [], t)
      | suc d ↦ push c (inside d t)
    ] in
    let same = push c (inside depth t) in
    if c == b'(' then opened else if c == b')' then closed else same

-- content.find(mark), as the text from there on
unfoldable pub from_mark : Text → Text → Option Text
from_mark mark [] = if starts_with mark [] then some [] else none
from_mark mark (c ∷ t) =
    let later = from_mark mark t in if starts_with mark (c ∷ t) then some (c ∷ t) else later

abbrev pub lib_mark : Text
lib_mark = codes "(lib_symbols"

abbrev pub behind_block : Text → Option (Text × Text) → Text
behind_block content none = content
behind_block content (some (block, rest)) = rest

abbrev pub behind_lib : Text → Option Text → Text
behind_lib content none = content
behind_lib content (some []) = content
behind_lib content (some (c ∷ t)) = behind_block content (inside 0 t)

-- The content behind `lib_symbols`, or all of it.
unfoldable pub body : Text → Text
unfolding inside from_mark
body content = behind_lib content (from_mark lib_mark content)

-- body[start:i+1], from the text that starts at an instance
unfoldable pub sym_block : Text → Text
unfolding inside
sym_block [] = []
sym_block (c ∷ t) = elim (inside 0 t) [ none ↦ c ∷ t | some (block, rest) ↦ c ∷ block ]

-- What the regular expressions find: the instances in a body, each with its lib_id and the body from
-- its start on; the properties of a block; the labels of a body.
pub record Searches : Type 0 where
  pub instances : Text → List (Text × Text)
  pub find_reference : Text → Option Text
  pub find_value : Text → Option Text
  pub find_footprint : Text → Option Text
  pub global_labels : Text → List Text
  pub hierarchical_labels : Text → List Text
  pub labels : Text → List Text

module _ (search : Searches) where
  unfoldable pub instance_of : Text × Text → Component
  unfolding sym_block
  instance_of (lib_id, start) =
      let block = sym_block start in
      record {
        reference = or_else (search.find_reference block) [];
        value = or_else (search.find_value block) [];
        footprint = or_else (search.find_footprint block) [];
        lib_id = lib_id;
      }

  unfoldable pub is_power : Component → Bool
  is_power c = starts_with (codes "power:") c.lib_id

  -- What the loop appends to `components`.
  unfoldable pub components_of : List (Text × Text) → List Component
  unfolding instance_of is_power
  components_of [] = []
  components_of (m ∷ ms) =
      let rest = components_of ms in
      let c = instance_of m in
      if is_power c || starts_with (codes "#") c.reference then rest else c ∷ rest

  -- What the loop adds to `nets`.
  unfoldable pub power_net : Text × Text → List Text
  unfolding instance_of is_power
  power_net m =
      let c = instance_of m in
      if is_power c
      then (if text_eq c.value [] || text_eq c.value (codes "PWR_FLAG") then [] else c.value ∷ [])
      else []

  -- `parse_schematic` of gen_pcb_placement.py
  unfoldable pub parse_components : Text → List Component
  unfolding components_of body
  parse_components content = components_of (search.instances (body content))

  -- `parse_schematic` of gen_pcb_netlist.py; the set of nets is a list
  unfoldable pub parse_schematic : Text → List Component × List Text
  unfolding parse_components power_net body
  parse_schematic content = (
    parse_components content,
    gather power_net (search.instances (body content))
        ++ (search.global_labels (body content)
            ++ (search.hierarchical_labels (body content) ++ search.labels (body content))),
  )

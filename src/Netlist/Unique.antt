-- ===== src/Netlist/Unique.antt =====
-- hardware/cirradio-devboard/gen_pcb_netlist.py: how `main` drops components that repeat a
-- reference, and the counters that gen_ddr3l.py, gen_ad9361.py, gen_peripherals.py and
-- gen_connectors.py take the references of capacitors from.
pub mod First
pub mod Collision
use cirradio.Prelude.{
  ℕ, zero, suc, Bool, true, false, ◌||◌, List, [], ◌∷◌, ◌++◌, if◌then◌else◌, Text, codes, text_eq,
  one_of, decimal,
}
use cirradio.Placement.Component.{Component}

-- The loop over `all_components` with the set `seen_refs`.
unfoldable pub unique_from : List Text → List Component → List Component
unfolding one_of
unique_from seen [] = []
unique_from seen (c ∷ comps) =
    let skipped = unique_from seen comps in
    let added = c ∷ unique_from (c.reference ∷ seen) comps in
    if one_of seen c.reference then skipped else added

unfoldable pub unique_components : List Component → List Component
unique_components = unique_from []

-- `next_cap`: the reference, and the counter after it
unfoldable pub next_cap : ℕ → Text × ℕ
next_cap c = (codes "C" ++ decimal c, suc c)

-- What `cap` places for a value and a footprint, with the reference that it takes from the counter.
unfoldable pub cap : Text → Text → Text → Component
cap ref value fp = record {
  reference = ref;
  value = value;
  footprint = fp;
  lib_id = codes "Device:C";
}

-- The capacitors of a sheet, from the value of its counter on, one for each value and footprint.
unfoldable pub caps_from : ℕ → List (Text × Text) → List Component
unfolding next_cap cap
caps_from c [] = []
caps_from c ((value, fp) ∷ calls) =
    let (ref, c') = next_cap c in cap ref value fp ∷ caps_from c' calls

-- `cap_idx = [200]`, in each of the four sheets
abbrev pub first_cap : ℕ
first_cap = 200

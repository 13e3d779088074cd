-- ===== src/Sheet/Collision.antt =====
-- hardware/cirradio-devboard/gen_*.py and gen_pcb_netlist.py: what becomes of the symbols of two
-- sheets that number a series from the same start.
use cirradio.Prelude.{
  ℕ, ◌+◌, ◌≤◌, ◌<◌, ◌≡◌, Bool, true, not, ◌||◌, starts_with, text_eq, codes, List, [], ◌∷◌, ◌++◌,
  Text, one_of, arith, ◌∙◌,
}
use cirradio.Placement.Component.{Component}
use cirradio.Netlist.Unique.{unique_components}
use cirradio.Netlist.Unique.First.{
  find_component, unique_components-first, occurrences, occurrences-unique_components,
}
use cirradio.Sheet.{
  Series, Item, symbol, wire_item, global_item, hier_item, label_item, text_item, no_connect_item,
  Step, State, reference_of, run,
}
use cirradio.Sheet.Checks.{every_item}
use cirradio.Sheet.Placed.{kept_parts}
use cirradio.Sheet.Numbering.{drawn, reference_in, references, run-references}

occurrences-append :
    (ref : Text) (a b : List Component)
    → occurrences ref (a ++ b) ≡ occurrences ref a + occurrences ref b
unfolding occurrences
occurrences-append ref [] b = omega arith
occurrences-append ref (c ∷ a) b = omega (arith, occurrences-append ref a b)

-- A symbol with the reference `ref` that `parse_schematic` keeps; each other entry passes.
unfoldable pub is_kept : Text → Item Text → Bool
unfolding text_eq starts_with
is_kept ref (symbol lib_id r value x y unit angle fp pins) =
    not (text_eq r ref) || not (starts_with (codes "power:") lib_id || starts_with (codes "#") r)
is_kept ref _ = true

-- The symbols with the reference `ref` are of no power library, and it does not start with `#`.
abbrev pub IsKept : Text → List (Item Text) → Type 0
IsKept ref entries = every_item (is_kept ref) entries ≡ true

occurrences-references :
    (ref : Text) (entries : List (Item Text))
    → IsKept ref entries
    → one_of (references entries) ref ≡ true
    → 1 ≤ occurrences ref (kept_parts entries)
unfolding occurrences references reference_in kept_parts one_of every_item is_kept
occurrences-references ref [] w h = ground arith
occurrences-references ref (symbol lib_id r value x y unit angle fp pins ∷ entries) w h =
    ground (arith, occurrences-references ref entries)
occurrences-references ref (wire_item _ _ _ _ ∷ entries) w h =
    occurrences-references ref entries w h
occurrences-references ref (global_item _ _ _ _ _ ∷ entries) w h =
    occurrences-references ref entries w h
occurrences-references ref (hier_item _ _ _ _ _ ∷ entries) w h =
    occurrences-references ref entries w h
occurrences-references ref (label_item _ _ _ _ ∷ entries) w h =
    occurrences-references ref entries w h
occurrences-references ref (text_item _ _ _ _ ∷ entries) w h =
    occurrences-references ref entries w h
occurrences-references ref (no_connect_item _ _ ∷ entries) w h =
    occurrences-references ref entries w h

find-append :
    (ref : Text) (a b : List Component)
    → 1 ≤ occurrences ref a
    → find_component ref (a ++ b) ≡ find_component ref a
unfolding find_component occurrences
find-append ref [] b h = absurd (omega (arith, h))
find-append ref (c ∷ a) b h = ground (arith, find-append ref a b)

-- Where two sheets start a series at the same number, and both draw the symbol `i` of it, none that
-- has its reference being a power symbol, the reference stands twice or more among the components
-- of the two sheets, and once when these are made unique, for a component of the first sheet.
pub unique_components-shared :
    (k : Series) (first second : List Step) (s t : State) (i : ℕ)
    → s.idx k ≡ t.idx k
    → i < drawn k first
    → i < drawn k second
    → IsKept (reference_of k (s.idx k + i)) (run first s).entries
    → IsKept (reference_of k (s.idx k + i)) (run second t).entries
    → let comps = kept_parts (run first s).entries ++ kept_parts (run second t).entries in
      let ref = reference_of k (s.idx k + i) in
      (2 ≤ occurrences ref comps)
      × (occurrences ref (unique_components comps) ≡ 1)
      × (find_component ref (unique_components comps)
          ≡ find_component ref (kept_parts (run first s).entries))
unique_components-shared k first second s t i same a b v w =
    let ref = reference_of k (s.idx k + i) in
    let in_first =
      occurrences-references ref (run first s).entries v (run-references k first s i a) in
    let in_second =
      occurrences-references ref (run second t).entries w
        (rw same (run-references k second t i b)) in
    let comps = kept_parts (run first s).entries ++ kept_parts (run second t).entries in
    let twice : 2 ≤ occurrences ref comps = omega (
      arith,
      in_first,
      in_second,
      occurrences-append ref (kept_parts (run first s).entries) (kept_parts (run second t).entries),
    ) in
    (
      twice,
      occurrences-unique_components comps ref (omega arith),
      (unique_components-first comps ref).0
          ∙ find-append ref (kept_parts (run first s).entries) (kept_parts (run second t).entries)
              in_first,
    )

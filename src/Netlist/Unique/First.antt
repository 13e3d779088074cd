-- ===== src/Netlist/Unique/First.antt =====
-- The first component of each reference is kept, and no other.
use cirradio.Prelude.{
  ℕ, ◌+◌, ◌≤◌, ◌≡◌, ◌∙◌, refl, ap, Option-cases, Bool-cases, inl, inr, Option, none, some, List, [],
  ◌∷◌, if◌then◌else◌, Text, text_eq, text_eq_iff, one_of, arith,
}
use cirradio.Placement.Component.{Component}
use cirradio.Netlist.Unique.{unique_from, unique_components}

-- The first component with the reference.
unfoldable pub find_component : Text → List Component → Option Component
find_component ref [] = none
find_component ref (c ∷ comps) =
    if text_eq c.reference ref then some c else find_component ref comps

-- How many components have the reference.
unfoldable pub occurrences : Text → List Component → ℕ
occurrences ref [] = 0
occurrences ref (c ∷ comps) = (if text_eq c.reference ref then 1 else 0) + occurrences ref comps

find-none :
    (ref : Text) (comps : List Component)
    → find_component ref comps ≡ none
    → occurrences ref comps ≡ 0
unfolding find_component occurrences
find-none ref [] e = refl
find-none ref (c ∷ comps) e = ground (arith, find-none ref comps)

find-some :
    (ref : Text) (comps : List Component) (c : Component)
    → find_component ref comps ≡ some c
    → 1 ≤ occurrences ref comps
unfolding find_component occurrences
find-some ref [] c e = ground arith
find-some ref (d ∷ comps) c e = ground (arith, find-some ref comps c)

find-unique_from :
    (ref : Text) (seen : List Text) (comps : List Component)
    → find_component ref (unique_from seen comps)
      ≡ (if one_of seen ref then none else find_component ref comps)
unfolding find_component unique_from one_of
find-unique_from ref seen [] = ground arith
find-unique_from ref seen (c ∷ comps) = elim (Bool-cases (text_eq c.reference ref)) [
  | inl e ↦
      let same : c.reference ≡ ref = (text_eq_iff c.reference ref).0 e in
      ground (arith, ap (one_of seen) same, find-unique_from ref seen comps)
  | inr e ↦
      ground
        (arith, find-unique_from ref seen comps, find-unique_from ref (c.reference ∷ seen) comps)
]

occurrences-unique_from :
    (ref : Text) (seen : List Text) (comps : List Component)
    → occurrences ref (unique_from seen comps) ≤ (if one_of seen ref then 0 else 1)
unfolding occurrences unique_from one_of
occurrences-unique_from ref seen [] = ground arith
occurrences-unique_from ref seen (c ∷ comps) = elim (Bool-cases (text_eq c.reference ref)) [
  | inl e ↦
      let same : one_of seen c.reference ≡ one_of seen ref =
        ap (one_of seen) ((text_eq_iff c.reference ref).0 e) in
      ground (
        arith,
        occurrences-unique_from ref seen comps,
        occurrences-unique_from ref (c.reference ∷ seen) comps,
      )
  | inr e ↦ ground (
    arith,
    occurrences-unique_from ref seen comps,
    occurrences-unique_from ref (c.reference ∷ seen) comps,
  )
]

-- Among the unique components each reference of the input occurs once, with the first component of
-- the input that has it; the later ones are gone, whichever sheet they come from.
pub unique_components-first :
    (comps : List Component) (ref : Text)
    → (find_component ref (unique_components comps) ≡ find_component ref comps)
      × (occurrences ref (unique_components comps) ≤ 1)
unfolding unique_components one_of
unique_components-first comps ref =
    (find-unique_from ref [] comps, occurrences-unique_from ref [] comps)

-- A reference that occurs in the input occurs once among the unique components.
pub occurrences-unique_components :
    (comps : List Component) (ref : Text)
    → 1 ≤ occurrences ref comps
    → occurrences ref (unique_components comps) ≡ 1
occurrences-unique_components comps ref h =
    let (found, few) = unique_components-first comps ref in
    elim (Option-cases (find_component ref comps)) [
      | inl e ↦ absurd (omega (arith, h, find-none ref comps e))
      | inr (c, e) ↦ omega (arith, few, find-some ref (unique_components comps) c (found ∙ e))
    ]

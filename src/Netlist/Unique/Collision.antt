-- ===== src/Netlist/Unique/Collision.antt =====
-- Sheets whose counters start at the same number lose capacitors to each other.
use cirradio.Prelude.{
  ℕ, suc, ◌≤◌, ◌≡◌, ap, refl, Bool, true, false, ◌||◌, Bool-cases, inl, inr, List, [], ◌∷◌, ◌++◌,
  Text, text_eq, text_eq_iff, text_eq_refl, one_of, length, All, All-imp, arith,
}
use cirradio.Placement.Component.{Component}
use cirradio.Netlist.Unique.{unique_from, unique_components, next_cap, cap, caps_from}

has_reference : Text → List Component → Bool
has_reference ref [] = false
has_reference ref (c ∷ comps) = text_eq c.reference ref || has_reference ref comps

-- The reference of `c` is among those seen, or one of the components `a` has it.
abbrev IsCovered : List Text → List Component → Component → Type 0
IsCovered seen a c = (one_of seen c.reference || has_reference c.reference a) ≡ true

IsCovered-by_seen :
    (seen : List Text) (x : Component) (a : List Component) (c : Component)
    → one_of seen x.reference ≡ true
    → IsCovered seen (x ∷ a) c
    → IsCovered seen a c
unfolding has_reference
IsCovered-by_seen seen x a c e h = elim (Bool-cases (text_eq x.reference c.reference)) [
  | inl f ↦
      let same : one_of seen x.reference ≡ one_of seen c.reference =
        ap (one_of seen) ((text_eq_iff x.reference c.reference).0 f) in
      ground arith
  | inr f ↦ ground arith
]

IsCovered-by_first :
    (seen : List Text) (x : Component) (a : List Component) (c : Component)
    → IsCovered seen (x ∷ a) c
    → IsCovered (x.reference ∷ seen) a c
unfolding has_reference one_of
IsCovered-by_first seen x a c h = ground arith

unique_from-covered :
    (seen : List Text) (a b : List Component)
    → All (IsCovered seen a) b
    → unique_from seen (a ++ b) ≡ unique_from seen a
unfolding unique_from has_reference
unique_from-covered seen [] [] h = refl
unique_from-covered seen [] (c ∷ b) h = ground (arith, unique_from-covered seen [] b h.1, h.0)
unique_from-covered seen (x ∷ a) b h = elim (Bool-cases (one_of seen x.reference)) [
  | inl e ↦
      rw e (unique_from-covered seen a b (All-imp _ _ (λ c. IsCovered-by_seen seen x a c e) b h))
  | inr e ↦ rw e (
      ap (◌∷◌ x) (
        unique_from-covered (x.reference ∷ seen) a b
          (All-imp _ _ (IsCovered-by_first seen x a) b h)))
]

IsCovered-behind :
    (x : Component) (a : List Component) (c : Component) → IsCovered [] a c → IsCovered [] (x ∷ a) c
unfolding has_reference one_of
IsCovered-behind x a c h = ground arith

caps_from-IsCovered :
    (c : ℕ) (first second : List (Text × Text))
    → length second ≤ length first
    → All (IsCovered [] (caps_from c first)) (caps_from c second)
unfolding caps_from has_reference one_of
caps_from-IsCovered c first [] h = tt
caps_from-IsCovered c [] (y ∷ second) h = absurd (omega arith)
caps_from-IsCovered c ((v, f) ∷ first) ((w, g) ∷ second) h = (
  rw text_eq_refl,
  All-imp _ _ (IsCovered-behind (cap (next_cap c).0 v f) (caps_from (suc c) first))
      (caps_from (suc c) second) (caps_from-IsCovered (suc c) first second (omega arith)),
)

-- Where two sheets number their capacitors from the same start, and the second has no more of them
-- than the first, the capacitors of the second are all dropped, whatever their values.
pub unique_components-caps :
    (start : ℕ) (first second : List (Text × Text))
    → length second ≤ length first
    → unique_components (caps_from start first ++ caps_from start second)
      ≡ unique_components (caps_from start first)
unfolding unique_components
unique_components-caps start first second h =
    unique_from-covered [] (caps_from start first) (caps_from start second)
      (caps_from-IsCovered start first second h)

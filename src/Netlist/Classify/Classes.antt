-- ===== src/Netlist/Classify/Classes.antt =====
-- Each net of a class stands in the list of that class, and nowhere else.
use cirradio.Prelude.{
  ◌≡◌, refl, ◌∙◌, false, Bool-cases, inl, inr, List, [], ◌∷◌, Text, text_eq, text_eq_iff,
  text_eq_refl, one_of, count, count-sorted, sorted, if◌then◌else◌, arith,
}
use cirradio.Netlist.Classify.{
  NetClass, power_wide, power, ddr3_diff_pair, ddr3, lvds, rf_50ohm, default, classify_net,
  class_eq, nets_of_class, without, add_nets,
}

count-nets_of_class :
    (cls : NetClass) (n : Text) (names : List Text)
    → count n (nets_of_class cls names)
      ≡ (if class_eq cls (classify_net n) then count n names else 0)
unfolding nets_of_class count
count-nets_of_class cls n [] = ground arith
count-nets_of_class cls n (m ∷ names) = elim (Bool-cases (text_eq m n)) [
  | inl e ↦
      let same : m ≡ n = (text_eq_iff m n).0 e in
      rw same (ground (arith, count-nets_of_class cls n names, text_eq_refl n))
  | inr e ↦ ground (arith, count-nets_of_class cls n names)
]

count-without :
    (ys xs : List Text) (n : Text)
    → count n (without ys xs) ≡ (if one_of ys n then 0 else count n xs)
unfolding without count
count-without ys [] n = ground arith
count-without ys (m ∷ xs) n = elim (Bool-cases (text_eq m n)) [
  | inl e ↦
      let same : m ≡ n = (text_eq_iff m n).0 e in
      rw same (ground (arith, count-without ys xs n, text_eq_refl n))
  | inr e ↦ ground (arith, count-without ys xs n)
]

one_of-count : (ys : List Text) (n : Text) → count n ys ≡ 0 → one_of ys n ≡ false
unfolding one_of count
one_of-count [] n h = refl
one_of-count (y ∷ ys) n h = ground (arith, one_of-count ys n)

-- Taking the pairs out of the list of single-ended signals changes nothing: no net is in both.
count-without_pairs :
    (names : List Text) (n : Text)
    → count n (without (nets_of_class ddr3_diff_pair names) (nets_of_class ddr3 names))
      ≡ count n (nets_of_class ddr3 names)
count-without_pairs names n = ground (
  arith,
  count-without (nets_of_class ddr3_diff_pair names) (nets_of_class ddr3 names) n,
  count-nets_of_class ddr3 n names,
  count-nets_of_class ddr3_diff_pair n names,
  one_of-count (nets_of_class ddr3_diff_pair names) n,
)

-- The list of a class holds each net of that class as often as `names` does, and no other net. The
-- list of the class "Default" is empty.
abbrev pub Lists : List Text → List NetClass → List (List Text) → Type 0
Lists names (default ∷ classes) (l ∷ lists) = (l ≡ []) × Lists names classes lists
Lists names (cls ∷ classes) (l ∷ lists) =
    ((n : Text) → count n l ≡ (if class_eq cls (classify_net n) then count n names else 0))
    × Lists names classes lists
Lists names [] [] = Unit
Lists names _ _ = ⊥

-- The order in which the net classes are emitted.
abbrev pub emitted_classes : List NetClass
emitted_classes = default ∷ power ∷ power_wide ∷ rf_50ohm ∷ lvds ∷ ddr3 ∷ ddr3_diff_pair ∷ []

-- The emitted net classes split the nets: each net that is not of the class "Default" is added to
-- the class that `classify_net` gives it, as often as it occurs among the names, and to no other.
pub add_nets-Lists : (names : List Text) → Lists names emitted_classes (add_nets names)
unfolding add_nets
add_nets-Lists names = (
  refl,
  (
    plain power,
    (
      plain power_wide,
      (
        plain rf_50ohm,
        (
          plain lvds,
          (
            (λ n.
                count-sorted n _ ∙ count-without_pairs names n ∙ count-nets_of_class ddr3 n names),
            (plain ddr3_diff_pair, tt),
          ),
        ),
      ),
    ),
  ),
)
  where
    plain :
        (cls : NetClass) (n : Text)
        → count n (sorted (nets_of_class cls names))
          ≡ (if class_eq cls (classify_net n) then count n names else 0)
    plain cls n = count-sorted n _ ∙ count-nets_of_class cls n names

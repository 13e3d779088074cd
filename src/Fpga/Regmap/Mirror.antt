-- ===== src/Fpga/Regmap/Mirror.antt =====
-- When the register maps agree.
use cirradio.Prelude.{
  ℕ, ◌≡◌, ◌≢◌, ◌↔◌, ◌⊎◌, inl, inr, true, Option-cases, none, some, List, [], ◌∷◌, ◌++◌, Text, Dict,
  get, All, arith,
}
use cirradio.Fpga.Regmap.{is_bit, is_header_only, svh_errors, hpp_errors, check_regmap}

-- A register of the first map: a bit index, or in the second map with the same value.
abbrev pub IsMirrored : Dict ℕ → Text × ℕ → Type 0
IsMirrored hpp r = (is_bit r.0 ≡ true) ⊎ (get r.0 hpp ≡ some r.1)

-- A register of the second map: one of those that only it may have, or one of the first map.
abbrev pub IsKnown : Dict ℕ → Text × ℕ → Type 0
IsKnown svh r = (is_header_only r.0 ≡ true) ⊎ (get r.0 svh ≢ none)

svh_errors_iff : (hpp svh : Dict ℕ) → (svh_errors hpp svh ≡ []) ↔ All (IsMirrored hpp) svh
unfolding svh_errors
svh_errors_iff hpp [] = ground arith
svh_errors_iff hpp ((name, v) ∷ svh) = elim (Option-cases (get name hpp)) [
  | inl e ↦ rw e (ground (arith, svh_errors_iff hpp svh))
  | inr (w, e) ↦ rw e (ground (arith, svh_errors_iff hpp svh))
]

hpp_errors_iff : (svh hpp : Dict ℕ) → (hpp_errors svh hpp ≡ []) ↔ All (IsKnown svh) hpp
unfolding hpp_errors
hpp_errors_iff svh [] = ground arith
hpp_errors_iff svh ((name, v) ∷ hpp) = elim (Option-cases (get name svh)) [
  | inl e ↦ rw e (ground (arith, hpp_errors_iff svh hpp))
  | inr (w, e) ↦ rw e (ground (arith, hpp_errors_iff svh hpp))
]

append-nil_iff : {A : Type 0} (xs ys : List A) → ((xs ++ ys) ≡ []) ↔ ((xs ≡ []) × (ys ≡ []))
append-nil_iff [] ys = ground arith
append-nil_iff (x ∷ xs) ys = ground arith

-- The script exits with 0 exactly when each register of the first map is mirrored in the second with
-- the same value, bit indices apart, and the second has no other, apart from those it alone may have.
pub check_regmap_iff :
    (svh hpp : Dict ℕ)
    → (check_regmap svh hpp ≡ 0) ↔ (All (IsMirrored hpp) svh × All (IsKnown svh) hpp)
unfolding check_regmap
check_regmap_iff svh hpp = ground (
  arith,
  svh_errors_iff hpp svh,
  hpp_errors_iff svh hpp,
  append-nil_iff (svh_errors hpp svh) (hpp_errors svh hpp),
)

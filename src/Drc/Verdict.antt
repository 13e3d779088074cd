-- ===== src/Drc/Verdict.antt =====
-- When the design rule check passes.
use cirradio.Prelude.{
  ℕ, ◌≤◌, ◌≡◌, ◌↔◌, ℤ, Bool, true, false, Option, none, some, List, [], ◌∷◌, ◌++◌, Text, All, arith,
}
use cirradio.Drc.{
  Issue, paren_issues, net_issues, dimension_issues, is_declared, invalid_nets, collect_nets,
  all_refs, issues, exit_status, check_parens,
}
use cirradio.Drc.Parens.{Balanced, check_parens-iff-Balanced}

-- The number is that of a declared net.
abbrev pub Declared : List ℕ → ℕ → Type 0
Declared nets n = is_declared n nets ≡ true

-- Width and height are within 0.5 mm of 160 mm and 100 mm.
abbrev pub IsBoardSize : Option (ℕ × ℕ) → Type 0
IsBoardSize none = ⊥
IsBoardSize (some (w, h)) = ((159500 ≤ w) × (w ≤ 160500)) × ((99500 ≤ h) × (h ≤ 100500))

-- What a passing check establishes.
pub record IsClean (text : Text) (dimensions : Option (ℕ × ℕ)) : Type 0 where
  pub balanced : Balanced text
  pub declared : All (Declared (collect_nets text)) (all_refs text)
  pub board_size : IsBoardSize dimensions

pub invalid_nets_iff :
    (nets refs : List ℕ) → (invalid_nets nets refs ≡ []) ↔ All (Declared nets) refs
unfolding invalid_nets
invalid_nets_iff nets [] = ground arith
invalid_nets_iff nets (n ∷ refs) = ground (arith, invalid_nets_iff nets refs)

-- The three parts of the check over what they depend on.
verdict :
    (b : Bool × ℤ) (invalid : List ℕ) (size : Option (ℕ × ℕ))
    → (paren_issues b ++ (net_issues invalid ++ dimension_issues size) ≡ [])
      ↔ ((b.0 ≡ true) × ((invalid ≡ []) × IsBoardSize size))
verdict (true, d) [] none = ground arith
verdict (true, d) [] (some (w, h)) = ground arith
verdict (true, d) (n ∷ invalid) size = ground arith
verdict (false, d) invalid size = ground arith

exit_status-issues :
    (text : Text) (dimensions : Option (ℕ × ℕ))
    → (exit_status text dimensions ≡ 0) ↔ (issues text dimensions ≡ [])
unfolding exit_status
exit_status-issues text dimensions = of_list (issues text dimensions)
  where
    of_list : (l : List Issue) → ((elim l as (λ x. ℕ) [ [] ↦ 0 | i ∷ rest ↦ 1 ]) ≡ 0) ↔ (l ≡ [])
    of_list [] = ground arith
    of_list (i ∷ l) = ground arith

-- The check exits with status 0 exactly when the parentheses are balanced, each net that its
-- searches find in the segments and vias is among those that its search for declared nets finds,
-- and the outline is found and within 0.5 mm of 160 mm by 100 mm.
pub exit_status-iff-IsClean :
    (text : Text) (dimensions : Option (ℕ × ℕ))
    → (exit_status text dimensions ≡ 0) ↔ IsClean text dimensions
unfolding issues
exit_status-iff-IsClean text dimensions =
    let invalid : List ℕ = invalid_nets (collect_nets text) (all_refs text) in
    let parts = verdict (check_parens text) invalid dimensions in
    let nets = invalid_nets_iff (collect_nets text) (all_refs text) in
    let parens = check_parens-iff-Balanced text in
    let status = exit_status-issues text dimensions in
    (
      λ h.
          let found = parts.0 (status.0 h) in
          record {
            balanced = parens.0 found.0;
            declared = nets.0 found.1.0;
            board_size = found.1.1;
          },
      λ c. status.1 (parts.1 (parens.1 c.balanced, (nets.1 c.declared, c.board_size))),
    )

-- ===== src/Placement/Zone/Packing.antt =====
-- Successive calls of `Zone.place` keep the parts apart, and inside the zone.
use cirradio.Prelude.{
  ℕ, ◌+◌, ◌-◌, ◌/◌, ◌≤◌, ◌≡◌, ◌⊎◌, inl, inr, Option, none, some, List, [], ◌∷◌, All, Pairs,
  Option-cases, arith,
}
use cirradio.Placement.Footprint.{Size}
use cirradio.Placement.Zone.{Zone, Spot, margin, next_row, put, place}

-- The rectangle that a placed part covers.
pub record Box : Type 0 where
  pub left : ℕ
  pub top : ℕ
  pub right : ℕ
  pub bottom : ℕ

unfoldable pub box : Spot → Size → Box
box s z = record {
  left = s.x - z.w / 2;
  top = s.y - z.h / 2;
  right = s.x - z.w / 2 + z.w;
  bottom = s.y - z.h / 2 + z.h;
}

keep : Option Spot → Size → List Box → List Box
keep none z boxes = boxes
keep (some s) z boxes = box s z ∷ boxes

-- The rectangles of the parts placed by one call of `place` after the other.
unfoldable pub fill : Zone → List Size → List Box
unfolding keep box
fill z [] = []
fill z (s ∷ sizes) = let (spot, z') = place z s.w s.h in keep spot s (fill z' sizes)

-- The gap between two parts is at least the margin.
abbrev pub Apart : Box → Box → Type 0
Apart a b =
    ((a.right + margin ≤ b.left) ⊎ (a.bottom + margin ≤ b.top))
    ⊎ ((b.right + margin ≤ a.left) ⊎ (b.bottom + margin ≤ a.top))

-- The cursor has passed the part: its row is closed, or it stands further left in the open row.
abbrev Passed : Zone → Box → Type 0
Passed z b =
    (b.bottom + margin ≤ z.cursor_y)
    ⊎ ((b.right + margin ≤ z.cursor_x) × (b.bottom + margin ≤ z.cursor_y + z.row_height))

next_row-Passed : (z : Zone) (n : ℕ) (b : Box) → Passed z b → Passed (next_row z n) b
unfolding next_row
next_row-Passed z n b h = ground arith

put-Passed : (z : Zone) (w h : ℕ) (b : Box) → Passed z b → Passed (put z w h).1 b
unfolding put
put-Passed z w h b p = ground arith

put-Passed_new :
    (z : Zone) (s : Size) (spot : Spot)
    → (put z s.w s.h).0 ≡ some spot
    → Passed (put z s.w s.h).1 (box spot s)
unfolding put box
put-Passed_new z s spot e = ground arith

put-Apart :
    (z : Zone) (s : Size) (spot : Spot) (b : Box)
    → Passed z b
    → (put z s.w s.h).0 ≡ some spot
    → Apart b (box spot s)
unfolding put box
put-Apart z s spot b p e = ground arith

-- A part that the cursor has passed stays apart from all that is placed later.
fill-All-Apart :
    (b : Box) (z : Zone) (sizes : List Size) → Passed z b → All (Apart b) (fill z sizes)
unfolding fill place
fill-All-Apart b z [] p = tt
fill-All-Apart b z (s ∷ sizes) p =
    let row : Zone = next_row z (s.w + margin) in
    let passed : Passed row b = next_row-Passed z (s.w + margin) b p in
    let later : All (Apart b) (fill (put row s.w s.h).1 sizes) =
      fill-All-Apart b (put row s.w s.h).1 sizes (put-Passed row s.w s.h b passed) in
    elim (Option-cases (put row s.w s.h).0) [
      | inl e ↦ rw e later
      | inr (spot, e) ↦ rw e (put-Apart row s spot b passed e, later)
    ]

-- Parts placed in one zone, in any number and of any sizes, do not overlap: between every two of
-- them lies a gap of at least the margin.
pub fill-Apart : (z : Zone) (sizes : List Size) → Pairs Apart (fill z sizes)
unfolding fill place
fill-Apart z [] = tt
fill-Apart z (s ∷ sizes) =
    let row : Zone = next_row z (s.w + margin) in
    let rest : Zone = (put row s.w s.h).1 in
    elim (Option-cases (put row s.w s.h).0) [
      | inl e ↦ rw e (fill-Apart rest sizes)
      | inr (spot, e) ↦ rw e (
        fill-All-Apart (box spot s) rest sizes (put-Passed_new row s spot e),
        fill-Apart rest sizes,
      )
    ]

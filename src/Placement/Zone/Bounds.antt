-- ===== src/Placement/Zone/Bounds.antt =====
-- Where `Zone.place` puts a part that is no wider than a row.
use cirradio.Prelude.{ℕ, ◌+◌, ◌≤◌, ◌≡◌, inl, inr, some, List, [], ◌∷◌, All, Option-cases, arith}
use cirradio.Placement.Footprint.{Size}
use cirradio.Placement.Zone.{Zone, Spot, new_zone, margin, place}
use cirradio.Placement.Zone.Packing.{Box, box, fill}

-- The cursor has not left the zone at its left or upper side.
pub record Started (z : Zone) : Type 0 where
  pub from_left : z.x_min + 1000 ≤ z.cursor_x
  pub from_top : z.y_min + 1000 ≤ z.cursor_y

-- A row of the zone has room for the part.
abbrev pub HasRoom : Zone → Size → Type 0
HasRoom z s = z.x_min + 1000 + s.w + margin ≤ z.x_max

pub record Inside (z : Zone) (b : Box) : Type 0 where
  pub from_left : z.x_min + 1000 ≤ b.left
  pub from_top : z.y_min + 1000 ≤ b.top
  pub to_right : b.right + margin ≤ z.x_max
  pub to_bottom : b.bottom + margin ≤ z.y_max

-- The borders of a zone do not move.
pub record SameBorders (z z' : Zone) : Type 0 where
  pub x_min_eq : z'.x_min ≡ z.x_min
  pub y_min_eq : z'.y_min ≡ z.y_min
  pub x_max_eq : z'.x_max ≡ z.x_max
  pub y_max_eq : z'.y_max ≡ z.y_max

pub new_zone-Started : (a b c d : ℕ) → Started (new_zone a b c d)
unfolding new_zone
new_zone-Started a b c d = omega arith

pub place-SameBorders : (z : Zone) (s : Size) → SameBorders z (place z s.w s.h).1
unfolding place
place-SameBorders z s = ground arith

pub place-Started : (z : Zone) (s : Size) → Started z → Started (place z s.w s.h).1
unfolding place
place-Started z s h = ground arith

pub place-Inside :
    (z : Zone) (s : Size) (spot : Spot)
    → Started z
    → HasRoom z s
    → (place z s.w s.h).0 ≡ some spot
    → Inside z (box spot s)
unfolding place box
place-Inside z s spot h room e = ground arith

Inside-SameBorders : (z z' : Zone) (b : Box) → SameBorders z z' → Inside z' b → Inside z b
Inside-SameBorders z z' b e i = omega arith

All-Inside :
    (z z' : Zone) (bs : List Box) → SameBorders z z' → All (Inside z') bs → All (Inside z) bs
All-Inside z z' [] e a = tt
All-Inside z z' (b ∷ bs) e a = (Inside-SameBorders z z' b e a.0, All-Inside z z' bs e a.1)

All-HasRoom :
    (z z' : Zone) (sizes : List Size)
    → SameBorders z z'
    → All (HasRoom z) sizes
    → All (HasRoom z') sizes
All-HasRoom z z' [] e a = tt
All-HasRoom z z' (s ∷ sizes) e a = (omega arith, All-HasRoom z z' sizes e a.1)

fill-Started-Inside :
    (z : Zone) (sizes : List Size)
    → Started z
    → All (HasRoom z) sizes
    → All (Inside z) (fill z sizes)
unfolding fill
fill-Started-Inside z [] h room = tt
fill-Started-Inside z (s ∷ sizes) h room =
    let same = place-SameBorders z s in
    let z' : Zone = (place z s.w s.h).1 in
    let later : All (Inside z) (fill z' sizes) =
      All-Inside z z' (fill z' sizes) same
        (fill-Started-Inside z' sizes (place-Started z s h) (All-HasRoom z z' sizes same room.1)) in
    elim (Option-cases (place z s.w s.h).0) [
      | inl e ↦ rw e later
      | inr (spot, e) ↦ rw e (place-Inside z s spot h room.0 e, later)
    ]

-- In a new zone, as long as no part is wider than a row of it, every part that is placed lies
-- within the zone's borders: 1 mm from the left and upper border, and the margin from the others.
fill-Inside :
    (a b c d : ℕ) (sizes : List Size)
    → All (HasRoom (new_zone a b c d)) sizes
    → All (Inside (new_zone a b c d)) (fill (new_zone a b c d) sizes)
fill-Inside a b c d sizes room =
    fill-Started-Inside (new_zone a b c d) sizes (new_zone-Started a b c d) room

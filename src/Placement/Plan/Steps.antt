-- ===== src/Placement/Plan/Steps.antt =====
-- What a step of a section does keeps the placements on the board, and the zone in order.
use cirradio.Prelude.{
  ◌+◌, ◌≤◌, ◌≡◌, refl, inl, inr, Option, none, some, Text, All, Option-cases, arith,
}
use cirradio.Placement.Footprint.{
  Size, IsPart, estimate_footprint_size, estimate_footprint_size-IsPart,
}
use cirradio.Placement.Zone.{Zone, Spot, place}
use cirradio.Placement.Component.{Component, Placements, set_result, All-set_spot}
use cirradio.Placement.Plan.{Desk, spot, fix, auto, auto_back}

-- The centre lies on the board.
pub record OnBoard (s : Spot) : Type 0 where
  pub x_bound : s.x ≤ 160000
  pub y_bound : s.y ≤ 100000

abbrev pub AllOnBoard : Placements → Type 0
AllOnBoard = All (λ e. OnBoard e.1)

-- A zone of the board with room for the widest part in each row.
pub record IsRoomy (z : Zone) : Type 0 where
  pub started : z.x_min + 1000 ≤ z.cursor_x
  pub row_room : z.x_min + 32500 ≤ z.x_max
  pub x_bound : z.x_max ≤ 160000
  pub y_bound : z.y_max ≤ 100000

pub place-OnBoard :
    (z : Zone) (s : Size) (spot : Spot)
    → IsRoomy z
    → IsPart s
    → (place z s.w s.h).0 ≡ some spot
    → OnBoard spot
unfolding place
place-OnBoard z s spot r p e = ground arith

pub place-IsRoomy : (z : Zone) (s : Size) → IsRoomy z → IsRoomy (place z s.w s.h).1
unfolding place
place-IsRoomy z s r = ground arith

pub record DeskInv (d : Desk) : Type 0 where
  pub placed : AllOnBoard d.placements
  pub roomy : IsRoomy d.zone

pub fix-DeskInv :
    (c : Component) (s : Spot) (d : Desk) → OnBoard s → DeskInv d → DeskInv (fix c s d)
unfolding fix
fix-DeskInv c s d b v = record {
  placed = All-set_spot OnBoard c.reference s d.placements b v.placed;
  roomy = v.roomy;
}

pub set_result-AllOnBoard :
    (ref : Text) (r : Option Spot) (p : Placements)
    → ((s : Spot) → r ≡ some s → OnBoard s)
    → AllOnBoard p
    → AllOnBoard (set_result ref r p)
unfolding set_result
set_result-AllOnBoard ref none p b a = a
set_result-AllOnBoard ref (some s) p b a = All-set_spot OnBoard ref s p (b s refl) a

module _ (c : Component) (z : Zone) (r : IsRoomy z) where
  pub spot-OnBoard :
      (s : Spot)
      → (let size = estimate_footprint_size c.footprint in place z size.w size.h).0 ≡ some s
      → OnBoard s
  spot-OnBoard s e =
      place-OnBoard z (estimate_footprint_size c.footprint) s r
        (estimate_footprint_size-IsPart c.footprint) e

pub auto-DeskInv : (c : Component) (d : Desk) → DeskInv d → DeskInv (auto c d)
unfolding auto
auto-DeskInv c d v = record {
  placed =
      set_result-AllOnBoard c.reference _ d.placements (spot-OnBoard c d.zone v.roomy) v.placed;
  roomy = place-IsRoomy d.zone (estimate_footprint_size c.footprint) v.roomy;
}

pub auto_back-DeskInv : (c : Component) (d : Desk) → DeskInv d → DeskInv (auto_back c d)
unfolding auto_back
auto_back-DeskInv c d v =
    let size : Size = estimate_footprint_size c.footprint in
    record {
      placed = elim (Option-cases (place d.zone size.w size.h).0) [
        | inl e ↦ rw e (set_result-AllOnBoard c.reference none d.placements (λ s q. cc) v.placed)
        | inr (s, e) ↦ rw e (
            set_result-AllOnBoard c.reference (some _) d.placements
              (λ t q. ground (arith, spot-OnBoard c d.zone v.roomy s e)) v.placed)
      ];
      roomy = place-IsRoomy d.zone size v.roomy;
    }

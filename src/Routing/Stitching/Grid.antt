-- ===== src/Routing/Stitching/Grid.antt =====
-- The stitching vias stand on a rectangle 4 mm inside the edge of the board, 2 mm apart.
use cirradio.Prelude.{
  ℕ, zero, suc, ◌+◌, ◌-◌, ◌/◌, ◌<◌, ◌≡◌, false, List, [], ◌∷◌, ◌++◌, map, leb, leb→le, Bool-cases,
  inl, inr, codes, get, or_else, arith,
}
use cirradio.Routing.Entry.{comment, via, Nets, at}
use cirradio.Routing.Stitching.{stops, gen_perimeter_via_stitching}

leb-false : (a b : ℕ) → leb a b ≡ false → b < a
leb-false a b h = ground arith

-- The values that the loop visits, by their number: `rounds` of them from `v` on.
abbrev pub every : ℕ → ℕ → List ℕ
every v zero = []
every v (suc rounds) = v ∷ every (v + 2000) rounds

-- With fuel above the limit, the loop visits the values from its start to the limit in steps of
-- 2 mm, and all of them.
pub stops-every :
    (fuel v limit : ℕ) → limit < fuel + v → stops fuel v limit ≡ every v ((limit + 2000 - v) / 2000)
unfolding stops
stops-every zero v limit h =
    let none_left : (limit + 2000 - v) / 2000 ≡ 0 = omega arith in rw none_left
stops-every (suc fuel) v limit h = elim (Bool-cases (leb v limit)) [
  | inl e ↦
      let next : (limit + 2000 - v) / 2000 ≡ suc ((limit + 2000 - (v + 2000)) / 2000) =
        omega (arith, leb→le v limit e) in
      rw (e, next, stops-every fuel (v + 2000) limit (omega (arith, leb→le v limit e)))
  | inr e ↦
      let none_left : (limit + 2000 - v) / 2000 ≡ 0 = omega (arith, leb-false v limit e) in
      rw (e, none_left)
]

-- The coordinates of the vias on the two horizontal and on the two vertical edges.
abbrev pub columns : List ℕ
columns = every 4000 77

abbrev pub rows : List ℕ
rows = every 6000 45

-- The vias are: one every 2 mm from x = 4 mm to x = 156 mm at y = 4 mm and at y = 96 mm, and one
-- every 2 mm from y = 6 mm to y = 94 mm at x = 4 mm and at x = 156 mm, all on the net of GND, or on
-- net 1 if the board has none of that name.
pub gen_perimeter_via_stitching-every :
    (nets : Nets)
    → gen_perimeter_via_stitching nets
      ≡ comment (codes "  ; Board perimeter ground via stitching (every 2mm)")
        ∷ map
            (λ p. via p (or_else (get (codes "GND") nets) 1))
            (map (λ x. at x 4000) columns
              ++ (map (λ x. at x 96000) columns
                  ++ (map (λ y. at 4000 y) rows ++ map (λ y. at 156000 y) rows)))
unfolding gen_perimeter_via_stitching
gen_perimeter_via_stitching-every nets =
    rw (stops-every 156001 4000 156000 (omega arith), stops-every 94001 6000 94000 (omega arith))

-- ===== src/Routing/Trace/Laws.antt =====
-- A route is a chain of pieces between its two ends, and how long its pieces are.
use cirradio.Prelude.{
  ℕ, zero, suc, ◌+◌, ◌*◌, ◌≤◌, ◌<◌, max, ◌≡◌, refl, List, [], ◌∷◌, All, All-imp, arith,
}
use cirradio.Routing.Trace.{
  Copper, Point, Segment, gap, dist_squared, count_pieces, pieces, along, point_along, route_from,
  route_point_to_point,
}

le-mul_pos : (a b : ℕ) → 0 < b → a ≤ a * b
le-mul_pos a b h = grind arith

le-square : (a : ℕ) → a ≤ a * a
le-square zero = omega arith
le-square (suc a) = le-mul_pos (suc a) (suc a) (omega arith)

square_mono : (a b : ℕ) → a ≤ b → a * a ≤ b * b
square_mono a b h = grind arith

count_pieces_bounds :
    (fuel max_seg d k : ℕ)
    → 0 < max_seg
    → d < fuel + k
    → k * max_seg * (k * max_seg) ≤ d
    → (let n = count_pieces fuel max_seg d k in n * max_seg * (n * max_seg) ≤ d)
      × (let n = count_pieces fuel max_seg d k in d < suc n * max_seg * (suc n * max_seg))
unfolding count_pieces
count_pieces_bounds zero max_seg d k pos enough below =
    absurd (omega (arith, le-mul_pos k max_seg pos, le-square (k * max_seg)))
count_pieces_bounds (suc fuel) max_seg d k pos enough below =
    ground (arith, count_pieces_bounds fuel max_seg d (suc k))

at_least_one :
    (c m d : ℕ)
    → m * m ≤ d
    → c * m * (c * m) ≤ d
    → d < suc c * m * (suc c * m)
    → (max 1 c * m * (max 1 c * m) ≤ d) × (d < 2 * (max 1 c * m) * (2 * (max 1 c * m)))
at_least_one zero m d long low high = (omega arith, omega arith)
at_least_one (suc k) m d long low high =
    let same : max 1 (suc k) ≡ suc k = omega arith in
    rw same (low, omega (arith, square_mono (suc (suc k) * m) (2 * (suc k * m)) (grind arith)))

pieces_bounds :
    (p q : Point) (max_seg : ℕ)
    → 0 < max_seg
    → max_seg * max_seg ≤ dist_squared p q
    → (let n = pieces p q max_seg in n * max_seg * (n * max_seg) ≤ dist_squared p q)
      × (let n = pieces p q max_seg in dist_squared p q < 2 * (n * max_seg) * (2 * (n * max_seg)))
unfolding pieces
pieces_bounds p q max_seg pos long =
    let d : ℕ = dist_squared p q in
    let bounds = count_pieces_bounds (suc d) max_seg d 0 pos (omega arith) (omega arith) in
    at_least_one (count_pieces (suc d) max_seg d 0) max_seg d long bounds.0 bounds.1

-- A chain of segments that begins at the first point and ends at the second.
abbrev pub Chain : Point → Point → List Segment → Type 0
Chain p q [] = p ≡ q
Chain p q (s ∷ segments) = (s.start ≡ p) × Chain s.finish q segments

route_from-Chain :
    (p q : Point) (width : ℕ) (layer : Copper) (net n rest i : ℕ)
    → rest + i ≡ n
    → Chain (point_along p q n i) (point_along p q n n) (route_from p q width layer net n rest i)
unfolding route_from
route_from-Chain p q width layer net n zero i e = let same : i ≡ n = omega arith in rw same
route_from-Chain p q width layer net n (suc rest) i e =
    (refl, route_from-Chain p q width layer net n rest (suc i) (omega arith))

along-end : (a b n : ℕ) → along a b n n ≡ b * n
unfolding along
along-end a b n = grind arith

along-start : (a b n : ℕ) → along a b n 0 ≡ a * n
unfolding along
along-start a b n = grind arith

gap-along : (a b n i : ℕ) → i < n → gap (along a b n i) (along a b n (suc i)) ≡ gap a b
unfolding along
gap-along a b n i h = grind arith

-- What the pieces of a route have in common: the width, the layer and the net that were asked for,
-- the number of parts, and, over that number, the length of the whole route.
record IsPiece (p q : Point) (width : ℕ) (layer : Copper) (net n : ℕ) (s : Segment) : Type 0 where
  has_width : s.width ≡ width
  has_layer : s.layer ≡ layer
  has_net : s.net_num ≡ net
  has_parts : s.parts ≡ n
  has_length : dist_squared s.start s.finish ≡ dist_squared p q

route_from-IsPiece :
    (p q : Point) (width : ℕ) (layer : Copper) (net n rest i : ℕ)
    → rest + i ≡ n
    → All (IsPiece p q width layer net n) (route_from p q width layer net n rest i)
unfolding route_from dist_squared point_along
route_from-IsPiece p q width layer net n zero i e = tt
route_from-IsPiece p q width layer net n (suc rest) i e = (
  record {
    has_width = refl;
    has_layer = refl;
    has_net = refl;
    has_parts = refl;
    has_length = rw (gap-along p.x q.x n i (omega arith), gap-along p.y q.y n i (omega arith));
  },
  route_from-IsPiece p q width layer net n rest (suc i) (omega arith),
)

-- The piece is at least `max_seg` long, and less than twice that, and it has the width, the layer
-- and the net that were asked for.
pub record IsGoodPiece (width : ℕ) (layer : Copper) (net max_seg : ℕ) (s : Segment) : Type 0 where
  pub good_width : s.width ≡ width
  pub good_layer : s.layer ≡ layer
  pub good_net : s.net_num ≡ net
  pub at_least : s.parts * max_seg * (s.parts * max_seg) ≤ dist_squared s.start s.finish
  pub less_than :
      dist_squared s.start s.finish < 2 * (s.parts * max_seg) * (2 * (s.parts * max_seg))

unfoldable pub scaled : ℕ → Point → Point
scaled n r = record { x = r.x * n; y = r.y * n }

module _ (p q : Point) (width : ℕ) (layer : Copper) (net max_seg : ℕ) where
  -- The segments of a route form a chain from the first point to the second: the first starts
  -- there, each goes on where the one before it ends, and the last ends at the second point. The
  -- coordinates are numerators over the number of pieces.
  pub route_point_to_point-Chain :
      (let n = pieces p q max_seg in
        Chain (scaled n p) (scaled n q) (route_point_to_point p q width layer net max_seg))
  unfolding route_point_to_point point_along scaled
  route_point_to_point-Chain =
      let n : ℕ = pieces p q max_seg in
      rw
        (
          ← along-start p.x q.x n,
          ← along-start p.y q.y n,
          ← along-end p.x q.x n,
          ← along-end p.y q.y n,
        )
        (route_from-Chain p q width layer net n n 0 (omega arith))

  IsPiece-IsGoodPiece :
      0 < max_seg
      → max_seg * max_seg ≤ dist_squared p q
      → (s : Segment) → IsPiece p q width layer net (pieces p q max_seg) s
      → IsGoodPiece width layer net max_seg s
  IsPiece-IsGoodPiece pos long s i =
      let bounds = pieces_bounds p q max_seg pos long in
      record {
        good_width = i.has_width;
        good_layer = i.has_layer;
        good_net = i.has_net;
        at_least = rw (i.has_parts, i.has_length) bounds.0;
        less_than = rw (i.has_parts, i.has_length) bounds.1;
      }

  -- Where the ends of a route are at least `max_seg` apart, `max_seg` is a lower bound for the length
  -- of its pieces, and not an upper one: each piece is at least `max_seg` long, and less than twice
  -- that. Each has the width, the layer and the net that were asked for.
  pub route_point_to_point-IsGoodPiece :
      0 < max_seg
      → max_seg * max_seg ≤ dist_squared p q
      → All (IsGoodPiece width layer net max_seg) (route_point_to_point p q width layer net max_seg)
  unfolding route_point_to_point
  route_point_to_point-IsGoodPiece pos long =
      All-imp _ _ (IsPiece-IsGoodPiece pos long) _
        (route_from-IsPiece p q width layer net _ (pieces p q max_seg) 0 (omega arith))

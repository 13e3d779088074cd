-- ===== src/Routing/Trace.antt =====
-- hardware/cirradio-devboard/gen_pcb_routing.py: `route_point_to_point` and the records that the
-- generators emit. Lengths are in micrometres, with no rounding: an end point of a segment is a
-- fraction, its numerators over the number of pieces of the route. `int(dist / max_seg)` is exact.
pub mod Laws
use cirradio.Prelude.{
  ℕ, zero, suc, ◌+◌, ◌-◌, ◌*◌, max, Bool, List, [], ◌∷◌, map, leb, ltb, if◌then◌else◌, Text,
}

pub data Copper : Type 0 where
  f_cu in2_cu in4_cu in5_cu in6_cu in8_cu b_cu : Copper

pub record Point : Type 0 where
  pub x : ℕ
  pub y : ℕ

-- (segment (start ...) (end ...)), with the ends over `parts`
pub record Segment : Type 0 where
  pub start : Point
  pub finish : Point
  pub parts : ℕ
  pub width : ℕ
  pub layer : Copper
  pub net_num : ℕ

-- |a - b|
abbrev pub gap : ℕ → ℕ → ℕ
gap a b = a - b + (b - a)

-- dx * dx + dy * dy
unfoldable pub dist_squared : Point → Point → ℕ
dist_squared p q = gap p.x q.x * gap p.x q.x + gap p.y q.y * gap p.y q.y

-- The largest k with (k * max_seg) ^ 2 <= d, found by counting up.
unfoldable pub count_pieces : ℕ → ℕ → ℕ → ℕ → ℕ
count_pieces zero max_seg d k = k
count_pieces (suc fuel) max_seg d k =
    let more = count_pieces fuel max_seg d (suc k) in
    if leb (suc k * max_seg * (suc k * max_seg)) d then more else k

-- n = max(1, int(dist / max_seg))
unfoldable pub pieces : Point → Point → ℕ → ℕ
unfolding count_pieces
pieces p q max_seg = max 1 (count_pieces (suc (dist_squared p q)) max_seg (dist_squared p q) 0)

-- a + (b - a) * i / n, as a numerator over n
unfoldable pub along : ℕ → ℕ → ℕ → ℕ → ℕ
along a b n i = if leb a b then a * n + (b - a) * i else a * n - (a - b) * i

unfoldable pub point_along : Point → Point → ℕ → ℕ → Point
unfolding along
point_along p q n i = record { x = along p.x q.x n i; y = along p.y q.y n i }

-- The pieces from number `i` on, of which `rest` are left.
unfoldable pub route_from : Point → Point → ℕ → Copper → ℕ → ℕ → ℕ → ℕ → List Segment
unfolding point_along
route_from p q width layer net_num n zero i = []
route_from p q width layer net_num n (suc rest) i =
    record {
      start = point_along p q n i;
      finish = point_along p q n (suc i);
      parts = n;
      width = width;
      layer = layer;
      net_num = net_num;
    }
    ∷ route_from p q width layer net_num n rest (suc i)

unfoldable pub route_point_to_point : Point → Point → ℕ → Copper → ℕ → ℕ → List Segment
unfolding route_from pieces
route_point_to_point p q width layer net_num max_seg =
    let n = pieces p q max_seg in route_from p q width layer net_num n n 0

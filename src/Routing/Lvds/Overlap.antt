-- ===== src/Routing/Lvds/Overlap.antt =====
-- The frame and clock pairs of the LVDS interface lie on top of each other.
use mathlib.Core.List.{map-append}
use cirradio.Prelude.{
  ℕ, zero, suc, ◌≡◌, ◌≢◌, refl, false, List, [], ◌∷◌, ◌++◌, map, Text, codes, ◌==◌, length, All,
  arith,
}
use cirradio.Routing.Trace.{Copper, in2_cu, Point, route_from, route_point_to_point}
use cirradio.Routing.Entry.{Entry, comment, trace, via, Nets, net_or_0, traces_by, traces, at}
use cirradio.Routing.Lvds.{straight_pair, straight_pairs}

-- The track of an entry: the trace without its net.
abbrev pub track : Entry → Entry
track (comment t) = comment t
track (trace s) = trace (record s { net_num = 0 })
track (via p net) = via p 0

route_from-track :
    (p q : Point) (width : ℕ) (layer : Copper) (net n rest i : ℕ)
    → map track (map trace (route_from p q width layer net n rest i))
      ≡ map trace (route_from p q width layer 0 n rest i)
unfolding route_from
route_from-track p q width layer net n zero i = refl
route_from-track p q width layer net n (suc rest) i =
    rw (route_from-track p q width layer net n rest (suc i))

traces-track :
    (p q : Point) (width : ℕ) (layer : Copper) (net : ℕ)
    → map track (traces p q width layer net) ≡ traces p q width layer 0
unfolding traces_by route_point_to_point
traces-track p q width layer net = route_from-track p q width layer net _ _ 0

ne-zero : (n : ℕ) → n ≢ 0 → (n == 0) ≡ false
ne-zero n h = ground arith

-- Both nets of the pair are on the board.
pub record HasPair (nets : Nets) (base : Text) : Type 0 where
  pub has_p : net_or_0 nets (base ++ codes "_P") ≢ 0
  pub has_n : net_or_0 nets (base ++ codes "_N") ≢ 0

-- The tracks of a pair at x = 88 mm and x = 88.2 mm, from y = 21 mm to y = 40 mm on In2.Cu.
pub shared_tracks : List Entry
shared_tracks =
    traces (at 88000 21000) (at 88000 40000) 120 in2_cu 0
    ++ traces (at 88200 21000) (at 88200 40000) 120 in2_cu 0

straight_pair-track :
    (nets : Nets) (base : Text)
    → HasPair nets base
    → map track (straight_pair nets base 88000) ≡ shared_tracks
unfolding straight_pair shared_tracks
straight_pair-track nets base h =
    let p = base ++ codes "_P" in
    let n = base ++ codes "_N" in
    rw (ne-zero _ h.has_p, ne-zero _ h.has_n)
      (rw map-append (rw traces-track (rw traces-track refl)))

pub copies : ℕ → List Entry → List Entry
copies zero entries = []
copies (suc n) entries = entries ++ copies n entries

-- Whatever the pairs are called, as long as their nets exist, each of them is drawn on the same two
-- tracks: the pairs lie on top of each other, and nets that are not connected touch.
straight_pairs-copies :
    (nets : Nets) (x_base : ℕ) (bases : List Text)
    → All (HasPair nets) bases
    → map track (straight_pairs nets x_base bases) ≡ copies (length bases) shared_tracks
unfolding straight_pairs copies
straight_pairs-copies nets x_base [] h = refl
straight_pairs-copies nets x_base (base ∷ bases) h =
    rw (map-append, straight_pair-track nets base h.0, straight_pairs-copies nets 89500 bases h.1)

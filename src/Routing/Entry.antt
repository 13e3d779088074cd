-- ===== src/Routing/Entry.antt =====
-- hardware/cirradio-devboard/gen_pcb_routing.py: what the generators append to `entries`, and the
-- look-up of nets.
pub mod Wiring
use cirradio.Prelude.{ℕ, ◌+◌, ◌*◌, ◌≤◌, ◌<◌, ◌≡◌, List, map, Text, Dict, get, or_else, some, All}
use cirradio.Routing.Trace.{Copper, Point, Segment, route_point_to_point}

pub data Entry : Type 0 where
  comment : Text → Entry
  trace : Segment → Entry
  via : Point → ℕ → Entry

-- Net names to net numbers, as `parse_nets` returns them.
abbrev pub Nets : Type 0
Nets = Dict ℕ

-- nets.get(name, 0)
unfoldable pub net_or_0 : Nets → Text → ℕ
unfolding get
net_or_0 nets name = or_else (get name nets) 0

-- entries.extend(route_point_to_point(..., max_seg))
unfoldable pub traces_by : ℕ → Point → Point → ℕ → Copper → ℕ → List Entry
traces_by max_seg p q width layer net = map trace (route_point_to_point p q width layer net max_seg)

-- The same with the default max_seg=5.0
abbrev pub traces : Point → Point → ℕ → Copper → ℕ → List Entry
traces = traces_by 5000

abbrev pub at : ℕ → ℕ → Point
at x y = record { x = x; y = y }

-- The net of the segment is the number of some name, and not 0.
pub record IsConnected (nets : Nets) (net : ℕ) : Type 0 where
  pub name : Text
  pub known : get name nets ≡ some net
  pub nonzero : 0 < net

-- The point, over the number of parts, lies on the board of 160 mm by 100 mm.
pub record OnBoard (parts : ℕ) (p : Point) : Type 0 where
  pub x_bound : p.x ≤ 160000 * parts
  pub y_bound : p.y ≤ 100000 * parts

-- The segment belongs to a net of the board, and lies on the board.
pub record IsWired (nets : Nets) (s : Segment) : Type 0 where
  pub connected : IsConnected nets s.net_num
  pub start_on : OnBoard s.parts s.start
  pub finish_on : OnBoard s.parts s.finish

abbrev pub Wired : Nets → Entry → Type 0
Wired nets (comment t) = Unit
Wired nets (trace s) = IsWired nets s
Wired nets (via p net) = IsConnected nets net × OnBoard 1 p

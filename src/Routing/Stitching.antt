-- ===== src/Routing/Stitching.antt =====
-- hardware/cirradio-devboard/gen_pcb_routing.py: `gen_perimeter_via_stitching`, in micrometres.
pub mod Grid
use cirradio.Prelude.{
  ℕ, zero, suc, ◌+◌, ◌-◌, List, [], ◌∷◌, ◌++◌, map, leb, if◌then◌else◌, codes, get, or_else,
}
use cirradio.Routing.Trace.{Point}
use cirradio.Routing.Entry.{Entry, comment, via, Nets, at}

abbrev board_w : ℕ
board_w = 160000

abbrev board_h : ℕ
board_h = 100000

abbrev spacing : ℕ
spacing = 2000

-- BOARD_MARGIN + 1.0
abbrev inset : ℕ
inset = 4000

-- `while v <= limit: ...; v += spacing`: the values of v. The fuel is a bound on the rounds.
unfoldable pub stops : ℕ → ℕ → ℕ → List ℕ
stops zero v limit = []
stops (suc fuel) v limit =
    let more = stops fuel (v + spacing) limit in if leb v limit then v ∷ more else []

-- One more round than there are values up to the limit.
abbrev pub walk : ℕ → ℕ → List ℕ
walk v limit = stops (suc limit) v limit

-- The top edge, the bottom edge, the left edge and the right edge.
unfoldable pub positions : List Point
positions =
    map (λ x. at x inset) (walk inset (board_w - inset))
    ++ (map (λ x. at x (board_h - inset)) (walk inset (board_w - inset))
        ++ (map (λ y. at inset y) (walk (inset + spacing) (board_h - inset - spacing))
            ++ map (λ y. at (board_w - inset) y)
                (walk (inset + spacing) (board_h - inset - spacing))))

unfoldable pub gen_perimeter_via_stitching : Nets → List Entry
unfolding positions
gen_perimeter_via_stitching nets =
    let gnd_net = or_else (get (codes "GND") nets) 1 in
    comment (codes "  ; Board perimeter ground via stitching (every 2mm)")
    ∷ map (λ p. via p gnd_net) positions

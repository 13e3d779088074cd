-- ===== src/Placement/Zone.antt =====
-- hardware/cirradio-devboard/gen_pcb_placement.py: class `Zone`, in micrometres.
pub mod Bounds
pub mod Packing
use cirradio.Prelude.{ℕ, ◌+◌, ◌/◌, max, Option, none, some, ltb, if◌then◌else◌}

pub data Layer : Type 0 where
  front back : Layer

pub record Zone : Type 0 where
  pub x_min : ℕ
  pub y_min : ℕ
  pub x_max : ℕ
  pub y_max : ℕ
  pub cursor_x : ℕ
  pub cursor_y : ℕ
  pub row_height : ℕ

-- A placement: the centre, the rotation in degrees, and the copper layer.
pub record Spot : Type 0 where
  pub x : ℕ
  pub y : ℕ
  pub rotation : ℕ
  pub layer : Layer

-- `Zone.__init__`
unfoldable pub new_zone : ℕ → ℕ → ℕ → ℕ → Zone
new_zone x_min y_min x_max y_max = record {
  x_min = x_min;
  y_min = y_min;
  x_max = x_max;
  y_max = y_max;
  cursor_x = x_min + 1000;
  cursor_y = y_min + 1000;
  row_height = 0;
}

abbrev pub margin : ℕ
margin = 500

-- The first `if` of `place`: start a new row where the part does not fit in the current one.
unfoldable pub next_row : Zone → ℕ → Zone
next_row z needed_w =
    if ltb z.x_max (z.cursor_x + needed_w)
    then record z {
      cursor_x = z.x_min + 1000;
      cursor_y = z.cursor_y + (z.row_height + margin);
      row_height = 0;
    }
    else z

-- The rest of `place`, on the zone that `next_row` leaves.
unfoldable pub put : Zone → ℕ → ℕ → Option Spot × Zone
put z w h = if ltb z.y_max (z.cursor_y + (h + margin)) then (none, z) else (
  some (record { x = z.cursor_x + w / 2; y = z.cursor_y + h / 2; rotation = 0; layer = front }),
  record z { cursor_x = z.cursor_x + (w + margin); row_height = max z.row_height (h + margin) },
)

-- `Zone.place`: the result, and the zone with its cursor moved.
unfoldable pub place : Zone → ℕ → ℕ → Option Spot × Zone
unfolding next_row put
place z w h = put (next_row z (w + margin)) w h

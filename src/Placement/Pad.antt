-- ===== src/Placement/Pad.antt =====
-- hardware/cirradio-devboard/gen_pcb_placement.py: a pad of a footprint, in micrometres.
use cirradio.Prelude.{ℕ, Option, Text, ℤ}

pub data Mount : Type 0 where
  smd thru_hole : Mount

pub data Shape : Type 0 where
  rect roundrect circle oval : Shape

-- "F.Cu" and "*.Cu"
pub data PadLayers : Type 0 where
  front_copper all_copper : PadLayers

-- (pad_num, pad_type, shape, x, y, sx, sy, drill, layers)
pub record Pad : Type 0 where
  pub pad_num : Text
  pub pad_type : Mount
  pub shape : Shape
  pub x : ℤ
  pub y : ℤ
  pub sx : ℕ
  pub sy : ℕ
  pub drill : Option ℕ
  pub layers : PadLayers

abbrev pub pad : Text → Mount → Shape → ℤ → ℤ → ℕ → ℕ → Option ℕ → PadLayers → Pad
pad pad_num pad_type shape x y sx sy drill layers = record {
  pad_num = pad_num;
  pad_type = pad_type;
  shape = shape;
  x = x;
  y = y;
  sx = sx;
  sy = sy;
  drill = drill;
  layers = layers;
}

-- ===== src/Sheet/Connect.antt =====
-- hardware/cirradio-devboard/gen_connectors.py: the sections of the sheet, in the order of `main`.
pub mod Header
pub mod Indicators
pub mod Points
use cirradio.Prelude.{ℕ, List, Text, codes}
use cirradio.Sheet.{
  Series, Step, ◌>>◌, State, cap_idx, res_idx, pwr_idx, led_idx, btn_idx, tp_idx, conn_idx,
}
use cirradio.Sheet.Print.{Heading}
use cirradio.Sheet.Connect.Header.{gpio_header}
use cirradio.Sheet.Connect.Indicators.{status_leds, user_buttons}
use cirradio.Sheet.Connect.Points.{test_points, board_id}

-- The counters that the generator starts from; it has no others.
unfoldable pub connect_idx : Series → ℕ
connect_idx cap_idx = 200
connect_idx res_idx = 200
connect_idx pwr_idx = 200
connect_idx led_idx = 1
connect_idx btn_idx = 1
connect_idx tp_idx = 1
connect_idx conn_idx = 10
connect_idx s = 0

abbrev pub connect_heading : Heading
connect_heading = record {
  generator = codes "cirradio_gen_connectors";
  title = codes "CIRRADIO Dev Board - Connectors & Debug";
  comment_1 = codes "GPIO header, status LEDs, user buttons, test points";
  comment_2 = codes "Matches Zynq PL Bank 12 hierarchical labels";
}

unfoldable pub connect_sheet : List Step
unfolding gpio_header status_leds user_buttons test_points board_id
connect_sheet = do gpio_header; status_leds; user_buttons; test_points; board_id

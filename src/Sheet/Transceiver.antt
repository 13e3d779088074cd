-- ===== src/Sheet/Transceiver.antt =====
-- hardware/cirradio-devboard/gen_ad9361.py: the sections of the sheet, in the order of `main`.
pub mod Digital
pub mod Clock
pub mod Power
use cirradio.Prelude.{ℕ, List, Text, codes}
use cirradio.Sheet.{Series, Step, ◌>>◌, State, cap_idx, res_idx, pwr_idx, u_idx}
use cirradio.Sheet.Print.{Heading}
use cirradio.Sheet.Transceiver.Digital.{lvds_interface, spi_control}
use cirradio.Sheet.Transceiver.Clock.{rf_clock}
use cirradio.Sheet.Transceiver.Power.{power_unit, decoupling}

-- The counters that the generator starts from; it has no others.
unfoldable pub transceiver_idx : Series → ℕ
transceiver_idx cap_idx = 200
transceiver_idx res_idx = 200
transceiver_idx pwr_idx = 200
transceiver_idx u_idx = 11
transceiver_idx s = 0

abbrev pub transceiver_heading : Heading
transceiver_heading = record {
  generator = codes "cirradio_gen_ad9361";
  title = codes "CIRRADIO Dev Board - AD9361 RF Transceiver + LVDS Interface";
  comment_1 = codes "AD9361BBCZ with OCXO, LVDS, SPI, control, RF ports, power";
  comment_2 = codes "4 units: LVDS, SPI+Control, RF+Clock, Power";
}

unfoldable pub transceiver_sheet : List Step
unfolding lvds_interface spi_control rf_clock power_unit decoupling
transceiver_sheet = do lvds_interface; spi_control; rf_clock; power_unit; decoupling

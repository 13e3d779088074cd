-- ===== src/Sheet/Peripherals.antt =====
-- hardware/cirradio-devboard/gen_peripherals.py: the sections of the sheet, in the order of `main`.
pub mod Storage
pub mod Usb
pub mod Ethernet
pub mod Gps
pub mod MicroSd
use cirradio.Prelude.{ℕ, List, Text, codes, pos}
use cirradio.Sheet.{
  Series, Step, ◌>>◌, State, cap_idx, res_idx, pwr_idx, ic_idx, conn_idx, crystal_idx,
}
use cirradio.Sheet.Print.{Heading}
use cirradio.Sheet.Peripherals.Storage.{build_qspi, build_emmc}
use cirradio.Sheet.Peripherals.Usb.{build_usb_phy, build_uart_usb}
use cirradio.Sheet.Peripherals.Ethernet.{build_ethernet}
use cirradio.Sheet.Peripherals.Gps.{build_gps, generate_tamper_section}
use cirradio.Sheet.Peripherals.MicroSd.{build_microsd}

-- The counters that the generator starts from; it has no others.
unfoldable pub peripherals_idx : Series → ℕ
peripherals_idx cap_idx = 200
peripherals_idx res_idx = 200
peripherals_idx pwr_idx = 200
peripherals_idx ic_idx = 10
peripherals_idx conn_idx = 10
peripherals_idx crystal_idx = 10
peripherals_idx s = 0

abbrev pub peripherals_heading : Heading
peripherals_heading = record {
  generator = codes "cirradio_gen_peripherals";
  title = codes "CIRRADIO Dev Board - Peripherals";
  comment_1 = codes "QSPI, eMMC, USB PHY, Ethernet PHY, UART-USB, GPS, Micro-SD";
  comment_2 = codes "Hierarchical labels match Zynq MIO assignments";
}

unfoldable pub peripherals_sheet : List Step
unfolding build_qspi build_emmc build_usb_phy build_uart_usb build_ethernet build_gps
    generate_tamper_section build_microsd
peripherals_sheet = do
  build_qspi (pos 30000) (pos 20000)
  build_emmc (pos 200000) (pos 20000)
  build_usb_phy (pos 30000) (pos 120000)
  build_ethernet (pos 200000) (pos 120000)
  build_uart_usb (pos 30000) (pos 280000)
  build_gps (pos 200000) (pos 280000)
  build_microsd (pos 30000) (pos 400000)
  generate_tamper_section (pos 30000) (pos 500000)

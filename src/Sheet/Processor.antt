-- ===== src/Sheet/Processor.antt =====
-- hardware/cirradio-devboard/gen_zynq.py: the sections of the sheet, in the order of `main`.
pub mod Config
pub mod Jtag
pub mod Mio
pub mod Memory
pub mod Banks
pub mod SpareBanks
pub mod Power
use cirradio.Prelude.{ℕ, List, Text, codes}
use cirradio.Sheet.{Series, Step, ◌>>◌, State, cap_idx, res_idx, pwr_idx}
use cirradio.Sheet.Print.{Heading}
use cirradio.Sheet.Processor.Config.{processor_config, done_and_program}
use cirradio.Sheet.Processor.Jtag.{jtag_header}
use cirradio.Sheet.Processor.Mio.{mio_unit}
use cirradio.Sheet.Processor.Memory.{memory_unit}
use cirradio.Sheet.Processor.Banks.{bank_33, bank_34}
use cirradio.Sheet.Processor.SpareBanks.{bank_13, bank_12, spare_unit}
use cirradio.Sheet.Processor.Power.{processor_power, processor_decoupling}

-- The counters that the generator starts from; it has no others.
unfoldable pub processor_idx : Series → ℕ
processor_idx cap_idx = 100
processor_idx res_idx = 100
processor_idx pwr_idx = 100
processor_idx s = 0

abbrev pub processor_heading : Heading
processor_heading = record {
  generator = codes "cirradio_gen_zynq";
  title = codes "CIRRADIO Dev Board - Zynq-7045 SoC";
  comment_1 = codes "Zynq-7045 with boot config, clocking, JTAG, decoupling";
  comment_2 = codes "9 units: PS Config, PS MIO, PS DDR, PL Banks 33/34/13/12, Spare, Power";
}

unfoldable pub processor_sheet : List Step
unfolding processor_config done_and_program jtag_header mio_unit memory_unit bank_33 bank_34 bank_13
    bank_12 spare_unit processor_power processor_decoupling
processor_sheet = do
  processor_config
  done_and_program
  jtag_header
  mio_unit
  memory_unit
  bank_33
  bank_34
  bank_13
  bank_12
  spare_unit
  processor_power
  processor_decoupling

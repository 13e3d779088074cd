-- ===== src/Sheet/Pages.antt =====
-- hardware/cirradio-devboard/gen_zynq.py, gen_ddr3l.py, gen_ad9361.py, gen_rf.py,
-- gen_peripherals.py, gen_connectors.py: the sheets that the board is made of, each with the state
-- that its generator starts from.
use cirradio.Prelude.{ℕ, List, []}
use cirradio.Sheet.{Series, Step, State}
use cirradio.Sheet.Print.{Heading}
use cirradio.Sheet.Processor.{processor_idx, processor_heading, processor_sheet}
use cirradio.Sheet.Memory.{memory_idx, memory_heading, memory_sheet}
use cirradio.Sheet.Transceiver.{transceiver_idx, transceiver_heading, transceiver_sheet}
use cirradio.Sheet.Radio.{radio_idx, radio_heading, radio_sheet}
use cirradio.Sheet.Peripherals.{peripherals_idx, peripherals_heading, peripherals_sheet}
use cirradio.Sheet.Connect.{connect_idx, connect_heading, connect_sheet}

pub data Page : Type 0 where
  gen_zynq gen_ddr3l gen_ad9361 gen_rf gen_peripherals gen_connectors : Page

abbrev pub page_idx : Page → Series → ℕ
page_idx gen_zynq = processor_idx
page_idx gen_ddr3l = memory_idx
page_idx gen_ad9361 = transceiver_idx
page_idx gen_rf = radio_idx
page_idx gen_peripherals = peripherals_idx
page_idx gen_connectors = connect_idx

abbrev pub page_heading : Page → Heading
page_heading gen_zynq = processor_heading
page_heading gen_ddr3l = memory_heading
page_heading gen_ad9361 = transceiver_heading
page_heading gen_rf = radio_heading
page_heading gen_peripherals = peripherals_heading
page_heading gen_connectors = connect_heading

abbrev pub page_sheet : Page → List Step
page_sheet gen_zynq = processor_sheet
page_sheet gen_ddr3l = memory_sheet
page_sheet gen_ad9361 = transceiver_sheet
page_sheet gen_rf = radio_sheet
page_sheet gen_peripherals = peripherals_sheet
page_sheet gen_connectors = connect_sheet

-- The global variables of a generator as `main` starts.
unfoldable pub page_start : Page → State
page_start page = record { idx = page_idx page; counts = λ t. 0; entries = [] }

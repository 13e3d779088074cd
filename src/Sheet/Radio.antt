-- ===== src/Sheet/Radio.antt =====
-- hardware/cirradio-devboard/gen_rf.py: the sections of the sheet, in the order of `main`.
pub mod Antenna
pub mod Receive
pub mod Transmit
pub mod Output
use cirradio.Prelude.{ℕ, List, Text, codes}
use cirradio.Sheet.{Series, Step, ◌>>◌, State, cap_idx, ind_idx, res_idx, pwr_idx, u_idx}
use cirradio.Sheet.Print.{Heading}
use cirradio.Sheet.Radio.Antenna.{antenna, input_filter, switch}
use cirradio.Sheet.Radio.Receive.{amplifier, saw_filter, receive_coupling}
use cirradio.Sheet.Radio.Transmit.{transmit_coupling, driver}
use cirradio.Sheet.Radio.Output.{power_amplifier, harmonic_filter, notes}

-- The counters that the generator starts from; it has no others.
unfoldable pub radio_idx : Series → ℕ
radio_idx cap_idx = 300
radio_idx ind_idx = 300
radio_idx res_idx = 300
radio_idx pwr_idx = 300
radio_idx u_idx = 10
radio_idx s = 0

abbrev pub radio_heading : Heading
radio_heading = record {
  generator = codes "cirradio_gen_rf";
  title = codes "CIRRADIO Dev Board - RF Front-End";
  comment_1 = codes "225-512 MHz UHF: SMA, BPF, T/R switch, LNA, SAW, TX driver, PA, harmonic LPF";
  comment_2 = codes "PE42525 + ADL5523 + ADL5606 + TGA2594-SM";
}

unfoldable pub radio_sheet : List Step
unfolding antenna input_filter switch amplifier saw_filter receive_coupling transmit_coupling driver
    power_amplifier harmonic_filter notes
radio_sheet = do
  antenna
  input_filter
  switch
  amplifier
  saw_filter
  receive_coupling
  transmit_coupling
  driver
  power_amplifier
  harmonic_filter
  notes

-- ===== src/Sheet/Radio/Output.antt =====
-- hardware/cirradio-devboard/gen_rf.py: the power amplifier and what follows it.
use cirradio.Prelude.{List, codes, pos, ℤ, ◌+ℤ◌, ◌-ℤ◌, words}
use cirradio.Sheet.{
  Step, cap, global_label, inductor, next, passive, power_symbol, symbol_instance, text_note, u_idx,
  wire, ◌>>◌,
}

-- The power amplifier.
unfoldable pub power_amplifier : List Step
unfolding ◌+ℤ◌ ◌-ℤ◌
power_amplifier = do
  let drv_x : ℤ = pos 195000
  let drv_y : ℤ = pos 107000
  text_note (codes "TX PA TGA2594-SM (+37 dBm / 5W)") (pos 245000) (pos 90000) (pos 2000)
  text_note (codes "GaAs pHEMT power amplifier, VDD=+5V_PA") (pos 245000) (pos 94000) (pos 1270)
  let pa_x : ℤ = pos 260000
  let pa_y : ℤ = pos 107000
  symbol_instance (codes "cirradio:TGA2594-SM") (next u_idx) (codes "TGA2594-SM") pa_x pa_y 1 0
      (codes "cirradio:TGA2594-SM") ((words "1 2 3 4 5 6 7 8 9 10"))
  wire pa_x (pa_y +ℤ pos 11430) pa_x (pa_y +ℤ pos 15000)
  power_symbol (codes "GND") pa_x (pa_y +ℤ pos 15000) 0
  let pa_vdd_y : ℤ = pa_y -ℤ pos 11430
  wire pa_x pa_vdd_y pa_x (pa_vdd_y -ℤ pos 3000)
  global_label (codes "+5V_PA") pa_x (pa_vdd_y -ℤ pos 3000) passive 0
  wire (pa_x +ℤ pos 8000) (pa_vdd_y -ℤ pos 3000) (pa_x +ℤ pos 8000) pa_vdd_y
  cap (codes "10u") (pa_x +ℤ pos 8000) (pa_vdd_y +ℤ pos 4000) 0
      (codes "Capacitor_SMD:C_0805_2012Metric")
  wire (pa_x +ℤ pos 8000) (pa_vdd_y +ℤ pos 7810) (pa_x +ℤ pos 8000) (pa_vdd_y +ℤ pos 10000)
  power_symbol (codes "GND") (pa_x +ℤ pos 8000) (pa_vdd_y +ℤ pos 10000) 0
  wire pa_x (pa_vdd_y -ℤ pos 3000) (pa_x +ℤ pos 8000) (pa_vdd_y -ℤ pos 3000)
  wire (pa_x +ℤ pos 14000) (pa_vdd_y -ℤ pos 3000) (pa_x +ℤ pos 14000) pa_vdd_y
  cap (codes "100n") (pa_x +ℤ pos 14000) (pa_vdd_y +ℤ pos 4000) 0
      (codes "Capacitor_SMD:C_0402_1005Metric")
  wire (pa_x +ℤ pos 14000) (pa_vdd_y +ℤ pos 7810) (pa_x +ℤ pos 14000) (pa_vdd_y +ℤ pos 10000)
  power_symbol (codes "GND") (pa_x +ℤ pos 14000) (pa_vdd_y +ℤ pos 10000) 0
  wire (pa_x +ℤ pos 8000) (pa_vdd_y -ℤ pos 3000) (pa_x +ℤ pos 14000) (pa_vdd_y -ℤ pos 3000)
  wire (pa_x +ℤ pos 20000) (pa_vdd_y -ℤ pos 3000) (pa_x +ℤ pos 20000) pa_vdd_y
  cap (codes "10n") (pa_x +ℤ pos 20000) (pa_vdd_y +ℤ pos 4000) 0
      (codes "Capacitor_SMD:C_0402_1005Metric")
  wire (pa_x +ℤ pos 20000) (pa_vdd_y +ℤ pos 7810) (pa_x +ℤ pos 20000) (pa_vdd_y +ℤ pos 10000)
  power_symbol (codes "GND") (pa_x +ℤ pos 20000) (pa_vdd_y +ℤ pos 10000) 0
  wire (pa_x +ℤ pos 14000) (pa_vdd_y -ℤ pos 3000) (pa_x +ℤ pos 20000) (pa_vdd_y -ℤ pos 3000)
  wire (drv_x +ℤ pos 25000) (drv_y +ℤ pos 10160) (pa_x -ℤ pos 15000) (pa_y +ℤ pos 5080)
  wire (pa_x -ℤ pos 15000) (pa_y +ℤ pos 5080) (pa_x -ℤ pos 10160) (pa_y +ℤ pos 5080)
  wire (pa_x +ℤ pos 10160) (pa_y +ℤ pos 5080) (pa_x +ℤ pos 20000) (pa_y +ℤ pos 5080)

-- The harmonic filter.
unfoldable pub harmonic_filter : List Step
unfolding ◌+ℤ◌
harmonic_filter = do
  let sw_x : ℤ = pos 135000
  let sw_y : ℤ = pos 45000
  let tx_path_x : ℤ = sw_x +ℤ pos 10160
  let pa_x : ℤ = pos 260000
  let pa_y : ℤ = pos 107000
  text_note (codes "HARMONIC LPF (Chebyshev)") (pos 300000) (pos 90000) (pos 2000)
  text_note (codes "3-element: 33pF shunt - 27nH series - 33pF shunt") (pos 300000) (pos 94000)
      (pos 1270)
  let lpf_x : ℤ = pa_x +ℤ pos 20000
  let lpf_y : ℤ = pa_y +ℤ pos 5080
  wire lpf_x lpf_y lpf_x (lpf_y +ℤ pos 3000)
  cap (codes "33p") lpf_x (lpf_y +ℤ pos 7000) 0 (codes "Capacitor_SMD:C_0402_1005Metric")
  wire lpf_x (lpf_y +ℤ pos 10810) lpf_x (lpf_y +ℤ pos 13000)
  power_symbol (codes "GND") lpf_x (lpf_y +ℤ pos 13000) 0
  wire lpf_x lpf_y (lpf_x +ℤ pos 5000) lpf_y
  inductor (codes "27n") (lpf_x +ℤ pos 10000) lpf_y 90 (codes "Inductor_SMD:L_0402_1005Metric")
  wire (lpf_x +ℤ pos 10000 +ℤ pos 3810) lpf_y (lpf_x +ℤ pos 20000) lpf_y
  wire (lpf_x +ℤ pos 20000) lpf_y (lpf_x +ℤ pos 20000) (lpf_y +ℤ pos 3000)
  cap (codes "33p") (lpf_x +ℤ pos 20000) (lpf_y +ℤ pos 7000) 0
      (codes "Capacitor_SMD:C_0402_1005Metric")
  wire (lpf_x +ℤ pos 20000) (lpf_y +ℤ pos 10810) (lpf_x +ℤ pos 20000) (lpf_y +ℤ pos 13000)
  power_symbol (codes "GND") (lpf_x +ℤ pos 20000) (lpf_y +ℤ pos 13000) 0
  wire (lpf_x +ℤ pos 20000) lpf_y (lpf_x +ℤ pos 30000) lpf_y
  wire (lpf_x +ℤ pos 30000) lpf_y (lpf_x +ℤ pos 30000) (sw_y +ℤ pos 60000)
  wire (lpf_x +ℤ pos 30000) (sw_y +ℤ pos 60000) (tx_path_x +ℤ pos 5000) (sw_y +ℤ pos 60000)

-- The notes on routing.
unfoldable pub notes : List Step
notes = do
  text_note (codes "RF ROUTING NOTES") (pos 30000) (pos 150000) (pos 2000)
  text_note (codes "- All RF traces: 50 ohm controlled impedance (microstrip or CPWG)") (pos 30000)
      (pos 155000) (pos 1270)
  text_note (codes "- Keep RF traces short, minimize vias in signal path") (pos 30000) (pos 159000)
      (pos 1270)
  text_note (codes "- Ground plane continuous under all RF sections") (pos 30000) (pos 163000)
      (pos 1270)
  text_note (codes "- T/R switch PE42525: place close to antenna SMA") (pos 30000) (pos 167000)
      (pos 1270)
  text_note (codes "- LNA input: minimize trace length from T/R switch for NF") (pos 30000)
      (pos 171000) (pos 1270)
  text_note (codes "- PA output: wide traces, thermal relief on VDD") (pos 30000) (pos 175000)
      (pos 1270)
  text_note (codes "- BPF/LPF components: tight placement, minimize parasitic inductance")
      (pos 30000) (pos 179000) (pos 1270)
  text_note (codes "- RX/TX isolation: physical separation, guard traces with via fencing")
      (pos 30000) (pos 183000) (pos 1270)
  text_note (codes "- Decoupling caps: place as close to IC power pins as possible") (pos 30000)
      (pos 187000) (pos 1270)
  text_note (codes "- AD9361 interface: matched-length differential pairs") (pos 30000) (pos 191000)
      (pos 1270)

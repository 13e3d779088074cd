-- ===== src/Sheet/Peripherals/Gps.antt =====
-- hardware/cirradio-devboard/gen_peripherals.py: the GPS receiver and the tamper inputs.
use cirradio.Prelude.{List, [], codes, pos, ℤ, ◌+ℤ◌, ◌-ℤ◌, words}
use cirradio.Sheet.{
  Step, cap, conn_idx, connectors, global_label, hier_label, ic_idx, ics, next, no_connect, pins_2,
  power_symbol, resistor, symbol_instance, tallied, text_note, wire, ◌>>◌,
}

-- Section 6: GPS MAX-M10S.
unfoldable pub build_gps : ℤ → ℤ → List Step
unfolding ◌+ℤ◌ ◌-ℤ◌
build_gps base_x base_y = do
  text_note (codes "GPS RECEIVER - MAX-M10S") base_x (base_y -ℤ pos 5000) (pos 2000)
  text_note (codes "UART mode, 1PPS output, U.FL antenna") base_x base_y (pos 1270)
  let ux : ℤ = base_x +ℤ pos 50000
  let uy : ℤ = base_y +ℤ pos 30000
  tallied ics
  symbol_instance (codes "cirradio:MAX-M10S") (next ic_idx) (codes "MAX-M10S") ux uy 1 0
      (codes "cirradio:LCC-16_MAX-M10S") ((words "9 1 3 6 5 4 10 8 11 14 13"))
  power_symbol (codes "+3V3A") ux (uy -ℤ pos 22000) 0
  wire ux (uy -ℤ pos 16510) ux (uy -ℤ pos 22000)
  cap (codes "100n") (ux +ℤ pos 8000) (uy -ℤ pos 22000) 0 (codes "Capacitor_SMD:C_0402_1005Metric")
  power_symbol (codes "+3V3A") (ux +ℤ pos 8000) (uy -ℤ pos 27000) 0
  wire (ux +ℤ pos 8000) (uy -ℤ pos 25810) (ux +ℤ pos 8000) (uy -ℤ pos 27000)
  power_symbol (codes "GND") (ux +ℤ pos 8000) (uy -ℤ pos 17000) 0
  wire (ux +ℤ pos 8000) (uy -ℤ pos 18190) (ux +ℤ pos 8000) (uy -ℤ pos 17000)
  cap (codes "10u") (ux +ℤ pos 14000) (uy -ℤ pos 22000) 0 (codes "Capacitor_SMD:C_0805_2012Metric")
  power_symbol (codes "+3V3A") (ux +ℤ pos 14000) (uy -ℤ pos 27000) 0
  wire (ux +ℤ pos 14000) (uy -ℤ pos 25810) (ux +ℤ pos 14000) (uy -ℤ pos 27000)
  power_symbol (codes "GND") (ux +ℤ pos 14000) (uy -ℤ pos 17000) 0
  wire (ux +ℤ pos 14000) (uy -ℤ pos 18190) (ux +ℤ pos 14000) (uy -ℤ pos 17000)
  power_symbol (codes "GND") ux (uy +ℤ pos 22000) 0
  wire ux (uy +ℤ pos 16510) ux (uy +ℤ pos 22000)
  let ufl_x : ℤ = ux -ℤ pos 25000
  tallied connectors
  symbol_instance (codes "Connector:Conn_Coaxial") (next conn_idx) (codes "U.FL_GPS") ufl_x
      (uy +ℤ pos 10160) 1 0 (codes "Connector_Coaxial:U.FL_Hirose_U.FL-R-SMT-1_Vertical") pins_2
  wire (ufl_x +ℤ pos 3810) (uy +ℤ pos 10160) (ux -ℤ pos 12700) (uy +ℤ pos 10160)
  power_symbol (codes "GND") ufl_x (uy +ℤ pos 17000) 0
  wire ufl_x (uy +ℤ pos 13970) ufl_x (uy +ℤ pos 17000)
  let hl_x : ℤ = ux +ℤ pos 22000
  wire (ux +ℤ pos 12700) (uy +ℤ pos 10160) hl_x (uy +ℤ pos 10160)
  hier_label (codes "GPS_TXD") hl_x (uy +ℤ pos 10160) (codes "output") 0
  wire (ux +ℤ pos 12700) (uy +ℤ pos 7620) hl_x (uy +ℤ pos 7620)
  hier_label (codes "GPS_RXD") hl_x (uy +ℤ pos 7620) (codes "input") 0
  wire (ux +ℤ pos 12700) (uy +ℤ pos 2540) hl_x (uy +ℤ pos 2540)
  global_label (codes "GPS_1PPS") hl_x (uy +ℤ pos 2540) (codes "output") 0
  power_symbol (codes "GND") (ux -ℤ pos 18000) (uy -ℤ pos 2540) 0
  wire (ux -ℤ pos 12700) (uy -ℤ pos 2540) (ux -ℤ pos 18000) (uy -ℤ pos 2540)
  resistor (codes "10K") (ux -ℤ pos 18000) (uy -ℤ pos 10000) 0 []
  wire (ux -ℤ pos 12700) (uy -ℤ pos 5080) (ux -ℤ pos 18000) (uy -ℤ pos 5080)
  wire (ux -ℤ pos 18000) (uy -ℤ pos 6190) (ux -ℤ pos 18000) (uy -ℤ pos 5080)
  power_symbol (codes "+3V3A") (ux -ℤ pos 18000) (uy -ℤ pos 17000) 0
  wire (ux -ℤ pos 18000) (uy -ℤ pos 13810) (ux -ℤ pos 18000) (uy -ℤ pos 17000)
  power_symbol (codes "+3V3A") (ux -ℤ pos 18000) (uy -ℤ pos 10160) 0
  wire (ux -ℤ pos 12700) (uy -ℤ pos 10160) (ux -ℤ pos 18000) (uy -ℤ pos 10160)
  no_connect (ux +ℤ pos 12700) (uy -ℤ pos 5080)
  no_connect (ux +ℤ pos 12700) (uy -ℤ pos 7620)

-- Tamper detection: mesh pull-down, lid switch pull-down, XADC alert label.
unfoldable pub generate_tamper_section : ℤ → ℤ → List Step
unfolding ◌+ℤ◌ ◌-ℤ◌
generate_tamper_section base_x base_y = do
  text_note (codes "Tamper Detection (MIO0/MIO1/MIO2)") base_x (base_y -ℤ pos 5000) (pos 2000)
  let mesh_rx : ℤ = base_x +ℤ pos 10000
  let mesh_ry : ℤ = base_y +ℤ pos 10000
  resistor (codes "10k") mesh_rx mesh_ry 0 []
  wire mesh_rx (mesh_ry -ℤ pos 2540) mesh_rx (mesh_ry -ℤ pos 6000)
  global_label (codes "GPIO_TAMPER_MESH") mesh_rx (mesh_ry -ℤ pos 6000) (codes "input") 0
  wire mesh_rx (mesh_ry +ℤ pos 2540) mesh_rx (mesh_ry +ℤ pos 6000)
  power_symbol (codes "GND") mesh_rx (mesh_ry +ℤ pos 6000) 0
  let lid_rx : ℤ = base_x +ℤ pos 40000
  let lid_ry : ℤ = base_y +ℤ pos 10000
  resistor (codes "10k") lid_rx lid_ry 0 []
  wire lid_rx (lid_ry -ℤ pos 2540) lid_rx (lid_ry -ℤ pos 6000)
  global_label (codes "GPIO_TAMPER_LID") lid_rx (lid_ry -ℤ pos 6000) (codes "input") 0
  wire lid_rx (lid_ry +ℤ pos 2540) lid_rx (lid_ry +ℤ pos 6000)
  power_symbol (codes "GND") lid_rx (lid_ry +ℤ pos 6000) 0
  let alert_x : ℤ = base_x +ℤ pos 70000
  let alert_y : ℤ = base_y +ℤ pos 10000
  global_label (codes "GPIO_ENV_ALERT") alert_x alert_y (codes "output") 0

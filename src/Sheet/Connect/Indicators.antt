-- ===== src/Sheet/Connect/Indicators.antt =====
-- hardware/cirradio-devboard/gen_connectors.py: LEDs and buttons.
use cirradio.Prelude.{
  List, Text, [], codes, enumerate_from, gather, if◌then◌else◌, pos, text_eq, ℕ, ℤ, ◌*◌, ◌++◌, ◌+ℤ◌,
  ◌-ℤ◌, ◌∷◌,
}
use cirradio.Sheet.{
  Step, bidirectional, btn_idx, buttons, cap, hier_label, led_idx, leds, next, pins_2, power_symbol,
  resistor, symbol_instance, tallied, text_note, wire, ◌>>◌,
}

-- The status LEDs.
unfoldable pub status_leds : List Step
unfolding ◌+ℤ◌ ◌-ℤ◌ text_eq
status_leds = do
  text_note (codes "STATUS LEDs") (pos 30000) (pos 160000) (pos 2000)
  text_note (codes "Active-high, 0603 package") (pos 30000) (pos 165000) (pos 1270)
  let led_base_x : ℤ = pos 60000
  let led_base_y : ℤ = pos 185000
  gather {A = ℕ × (Text × Text × Text × Text × Text × Text)}
      (λ (idx, (name, color, source, res_val, bank12_net, _)). do
        let x : ℤ = led_base_x +ℤ pos (idx * 20000)
        let y : ℤ = led_base_y
        text_note (name ++ (codes " (" ++ (color ++ codes ")"))) (x -ℤ pos 2000) (y -ℤ pos 10000)
            (pos 1000)
        tallied leds
        (if text_eq source (codes "+3V3")
            then (do
              power_symbol (codes "+3V3") x (y -ℤ pos 8000) 0
              wire x (y -ℤ pos 8000) x (y -ℤ pos 5000))
            else (do
              hier_label bank12_net (x -ℤ pos 12000) (y -ℤ pos 5000) bidirectional 0
              wire (x -ℤ pos 12000) (y -ℤ pos 5000) x (y -ℤ pos 5000)))
        resistor res_val x y 0 (codes "Resistor_SMD:R_0402_1005Metric")
        wire x (y -ℤ pos 5000) x (y -ℤ pos 3810)
        symbol_instance (codes "Device:LED") (next led_idx) color x (y +ℤ pos 8000) 1 90
            (codes "LED_SMD:LED_0603_1608Metric") pins_2
        wire x (y +ℤ pos 3810) x (y +ℤ pos 4190)
        power_symbol (codes "GND") x (y +ℤ pos 16000) 0
        wire x (y +ℤ pos 11810) x (y +ℤ pos 16000))
      (enumerate_from 0 (
        (codes "PWR", codes "Green", codes "+3V3", codes "4.7K", [], codes "Power (always on)")
        ∷ (
          codes "HB",
          codes "Green",
          codes "PL_LED_HB",
          codes "330R",
          codes "GPIO_B12_IO40",
          codes "Heartbeat",
        )
        ∷ (
          codes "TX",
          codes "Red",
          codes "PL_LED_TX",
          codes "330R",
          codes "GPIO_B12_IO41",
          codes "TX activity",
        )
        ∷ (
          codes "RX",
          codes "Green",
          codes "PL_LED_RX",
          codes "330R",
          codes "GPIO_B12_IO42",
          codes "RX activity",
        )
        ∷ []))

-- The user buttons.
unfoldable pub user_buttons : List Step
unfolding ◌+ℤ◌ ◌-ℤ◌
user_buttons = do
  text_note (codes "USER BUTTONS (active-low, 10K pull-up, 100nF debounce)") (pos 30000)
      (pos 225000) (pos 2000)
  let btn_base_x : ℤ = pos 70000
  let btn_base_y : ℤ = pos 255000
  gather {A = ℕ × (Text × Text)}
      (λ (idx, (name, bank12_net)). do
        let bx : ℤ = btn_base_x +ℤ pos (idx * 50000)
        let by : ℤ = btn_base_y
        text_note name (bx -ℤ pos 3000) (by -ℤ pos 15000) (pos 1270)
        tallied buttons
        power_symbol (codes "+3V3") bx (by -ℤ pos 18000) 0
        wire bx (by -ℤ pos 18000) bx (by -ℤ pos 15000)
        resistor (codes "10K") bx (by -ℤ pos 11000) 0 (codes "Resistor_SMD:R_0402_1005Metric")
        wire bx (by -ℤ pos 15000) bx (by -ℤ pos 14810)
        let node_y : ℤ = by -ℤ pos 5000
        wire bx (by -ℤ pos 7190) bx node_y
        symbol_instance (codes "Switch:SW_Push") (next btn_idx) name bx by 1 0
            (codes "Button_Switch_SMD:SW_Push_1P1T_NO_6x6mm_H9.5mm") pins_2
        wire bx node_y (bx -ℤ pos 5080) by
        wire (bx +ℤ pos 5080) by (bx +ℤ pos 10000) by
        power_symbol (codes "GND") (bx +ℤ pos 10000) by 0
        let cap_x : ℤ = bx +ℤ pos 8000
        wire bx node_y cap_x node_y
        cap (codes "100n") cap_x (node_y +ℤ pos 5000) 0 (codes "Capacitor_SMD:C_0402_1005Metric")
        power_symbol (codes "GND") cap_x (node_y +ℤ pos 12000) 0
        wire cap_x (node_y +ℤ pos 8810) cap_x (node_y +ℤ pos 12000)
        wire cap_x node_y cap_x (node_y +ℤ pos 1190)
        hier_label bank12_net (bx -ℤ pos 15000) node_y bidirectional 180
        wire (bx -ℤ pos 15000) node_y bx node_y)
      (enumerate_from 0
        ((codes "BTN0", codes "GPIO_B12_IO44") ∷ (codes "BTN1", codes "GPIO_B12_IO45") ∷ []))

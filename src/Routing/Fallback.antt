-- ===== src/Routing/Fallback.antt =====
-- hardware/cirradio-devboard/gen_pcb_routing.py: `gen_power_routing` and `gen_general_io_routing`,
-- which fall back on a fixed number for a net that is missing. In micrometres.
pub mod Known
use cirradio.Prelude.{
  ℕ, ◌+◌, ◌-◌, ◌*◌, ◌/◌, List, [], ◌∷◌, ◌++◌, enumerate_from, gather, Text, codes, get, or_else,
}
use cirradio.Routing.Trace.{in5_cu, in6_cu, in8_cu, Point}
use cirradio.Routing.Entry.{Entry, comment, Nets, traces_by, traces, at}

abbrev zynq : Point
zynq = at 80000 50000

abbrev ad9361 : Point
ad9361 = at 80000 16000

abbrev ddr0 : Point
ddr0 = at 112000 35000

abbrev ddr1 : Point
ddr1 = at 128000 35000

-- The area of the regulators
abbrev regulators : Point
regulators = at 135000 80000

-- nets.get(name, fallback)
unfoldable pub net_or : Nets → Text × ℕ → ℕ
net_or nets (name, fallback) = or_else (get name nets) fallback

-- A rail: its name, the fallback for its net, and where it goes.
abbrev pub power_rails : List ((Text × ℕ) × Point)
power_rails =
    ((codes "+1V0", 3), zynq)
    ∷ ((codes "+1V35", 6), at ((ddr0.x + ddr1.x) / 2) ddr0.y)
    ∷ ((codes "+1V8", 13), at zynq.x (zynq.y + 10000))
    ∷ ((codes "+3V3", 16), at 80000 75000)
    ∷ ((codes "+5V", 20), at 80000 85000)
    ∷ ((codes "+1V3_AD", 9), ad9361)
    ∷ ((codes "+3V3A", 17), at (ad9361.x + 10000) ad9361.y)
    ∷ []

unfoldable pub rail_traces : Nets → (Text × ℕ) × Point → List Entry
rail_traces nets (rail, dest) = traces_by 10000 regulators dest 800 in5_cu (net_or nets rail)

unfoldable pub gen_power_routing : Nets → List Entry
unfolding rail_traces
gen_power_routing nets =
    comment (codes "  ; Power distribution routing (In5.Cu)")
    ∷ (gather (rail_traces nets) power_rails
        ++ traces_by 10000 (at 150000 10000) regulators 1000 in5_cu (net_or nets (codes "+12V", 2)))

abbrev pub spi_signals : List (Text × ℕ)
spi_signals =
    (codes "AD_SCLK", 179)
    ∷ (codes "AD_MOSI", 176)
    ∷ (codes "AD_MISO", 175)
    ∷ (codes "AD_CS_N", 174)
    ∷ []

abbrev pub uart_signals : List (Text × ℕ)
uart_signals =
    (codes "PS_UART0_RX", 392)
    ∷ (codes "PS_UART0_TX", 393)
    ∷ (codes "UART0_MIO46", 416)
    ∷ (codes "UART0_MIO47", 417)
    ∷ []

abbrev pub i2c_signals : List (Text × ℕ)
i2c_signals = (codes "PS_I2C_SCL", 385) ∷ (codes "PS_I2C_SDA", 386) ∷ []

abbrev pub jtag_signals : List (Text × ℕ)
jtag_signals =
    (codes "MIO10", 349) ∷ (codes "MIO11", 350) ∷ (codes "MIO12", 351) ∷ (codes "MIO13", 352) ∷ []

unfoldable pub spi_traces : Nets → ℕ × (Text × ℕ) → List Entry
spi_traces nets (idx, signal) =
    traces (at (zynq.x - 5000) (zynq.y - 8000 + idx * 500))
      (at (ad9361.x - 5000) (ad9361.y + 8000 + idx * 500)) 150 in6_cu (net_or nets signal)

unfoldable pub uart_traces : Nets → ℕ × (Text × ℕ) → List Entry
uart_traces nets (idx, signal) =
    traces (at (zynq.x - 10000 + idx * 1000) (zynq.y + 15000))
      (at (20000 + idx * 2000) (100000 - 8000)) 150 in8_cu (net_or nets signal)

unfoldable pub i2c_traces : Nets → ℕ × (Text × ℕ) → List Entry
i2c_traces nets (idx, signal) =
    traces (at (zynq.x + 5000) (zynq.y + 12000 + idx * 500))
      (at (40000 + idx * 2000) (100000 - 8000)) 150 in6_cu (net_or nets signal)

unfoldable pub jtag_traces : Nets → ℕ × (Text × ℕ) → List Entry
jtag_traces nets (idx, signal) =
    traces (at (zynq.x - 12000) (zynq.y + 10000 + idx * 500))
      (at (10000 + idx * 2000) (100000 - 8000)) 150 in8_cu (net_or nets signal)

unfoldable pub gen_general_io_routing : Nets → List Entry
gen_general_io_routing nets =
    comment (codes "  ; SPI routing to AD9361 (In6.Cu)")
    ∷ (gather (spi_traces nets) (enumerate_from 0 spi_signals)
        ++ comment (codes "  ; UART routing (In8.Cu)")
          ∷ (gather (uart_traces nets) (enumerate_from 0 uart_signals)
              ++ comment (codes "  ; I2C routing (In6.Cu)")
                ∷ (gather (i2c_traces nets) (enumerate_from 0 i2c_signals)
                    ++ comment (codes "  ; JTAG routing (In8.Cu)")
                      ∷ gather (jtag_traces nets) (enumerate_from 0 jtag_signals))))

-- ===== src/Tests/Routes.antt =====
-- Witness for the theorem on the nets of the whole routing.
use cirradio.Prelude.{
  ℕ, suc, ◌≡◌, refl, Bool, true, false, List, ◌++◌, Text, codes, words, enumerate_from, map, get,
  ltb, none, some, text_eq, Option-cases, inl, inr, All, All-imp, arith,
}
use cirradio.Routing.Trace.{Point}
use cirradio.Routing.Entry.{Nets}
use cirradio.Routing.Fallback.{power_rails, spi_signals, uart_signals, i2c_signals, jtag_signals}
use cirradio.Routing.Fallback.Known.{HasNet}
use cirradio.Routing.Main.{all_entries}
use cirradio.Routing.Main.Declared.{HasNets, Refers, all_entries-Refers}
use cirradio.Sheet.Checks.{every_item, every_item-All}

has_net : Nets → Text × ℕ → Bool
unfolding get
has_net nets (name, fallback) = elim (get name nets) [ none ↦ false | some n ↦ ltb 0 n ]

has_net-HasNet : (nets : Nets) (signal : Text × ℕ) → has_net nets signal ≡ true → HasNet nets signal
unfolding has_net
has_net-HasNet nets (name, fallback) h = elim (Option-cases (get name nets)) [
  | inl e ↦ absurd (ground (arith, h, e))
  | inr (n, e) ↦ record { number = n; known = e; nonzero = ground (arith, h, e) }
]

-- The nets that the routing refers to by name and one data line, numbered from 1.
abbrev routed_nets : Nets
routed_nets =
    map (λ (i, name). (name, suc i))
      (enumerate_from 0 (
        words "GND AD_RX1A_P AD_TX1A +12V +1V0 +1V35 +1V8 +3V3 +5V +1V3_AD +3V3A AD_SCLK AD_MOSI"
        ++ words
            "AD_MISO AD_CS_N PS_UART0_RX PS_UART0_TX UART0_MIO46 UART0_MIO47 PS_I2C_SCL PS_I2C_SDA"
        ++ words "MIO10 MIO11 MIO12 MIO13 DDR_DQ0"))

all_nets :
    (signals : List (Text × ℕ))
    → every_item (has_net routed_nets) signals ≡ true
    → All (HasNet routed_nets) signals
all_nets signals h =
    All-imp (λ s. has_net routed_nets s ≡ true) (HasNet routed_nets) (has_net-HasNet routed_nets)
      signals (every_item-All (has_net routed_nets) signals h)

routed_nets-HasNets : HasNets routed_nets
unfolding every_item has_net text_eq
routed_nets-HasNets = record {
  gnd = has_net-HasNet routed_nets (codes "GND", 1) refl;
  rx = has_net-HasNet routed_nets (codes "AD_RX1A_P", 178) refl;
  tx = has_net-HasNet routed_nets (codes "AD_TX1A", 180) refl;
  input = has_net-HasNet routed_nets (codes "+12V", 2) refl;
  rails =
      All-imp (λ r. has_net routed_nets r.0 ≡ true) (λ r. HasNet routed_nets r.0)
        (λ r. has_net-HasNet routed_nets r.0) power_rails
        (every_item-All (λ r. has_net routed_nets r.0) power_rails refl);
  spi = all_nets spi_signals refl;
  uart = all_nets uart_signals refl;
  i2c = all_nets i2c_signals refl;
  jtag = all_nets jtag_signals refl;
}

-- Vias straight on the start of a leg.
abbrev on_start : Point → Point → ℕ → Bool → Point
on_start p q j mirror = p

all_entries-Refers_example : All (Refers routed_nets) (all_entries on_start routed_nets)
all_entries-Refers_example = all_entries-Refers on_start routed_nets routed_nets-HasNets

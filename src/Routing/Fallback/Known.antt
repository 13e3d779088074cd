-- ===== src/Routing/Fallback/Known.antt =====
-- Power and general I/O are wired on a board that has the nets they are routed for.
use cirradio.Prelude.{
  ℕ, suc, ◌+◌, ◌≤◌, ◌<◌, ◌≡◌, some, List, [], ◌∷◌, All, All-append, All-gather, length,
  enumerate_from, gather, Text, codes, get, arith,
}
use cirradio.Routing.Trace.{Point}
use cirradio.Routing.Entry.{Entry, Nets, Wired, IsConnected}
use cirradio.Routing.Entry.Wiring.{traces_by-Wired, traces-Wired}
use cirradio.Routing.Fallback.{
  net_or, power_rails, rail_traces, gen_power_routing, spi_signals, uart_signals, i2c_signals,
  jtag_signals, spi_traces, uart_traces, i2c_traces, jtag_traces, gen_general_io_routing,
}

-- The board has the net, under a number that is not 0.
pub record HasNet (nets : Nets) (signal : Text × ℕ) : Type 0 where
  pub number : ℕ
  pub known : get signal.0 nets ≡ some number
  pub nonzero : 0 < number

net_or-IsConnected :
    (nets : Nets) (signal : Text × ℕ) → HasNet nets signal → IsConnected nets (net_or nets signal)
unfolding net_or
net_or-IsConnected nets (name, fallback) h =
    rw h.known (record { name = name; known = h.known; nonzero = h.nonzero })

rail_traces-Wired :
    (nets : Nets) (rail : (Text × ℕ) × Point)
    → HasNet nets rail.0 × ((rail.1.x ≤ 160000) × (rail.1.y ≤ 100000))
    → All (Wired nets) (rail_traces nets rail)
unfolding rail_traces
rail_traces-Wired nets (rail, dest) (h, on) =
    traces_by-Wired nets _ dest _ _ _ 10000 (omega arith) on (net_or-IsConnected nets rail h)

-- The nets that a list of indexed signals needs, each index below the bound.
module _ (nets : Nets) where
  IsReady : ℕ × (Text × ℕ) → Type 0
  IsReady (idx, signal) = (idx < 4) × HasNet nets signal

  IsReady-from :
      (i : ℕ) (signals : List (Text × ℕ))
      → i + length signals ≤ 4
      → All (HasNet nets) signals
      → All IsReady (enumerate_from i signals)
  unfolding IsReady
  IsReady-from i [] b h = tt
  IsReady-from i (s ∷ signals) b h =
      ((omega arith, h.0), IsReady-from (suc i) signals (omega arith) h.1)

  spi_traces-Wired : (s : ℕ × (Text × ℕ)) → IsReady s → All (Wired nets) (spi_traces nets s)
  unfolding spi_traces IsReady
  spi_traces-Wired (idx, signal) (b, h) =
      traces-Wired nets _ _ _ _ _ (omega arith) (omega arith) (net_or-IsConnected nets signal h)

  uart_traces-Wired : (s : ℕ × (Text × ℕ)) → IsReady s → All (Wired nets) (uart_traces nets s)
  unfolding uart_traces IsReady
  uart_traces-Wired (idx, signal) (b, h) =
      traces-Wired nets _ _ _ _ _ (omega arith) (omega arith) (net_or-IsConnected nets signal h)

  i2c_traces-Wired : (s : ℕ × (Text × ℕ)) → IsReady s → All (Wired nets) (i2c_traces nets s)
  unfolding i2c_traces IsReady
  i2c_traces-Wired (idx, signal) (b, h) =
      traces-Wired nets _ _ _ _ _ (omega arith) (omega arith) (net_or-IsConnected nets signal h)

  jtag_traces-Wired : (s : ℕ × (Text × ℕ)) → IsReady s → All (Wired nets) (jtag_traces nets s)
  unfolding jtag_traces IsReady
  jtag_traces-Wired (idx, signal) (b, h) =
      traces-Wired nets _ _ _ _ _ (omega arith) (omega arith) (net_or-IsConnected nets signal h)

  bus-Wired :
      (f : ℕ × (Text × ℕ) → List Entry)
      → ((s : ℕ × (Text × ℕ)) → IsReady s → All (Wired nets) (f s))
      → (signals : List (Text × ℕ)) → length signals ≤ 4
      → All (HasNet nets) signals
      → All (Wired nets) (gather f (enumerate_from 0 signals))
  bus-Wired f wired signals b h =
      All-gather IsReady (Wired nets) f wired (enumerate_from 0 signals)
        (IsReady-from 0 signals (omega arith) h)

  -- On a board that has the nets of the rails and of the 12 V input, every trace of the power
  -- routing belongs to a net of the board, and both its ends lie on the board.
  pub gen_power_routing-Wired :
      All (λ r. HasNet nets r.0) power_rails
      → HasNet nets (codes "+12V", 2)
      → All (Wired nets) (gen_power_routing nets)
  unfolding gen_power_routing
  gen_power_routing-Wired h input = (
    tt,
    All-append (Wired nets) (gather (rail_traces nets) power_rails) _
        (All-gather _ (Wired nets) (rail_traces nets) (rail_traces-Wired nets) power_rails
          (ground arith))
        (traces_by-Wired nets _ _ _ _ _ 10000 (omega arith) (omega arith)
          (net_or-IsConnected nets (codes "+12V", 2) input)),
  )

  -- On a board that has the SPI, UART, I2C and JTAG nets, every trace of the general routing belongs
  -- to a net of the board, and both its ends lie on the board.
  pub gen_general_io_routing-Wired :
      All (HasNet nets) spi_signals
      → All (HasNet nets) uart_signals
      → All (HasNet nets) i2c_signals
      → All (HasNet nets) jtag_signals
      → All (Wired nets) (gen_general_io_routing nets)
  unfolding gen_general_io_routing
  gen_general_io_routing-Wired spi uart i2c jtag = (
    tt,
    All-append (Wired nets) (gather (spi_traces nets) (enumerate_from 0 spi_signals)) _
        (bus-Wired (spi_traces nets) spi_traces-Wired spi_signals (omega arith) spi)
        (
          tt,
          All-append (Wired nets) (gather (uart_traces nets) (enumerate_from 0 uart_signals)) _
              (bus-Wired (uart_traces nets) uart_traces-Wired uart_signals (omega arith) uart)
              (
                tt,
                All-append (Wired nets) (gather (i2c_traces nets) (enumerate_from 0 i2c_signals)) _
                    (bus-Wired (i2c_traces nets) i2c_traces-Wired i2c_signals (omega arith) i2c)
                    (
                      tt,
                      bus-Wired (jtag_traces nets) jtag_traces-Wired jtag_signals (omega arith)
                          jtag,
                    ),
              ),
        ),
  )

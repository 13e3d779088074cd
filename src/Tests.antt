-- ===== src/Tests.antt =====
-- The theorems at concrete inputs: parts, nets, lines and texts like those of the board.
mod Plans
mod Traces
mod Wires
mod Routes
mod Checks
mod Devices
mod Files
mod Sheets

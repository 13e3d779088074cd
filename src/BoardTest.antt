-- ===== src/BoardTest.antt =====
-- tools/board-test: the scripts that test a board over the network or the serial port. What the
-- board answers is a parameter.
pub mod Fhss
pub mod Flash
pub mod Gps
pub mod Serial
pub mod Suite

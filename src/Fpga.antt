-- ===== src/Fpga.antt =====
-- fpga/scripts: the comparison of the register maps, and the test vectors of the hop sequencer.
pub mod Regmap
pub mod Vectors

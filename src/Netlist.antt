-- ===== src/Netlist.antt =====
-- hardware/cirradio-devboard/gen_pcb_netlist.py
pub mod Classify
pub mod Numbers
pub mod Unique
pub mod Blocks

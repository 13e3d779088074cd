-- ===== src/Routing.antt =====
-- hardware/cirradio-devboard/gen_pcb_routing.py
pub mod Trace
pub mod Entry
pub mod Ddr3l
pub mod Lvds
pub mod Stitching
pub mod Fallback
pub mod Rf
pub mod Main

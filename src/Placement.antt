-- ===== src/Placement.antt =====
-- gen_pcb_placement.py
pub mod Footprint
pub mod Zone
pub mod Component
pub mod Plan
pub mod Main
pub mod Pad
pub mod Pads

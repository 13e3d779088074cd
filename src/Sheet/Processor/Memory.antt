-- ===== src/Sheet/Processor/Memory.antt =====
-- hardware/cirradio-devboard/gen_zynq.py: the memory interface of the processor.
use cirradio.Prelude.{
  List, Text, [], codes, decimal, enumerate_from, gather, pos, range, ℕ, ℤ, ◌*◌, ◌++◌, ◌+ℤ◌, ◌+◌,
  ◌-ℤ◌, ◌∷◌, words,
}
use cirradio.Sheet.{
  Step, bidirectional, fixed, global_label, hier_label, passive, power_symbol, resistor,
  symbol_instance, text_note, wire, ◌>>◌,
}

abbrev ddr_unit_pins : List Text
ddr_unit_pins =
    (words "H1 H2 H3 J1 J2 J3 K1 K2 K3 L1 L2 L3 M1 M2 M3 N1 N2 N3 P1 P2 P3 R1 R2 R3 T1 T2 T3"
      ++ (words "U1 U2 U3 V1 V2 H4 H5 J4 J5 K4 K5 L4 L5 M4 M5 N4 N5 P4 P5 R4 R5 T4 T5 U4 U5 V3 V4"
          ++ words "V5 W3 W4 W5 Y3 Y4 Y5 AA3 AA4 AA5 AB3 AB4 AB5 AC3 AC4 AC5 AD3 AD4 AD5 AE3 AE4"))

-- Unit 3: the memory interface.
unfoldable pub memory_unit : List Step
unfolding decimal ◌+ℤ◌ ◌-ℤ◌
memory_unit = do
  text_note (codes "PS DDR INTERFACE (Unit 3)") (pos 180000) (pos 150000) (pos 2000)
  text_note (codes "DDR3L signals to memory sheet") (pos 180000) (pos 155000) (pos 1270)
  let u3_x : ℤ = pos 230000
  let u3_y : ℤ = pos 220000
  symbol_instance (codes "cirradio:XC7Z045") (fixed (codes "U1")) (codes "XC7Z045-2FFG900I") u3_x
      u3_y 3 0 [] ddr_unit_pins
  let ddr_hl_x : ℤ = u3_x +ℤ pos 22000
  gather
      (λ i. do
        let y : ℤ = u3_y -ℤ pos 53340 +ℤ pos 50800 +ℤ pos 2540 -ℤ pos (i * 2540)
        wire (u3_x +ℤ pos 15240) y ddr_hl_x y
        hier_label (codes "DDR_DQ" ++ decimal i) ddr_hl_x y bidirectional 0)
      (range 32)
  let ddr_left_x : ℤ = u3_x -ℤ pos 22000
  gather
      (λ i. do
        gather {A = Text × ℕ}
            (λ (suffix, offset). do
              let y : ℤ = u3_y -ℤ pos 53340 +ℤ pos 50800 -ℤ pos ((i * 2 + offset) * 2540)
              wire (u3_x -ℤ pos 15240) y ddr_left_x y
              hier_label (codes "DDR_DQS_" ++ (suffix ++ decimal i)) ddr_left_x y bidirectional 180)
            ((codes "P", 0) ∷ (codes "N", 1) ∷ []))
      (range 4)
  gather
      (λ i. do
        let y : ℤ = u3_y -ℤ pos 53340 +ℤ pos 27940 -ℤ pos (i * 2540)
        wire (u3_x -ℤ pos 15240) y ddr_left_x y
        hier_label (codes "DDR_DM" ++ decimal i) ddr_left_x y (codes "output") 180)
      (range 4)
  gather
      (λ i. do
        let y : ℤ = u3_y -ℤ pos 53340 +ℤ pos 15240 -ℤ pos (i * 2540)
        wire (u3_x -ℤ pos 15240) y ddr_left_x y
        hier_label (codes "DDR_A" ++ decimal i) ddr_left_x y (codes "output") 180)
      (range 15)
  gather {A = ℕ × Text}
      (λ (i, name). do
        let y : ℤ = u3_y -ℤ pos 53340 -ℤ pos 25400 -ℤ pos (i * 2540)
        wire (u3_x -ℤ pos 15240) y ddr_left_x y
        hier_label name ddr_left_x y (codes "output") 180)
      (enumerate_from 0 (codes "DDR_BA0" ∷ codes "DDR_BA1" ∷ codes "DDR_BA2" ∷ []))
  gather {A = ℕ × Text}
      (λ (i, name). do
        let y : ℤ = u3_y -ℤ pos 53340 -ℤ pos 33020 -ℤ pos (i * 2540)
        wire (u3_x -ℤ pos 15240) y ddr_left_x y
        hier_label name ddr_left_x y (codes "output") 180)
      (enumerate_from 0
        ((words "DDR_CAS_B DDR_RAS_B DDR_WE_B DDR_CK_P DDR_CK_N DDR_CKE DDR_CS_B DDR_ODT")))
  hier_label (codes "DDR_RESET_B") ddr_hl_x (u3_y -ℤ pos 53340 -ℤ pos 33020) (codes "output") 0
  wire (u3_x +ℤ pos 15240) (u3_y -ℤ pos 53340 -ℤ pos 33020) ddr_hl_x
      (u3_y -ℤ pos 53340 -ℤ pos 33020)
  global_label (codes "VTTREF") ddr_hl_x (u3_y -ℤ pos 53340 -ℤ pos 38100) passive 0
  wire (u3_x +ℤ pos 15240) (u3_y -ℤ pos 53340 -ℤ pos 38100) ddr_hl_x
      (u3_y -ℤ pos 53340 -ℤ pos 38100)
  global_label (codes "VTTREF") ddr_hl_x (u3_y -ℤ pos 53340 -ℤ pos 40640) passive 0
  wire (u3_x +ℤ pos 15240) (u3_y -ℤ pos 53340 -ℤ pos 40640) ddr_hl_x
      (u3_y -ℤ pos 53340 -ℤ pos 40640)
  resistor (codes "240R") (ddr_hl_x +ℤ pos 8000) (u3_y -ℤ pos 53340 -ℤ pos 45720) 90 []
  wire (u3_x +ℤ pos 15240) (u3_y -ℤ pos 53340 -ℤ pos 45720) (ddr_hl_x +ℤ pos 8000 -ℤ pos 3810)
      (u3_y -ℤ pos 53340 -ℤ pos 45720)
  power_symbol (codes "GND") (ddr_hl_x +ℤ pos 15000) (u3_y -ℤ pos 53340 -ℤ pos 45720) 0
  wire (ddr_hl_x +ℤ pos 8000 +ℤ pos 3810) (u3_y -ℤ pos 53340 -ℤ pos 45720) (ddr_hl_x +ℤ pos 15000)
      (u3_y -ℤ pos 53340 -ℤ pos 45720)
  resistor (codes "240R") (ddr_hl_x +ℤ pos 8000) (u3_y -ℤ pos 53340 -ℤ pos 48260) 90 []
  wire (u3_x +ℤ pos 15240) (u3_y -ℤ pos 53340 -ℤ pos 48260) (ddr_hl_x +ℤ pos 8000 -ℤ pos 3810)
      (u3_y -ℤ pos 53340 -ℤ pos 48260)
  global_label (codes "+1V35") (ddr_hl_x +ℤ pos 15000) (u3_y -ℤ pos 53340 -ℤ pos 48260) passive 0
  wire (ddr_hl_x +ℤ pos 8000 +ℤ pos 3810) (u3_y -ℤ pos 53340 -ℤ pos 48260) (ddr_hl_x +ℤ pos 15000)
      (u3_y -ℤ pos 53340 -ℤ pos 48260)

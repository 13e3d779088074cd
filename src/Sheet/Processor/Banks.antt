-- ===== src/Sheet/Processor/Banks.antt =====
-- hardware/cirradio-devboard/gen_zynq.py: banks 33 and 34 of the programmable logic.
use cirradio.Prelude.{
  List, Text, [], codes, decimal, gather, if◌then◌else◌, ltb, pos, range, ℕ, ℤ, ◌%◌, ◌*◌, ◌++◌,
  ◌+ℤ◌, ◌-ℤ◌, ◌/◌, ◌==◌, words,
}
use cirradio.Sheet.{Step, bidirectional, fixed, hier_label, symbol_instance, text_note, wire, ◌>>◌}

abbrev b33_pins : List Text
b33_pins =
    (words "AA14 AA15 AB14 AB15 AC14 AC15 AD14 AD15 AE14 AE15 AF14 AF15 AA16 AA17 AB16 AB17"
      ++ (words "AC16 AC17 AD16 AD17 AE16 AE17 AF16 AF17 AA18 AA19 AB18 AB19 AC18 AC19 AD18 AD19"
          ++ (words
                "AE18 AE19 AF18 AF19 AA20 AA21 AB20 AB21 AC20 AC21 AD20 AD21 AE20 AE21 AF20 AF21"
              ++ words "AA22 AA23")))

abbrev b34_pins : List Text
b34_pins =
    (words "AA24 AA25 AB24 AB25 AC24 AC25 AD24 AD25 AE24 AE25 AF24 AF25 AA26 AA27 AB26 AB27"
      ++ (words "AC26 AC27 AD26 AD27 AE26 AE27 AF26 AF27 AA28 AA29 AB28 AB29 AC28 AC29 AD28 AD29"
          ++ (words "AE28 AE29 AF28 AF29 AA30 AB30 AC30 AD30 AE30 AF30 Y14 Y15 Y16 Y17 Y18 Y19 Y20"
              ++ words "Y21")))

-- Unit 4: bank 33.
unfoldable pub bank_33 : List Step
unfolding decimal ◌+ℤ◌ ◌-ℤ◌
bank_33 = do
  text_note (codes "PL BANK 33 HP - AD9361 LVDS (Unit 4)") (pos 30000) (pos 340000) (pos 2000)
  let u4_x : ℤ = pos 65000
  let u4_y : ℤ = pos 420000
  symbol_instance (codes "cirradio:XC7Z045") (fixed (codes "U1")) (codes "XC7Z045-2FFG900I") u4_x
      u4_y 4 0 [] b33_pins
  let b33_hl_x : ℤ = u4_x +ℤ pos 18000
  gather
      (λ i. do
        let y : ℤ = u4_y -ℤ pos 66040 +ℤ pos 63500 +ℤ pos 2540 -ℤ pos (i * 2540)
        let y : ℤ = if i == 49 then u4_y -ℤ pos 66040 -ℤ pos 63500 +ℤ pos 2540 else y
        wire (u4_x +ℤ pos 10160) y b33_hl_x y
        let pair_idx : ℕ = i / 2
        let suffix : Text = if i % 2 == 0 then codes "P" else codes "N"
        (if ltb i 48
            then (do
              hier_label (codes "AD9361_B33_L" ++ (decimal pair_idx ++ suffix)) b33_hl_x y
                  bidirectional 0)
            else (do
              hier_label (codes "AD9361_B33_L24" ++ (if i == 48 then codes "P" else codes "N"))
                  b33_hl_x y bidirectional 0)))
      (range 50)

-- Unit 5: bank 34.
unfoldable pub bank_34 : List Step
unfolding decimal ◌+ℤ◌ ◌-ℤ◌
bank_34 = do
  text_note (codes "PL BANK 34 HP - AD9361 DATA/CTRL (Unit 5)") (pos 170000) (pos 340000) (pos 2000)
  let u5_x : ℤ = pos 205000
  let u5_y : ℤ = pos 420000
  symbol_instance (codes "cirradio:XC7Z045") (fixed (codes "U1")) (codes "XC7Z045-2FFG900I") u5_x
      u5_y 5 0 [] b34_pins
  let b34_hl_x : ℤ = u5_x +ℤ pos 18000
  gather
      (λ i. do
        let y : ℤ = u5_y -ℤ pos 66040 +ℤ pos 63500 +ℤ pos 2540 -ℤ pos (i * 2540)
        let y : ℤ = if i == 49 then u5_y -ℤ pos 66040 -ℤ pos 63500 +ℤ pos 2540 else y
        wire (u5_x +ℤ pos 10160) y b34_hl_x y
        let pair_idx : ℕ = i / 2
        let suffix : Text = if i % 2 == 0 then codes "P" else codes "N"
        (if ltb i 48
            then (do
              hier_label (codes "AD9361_B34_L" ++ (decimal pair_idx ++ suffix)) b34_hl_x y
                  bidirectional 0)
            else (do
              hier_label (codes "AD9361_B34_L24" ++ (if i == 48 then codes "P" else codes "N"))
                  b34_hl_x y bidirectional 0)))
      (range 50)

-- ===== src/Netlist/Blocks/Removed.antt =====
-- What the loop removes, and what it leaves.
use cirradio.Prelude.{◌≡◌, Bool, true, false, List, [], ◌∷◌, ◌++◌, Text, All, arith}
use cirradio.Netlist.Blocks.{opens_class, closes_block, without_classes}

abbrev pub IsOutside : Text → Type 0
IsOutside line = opens_class line ≡ false

-- No line of the result opens a net class.
pub without_classes-IsOutside :
    (skip : Bool) (lines : List Text) → All IsOutside (without_classes skip lines)
unfolding without_classes
without_classes-IsOutside skip [] = tt
without_classes-IsOutside skip (line ∷ lines) =
    ground (arith, without_classes-IsOutside true lines, without_classes-IsOutside false lines)

-- A line of a block: it does not end the block.
abbrev pub IsInside : Text → Type 0
IsInside line = (opens_class line ≡ false) × (closes_block line ≡ false)

skip_block :
    (block rest : List Text) (close : Text)
    → All IsInside block
    → opens_class close ≡ false
    → closes_block close ≡ true
    → without_classes true (block ++ (close ∷ rest)) ≡ without_classes false rest
unfolding without_classes
skip_block [] rest close a h k = ground arith
skip_block (line ∷ block) rest close a h k = ground (arith, skip_block block rest close a.1 h k)

-- Lines that open no net class stay as they are, and of what follows, a net class is taken out as a
-- whole: from the line that opens it to the first line that is a closing parenthesis alone.
without_classes-block :
    (before block rest : List Text) (first close : Text)
    → All IsOutside before
    → opens_class first ≡ true
    → All IsInside block
    → opens_class close ≡ false
    → closes_block close ≡ true
    → without_classes false (before ++ (first ∷ (block ++ (close ∷ rest))))
      ≡ before ++ without_classes false rest
unfolding without_classes
without_classes-block [] block rest first close b f a h k =
    ground (arith, skip_block block rest close a h k)
without_classes-block (line ∷ before) block rest first close b f a h k =
    ground (arith, without_classes-block before block rest first close b.1 f a h k)

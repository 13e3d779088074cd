-- ===== src/Sheet/Print/Block.antt =====
-- hardware/cirradio-devboard/gen_*.py write symbols, and `parse_schematic` of gen_pcb_netlist.py cuts
-- them out again.
use mathlib.Core.List.{append_assoc, append-nil}
use cirradio.Prelude.{
  ℕ, suc, ◌≡◌, ◌∙◌, refl, sym, ap, some, ℤ, List, [], ◌∷◌, ◌++◌, Text, codes, decimal, All,
}
use cirradio.Drc.{scan, check_parens}
use cirradio.Drc.Parens.{Balanced, check_parens-iff-Balanced}
use cirradio.Schematic.{sym_block}
use cirradio.Schematic.Extent.{sym_block-Balanced}
use cirradio.Sheet.{symbol}
use cirradio.Sheet.Print.{
  Piece, lit, field, number, int, uid, Printer, format, l, pin_lines, symbol_head, item_lines,
}
use cirradio.Sheet.Print.Balance.{
  depth_after, rise, HasLevel, IsLevelItem, IsPlainPrinter, scan-format,
}

-- The lines of pins up to the last closing parenthesis.
pin_front : ℕ → List Text → List Piece
pin_front k [] = l "    " ∷ []
pin_front k (pin ∷ pins) =
    l "      (pin \"" ∷ field pin ∷ l "\" (uuid \"" ∷ uid k ∷ l "\"))\n" ∷ pin_front (suc k) pins

-- Pieces that end in a text, with what stands ahead of it.
EndsIn : Printer → ℕ → Text → List Piece → List Piece → Type 0
EndsIn p n end ps front = format p n ps ≡ format p n front ++ end

EndsIn-cons :
    (p : Printer) (n : ℕ) (end : Text) (x : Piece) (ps front : List Piece)
    → EndsIn p n end ps front
    → EndsIn p n end (x ∷ ps) (x ∷ front)
unfolding EndsIn format
EndsIn-cons p n end (lit t) ps front e = ap (◌++◌ t) e ∙ sym (append_assoc t (format p n front) end)
EndsIn-cons p n end (field t) ps front e =
    ap (◌++◌ t) e ∙ sym (append_assoc t (format p n front) end)
EndsIn-cons p n end (number x) ps front e =
    ap (◌++◌ (p.show n x)) e ∙ sym (append_assoc (p.show n x) (format p n front) end)
EndsIn-cons p n end (int k) ps front e =
    ap (◌++◌ (decimal k)) e ∙ sym (append_assoc (decimal k) (format p n front) end)
EndsIn-cons p n end (uid k) ps front e =
    ap (◌++◌ (p.identifier n k)) e ∙ sym (append_assoc (p.identifier n k) (format p n front) end)

EndsIn-append :
    (p : Printer) (n : ℕ) (end : Text) (xs ps front : List Piece)
    → EndsIn p n end ps front
    → EndsIn p n end (xs ++ ps) (xs ++ front)
EndsIn-append p n end [] ps front e = e
EndsIn-append p n end (x ∷ xs) ps front e =
    EndsIn-cons p n end x (xs ++ ps) (xs ++ front) (EndsIn-append p n end xs ps front e)

pin_lines-EndsIn :
    (p : Printer) (n k : ℕ) (pins : List Text)
    → EndsIn p n (codes ")\n") (pin_lines k pins) (pin_front k pins)
unfolding pin_lines pin_front EndsIn format
pin_lines-EndsIn p n k [] = refl
pin_lines-EndsIn p n k (pin ∷ pins) =
    EndsIn-append p n (codes ")\n")
      (l "      (pin \"" ∷ field pin ∷ l "\" (uuid \"" ∷ uid k ∷ l "\"))\n" ∷ [])
      (pin_lines (suc k) pins) (pin_front (suc k) pins) (pin_lines-EndsIn p n (suc k) pins)

pin_front-All :
    (k : ℕ) (pins : List Text) → All HasLevel (pin_lines k pins) → All HasLevel (pin_front k pins)
unfolding pin_lines pin_front
pin_front-All k [] h = (tt, tt)
pin_front-All k (pin ∷ pins) (a, (b, (c, (d, (e, h))))) =
    (a, (b, (c, (d, (e, pin_front-All (suc k) pins h)))))

All-tail :
    (xs ps qs : List Piece)
    → All HasLevel (xs ++ ps)
    → (All HasLevel ps → All HasLevel qs)
    → All HasLevel (xs ++ qs)
All-tail [] ps qs h f = f h
All-tail (x ∷ xs) ps qs h f = (h.0, All-tail xs ps qs h.1 f)

rise-pin_front : (k d : ℕ) (pins : List Text) → rise d (pin_front k pins) ≡ some d
unfolding rise pin_front depth_after
rise-pin_front k d [] = refl
rise-pin_front k d (pin ∷ pins) = rise-pin_front (suc k) d pins

format-Balanced :
    (p : Printer) (n : ℕ) (ps : List Piece)
    → IsPlainPrinter p
    → All HasLevel ps
    → rise 0 ps ≡ some 0
    → Balanced (format p n ps)
unfolding check_parens scan
format-Balanced p n ps plain level r = (check_parens-iff-Balanced (format p n ps)).0 (
    ap (λ t. (scan 0 t).0) (sym (append-nil (format p n ps)))
    ∙ ap (λ r. r.0) (scan-format p plain n ps [] 0 0 level r))

-- A block in a line of its own, and what the parser makes of it.
HasBlock : Text → Text → Type 0
HasBlock rest line =
    (block : Text) × (line ≡ codes "    " ++ (block ++ codes "\n"))
    × (sym_block (block ++ (codes "\n" ++ rest)) ≡ block)

HasBlock-Balanced :
    (inner rest : Text) → Balanced inner → HasBlock rest (codes "    (" ++ (inner ++ codes ")\n"))
unfolding HasBlock
HasBlock-Balanced inner rest b = (
  b'(' ∷ (inner ++ codes ")"),
  ap (λ t. codes "    (" ++ t) (sym (append_assoc inner (codes ")") (codes "\n"))),
  ap (λ t. sym_block (b'(' ∷ t)) (append_assoc inner (codes ")") (codes "\n" ++ rest))
      ∙ sym_block-Balanced b (codes "\n" ++ rest),
)

-- A symbol whose texts have balanced parentheses is printed as a block that stands behind four
-- blanks and ahead of a line break; from a text that goes on in any way behind it, the parser cuts
-- out this very block.
pub sym_block-format :
    (p : Printer) (n : ℕ) (lib_id ref value : Text) (x y : ℤ) (unit angle : ℕ) (fp : Text)
    (pins : List Text) (rest : Text)
    → IsPlainPrinter p
    → IsLevelItem (symbol lib_id ref value x y unit angle fp pins)
    → (block : Text) × (format p n (item_lines (symbol lib_id ref value x y unit angle fp pins))
        ≡ codes "    " ++ (block ++ codes "\n"))
      × (sym_block (block ++ (codes "\n" ++ rest)) ≡ block)
unfolding item_lines format EndsIn HasBlock rise depth_after
sym_block-format p n lib_id ref value x y unit angle fp pins rest plain level =
    let head = symbol_head lib_id ref value x y unit angle fp in
    let front = head ++ pin_front 1 pins in
    let ends : format p n (head ++ pin_lines 1 pins) ≡ format p n front ++ codes ")\n" =
      EndsIn-append p n (codes ")\n") head (pin_lines 1 pins) (pin_front 1 pins)
        (pin_lines-EndsIn p n 1 pins) in
    let all : All HasLevel front =
      All-tail head (pin_lines 1 pins) (pin_front 1 pins) level.1 (pin_front-All 1 pins) in
    let (block, text, cut) =
      HasBlock-Balanced (format p n front) rest
        (format-Balanced p n front plain all (rise-pin_front 1 0 pins)) in
    (block, ap (λ t. codes "    (" ++ t) ends ∙ text, cut)

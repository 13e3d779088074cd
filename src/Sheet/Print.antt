-- ===== src/Sheet/Print.antt =====
-- hardware/cirradio-devboard/gen_peripherals.py and the other schematic generators: the text of what
-- a sheet holds, and the check of its parentheses. How Python shows a number, and the identifiers
-- that `uuid.uuid4` makes, are parameters.
pub mod Balance
pub mod Block
use Prim.Native.String.{String}
use cirradio.Prelude.{
  ℕ, zero, suc, ◌+◌, ◌==◌, if◌then◌else◌, ℤ, pos, ◌+ℤ◌, ◌-ℤ◌, List, [], ◌∷◌, ◌++◌, Text, codes,
  decimal,
}
use cirradio.Sheet.{
  Item, symbol, wire_item, global_item, hier_item, label_item, text_item, no_connect_item,
}

-- A piece of an f-string: as it stands, or a field. `uid k` is identifier `k` of an entry.
pub data Piece : Type 0 where
  lit : Text → Piece
  field : Text → Piece
  number : ℤ → Piece
  int : ℕ → Piece
  uid : ℕ → Piece

-- `show n` is the text of a number of millimetres in entry `n`, and `identifier n k` is identifier
-- `k` of that entry.
pub record Printer : Type 0 where
  pub show : ℕ → ℤ → Text
  pub identifier : ℕ → ℕ → Text

-- The f-string in entry `n`.
unfoldable pub format : Printer → ℕ → List Piece → Text
format p n [] = []
format p n (lit t ∷ ps) = t ++ format p n ps
format p n (field t ∷ ps) = t ++ format p n ps
format p n (number x ∷ ps) = p.show n x ++ format p n ps
format p n (int k ∷ ps) = decimal k ++ format p n ps
format p n (uid k ∷ ps) = p.identifier n k ++ format p n ps

abbrev pub l : String → Piece
l s = lit (codes s)

-- (at {x} {y} 0)
abbrev pub at_point : ℤ → ℤ → List Piece
at_point x y = l "(at " ∷ number x ∷ l " " ∷ number y ∷ l " 0)" ∷ []

-- (at {x} {y} {angle})
abbrev pub at_angle : ℤ → ℤ → ℕ → List Piece
at_angle x y angle = l "(at " ∷ number x ∷ l " " ∷ number y ∷ l " " ∷ int angle ∷ l ")" ∷ []

-- A line of a property, with its line break; `effects` is what follows the position.
abbrev pub property : String → Text → ℤ → ℤ → String → List Piece
property name value x y effects =
    l "      (property \""
    ∷ l name
    ∷ l "\" \""
    ∷ field value
    ∷ l "\" "
    ∷ (at_point x y ++ (l effects ∷ l "\n" ∷ []))

-- The lines of `symbol_pins`, from identifier `k` on.
unfoldable pub pin_lines : ℕ → List Text → List Piece
pin_lines k [] = l "    )\n" ∷ []
pin_lines k (pin ∷ pins) =
    l "      (pin \"" ∷ field pin ∷ l "\" (uuid \"" ∷ uid k ∷ l "\"))\n" ∷ pin_lines (suc k) pins

-- What `symbol_instance` emits behind the opening parenthesis.
abbrev pub symbol_head : Text → Text → Text → ℤ → ℤ → ℕ → ℕ → Text → List Piece
symbol_head lib_id ref value x y unit angle footprint =
    l "symbol (lib_id \""
    ∷ field lib_id
    ∷ l "\") "
    ∷ (at_angle x y angle
        ++ (l "\n      (unit "
            ∷ int unit
            ∷ l ") (exclude_from_sim no) (in_bom yes) (on_board yes) (dnp no)\n      (uuid \""
            ∷ uid 0
            ∷ l "\")\n"
            ∷ (property "Reference" ref x (y -ℤ pos 2000) " (effects (font (size 1.27 1.27))))"
                ++ (property "Value" value x (y +ℤ pos 2000) " (effects (font (size 1.27 1.27))))"
                    ++ (property "Footprint" footprint x y
                          " (effects (font (size 1.27 1.27)) hide))"
                        ++ property "Datasheet" [] x y
                            " (effects (font (size 1.27 1.27)) hide))")))))

-- The lines of an entry, each with a line break behind it.
unfoldable pub item_lines : Item Text → List Piece
unfolding pin_lines
item_lines (symbol lib_id ref value x y unit angle footprint pins) =
    l "    (" ∷ (symbol_head lib_id ref value x y unit angle footprint ++ pin_lines 1 pins)
item_lines (wire_item x1 y1 x2 y2) =
    l "    (wire (pts (xy "
    ∷ number x1
    ∷ l " "
    ∷ number y1
    ∷ l ") (xy "
    ∷ number x2
    ∷ l " "
    ∷ number y2
    ∷ l ")) (stroke (width 0) (type default)) (uuid \""
    ∷ uid 0
    ∷ l "\"))\n"
    ∷ []
item_lines (global_item name x y shape angle) =
    l "    (global_label \""
    ∷ field name
    ∷ l "\" (shape "
    ∷ field shape
    ∷ l ") "
    ∷ (at_angle x y angle
        ++ (l " (effects (font (size 1.27 1.27))) (uuid \""
            ∷ uid 0
            ∷ l "\")\n"
            ∷ (property "Intersheetrefs" (codes "${INTERSHEET_REFS}") x y
                  " (effects (font (size 0.5 0.5)) hide))"
                ++ (l "    )\n" ∷ []))))
item_lines (hier_item name x y shape angle) =
    l "    (hierarchical_label \""
    ∷ field name
    ∷ l "\" (shape "
    ∷ field shape
    ∷ l ") "
    ∷ (at_angle x y angle
        ++ (l " (effects (font (size 1.27 1.27))) (uuid \"" ∷ uid 0 ∷ l "\"))\n" ∷ []))
item_lines (label_item name x y angle) =
    l "    (label \""
    ∷ field name
    ∷ l "\" "
    ∷ (at_angle x y angle
        ++ (l " (effects (font (size 1.27 1.27))) (uuid \"" ∷ uid 0 ∷ l "\"))\n" ∷ []))
item_lines (text_item txt x y size) =
    l "    (text \""
    ∷ field txt
    ∷ l "\" "
    ∷ (at_point x y
        ++ (l " (effects (font (size " ∷ number size ∷ l " " ∷ number size ∷ l "))))\n" ∷ []))
item_lines (no_connect_item x y) =
    l "    (no_connect (at "
    ∷ number x
    ∷ l " "
    ∷ number y
    ∷ l ") (uuid \""
    ∷ uid 0
    ∷ l "\"))\n"
    ∷ []

-- What differs in the lines that the generators emit ahead of the library symbols.
pub record Heading : Type 0 where
  pub generator : Text
  pub title : Text
  pub comment_1 : Text
  pub comment_2 : Text

unfoldable pub heading_lines : Heading → List Piece
heading_lines h =
    l "(kicad_sch\n  (version 20231120)\n  (generator \""
    ∷ field h.generator
    ∷ l "\")\n  (generator_version \"9.0\")\n  (uuid \""
    ∷ uid 0
    ∷ l "\")\n  (paper \"A3\")\n  (title_block\n    (title \""
    ∷ field h.title
    ∷ l "\")\n    (date \"2026-03-03\")\n    (rev \"1.0\")\n    (company \"\")\n    (comment 1 \""
    ∷ field h.comment_1
    ∷ l "\")\n    (comment 2 \""
    ∷ field h.comment_2
    ∷ l "\")\n  )\n\n"
    ∷ []

-- The entries, numbered from `n` on.
unfoldable pub print_items : Printer → ℕ → List (Item Text) → Text
unfolding format item_lines
print_items p n [] = []
print_items p n (e ∷ entries) = format p n (item_lines e) ++ print_items p (suc n) entries

-- `output`: the heading, the text of `emit_lib_symbols` with an empty line behind it, the entries and
-- the last parenthesis.
unfoldable pub print_sheet : Printer → Heading → Text → List (Item Text) → Text
unfolding format heading_lines print_items
print_sheet p h lib_symbols entries =
    format p 0 (heading_lines h) ++ (lib_symbols ++ (print_items p 1 entries ++ codes ")"))

-- output.count(c)
unfoldable pub count_char : ℕ → Text → ℕ
count_char c [] = 0
count_char c (d ∷ t) = let rest = count_char c t in if d == c then suc rest else rest

-- The exit status of `main` at its check of the parentheses; 0 where it goes on to write the file.
unfoldable pub balance_status : Text → ℕ
unfolding count_char
balance_status output = if count_char b'(' output == count_char b')' output then 0 else 1

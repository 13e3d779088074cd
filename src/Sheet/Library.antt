-- ===== src/Sheet/Library.antt =====
-- hardware/cirradio-devboard/gen_zynq.py and the other schematic generators: the symbols that
-- `emit_lib_symbols` writes ahead of a sheet, line by line. Coordinates are in micrometres.
pub mod Passive
pub mod Config
pub mod Ddr
pub mod Banks
pub mod Power
pub mod Boot
pub mod Memory
pub mod Transceiver
pub mod Clock
pub mod Radio
pub mod Amplifier
pub mod Storage
pub mod Ports
pub mod Sockets
pub mod Connect
use Prim.Native.String.{String}
use cirradio.Prelude.{
  ℕ, zero, suc, ℤ, pos, negsuc, List, [], ◌∷◌, ◌++◌, Text, codes, if◌then◌else◌, text_eq,
}
use cirradio.Sheet.Print.{Piece, lit, field, number, int, l}

-- A line of the library: as it stands; the first line of a symbol; the first line of unit `unit` of
-- a symbol; a pin with its type, its point, its angle, its length, its name and its number.
pub data LibLine : Type 0 where
  line : Text → LibLine
  symbol_open : Text → LibLine
  unit_open : Text → ℕ → ℕ → LibLine
  pin_line : Text → ℤ → ℤ → ℕ → ℤ → Text → Text → LibLine

abbrev pub raw : String → LibLine
raw t = line (codes t)

abbrev pub pin : String → ℤ → ℤ → ℕ → ℤ → String → String → LibLine
pin ptype x y angle length name pin_number =
    pin_line (codes ptype) x y angle length (codes name) (codes pin_number)

-- The lines of properties that are empty in each symbol.
abbrev pub no_footprint : LibLine
no_footprint =
    raw "      (property \"Footprint\" \"\" (at 0 0 0) (effects (font (size 1.27 1.27)) hide))"

abbrev pub no_datasheet : LibLine
no_datasheet =
    raw "      (property \"Datasheet\" \"\" (at 0 0 0) (effects (font (size 1.27 1.27)) hide))"

abbrev pub neg : ℕ → ℤ
neg zero = pos 0
neg (suc n) = negsuc n

-- The text of a line, with its line break.
unfoldable pub line_pieces : LibLine → List Piece
line_pieces (line t) = lit t ∷ l "\n" ∷ []
line_pieces (symbol_open lib_id) = l "    (symbol \"" ∷ field lib_id ∷ l "\"\n" ∷ []
line_pieces (unit_open name unit style) =
    l "      (symbol \"" ∷ field name ∷ l "_" ∷ int unit ∷ l "_" ∷ int style ∷ l "\"\n" ∷ []
line_pieces (pin_line ptype x y angle length name pin_number) =
    l "        (pin "
    ∷ field ptype
    ∷ l " line (at "
    ∷ number x
    ∷ l " "
    ∷ number y
    ∷ l " "
    ∷ int angle
    ∷ l ") (length "
    ∷ number length
    ∷ l ") (name \""
    ∷ field name
    ∷ l "\" (effects (font (size 1.27 1.27)))) (number \""
    ∷ field pin_number
    ∷ l "\" (effects (font (size 1.27 1.27)))))\n"
    ∷ []

unfoldable pub pieces_of : List LibLine → List Piece
unfolding line_pieces
pieces_of [] = []
pieces_of (x ∷ lines) = line_pieces x ++ pieces_of lines

-- All of `emit_lib_symbols`, with an empty line behind it.
unfoldable pub library_pieces : List LibLine → List Piece
unfolding pieces_of
library_pieces lines = l "  (lib_symbols\n" ∷ (pieces_of lines ++ (l "  )\n\n" ∷ []))

-- The symbol of ground, and of another power net; gen_connectors.py writes that of VTT apart, but
-- the same.
unfoldable pub power_lib : Text → List LibLine
unfolding text_eq
power_lib net =
    if text_eq net (codes "GND")
    then symbol_open (codes "power:GND")
      ∷ raw "      (power) (pin_names (offset 0)) (exclude_from_sim no) (in_bom yes) (on_board yes)"
      ∷ raw
          "      (property \"Reference\" \"#PWR\" (at 0 -6.35 0) (effects (font (size 1.27 1.27)) hide))"
      ∷ raw "      (property \"Value\" \"GND\" (at 0 -3.81 0) (effects (font (size 1.27 1.27))))"
      ∷ no_footprint
      ∷ no_datasheet
      ∷ unit_open (codes "GND") 0 1
      ∷ raw
          "        (polyline (pts (xy 0 0) (xy 0 -1.27) (xy 1.27 -1.27) (xy 0 -2.54) (xy -1.27 -1.27) (xy 0 -1.27)) (stroke (width 0) (type default)) (fill (type none)))"
      ∷ raw "      )"
      ∷ unit_open (codes "GND") 1 1
      ∷ pin "power_in" (pos 0) (pos 0) 270 (pos 0) "GND" "1"
      ∷ raw "      )"
      ∷ raw "    )"
      ∷ []
    else symbol_open (codes "power:" ++ net)
      ∷ raw "      (power) (pin_names (offset 0)) (exclude_from_sim no) (in_bom yes) (on_board yes)"
      ∷ raw
          "      (property \"Reference\" \"#PWR\" (at 0 -3.81 0) (effects (font (size 1.27 1.27)) hide))"
      ∷ line (
          codes "      (property \"Value\" \""
          ++ (net ++ codes "\" (at 0 3.556 0) (effects (font (size 1.27 1.27))))"))
      ∷ no_footprint
      ∷ no_datasheet
      ∷ unit_open net 0 1
      ∷ raw
          "        (polyline (pts (xy -0.762 1.27) (xy 0 2.54)) (stroke (width 0) (type default)) (fill (type none)))"
      ∷ raw
          "        (polyline (pts (xy 0 0) (xy 0 2.54)) (stroke (width 0) (type default)) (fill (type none)))"
      ∷ raw
          "        (polyline (pts (xy 0 2.54) (xy 0.762 1.27)) (stroke (width 0) (type default)) (fill (type none)))"
      ∷ raw "      )"
      ∷ unit_open net 1 1
      ∷ pin_line (codes "power_in") (pos 0) (pos 0) 90 (pos 0) net (codes "1")
      ∷ raw "      )"
      ∷ raw "    )"
      ∷ []

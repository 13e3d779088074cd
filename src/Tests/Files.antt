-- ===== src/Tests/Files.antt =====
-- Schematics and the suite of board tests at concrete inputs.
use cirradio.Prelude.{
  ◌+◌, ◌≡◌, ◌↔◌, refl, Bool, true, false, some, List, [], ◌∷◌, ◌++◌, length, Text, codes, text_eq,
  starts_with, All,
}
use cirradio.Drc.Parens.{Balanced, nil, plain, wrap}
use cirradio.Schematic.{from_mark, lib_mark}
use cirradio.BoardTest.Suite.{Options, scripts, passes, run_all}
use cirradio.BoardTest.Suite.Outcome.{run_all_lem}

abbrev pin : Text
pin = codes "a(b)"

pin-Balanced : Balanced pin
pin-Balanced = plain (refl, refl) (wrap (plain (refl, refl) nil) nil refl)

abbrev library : Text
library = codes "lib_symbols"

library-Balanced : Balanced library
library-Balanced =
    plain (refl, refl)
      (plain (refl, refl)
        (plain (refl, refl)
          (plain (refl, refl)
            (plain (refl, refl)
              (plain (refl, refl)
                (plain (refl, refl)
                  (plain (refl, refl)
                    (plain (refl, refl) (plain (refl, refl) (plain (refl, refl) nil))))))))))

abbrev sheet : Text
sheet = codes "(kicad(lib_symbols)(label))"

sheet_mark : from_mark lib_mark sheet ≡ some (b'(' ∷ (library ++ (b')' ∷ codes "(label))")))
unfolding from_mark starts_with
sheet_mark = refl

-- A board on which every script but that of the GPS passes.
abbrev no_gps : Text → List Text → Bool
no_gps script args = elim (text_eq script (codes "gps_lock.py")) [ true ↦ false | false ↦ true ]

abbrev defaults : Options
defaults = record {
  host = codes "192.168.1.100";
  key = [];
  dry_run = false;
  bitstream = codes "/tmp/cirradio.bit";
  port = codes "/dev/ttyUSB0";
}

run_all_lem_example :
    (((run_all no_gps defaults scripts).1 ≡ 0)
      ↔ All (λ name. passes no_gps defaults name ≡ true) scripts)
    × (length (run_all no_gps defaults scripts).0 ≡ 2 + length scripts)
run_all_lem_example = run_all_lem no_gps defaults scripts

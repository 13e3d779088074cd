-- ===== src/Fpga/Regmap.antt =====
-- fpga/scripts/check_regmap.py: comparing the registers of regs.svh with those of axi_regs.hpp. The
-- two dictionaries are what the parsers make of the files.
pub mod Mirror
use cirradio.Prelude.{
  ℕ, Bool, true, false, not, ◌&&◌, ◌||◌, Option, none, some, List, [], ◌∷◌, ◌++◌, ◌==◌,
  if◌then◌else◌, Text, codes, text_eq, starts_with, Dict, get,
}

pub data Mismatch : Type 0 where
  mismatch : Text → ℕ → ℕ → Mismatch
  missing extra : Text → Mismatch

-- t.endswith(p)
unfoldable pub ends_with : Text → Text → Bool
ends_with p [] = text_eq p []
ends_with p (c ∷ t) = text_eq p (c ∷ t) || ends_with p t

-- A bit index: it is not mirrored.
unfoldable pub is_bit : Text → Bool
is_bit name = starts_with (codes "STATUS_") name && ends_with (codes "_BIT") name

-- The names that only the header may have.
unfoldable pub is_header_only : Text → Bool
is_header_only name =
    starts_with (codes "STATUS_HOP") name
    || (starts_with (codes "STATUS_GPS") name || text_eq name (codes "PAGE_SIZE"))

abbrev pub compare_value : Text → ℕ → Option ℕ → List Mismatch
compare_value name svh_val none = missing name ∷ []
compare_value name svh_val (some hpp_val) =
    if svh_val == hpp_val then [] else mismatch name svh_val hpp_val ∷ []

-- The first loop, over the items of `svh`.
unfoldable pub svh_errors : Dict ℕ → Dict ℕ → List Mismatch
svh_errors hpp [] = []
svh_errors hpp ((name, svh_val) ∷ svh) =
    let rest = svh_errors hpp svh in
    if is_bit name then rest else compare_value name svh_val (get name hpp) ++ rest

abbrev pub is_none : Option ℕ → Bool
is_none none = true
is_none (some v) = false

-- The second loop, over the names of `hpp`.
unfoldable pub hpp_errors : Dict ℕ → Dict ℕ → List Mismatch
hpp_errors svh [] = []
hpp_errors svh ((name, hpp_val) ∷ hpp) =
    let rest = hpp_errors svh hpp in
    if is_none (get name svh) && not (is_header_only name) then extra name ∷ rest else rest

abbrev status_of : List Mismatch → ℕ
status_of [] = 0
status_of (e ∷ errors) = 1

-- The exit status of the script.
unfoldable pub check_regmap : Dict ℕ → Dict ℕ → ℕ
unfolding svh_errors hpp_errors
check_regmap svh hpp = status_of (svh_errors hpp svh ++ hpp_errors svh hpp)

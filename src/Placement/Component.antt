-- ===== src/Placement/Component.antt =====
-- hardware/cirradio-devboard/gen_pcb_placement.py: the components, `is_passive`, the dictionary
-- `placements`, and the numbers in reference designators.
use cirradio.Prelude.{
  ℕ, ◌+◌, ◌-◌, ◌*◌, ◌≡◌, ◌≢◌, Bool, true, false, ◌&&◌, ◌||◌, Option, none, some, List, [], ◌∷◌,
  if◌then◌else◌, Text, text_eq, text_eq_iff, is_digit, ◌==◌, Result, ok, raised, index_error, All,
  arith,
}
use cirradio.Placement.Zone.{Spot}

-- An entry of the list that `parse_schematic` returns.
pub record Component : Type 0 where
  pub reference : Text
  pub value : Text
  pub footprint : Text
  pub lib_id : Text

-- s.isdigit() for ASCII text: not empty, and digits only
pub all_digits : Text → Bool
all_digits [] = true
all_digits (c ∷ t) = is_digit c && all_digits t

is_number : Text → Bool
is_number [] = false
is_number (c ∷ t) = all_digits (c ∷ t)

-- `ref[0]` raises IndexError on an empty reference.
passive_reference : Text → Result Bool
unfolding is_number all_digits
passive_reference [] = raised index_error
passive_reference (c ∷ t) = ok ((c == b'R' || c == b'C' || c == b'L') && is_number t)

unfoldable pub is_passive : Component → Result Bool
unfolding passive_reference
is_passive comp = passive_reference comp.reference

-- int() of the digits from here on, up to the first other character
unfoldable pub leading_number : ℕ → Text → ℕ
leading_number n [] = n
leading_number n (c ∷ t) =
    let rest = leading_number (n * 10 + (c - b'0')) t in if is_digit c then rest else n

-- re.search(r"\d+", ref), and int() of the match
unfoldable pub first_number : Text → Option ℕ
unfolding leading_number
first_number [] = none
first_number (c ∷ t) =
    let rest = first_number t in if is_digit c then some (leading_number 0 (c ∷ t)) else rest

-- A dictionary from references to spots, in the order of insertion.
abbrev pub Placements : Type 0
Placements = List (Text × Spot)

-- placements.get(ref)
unfoldable pub find_spot : Text → Placements → Option Spot
find_spot ref [] = none
find_spot ref ((r, s) ∷ rest) = if text_eq r ref then some s else find_spot ref rest

-- ref in placements
unfoldable pub is_placed : Text → Placements → Bool
is_placed ref [] = false
is_placed ref ((r, s) ∷ rest) = text_eq r ref || is_placed ref rest

-- placements[ref] = spot
unfoldable pub set_spot : Text → Spot → Placements → Placements
set_spot ref spot [] = (ref, spot) ∷ []
set_spot ref spot ((r, s) ∷ rest) =
    if text_eq r ref then (r, spot) ∷ rest else (r, s) ∷ set_spot ref spot rest

-- `if result: placements[ref] = result`
unfoldable pub set_result : Text → Option Spot → Placements → Placements
set_result ref none placements = placements
set_result ref (some spot) placements = set_spot ref spot placements

pub find_spot-ne-none :
    (ref : Text) (p : Placements) → is_placed ref p ≡ true → find_spot ref p ≢ none
unfolding is_placed find_spot
find_spot-ne-none ref ((r, s) ∷ rest) h = ground (arith, find_spot-ne-none ref rest)
find_spot-ne-none ref [] h = ground arith

pub is_placed-set_spot :
    (ref r : Text) (spot : Spot) (p : Placements)
    → is_placed r (set_spot ref spot p) ≡ (text_eq ref r || is_placed r p)
unfolding is_placed set_spot
is_placed-set_spot ref r spot [] = ground arith
is_placed-set_spot ref r spot ((q, s) ∷ rest) = ground (
  arith,
  is_placed-set_spot ref r spot rest,
  text_eq_iff q ref,
  text_eq_iff ref r,
  text_eq_iff q r,
)

-- A spot is looked up as it was last set.
pub find_spot-set_spot :
    (ref r : Text) (spot : Spot) (p : Placements)
    → find_spot r (set_spot ref spot p) ≡ (if text_eq ref r then some spot else find_spot r p)
unfolding find_spot set_spot
find_spot-set_spot ref r spot [] = ground arith
find_spot-set_spot ref r spot ((q, s) ∷ rest) = ground (
  arith,
  find_spot-set_spot ref r spot rest,
  text_eq_iff q ref,
  text_eq_iff ref r,
  text_eq_iff q r,
)

module _ (P : Spot → Type 0) where
  pub All-set_spot :
      (ref : Text) (spot : Spot) (p : Placements)
      → P spot
      → All (λ e. P e.1) p
      → All (λ e. P e.1) (set_spot ref spot p)
  unfolding set_spot
  All-set_spot ref spot [] h a = (h, tt)
  All-set_spot ref spot ((q, s) ∷ rest) h a =
      ground (arith, All-set_spot ref spot rest h a.1, h, a.0, a.1)

-- ===== src/Prelude/Texts.antt =====
-- Python strings as lists of code points, with the tests that the programs make on them.
use Prim.Native.Nat.{ℕ}
use Prim.Native.Char.{code}
use Prim.Native.String.{String}
use mathlib.Core.Path.{◌≡◌, refl}
use mathlib.Core.Logic.{◌↔◌}
use mathlib.Core.Bool.{Bool, true, false, ◌&&◌, ◌||◌}
use mathlib.Core.List.{List, [], ◌∷◌, ◌++◌}
use native.Mathlib.Omega.{arith}
use cirradio.Prelude.Tests.{◌==◌, leb, if◌then◌else◌}

abbrev pub Text : Type 0
Text = List ℕ

-- The code points of a literal.
abbrev pub codes : String → Text
codes String.[] = []
codes (String.◌∷◌ c s) = code c ∷ codes s

abbrev glue : ℕ → List Text → List Text
glue c [] = (c ∷ []) ∷ []
glue c (w ∷ names) = (c ∷ w) ∷ names

abbrev word_list : Text → List Text
word_list [] = [] ∷ []
word_list (c ∷ t) = let rest = word_list t in if c == b' ' then [] ∷ rest else glue c rest

-- A list of names, given with a blank between each two.
abbrev pub words : String → List Text
words s = word_list (codes s)

-- s == t
unfoldable pub text_eq : Text → Text → Bool
text_eq [] [] = true
text_eq (x ∷ xs) (y ∷ ys) = x == y && text_eq xs ys
text_eq _ _ = false

-- t.startswith(p)
unfoldable pub starts_with : Text → Text → Bool
starts_with [] t = true
starts_with (x ∷ p) [] = false
starts_with (x ∷ p) (y ∷ t) = x == y && starts_with p t

-- p in t
unfoldable pub contains : Text → Text → Bool
unfolding starts_with
contains p [] = starts_with p []
contains p (y ∷ t) = starts_with p (y ∷ t) || contains p t

-- t in (a, b, ...)
unfoldable pub one_of : List Text → Text → Bool
unfolding text_eq
one_of [] t = false
one_of (a ∷ names) t = text_eq a t || one_of names t

-- '0' <= c <= '9'
abbrev pub is_digit : ℕ → Bool
is_digit c = leb b'0' c && leb c b'9'

pub text_eq_iff : (s t : Text) → (text_eq s t ≡ true) ↔ (s ≡ t)
unfolding text_eq
text_eq_iff (x ∷ xs) (y ∷ ys) = ground (arith, text_eq_iff xs ys)
text_eq_iff _ _ = ground arith

pub text_eq_refl : (s : Text) → text_eq s s ≡ true
text_eq_refl s = (text_eq_iff s s).1 refl

pub starts_with-append : (p t : Text) → starts_with p (p ++ t) ≡ true
unfolding starts_with
starts_with-append [] t = refl
starts_with-append (x ∷ p) t = ground (arith, starts_with-append p t)

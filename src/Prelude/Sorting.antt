-- ===== src/Prelude/Sorting.antt =====
-- Python's `sorted` on strings, which orders by code points, and how often an item occurs.
use Prim.Native.Nat.{ℕ, ◌+◌}
use mathlib.Core.Path.{◌≡◌, refl}
use mathlib.Core.Bool.{Bool, true, false, ◌&&◌, ◌||◌}
use mathlib.Core.List.{List, [], ◌∷◌, ◌++◌}
use native.Mathlib.Omega.{arith}
use cirradio.Prelude.Tests.{ltb, ◌==◌, if◌then◌else◌}
use cirradio.Prelude.Lists.{All}
use cirradio.Prelude.Texts.{Text, text_eq}

-- s <= t
unfoldable pub text_leb : Text → Text → Bool
text_leb [] t = true
text_leb (x ∷ s) [] = false
text_leb (x ∷ s) (y ∷ t) = ltb x y || x == y && text_leb s t

unfoldable pub insert_text : Text → List Text → List Text
insert_text t [] = t ∷ []
insert_text t (s ∷ names) = if text_leb t s then t ∷ s ∷ names else s ∷ insert_text t names

-- sorted(names)
unfoldable pub sorted : List Text → List Text
unfolding insert_text text_leb
sorted [] = []
sorted (t ∷ names) = insert_text t (sorted names)

-- How often `t` occurs.
unfoldable pub count : Text → List Text → ℕ
count t [] = 0
count t (s ∷ names) = (if text_eq s t then 1 else 0) + count t names

count-insert_text :
    (t s : Text) (names : List Text)
    → count t (insert_text s names) ≡ (if text_eq s t then 1 else 0) + count t names
unfolding count insert_text
count-insert_text t s [] = refl
count-insert_text t s (r ∷ names) = ground (arith, count-insert_text t s names)

-- Sorting neither drops nor repeats a name.
pub count-sorted : (t : Text) (names : List Text) → count t (sorted names) ≡ count t names
unfolding count sorted
count-sorted t [] = refl
count-sorted t (s ∷ names) =
    omega (arith, count-insert_text t s (sorted names), count-sorted t names)

pub count-append : (t : Text) (a b : List Text) → count t (a ++ b) ≡ count t a + count t b
unfolding count
count-append t [] b = omega arith
count-append t (s ∷ a) b = omega (arith, count-append t a b)

text_leb_total : (s t : Text) → text_leb s t ≡ false → text_leb t s ≡ true
unfolding text_leb
text_leb_total (x ∷ s) (y ∷ t) h = ground (arith, text_leb_total s t)
text_leb_total [] t h = ground arith
text_leb_total (x ∷ s) [] h = refl

pub text_leb_trans :
    (r s t : Text) → text_leb r s ≡ true → text_leb s t ≡ true → text_leb r t ≡ true
unfolding text_leb
text_leb_trans [] s t h k = refl
text_leb_trans (x ∷ r) [] t h k = ground arith
text_leb_trans (x ∷ r) (y ∷ s) [] h k = ground arith
text_leb_trans (x ∷ r) (y ∷ s) (z ∷ t) h k = ground (arith, text_leb_trans r s t)

-- Every name is at most every later one.
abbrev pub IsSorted : List Text → Type 0
IsSorted [] = Unit
IsSorted (t ∷ names) = All (λ s. text_leb t s ≡ true) names × IsSorted names

All-text_leb :
    (t s : Text) (names : List Text)
    → text_leb t s ≡ true
    → All (λ r. text_leb s r ≡ true) names
    → All (λ r. text_leb t r ≡ true) names
All-text_leb t s [] h a = tt
All-text_leb t s (r ∷ names) h a = (text_leb_trans t s r h a.0, All-text_leb t s names h a.1)

All-insert_text :
    (t s : Text) (names : List Text)
    → text_leb t s ≡ true
    → All (λ r. text_leb t r ≡ true) names
    → All (λ r. text_leb t r ≡ true) (insert_text s names)
unfolding insert_text
All-insert_text t s [] h a = (h, tt)
All-insert_text t s (r ∷ names) h a = ground (arith, All-insert_text t s names h a.1, h, a.0, a.1)

insert_text-IsSorted :
    (t : Text) (names : List Text) → IsSorted names → IsSorted (insert_text t names)
unfolding insert_text
insert_text-IsSorted t [] h = (tt, tt)
insert_text-IsSorted t (s ∷ names) h = ground (
  arith,
  insert_text-IsSorted t names h.1,
  All-text_leb t s names,
  text_leb_total t s,
  All-insert_text s t names,
  h.0,
)

pub sorted-IsSorted : (names : List Text) → IsSorted (sorted names)
unfolding sorted
sorted-IsSorted [] = tt
sorted-IsSorted (t ∷ names) = insert_text-IsSorted t (sorted names) (sorted-IsSorted names)

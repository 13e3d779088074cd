-- ===== src/Schematic/Extent.antt =====
-- The block of an instance and the end of the symbol library.
use mathlib.Core.List.{append_assoc}
use cirradio.Prelude.{ℕ, suc, ◌≡◌, refl, sym, ◌∙◌, ap, some, Option, [], ◌∷◌, ◌++◌, Text, arith}
use cirradio.Drc.Parens.{Balanced, nil, plain, wrap}
use cirradio.Schematic.{push, inside, from_mark, lib_mark, body, sym_block}

-- A text in front of what the loop finds.
abbrev pub prepend : Text → Option (Text × Text) → Option (Text × Text)
prepend [] o = o
prepend (c ∷ t) o = push c (prepend t o)

prepend-append :
    (s t : Text) (o : Option (Text × Text)) → prepend (s ++ t) o ≡ prepend s (prepend t o)
prepend-append [] t o = refl
prepend-append (c ∷ s) t o = ap (push c) (prepend-append s t o)

inside-Balanced :
    {t : Text}
    → Balanced t
    → (d : ℕ) (rest : Text) → inside d (t ++ rest) ≡ prepend t (inside d rest)
unfolding inside
inside-Balanced nil d rest = refl
inside-Balanced (plain {c} {t} h b) d rest = ground (arith, inside-Balanced b d rest)
inside-Balanced (wrap {a} {b} x y e) d rest =
    rw (e, append_assoc)
      (ap (push b'(') (
        inside-Balanced x (suc d) (b')' ∷ (b ++ rest))
        ∙ ap (λ o. prepend a (push b')' o)) (inside-Balanced y d rest)
        ∙ sym (prepend-append a (b')' ∷ b) (inside d rest))))

prepend-some : (t block rest : Text) → prepend t (some (block, rest)) ≡ some (t ++ block, rest)
prepend-some [] block rest = refl
prepend-some (c ∷ t) block rest = ap (push c) (prepend-some t block rest)

inside_block :
    {inner : Text}
    → Balanced inner
    → (rest : Text) → inside 0 (inner ++ (b')' ∷ rest)) ≡ some (inner ++ (b')' ∷ []), rest)
unfolding inside
inside_block {inner} b rest =
    inside-Balanced b 0 (b')' ∷ rest) ∙ prepend-some inner (b')' ∷ []) rest

-- Where an instance is an opening parenthesis, a balanced text and a closing one, its block is these
-- and nothing of what follows.
pub sym_block-Balanced :
    {inner : Text}
    → Balanced inner
    → (rest : Text) → sym_block (b'(' ∷ (inner ++ (b')' ∷ rest))) ≡ b'(' ∷ (inner ++ (b')' ∷ []))
unfolding sym_block
sym_block-Balanced {inner} b rest = rw (sym_block, inside_block b rest) refl

-- Where the first `(lib_symbols` is closed behind a balanced text, the body is what follows it.
body-Balanced :
    {inner : Text} (content rest : Text)
    → Balanced inner
    → from_mark lib_mark content ≡ some (b'(' ∷ (inner ++ (b')' ∷ rest)))
    → body content ≡ rest
unfolding body
body-Balanced content rest b e = rw (e, inside_block b rest) refl

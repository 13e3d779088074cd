-- ===== src/Sheet/Print/Balance.antt =====
-- The check of the parentheses never stops a generator.
use mathlib.Core.List.{append_assoc, append-nil}
use cirradio.Prelude.{
  ℕ, zero, suc, ◌+◌, ◌≡◌, ◌∙◌, ap, sym, refl, ◌==◌, if◌then◌else◌, Option, none, some, ℤ, List, [],
  ◌∷◌, ◌++◌, Text, codes, decimal, All, Option-cases, ◌/◌, ◌%◌, decimal_from, inl, inr, arith,
}
use cirradio.Drc.{scan, check_parens}
use cirradio.Drc.Parens.{Balanced, nil, plain, wrap, check_parens-iff-Balanced}
use cirradio.Sheet.{
  Item, symbol, wire_item, global_item, hier_item, label_item, text_item, no_connect_item,
}
use cirradio.Sheet.Print.{
  Piece, lit, field, number, int, uid, Printer, format, pin_lines, item_lines, Heading,
  heading_lines, print_items, print_sheet, count_char, balance_status,
}

-- The depth behind a text, from depth `d`; none if it goes below 0.
unfoldable pub depth_after : ℕ → Text → Option ℕ
depth_after d [] = some d
depth_after d (c ∷ t) =
    let opened = depth_after (suc d) t in
    let closed : Option ℕ = elim d [ zero ↦ none | suc e ↦ depth_after e t ] in
    let same = depth_after d t in if c == b'(' then opened else if c == b')' then closed else same

-- A text that leaves the depth as it is, and does not go below it.
abbrev pub IsLevel : Text → Type 0
IsLevel t = depth_after 0 t ≡ some 0

depth_after_deeper :
    (t : Text) (d e : ℕ) → depth_after d t ≡ some e → depth_after (suc d) t ≡ some (suc e)
unfolding depth_after
depth_after_deeper [] d e h = ground arith
depth_after_deeper (c ∷ t) zero e h =
    ground (arith, depth_after_deeper t 1 e, depth_after_deeper t 0 e)
depth_after_deeper (c ∷ t) (suc d) e h = ground (
  arith,
  depth_after_deeper t (suc (suc d)) e,
  depth_after_deeper t (suc d) e,
  depth_after_deeper t d e,
)

level_deeper : (t : Text) (d : ℕ) → IsLevel t → depth_after d t ≡ some d
level_deeper t zero h = h
level_deeper t (suc d) h = depth_after_deeper t d d (level_deeper t d h)

scan-depth_after :
    (t rest : Text) (d e : ℕ) → depth_after d t ≡ some e → scan d (t ++ rest) ≡ scan e rest
unfolding depth_after scan
scan-depth_after [] rest d e h = ground arith
scan-depth_after (c ∷ t) rest zero e h =
    ground (arith, scan-depth_after t rest 1 e, scan-depth_after t rest 0 e)
scan-depth_after (c ∷ t) rest (suc d) e h = ground (
  arith,
  scan-depth_after t rest (suc (suc d)) e,
  scan-depth_after t rest (suc d) e,
  scan-depth_after t rest d e,
)

scan_level : (t rest : Text) (d : ℕ) → IsLevel t → scan d (t ++ rest) ≡ scan d rest
scan_level t rest d h = scan-depth_after t rest d d (level_deeper t d h)

-- A level text is balanced.
pub level-Balanced : {t : Text} → IsLevel t → Balanced t
unfolding check_parens scan
level-Balanced {t} h =
    (check_parens-iff-Balanced t).0
      (ap (λ r. r.0) (ap (scan 0) (sym (append-nil t)) ∙ scan-depth_after t [] 0 0 h))

-- The depth behind the pieces of an f-string whose fields are level.
unfoldable pub rise : ℕ → List Piece → Option ℕ
unfolding depth_after
rise d [] = some d
rise d (lit t ∷ ps) = elim (depth_after d t) [ none ↦ none | some e ↦ rise e ps ]
rise d (field t ∷ ps) = rise d ps
rise d (number x ∷ ps) = rise d ps
rise d (int k ∷ ps) = rise d ps
rise d (uid k ∷ ps) = rise d ps

-- What the texts of a printer have to be: free of unbalanced parentheses.
pub record IsPlainPrinter (p : Printer) : Type 0 where
  pub show_level : (n : ℕ) (x : ℤ) → IsLevel (p.show n x)
  pub identifier_level : (n k : ℕ) → IsLevel (p.identifier n k)

-- A field holds a level text; of the other pieces, nothing is asked.
abbrev pub HasLevel : Piece → Type 0
HasLevel (lit t) = Unit
HasLevel (field t) = IsLevel t
HasLevel (number x) = Unit
HasLevel (int k) = Unit
HasLevel (uid k) = Unit

pub depth_after-append :
    (s t : Text) (d e : ℕ) → depth_after d s ≡ some e → depth_after d (s ++ t) ≡ depth_after e t
unfolding depth_after
depth_after-append [] t d e h = ground arith
depth_after-append (c ∷ s) t zero e h =
    ground (arith, depth_after-append s t 1 e, depth_after-append s t 0 e)
depth_after-append (c ∷ s) t (suc d) e h = ground (
  arith,
  depth_after-append s t (suc (suc d)) e,
  depth_after-append s t (suc d) e,
  depth_after-append s t d e,
)

decimal_from-IsLevel : (fuel n : ℕ) → IsLevel (decimal_from fuel n)
unfolding depth_after decimal_from
decimal_from-IsLevel zero n = refl
decimal_from-IsLevel (suc fuel) n = ground (
  arith,
  decimal_from-IsLevel fuel (n / 10),
  depth_after-append (decimal_from fuel (n / 10)) ((48 + n % 10) ∷ []) 0 0,
)

decimal-IsLevel : (n : ℕ) → IsLevel (decimal n)
unfolding decimal
decimal-IsLevel n = decimal_from-IsLevel (suc n) n

module _ (p : Printer) (plain : IsPlainPrinter p) where
  pub depth_after-format :
      (n : ℕ) (ps : List Piece) (d e : ℕ)
      → All HasLevel ps
      → rise d ps ≡ some e
      → depth_after d (format p n ps) ≡ some e
  unfolding format rise depth_after
  depth_after-format n [] d e h r = r
  depth_after-format n (lit t ∷ ps) d e h r = elim (Option-cases (depth_after d t)) [
    | inl f ↦ absurd (ground (arith, f, r))
    | inr (m, f) ↦
        depth_after-append t (format p n ps) d m f
        ∙ depth_after-format n ps m e h.1 (ground (arith, f, r))
  ]
  depth_after-format n (field t ∷ ps) d e h r =
      depth_after-append t (format p n ps) d d (level_deeper t d h.0)
      ∙ depth_after-format n ps d e h.1 r
  depth_after-format n (number x ∷ ps) d e h r =
      depth_after-append (p.show n x) (format p n ps) d d
        (level_deeper (p.show n x) d (plain.show_level n x))
      ∙ depth_after-format n ps d e h.1 r
  depth_after-format n (int k ∷ ps) d e h r =
      depth_after-append (decimal k) (format p n ps) d d
        (level_deeper (decimal k) d (decimal-IsLevel k))
      ∙ depth_after-format n ps d e h.1 r
  depth_after-format n (uid k ∷ ps) d e h r =
      depth_after-append (p.identifier n k) (format p n ps) d d
        (level_deeper (p.identifier n k) d (plain.identifier_level n k))
      ∙ depth_after-format n ps d e h.1 r

  pub scan-format :
      (n : ℕ) (ps : List Piece) (rest : Text) (d e : ℕ)
      → All HasLevel ps
      → rise d ps ≡ some e
      → scan d (format p n ps ++ rest) ≡ scan e rest
  scan-format n ps rest d e h r =
      scan-depth_after (format p n ps) rest d e (depth_after-format n ps d e h r)

rise-pin_lines : (pins : List Text) (k d : ℕ) → rise (suc d) (pin_lines k pins) ≡ some d
unfolding rise pin_lines
rise-pin_lines [] k d = refl
rise-pin_lines (pin ∷ pins) k d = rise-pin_lines pins (suc k) d

rise-item_lines : (e : Item Text) (d : ℕ) → rise d (item_lines e) ≡ some d
unfolding rise item_lines
rise-item_lines (symbol lib_id ref value x y unit angle fp pins) d = rise-pin_lines pins 1 d
rise-item_lines (wire_item x1 y1 x2 y2) d = refl
rise-item_lines (global_item name x y shape angle) d = refl
rise-item_lines (hier_item name x y shape angle) d = refl
rise-item_lines (label_item name x y angle) d = refl
rise-item_lines (text_item txt x y size) d = refl
rise-item_lines (no_connect_item x y) d = refl

pub rise-heading_lines : (h : Heading) (d : ℕ) → rise d (heading_lines h) ≡ some (suc d)
unfolding rise heading_lines
rise-heading_lines h d = refl

-- The texts of an entry are level.
abbrev pub IsLevelItem : Item Text → Type 0
IsLevelItem e = All HasLevel (item_lines e)

abbrev pub IsLevelHeading : Heading → Type 0
IsLevelHeading h = All HasLevel (heading_lines h)

module _ (p : Printer) (plain : IsPlainPrinter p) where
  scan-print_items :
      (n : ℕ) (entries : List (Item Text)) (rest : Text) (d : ℕ)
      → All IsLevelItem entries
      → scan d (print_items p n entries ++ rest) ≡ scan d rest
  unfolding print_items
  scan-print_items n [] rest d h = refl
  scan-print_items n (e ∷ entries) rest d h = rw (append_assoc) (
      scan-format p plain n (item_lines e) (print_items p (suc n) entries ++ rest) d d h.0
        (rise-item_lines e d)
      ∙ scan-print_items (suc n) entries rest d h.1)

  -- Where the texts of a sheet have balanced parentheses, and numbers and identifiers are shown with
  -- balanced ones, the whole sheet is balanced.
  pub print_sheet-Balanced :
      (h : Heading) (lib_symbols : Text) (entries : List (Item Text))
      → IsLevelHeading h
      → IsLevel lib_symbols
      → All IsLevelItem entries
      → Balanced (print_sheet p h lib_symbols entries)
  unfolding print_sheet check_parens scan
  print_sheet-Balanced h lib_symbols entries a b c =
      (check_parens-iff-Balanced (print_sheet p h lib_symbols entries)).0 (
        ap (λ r. r.0)
          (scan-format p plain 0 (heading_lines h)
              (lib_symbols ++ (print_items p 1 entries ++ codes ")")) 0 1 a (rise-heading_lines h 0)
            ∙ scan_level lib_symbols (print_items p 1 entries ++ codes ")") 1 b
            ∙ scan-print_items 1 entries (codes ")") 1 c))

count_char-append : (c : ℕ) (s t : Text) → count_char c (s ++ t) ≡ count_char c s + count_char c t
unfolding count_char
count_char-append c [] t = omega arith
count_char-append c (d ∷ s) t = ground (arith, count_char-append c s t)

count_char-Balanced : {t : Text} → Balanced t → count_char b'(' t ≡ count_char b')' t
unfolding count_char
count_char-Balanced nil = refl
count_char-Balanced (plain h b) = ground (arith, count_char-Balanced b)
count_char-Balanced (wrap {a} {b} x y e) = rw e (
    omega (
      arith,
      count_char-append b'(' a (b')' ∷ b),
      count_char-append b')' a (b')' ∷ b),
      count_char-Balanced x,
      count_char-Balanced y,
    ))

-- On a balanced text the check of a generator passes.
pub balance_status-Balanced : {t : Text} → Balanced t → balance_status t ≡ 0
unfolding balance_status
balance_status-Balanced b = ground (arith, count_char-Balanced b)

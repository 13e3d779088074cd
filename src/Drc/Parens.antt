-- ===== src/Drc/Parens.antt =====
-- `check_parens` accepts the balanced texts, and no others.
use mathlib.Core.List.{append_assoc, append-nil}
use cirradio.Prelude.{
  ℕ, zero, suc, ◌≡◌, refl, ◌∙◌, ◌↔◌, true, false, Bool-cases, inl, inr, [], ◌∷◌, ◌++◌, ◌==◌, Text,
  ==_iff, arith,
}
use cirradio.Drc.{scan, check_parens}

-- Any character but a parenthesis.
abbrev pub IsPlain : ℕ → Type 0
IsPlain c = ((c == b'(') ≡ false) × ((c == b')') ≡ false)

-- The grammar of balanced texts.
pub data Balanced : Text → Type 0 where
  nil : Balanced []
  plain : {c : ℕ} {t : Text} → IsPlain c → Balanced t → Balanced (c ∷ t)
  wrap : {a b t : Text} → Balanced a → Balanced b → t ≡ b'(' ∷ (a ++ (b')' ∷ b)) → Balanced t

scan-Balanced : {t : Text} → Balanced t → (d : ℕ) (rest : Text) → scan d (t ++ rest) ≡ scan d rest
unfolding scan
scan-Balanced nil d rest = refl
scan-Balanced (plain {c} {t} h b) d rest = ground (arith, scan-Balanced b d rest)
scan-Balanced (wrap {a} {b} x y e) d rest =
    rw (e, append_assoc) (scan-Balanced x (suc d) ((b')' ∷ b) ++ rest) ∙ scan-Balanced y d rest)

Balanced-append : {s t : Text} → Balanced s → Balanced t → Balanced (s ++ t)
Balanced-append nil y = y
Balanced-append (plain h x) y = plain h (Balanced-append x y)
Balanced-append (wrap {a} {b} x x' e) y = wrap x (Balanced-append x' y) (rw (e, append_assoc))

-- A text that closes `d` open parentheses: `d` balanced texts, each with a `)` behind it, and one more.
data Closes : ℕ → Text → Type 0 where
  last : {t : Text} → Balanced t → Closes zero t
  close : {d : ℕ} {a r t : Text} → Balanced a → Closes d r → t ≡ a ++ (b')' ∷ r) → Closes (suc d) t

Closes-append : {d : ℕ} {s t : Text} → Balanced s → Closes d t → Closes d (s ++ t)
Closes-append b (last x) = last (Balanced-append b x)
Closes-append {s} b (close {a} {r} x y e) = close (Balanced-append b x) y (rw (e, append_assoc))

open-Closes : {d : ℕ} {t : Text} → Closes (suc d) t → Closes d (b'(' ∷ t)
open-Closes {d} (close {a} {r} x y e) =
    rw e (rw append_assoc at (Closes-append (wrap {t = b'(' ∷ (a ++ (b')' ∷ []))} x nil refl) y))

close-Closes :
    (d c : ℕ) (t : Text)
    → (c == b'(') ≡ false
    → (c == b')') ≡ true
    → ((e : ℕ) → (scan e t).0 ≡ true → Closes e t)
    → (scan d (c ∷ t)).0 ≡ true
    → Closes d (c ∷ t)
unfolding scan
close-Closes zero c t e f later h = ground arith
close-Closes (suc d) c t e f later h =
    let same : c ≡ b')' = (==_iff c b')').0 f in rw same (close nil (later d (ground arith)) refl)

scan-Closes : (t : Text) (d : ℕ) → (scan d t).0 ≡ true → Closes d t
unfolding scan
scan-Closes [] zero h = last nil
scan-Closes [] (suc d) h = ground arith
scan-Closes (c ∷ t) d h = elim (Bool-cases (c == b'(')) [
  | inl e ↦
      let same : c ≡ b'(' = (==_iff c b'(').0 e in
      rw same (open-Closes (scan-Closes t (suc d) (rw e at h)))
  | inr e ↦ elim (Bool-cases (c == b')')) [
    | inl f ↦ close-Closes d c t e f (λ k. scan-Closes t k) h
    | inr f ↦ Closes-append (plain (e, f) nil) (scan-Closes t d (ground arith))
  ]
]

Closes-zero : {t : Text} → Closes zero t → Balanced t
Closes-zero (last b) = b

-- `check_parens` answers True exactly for the texts that the grammar of balanced parentheses has.
pub check_parens-iff-Balanced : (text : Text) → ((check_parens text).0 ≡ true) ↔ Balanced text
unfolding check_parens
check_parens-iff-Balanced text = (
  λ h. Closes-zero (scan-Closes text zero h),
  λ b. rw (← append-nil text) (rw (scan-Balanced b zero []) (unfold scan in refl)),
)

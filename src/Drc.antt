-- ===== src/Drc.antt =====
-- hardware/cirradio-devboard/gen_pcb_drc.py: the searches for nets, the checks, and the exit status
-- of `main`, without what it prints. The text is one of ASCII characters. Only the size of the
-- outline, which the searches of `check_board_dimensions` find, is given by its result.
pub mod Parens
pub mod Verdict
pub mod Emitted
use cirradio.Prelude.{
  ℕ, zero, suc, ◌+◌, ◌-◌, Bool, true, false, not, ◌&&◌, ◌||◌, Option, none, some, List, [], ◌∷◌,
  ◌++◌, ℤ, pos, negsuc, ltb, leb, ◌*◌, ◌==◌, if◌then◌else◌, Text, codes, is_digit,
}

-- The loop of `check_parens`, from depth `depth` on. The depth is never negative at its start; the
-- loop returns as soon as it is -1.
unfoldable pub scan : ℕ → Text → Bool × ℤ
scan depth [] = (depth == 0, pos depth)
scan depth (ch ∷ text) =
    let opened = scan (suc depth) text in
    let closed : Bool × ℤ = elim depth [ zero ↦ (false, negsuc 0) | suc d ↦ scan d text ] in
    let same = scan depth text in if ch == b'(' then opened else if ch == b')' then closed else same

unfoldable pub check_parens : Text → Bool × ℤ
check_parens text = scan 0 text

-- n in nets
unfoldable pub is_declared : ℕ → List ℕ → Bool
is_declared n [] = false
is_declared n (m ∷ nets) = m == n || is_declared n nets

-- The references that are not in `nets`: all_refs - nets, as a list that may repeat a number.
unfoldable pub invalid_nets : List ℕ → List ℕ → List ℕ
unfolding is_declared
invalid_nets nets [] = []
invalid_nets nets (n ∷ refs) =
    let rest = invalid_nets nets refs in if is_declared n nets then rest else n ∷ rest

pub data Issue : Type 0 where
  unbalanced : ℤ → Issue
  invalid_references : List ℕ → Issue
  no_dimensions : Issue
  wrong_dimensions : ℕ → ℕ → Issue

-- \s, among the ASCII characters
unfoldable pub is_blank : ℕ → Bool
is_blank c = c == b' ' || (leb 9 c && leb c 13) || (leb 28 c && leb c 31)

-- What is behind the text `p` at the start.
unfoldable pub after_text : Text → Text → Option Text
after_text [] t = some t
after_text (x ∷ p) [] = none
after_text (x ∷ p) (c ∷ t) = let rest = after_text p t in if x == c then rest else none

-- What is behind `p` and one \s.
unfoldable pub after_space : Text → Text → Option Text
unfolding after_text is_blank
after_space p t = elim (after_text p t) [
  | none ↦ none
  | some [] ↦ none
  | some (c ∷ rest) ↦ if is_blank c then some rest else none
]

-- The rest of (\d+) and then `ends`, behind the number `n`.
unfoldable pub digits : (Text → Bool) → ℕ → Text → Option ℕ
digits ends n [] = none
digits ends n (c ∷ t) =
    let rest = digits ends (n * 10 + (c - b'0')) t in
    if is_digit c then rest else if ends (c ∷ t) then some n else none

-- \s*(\d+) and then `ends`
unfoldable pub spaced_number : (Text → Bool) → Text → Option ℕ
unfolding digits is_blank
spaced_number ends [] = none
spaced_number ends (c ∷ t) =
    let rest = spaced_number ends t in
    if is_blank c then rest else if is_digit c then digits ends (c - b'0') t else none

-- \(net\s+(\d+) and then `ends`
unfoldable pub net_number : (Text → Bool) → Text → Option ℕ
unfolding after_space spaced_number
net_number ends t = elim (after_space (codes "(net") t) [
  | none ↦ none
  | some rest ↦ spaced_number ends rest
]

-- \)
unfoldable pub closed : Text → Bool
closed [] = false
closed (c ∷ t) = c == b')'

-- \s*"
unfoldable pub quoted : Text → Bool
unfolding is_blank
quoted [] = false
quoted (c ∷ t) = let rest = quoted t in c == b'"' || (is_blank c && rest)

-- \s+"
unfoldable pub spaced_quote : Text → Bool
unfolding is_blank quoted
spaced_quote [] = false
spaced_quote (c ∷ t) = is_blank c && quoted t

-- The matches of `^\s*\(net\s+(\d+)\s+"`, from a place on before which the line holds nothing but
-- white space if `fresh`.
unfoldable pub declared_from : Bool → Text → List ℕ
unfolding is_blank net_number spaced_quote
declared_from fresh [] = []
declared_from fresh (c ∷ t) =
    let rest = declared_from (c == b'\n' || (fresh && is_blank c)) t in
    elim (if fresh then net_number spaced_quote (c ∷ t) else none) [
      | none ↦ rest
      | some n ↦ n ∷ rest
    ]

unfoldable pub collect_nets : Text → List ℕ
unfolding declared_from
collect_nets text = declared_from true text

-- [^)]*\(net\s+(\d+)\): the number ends at the first closing parenthesis.
unfoldable pub net_before_close : Text → Option ℕ
unfolding net_number closed
net_before_close [] = none
net_before_close (c ∷ t) =
    let rest = net_before_close t in
    elim (net_number closed (c ∷ t)) [ some n ↦ some n | none ↦ if c == b')' then none else rest ]

-- The pattern that starts with the text `opening`, at the start.
unfoldable pub item_net : Text → Text → Option ℕ
unfolding after_space net_before_close
item_net opening t = elim (after_space opening t) [
  | none ↦ none
  | some rest ↦ net_before_close rest
]

-- re.findall from here on; after a match, the text up to its closing parenthesis is passed over.
unfoldable pub refs_from : Text → Bool → Text → List ℕ
unfolding item_net
refs_from opening inside [] = []
refs_from opening inside (c ∷ t) = elim (if inside then none else item_net opening (c ∷ t)) [
  | none ↦ refs_from opening (inside && not (c == b')')) t
  | some n ↦ n ∷ refs_from opening true t
]

-- The pattern is that of `main` for the items that start with `opening`.
unfoldable pub extract_net_refs : Text → Text → List ℕ
unfolding refs_from
extract_net_refs text opening = refs_from opening false text

-- all_refs of `main`, as a list that may repeat a number
unfoldable pub all_refs : Text → List ℕ
unfolding extract_net_refs
all_refs text = extract_net_refs text (codes "(segment") ++ extract_net_refs text (codes "(via")

-- abs(a - b)
abbrev distance : ℕ → ℕ → ℕ
distance a b = a - b + (b - a)

abbrev pub paren_issues : Bool × ℤ → List Issue
paren_issues (true, depth) = []
paren_issues (false, depth) = unbalanced depth ∷ []

abbrev pub net_issues : List ℕ → List Issue
net_issues [] = []
net_issues (n ∷ invalid) = invalid_references (n ∷ invalid) ∷ []

abbrev pub dimension_issues : Option (ℕ × ℕ) → List Issue
dimension_issues none = no_dimensions ∷ []
dimension_issues (some (w, h)) =
    if ltb 500 (distance w 160000) || ltb 500 (distance h 100000)
    then wrong_dimensions w h ∷ []
    else []

-- The list `issues` of `main`; `dimensions` is what `check_board_dimensions` finds, in micrometres.
unfoldable pub issues : Text → Option (ℕ × ℕ) → List Issue
unfolding check_parens invalid_nets collect_nets all_refs
issues text dimensions =
    paren_issues (check_parens text)
    ++ (net_issues (invalid_nets (collect_nets text) (all_refs text))
        ++ dimension_issues dimensions)

-- The exit status of `main`.
unfoldable pub exit_status : Text → Option (ℕ × ℕ) → ℕ
unfolding issues
exit_status text dimensions = elim (issues text dimensions) [ [] ↦ 0 | i ∷ rest ↦ 1 ]

-- ===== src/Sheet/Decoupling.antt =====
-- hardware/cirradio-devboard/gen_zynq.py, gen_ddr3l.py, gen_ad9361.py: what `decoupling_group`
-- places.
use cirradio.Prelude.{
  ℕ, zero, suc, ◌+◌, ◌≡◌, refl, ℤ, pos, ◌+ℤ◌, ◌*◌, List, [], ◌∷◌, ◌++◌, Text, codes, ltb, ◌&&◌,
  if◌then◌else◌, text_eq, Bool-cases, inl, inr, arith,
}
use cirradio.Sheet.{
  Series, cap_idx, pwr_idx, Tally, capacitors, Step, tally, item, State, run, cap_row, joining_wire,
  decoupling_group, Item, symbol, wire_item, global_item, hier_item, label_item, text_item,
  no_connect_item, Ref, fixed, next, emit_item, do_item, do_step,
}
use cirradio.Sheet.Numbering.{draws, drawn, run-idx}
use cirradio.Sheet.Counting.{increments, run-counts}

-- What a list of steps draws from the counters of capacitors and of power symbols, and how often it
-- counts a capacitor.
record HasCaps (n : ℕ) (steps : List Step) : Type 0 where
  caps : drawn cap_idx steps ≡ n
  grounds : drawn pwr_idx steps ≡ n
  counted : increments capacitors steps ≡ n

cap_row-HasCaps : (value fp : Text) (n : ℕ) (cx y : ℤ) → HasCaps n (cap_row value fp n cx y)
unfolding cap_row drawn draws increments
cap_row-HasCaps value fp zero cx y = record { caps = refl; grounds = refl; counted = refl }
cap_row-HasCaps value fp (suc n) cx y =
    let row = cap_row-HasCaps value fp n (cx +ℤ pos 5000) y in
    record {
      caps = omega (arith, row.caps);
      grounds = omega (arith, row.grounds);
      counted = omega (arith, row.counted);
    }

joining_wire-HasCaps : (x y : ℤ) (n : ℕ) → HasCaps 0 (joining_wire x y n)
unfolding joining_wire drawn draws increments
joining_wire-HasCaps x y n = elim (Bool-cases (ltb 1 n)) [
  | inl e ↦ rw e (record { caps = refl; grounds = refl; counted = refl })
  | inr e ↦ rw e (record { caps = refl; grounds = refl; counted = refl })
]

drawn-append : (k : Series) (a b : List Step) → drawn k (a ++ b) ≡ drawn k a + drawn k b
unfolding drawn
drawn-append k [] b = omega arith
drawn-append k (step ∷ a) b = omega (arith, drawn-append k a b)

increments-append :
    (k : Tally) (a b : List Step) → increments k (a ++ b) ≡ increments k a + increments k b
unfolding increments
increments-append k [] b = omega arith
increments-append k (tally t ∷ a) b = omega (arith, increments-append k a b)
increments-append k (item e ∷ a) b = increments-append k a b

append-HasCaps : (m n : ℕ) (a b : List Step) → HasCaps m a → HasCaps n b → HasCaps (m + n) (a ++ b)
append-HasCaps m n a b g h = record {
  caps = omega (arith, drawn-append cap_idx a b, g.caps, h.caps);
  grounds = omega (arith, drawn-append pwr_idx a b, g.grounds, h.grounds);
  counted = omega (arith, increments-append capacitors a b, g.counted, h.counted);
}

decoupling_group-HasCaps :
    (rail_net : Text) (x y : ℤ) (m n : ℕ) (label_text : Text)
    → HasCaps (m + (n + 0)) (decoupling_group rail_net x y m n label_text)
unfolding decoupling_group drawn draws increments
decoupling_group-HasCaps rail_net x y m n label_text =
    let rest =
      append-HasCaps m (n + 0) _ _
        (cap_row-HasCaps (codes "100n") (codes "Capacitor_SMD:C_0402_1005Metric") m x y)
        (append-HasCaps n 0 _ _
          (cap_row-HasCaps (codes "10u") (codes "Capacitor_SMD:C_0805_2012Metric") n
            (x +ℤ pos (m * 5000)) y)
          (joining_wire-HasCaps x y (m + n))) in
    record {
      caps = omega (arith, rest.caps);
      grounds = omega (arith, rest.grounds);
      counted = omega (arith, rest.counted);
    }

-- 1 for a symbol of a library and with a value.
is_symbol : {R : Type 0} → Text → Text → Item R → ℕ
unfolding text_eq
is_symbol lib v (symbol lib_id ref value x y unit angle fp pins) =
    if text_eq lib_id lib && text_eq value v then 1 else 0
is_symbol lib v _ = 0

-- How many symbols among the entries are of a library and have a value.
unfoldable pub symbols_of : Text → Text → List (Item Text) → ℕ
unfolding is_symbol
symbols_of lib v [] = 0
symbols_of lib v (e ∷ entries) = is_symbol lib v e + symbols_of lib v entries

-- The same of steps.
steps_of : Text → Text → List Step → ℕ
unfolding is_symbol
steps_of lib v [] = 0
steps_of lib v (tally t ∷ steps) = steps_of lib v steps
steps_of lib v (item e ∷ steps) = is_symbol lib v e + steps_of lib v steps

symbols_of-append :
    (lib v : Text) (a b : List (Item Text))
    → symbols_of lib v (a ++ b) ≡ symbols_of lib v a + symbols_of lib v b
unfolding symbols_of
symbols_of-append lib v [] b = omega arith
symbols_of-append lib v (e ∷ a) b = omega (arith, symbols_of-append lib v a b)

steps_of-append :
    (lib v : Text) (a b : List Step) → steps_of lib v (a ++ b) ≡ steps_of lib v a + steps_of lib v b
unfolding steps_of
steps_of-append lib v [] b = omega arith
steps_of-append lib v (tally t ∷ a) b = steps_of-append lib v a b
steps_of-append lib v (item e ∷ a) b = omega (arith, steps_of-append lib v a b)

do_item-symbols :
    (lib v : Text) (e : Item Ref) (s : State)
    → symbols_of lib v (do_item e s).entries ≡ symbols_of lib v s.entries + (is_symbol lib v e + 0)
unfolding do_item emit_item symbols_of is_symbol
do_item-symbols lib v (symbol lib_id (fixed ref) value x y unit angle fp pins) s =
    symbols_of-append lib v s.entries _
do_item-symbols lib v (symbol lib_id (next k) value x y unit angle fp pins) s =
    symbols_of-append lib v s.entries _
do_item-symbols lib v (wire_item x1 y1 x2 y2) s = symbols_of-append lib v s.entries _
do_item-symbols lib v (global_item name x y shape angle) s = symbols_of-append lib v s.entries _
do_item-symbols lib v (hier_item name x y shape angle) s = symbols_of-append lib v s.entries _
do_item-symbols lib v (label_item name x y angle) s = symbols_of-append lib v s.entries _
do_item-symbols lib v (text_item txt x y size) s = symbols_of-append lib v s.entries _
do_item-symbols lib v (no_connect_item x y) s = symbols_of-append lib v s.entries _

run-symbols :
    (lib v : Text) (steps : List Step) (s : State)
    → symbols_of lib v (run steps s).entries ≡ symbols_of lib v s.entries + steps_of lib v steps
unfolding run do_step steps_of
run-symbols lib v [] s = omega arith
run-symbols lib v (tally k ∷ steps) s = run-symbols lib v steps (do_step (tally k) s)
run-symbols lib v (item e ∷ steps) s =
    omega (arith, run-symbols lib v steps (do_item e s), do_item-symbols lib v e s)

-- The capacitors and the ground symbols of a row of capacitors with one value.
cap_row-steps :
    (v value fp : Text) (n : ℕ) (cx y : ℤ)
    → (steps_of (codes "Device:C") v (cap_row value fp n cx y) ≡ (if text_eq value v then n else 0))
      × (steps_of (codes "power:GND") (codes "GND") (cap_row value fp n cx y) ≡ n)
unfolding cap_row steps_of is_symbol text_eq
cap_row-steps v value fp zero cx y = ground arith
cap_row-steps v value fp (suc n) cx y =
    ground (arith, cap_row-steps v value fp n (cx +ℤ pos 5000) y)

joining_wire-steps : (lib v : Text) (x y : ℤ) (n : ℕ) → steps_of lib v (joining_wire x y n) ≡ 0
unfolding joining_wire steps_of is_symbol
joining_wire-steps lib v x y n = elim (Bool-cases (ltb 1 n)) [
  | inl e ↦ rw e refl
  | inr e ↦ rw e refl
]

-- The symbols that a group places: how many capacitors with the value `v`, and how many grounds.
decoupling_group-steps :
    (v rail_net : Text) (x y : ℤ) (m n : ℕ) (label_text : Text)
    → (steps_of (codes "Device:C") v (decoupling_group rail_net x y m n label_text)
        ≡ (if text_eq (codes "100n") v then m else 0) + (if text_eq (codes "10u") v then n else 0))
      × (steps_of (codes "power:GND") (codes "GND") (decoupling_group rail_net x y m n label_text)
          ≡ m + n)
unfolding decoupling_group steps_of is_symbol
decoupling_group-steps v rail_net x y m n label_text =
    let small : Text = codes "Capacitor_SMD:C_0402_1005Metric" in
    let large : Text = codes "Capacitor_SMD:C_0805_2012Metric" in
    let a = cap_row-steps v (codes "100n") small m x y in
    let b = cap_row-steps v (codes "10u") large n (x +ℤ pos (m * 5000)) y in
    let behind : List Step =
      cap_row (codes "10u") large n (x +ℤ pos (m * 5000)) y ++ joining_wire x y (m + n) in
    (
      omega (
        arith,
        steps_of-append (codes "Device:C") v (cap_row (codes "100n") small m x y) behind,
        a.0,
        b.0,
        steps_of-append (codes "Device:C") v _ (joining_wire x y (m + n)),
        joining_wire-steps (codes "Device:C") v x y (m + n),
      ),
      omega (
        arith,
        steps_of-append (codes "power:GND") (codes "GND") (cap_row (codes "100n") small m x y)
            behind,
        a.1,
        b.1,
        steps_of-append (codes "power:GND") (codes "GND") _ (joining_wire x y (m + n)),
        joining_wire-steps (codes "power:GND") (codes "GND") x y (m + n),
      ),
    )

-- What has been placed and counted from the state `s` to the state `t` by a group of `m` capacitors
-- of 100n and `n` of 10u: the capacitors of each value, a ground symbol for each, and the counters.
pub record Decoupled (m n : ℕ) (s t : State) : Type 0 where
  pub caps_100n :
      symbols_of (codes "Device:C") (codes "100n") t.entries
      ≡ symbols_of (codes "Device:C") (codes "100n") s.entries + m
  pub caps_10u :
      symbols_of (codes "Device:C") (codes "10u") t.entries
      ≡ symbols_of (codes "Device:C") (codes "10u") s.entries + n
  pub grounds :
      symbols_of (codes "power:GND") (codes "GND") t.entries
      ≡ symbols_of (codes "power:GND") (codes "GND") s.entries + (m + n)
  pub next_cap : t.idx cap_idx ≡ s.idx cap_idx + (m + n)
  pub next_pwr : t.idx pwr_idx ≡ s.idx pwr_idx + (m + n)
  pub counted : t.counts capacitors ≡ s.counts capacitors + (m + n)

-- A group places as many capacitors of 100n and as many of 10u as it is told to, and one ground
-- symbol for each of them, wherever it stands; it takes their references from the counters of
-- capacitors and of power symbols, and counts the capacitors.
pub run-decoupling_group :
    (rail_net : Text) (x y : ℤ) (n_100nf n_10uf : ℕ) (label_text : Text) (s : State)
    → Decoupled n_100nf n_10uf s (run (decoupling_group rail_net x y n_100nf n_10uf label_text) s)
unfolding text_eq
run-decoupling_group rail_net x y m n label_text s =
    let steps = decoupling_group rail_net x y m n label_text in
    let group = decoupling_group-HasCaps rail_net x y m n label_text in
    let placed = λ (v : Text). decoupling_group-steps v rail_net x y m n label_text in
    record {
      caps_100n =
          omega (
            arith,
            run-symbols (codes "Device:C") (codes "100n") steps s,
            (placed (codes "100n")).0,
          );
      caps_10u =
          omega
            (arith, run-symbols (codes "Device:C") (codes "10u") steps s, (placed (codes "10u")).0);
      grounds = omega (arith, run-symbols (codes "power:GND") (codes "GND") steps s, (placed []).1);
      next_cap = omega (arith, run-idx cap_idx steps s, group.caps);
      next_pwr = omega (arith, run-idx pwr_idx steps s, group.grounds);
      counted = omega (arith, run-counts capacitors steps s, group.counted);
    }

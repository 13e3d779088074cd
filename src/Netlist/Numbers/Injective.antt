-- ===== src/Netlist/Numbers/Injective.antt =====
-- Net numbers: GND has number 1, and no two nets share a number.
use cirradio.Prelude.{
  ℕ, suc, ◌+◌, ◌≤◌, ◌<◌, ◌≡◌, ◌≢◌, ◌⊎◌, refl, ◌∙◌, inl, some, none, if◌then◌else◌, List, [], ◌∷◌,
  length, Text, codes, text_eq, text_eq_iff, text_eq_refl, Dict, get, put, get-put, count,
  count-sorted, sorted, arith,
}
use cirradio.Netlist.Numbers.{drop_gnd, net_names, number_from, net_map}

-- Each name has a number from 1 to `i`, and no two names have the same.
record IsNumbering (i : ℕ) (d : Dict ℕ) : Type 0 where
  in_range : (a : Text) (k : ℕ) → get a d ≡ some k → (1 ≤ k) × (k ≤ i)
  injective : (a b : Text) (k : ℕ) → get a d ≡ some k → get b d ≡ some k → a ≡ b

put-IsNumbering :
    (i : ℕ) (d : Dict ℕ) (name : Text) → IsNumbering i d → IsNumbering (suc i) (put name (i + 1) d)
put-IsNumbering i d name v = record {
  in_range = λ a k h. ground (arith, get-put name a (i + 1) d, v.in_range a k);
  injective = λ a b k h g. ground (
    arith,
    get-put name a (i + 1) d,
    get-put name b (i + 1) d,
    text_eq_iff name a,
    text_eq_iff name b,
    v.in_range a k,
    v.in_range b k,
    v.injective a b k,
  );
}

number_from-IsNumbering :
    (names : List Text) (i n : ℕ) (d : Dict ℕ)
    → i + length names ≡ n
    → IsNumbering i d
    → IsNumbering n (number_from i names d)
unfolding number_from
number_from-IsNumbering [] i n d e v = let same : i ≡ n = omega arith in rw (← same) v
number_from-IsNumbering (name ∷ names) i n d e v =
    number_from-IsNumbering names (suc i) n (put name (i + 1) d) (omega arith)
      (put-IsNumbering i d name v)

pub get-number_from :
    (n : Text) (names : List Text) (i : ℕ) (d : Dict ℕ)
    → count n names ≡ 0
    → get n (number_from i names d) ≡ get n d
unfolding number_from count
get-number_from n [] i d h = refl
get-number_from n (m ∷ names) i d h =
    get-number_from n names (suc i) (put m (i + 1) d) (ground arith)
    ∙ ground (arith, get-put m n (i + 1) d)

number_from-known :
    (n : Text) (names : List Text) (i : ℕ) (d : Dict ℕ)
    → (0 < count n names) ⊎ (get n d ≢ none)
    → get n (number_from i names d) ≢ none
unfolding number_from count
number_from-known n [] i d h = ground arith
number_from-known n (m ∷ names) i d h =
    number_from-known n names (suc i) (put m (i + 1) d) (ground (arith, get-put m n (i + 1) d))

pub count-drop_gnd :
    (n : Text) (nets : List Text)
    → count n (drop_gnd nets) ≡ (if text_eq n (codes "GND") then 0 else count n nets)
unfolding drop_gnd count
count-drop_gnd n [] = ground arith
count-drop_gnd n (m ∷ nets) = ground (
  arith,
  count-drop_gnd n nets,
  text_eq_iff m n,
  text_eq_iff n (codes "GND"),
  text_eq_iff m (codes "GND"),
)

-- What the numbering of the nets guarantees.
pub record IsNetMap (all_nets : List Text) (d : Dict ℕ) : Type 0 where
  pub gnd_is_1 : get (codes "GND") d ≡ some 1
  pub has_number : (n : Text) → 0 < count n all_nets → get n d ≢ none
  pub in_range : (n : Text) (k : ℕ) → get n d ≡ some k → (1 ≤ k) × (k ≤ length (net_names all_nets))
  pub injective : (a b : Text) (k : ℕ) → get a d ≡ some k → get b d ≡ some k → a ≡ b

gnd_is_1_lem : (all_nets : List Text) → get (codes "GND") (net_map all_nets) ≡ some 1
unfolding net_map
gnd_is_1_lem all_nets =
    get-number_from (codes "GND") (sorted (drop_gnd all_nets)) 1 (put (codes "GND") 1 []) (
      count-sorted (codes "GND") (drop_gnd all_nets)
      ∙ count-drop_gnd (codes "GND") all_nets
      ∙ rw text_eq_refl)
    ∙ get-put (codes "GND") (codes "GND") 1 []
    ∙ rw text_eq_refl

net_map-known :
    (all_nets : List Text) (n : Text) → 0 < count n all_nets → get n (net_map all_nets) ≢ none
unfolding net_map count
net_map-known all_nets n h = number_from-known n (codes "GND" ∷ sorted (drop_gnd all_nets)) 0 [] (
    inl (
      ground (
        arith,
        count-sorted n (drop_gnd all_nets),
        count-drop_gnd n all_nets,
        text_eq_iff n (codes "GND"),
        text_eq_iff (codes "GND") n,
      )))

-- GND has number 1, every net has a number, the numbers go from 1 to the number of nets, and no two
-- nets share one.
pub net_map-IsNetMap : (all_nets : List Text) → IsNetMap all_nets (net_map all_nets)
unfolding net_map get
net_map-IsNetMap all_nets =
    let v =
      number_from-IsNumbering (net_names all_nets) 0 (length (net_names all_nets)) [] (omega arith)
        (record { in_range = λ a k h. ground arith; injective = λ a b k h g. ground arith }) in
    record {
      gnd_is_1 = gnd_is_1_lem all_nets;
      has_number = net_map-known all_nets;
      in_range = v.in_range;
      injective = v.injective;
    }

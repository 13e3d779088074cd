-- ===== src/Netlist/Numbers/Order.antt =====
-- The set of the nets: the numbers do not depend on the order in which Python iterates over it.
use mathlib.Core.Quot
use mathlib.Core.Quot.{Quot}
use cirradio.Prelude.{
  ℕ, suc, ◌+◌, ◌<◌, ◌≤◌, ◌≡◌, ◌≢◌, ◌∙◌, sym, refl, ap, true, false, if◌then◌else◌, Bool-cases, inl,
  inr, List, [], ◌∷◌, Text, codes, text_eq, text_eq_iff, text_eq_refl, text_leb, sorted,
  insert_text, count, count-sorted, IsSorted, sorted-IsSorted, All, Dict, get, put, get-put, some,
  arith,
}
use cirradio.Netlist.Numbers.Injective.{get-number_from, count-drop_gnd}
use cirradio.Netlist.Numbers.{drop_gnd, net_names, number_from, net_map}

-- Two listings of a set.
abbrev pub SameNets : List Text → List Text → Type 0
SameNets xs ys = (t : Text) → count t xs ≡ count t ys

-- A set of nets: a listing of which the order is forgotten.
abbrev pub NetSet : Type 0
NetSet = Quot SameNets

text_leb_antisym : (s t : Text) → text_leb s t ≡ true → text_leb t s ≡ true → s ≡ t
unfolding text_leb
text_leb_antisym [] [] h k = refl
text_leb_antisym [] (y ∷ t) h k = absurd (ground (arith, k))
text_leb_antisym (x ∷ s) [] h k = absurd (ground (arith, h))
text_leb_antisym (x ∷ s) (y ∷ t) h k =
    let head : x ≡ y = ground (arith, h, k) in
    let rest : s ≡ t = text_leb_antisym s t (ground (arith, h, k)) (ground (arith, h, k)) in
    cc (head, rest)

text_leb_refl : (s : Text) → text_leb s s ≡ true
unfolding text_leb
text_leb_refl [] = refl
text_leb_refl (x ∷ s) = ground (arith, text_leb_refl s)

All-count :
    (t s : Text) (names : List Text)
    → All (λ r. text_leb t r ≡ true) names
    → 0 < count s names
    → text_leb t s ≡ true
unfolding count
All-count t s [] a h = absurd (omega (arith, h))
All-count t s (r ∷ names) a h = elim (Bool-cases (text_eq r s)) [
  | inl e ↦ rw (← (text_eq_iff r s).0 e) a.0
  | inr e ↦ All-count t s names a.1 (ground (arith, h, e))
]

-- The first of a sorted list is at most all that occur in it.
first-count :
    (t s : Text) (names : List Text)
    → All (λ r. text_leb t r ≡ true) names
    → 0 < count s (t ∷ names)
    → text_leb t s ≡ true
first-count t s names a h = All-count t s (t ∷ names) (text_leb_refl t, a) h

count_pos : (t : Text) (names : List Text) → 0 < count t (t ∷ names)
unfolding count
count_pos t names = ground (arith, text_eq_refl t)

-- Sorted lists of the same names are the same.
sorted_unique : (xs ys : List Text) → IsSorted xs → IsSorted ys → SameNets xs ys → xs ≡ ys
unfolding count
sorted_unique [] [] a b h = refl
sorted_unique [] (y ∷ ys) a b h = absurd (ground (arith, h y, count_pos y ys))
sorted_unique (x ∷ xs) [] a b h = absurd (ground (arith, h x, count_pos x xs))
sorted_unique (x ∷ xs) (y ∷ ys) a b h =
    let same : x ≡ y =
      text_leb_antisym x y (first-count x y xs a.0 (rw (h y) (count_pos y ys)))
        (first-count y x ys b.0 (rw (← h x) (count_pos x xs))) in
    let tails : SameNets xs ys = λ t.
      let ht = h t in
      let heads : text_eq x t ≡ text_eq y t = ap (λ z. text_eq z t) same in
      ground (arith, ht, heads) in
    cc (same, sorted_unique xs ys a.1 b.1 tails)

sorted-SameNets : (xs ys : List Text) → SameNets xs ys → sorted (drop_gnd xs) ≡ sorted (drop_gnd ys)
sorted-SameNets xs ys h =
    sorted_unique (sorted (drop_gnd xs)) (sorted (drop_gnd ys)) (sorted-IsSorted (drop_gnd xs))
      (sorted-IsSorted (drop_gnd ys))
      (λ t.
        let ht = h t in
        ground (
          arith,
          count-sorted t (drop_gnd xs),
          count-sorted t (drop_gnd ys),
          count-drop_gnd t xs,
          count-drop_gnd t ys,
          ht,
        ))

net_names-SameNets : (xs ys : List Text) → SameNets xs ys → net_names xs ≡ net_names ys
unfolding net_names
net_names-SameNets xs ys h = ap (λ names. codes "GND" ∷ names) (sorted-SameNets xs ys h)

-- The numbers are the same for each listing of the set.
net_map-SameNets : (xs ys : List Text) → SameNets xs ys → net_map xs ≡ net_map ys
unfolding net_map
net_map-SameNets xs ys h = ap (λ names. number_from 0 names []) (net_names-SameNets xs ys h)

-- How many names are less than `t`.
below : Text → List Text → ℕ
below t [] = 0
below t (s ∷ names) = (if text_leb t s then 0 else 1) + below t names

below-insert_text :
    (t s : Text) (names : List Text)
    → below t (insert_text s names) ≡ (if text_leb t s then 0 else 1) + below t names
unfolding below insert_text
below-insert_text t s [] = refl
below-insert_text t s (r ∷ names) = ground (arith, below-insert_text t s names)

below-sorted : (t : Text) (names : List Text) → below t (sorted names) ≡ below t names
unfolding below sorted
below-sorted t [] = refl
below-sorted t (s ∷ names) =
    omega (arith, below-insert_text t s (sorted names), below-sorted t names)

-- How many nets of a set, other than GND, come before `t` in the order of strings.
pub rank : Text → NetSet → ℕ
rank t =
    Quot.lift (hlevel) (λ names. below t (drop_gnd names))
      λ xs ys h.
        sym (below-sorted t (drop_gnd xs))
        ∙ ap (below t) (sorted-SameNets xs ys h)
        ∙ below-sorted t (drop_gnd ys)

below-All :
    (t : Text) (names : List Text) → All (λ s. text_leb t s ≡ true) names → below t names ≡ 0
unfolding below
below-All t [] a = refl
below-All t (s ∷ names) a = ground (arith, below-All t names a.1, a.0)

-- The number of a name in a sorted list without repetitions.
get-number_from-below :
    (t : Text) (names : List Text) (i : ℕ) (d : Dict ℕ)
    → IsSorted names
    → ((s : Text) → count s names ≤ 1)
    → 0 < count t names
    → get t (number_from i names d) ≡ some (i + 1 + below t names)
unfolding number_from count below
get-number_from-below t [] i d a u h = absurd (omega (arith, h))
get-number_from-below t (n ∷ names) i d a u h = elim (Bool-cases (text_eq n t)) [
  | inl e ↦
      let same : n ≡ t = (text_eq_iff n t).0 e in
      let once = u t in
      let least : below t names ≡ 0 = below-All t names (rw (← same) a.0) in
      get-number_from t names (suc i) (put n (i + 1) d) (ground (arith, once, e))
      ∙ ground (arith, get-put n t (i + 1) d, e, least, text_leb_refl t, ap (text_leb t) same)
  | inr e ↦
      let later : 0 < count t names = ground (arith, h, e) in
      let more : text_leb t n ≡ false = elim (Bool-cases (text_leb t n)) [
        | inl le ↦ absurd (
            ground (
              arith,
              e,
              (text_eq_iff n t).1 (text_leb_antisym n t (All-count n t names a.0 later) le),
            ))
        | inr gt ↦ gt
      ] in
      get-number_from-below t names (suc i) (put n (i + 1) d) a.1
        (λ s. let us = u s in ground (arith, us)) later
      ∙ ground (arith, more)
]

-- The numbers of the nets depend on the set of the nets only: in each listing of it that has no net
-- twice, a net other than GND has the number 2 plus how many nets of the set other than GND come
-- before it in the order of strings.
pub net_map-rank :
    (all_nets : List Text) (t : Text)
    → ((s : Text) → count s all_nets ≤ 1)
    → 0 < count t all_nets
    → t ≢ codes "GND"
    → get t (net_map all_nets) ≡ some (2 + rank t (Quot.mk all_nets))
unfolding net_map net_names number_from rank
net_map-rank all_nets t once here other =
    get-number_from-below t (sorted (drop_gnd all_nets)) 1 (put (codes "GND") 1 [])
      (sorted-IsSorted (drop_gnd all_nets))
      (λ s.
        let us = once s in
        ground (arith, count-sorted s (drop_gnd all_nets), count-drop_gnd s all_nets, us))
      (ground (
        arith,
        count-sorted t (drop_gnd all_nets),
        count-drop_gnd t all_nets,
        here,
        other,
        text_eq_iff t (codes "GND"),
      ))
    ∙ ground (arith, below-sorted t (drop_gnd all_nets))

-- ===== src/Routing/Entry/Wiring.antt =====
-- A route between two points of the board, on a net of the board, is wired.
use cirradio.Prelude.{
  ℕ, zero, suc, ◌+◌, ◌-◌, ◌*◌, ◌≤◌, ◌≡◌, ◌≢◌, inl, inr, some, List, [], map, All, Text, Bool-cases,
  not, ◌&&◌, ◌==◌, if◌then◌else◌, get, arith,
}
use cirradio.Routing.Trace.{
  Copper, Point, pieces, along, point_along, route_from, route_point_to_point,
}
use cirradio.Routing.Entry.{Entry, trace, Nets, net_or_0, traces_by, traces, IsConnected, Wired}

mul_mono : (a b n : ℕ) → a ≤ b → a * n ≤ b * n
mul_mono a b n h = grind arith

mul_mono_right : (c i n : ℕ) → i ≤ n → c * i ≤ c * n
mul_mono_right c i n h = grind arith

regroup : (a b n : ℕ) → a ≤ b → a * n + (b - a) * n ≡ b * n
regroup a b n h = grind arith

along_bound : (a b n i m : ℕ) → a ≤ m → b ≤ m → i ≤ n → along a b n i ≤ m * n
unfolding along
along_bound a b n i m h k l = ground (
  arith,
  mul_mono a m n h,
  mul_mono b m n k,
  mul_mono_right (b - a) i n l,
  λ (q : a ≤ b). regroup a b n q,
)

-- An end of a route, before it is cut into pieces.
abbrev pub IsEnd : Point → Type 0
IsEnd p = (p.x ≤ 160000) × (p.y ≤ 100000)

module _ (nets : Nets) (p q : Point) (width : ℕ) (layer : Copper) (net : ℕ) where
  route_from-Wired :
      (n rest i : ℕ)
      → IsEnd p
      → IsEnd q
      → IsConnected nets net
      → rest + i ≡ n
      → All (Wired nets) (map trace (route_from p q width layer net n rest i))
  unfolding route_from point_along
  route_from-Wired n zero i a b c e = tt
  route_from-Wired n (suc rest) i a b c e = (
    record {
      connected = c;
      start_on = record {
        x_bound = along_bound p.x q.x n i 160000 a.0 b.0 (omega arith);
        y_bound = along_bound p.y q.y n i 100000 a.1 b.1 (omega arith);
      };
      finish_on = record {
        x_bound = along_bound p.x q.x n (suc i) 160000 a.0 b.0 (omega arith);
        y_bound = along_bound p.y q.y n (suc i) 100000 a.1 b.1 (omega arith);
      };
    },
    route_from-Wired n rest (suc i) a b c (omega arith),
  )

  pub traces_by-Wired :
      (max_seg : ℕ)
      → IsEnd p
      → IsEnd q
      → IsConnected nets net
      → All (Wired nets) (traces_by max_seg p q width layer net)
  unfolding traces_by route_point_to_point
  traces_by-Wired max_seg a b c =
      let n : ℕ = pieces p q max_seg in route_from-Wired n n 0 a b c (omega arith)

  pub traces-Wired :
      IsEnd p → IsEnd q → IsConnected nets net → All (Wired nets) (traces p q width layer net)
  traces-Wired = traces_by-Wired 5000

or_else-nonzero :
    (nets : Nets) (name : Text) → net_or_0 nets name ≢ 0 → get name nets ≡ some (net_or_0 nets name)
unfolding net_or_0
or_else-nonzero nets name h = ground arith

-- A net that passes the test for 0 is the number of its name.
pub net_or_0-IsConnected :
    (nets : Nets) (name : Text) → net_or_0 nets name ≢ 0 → IsConnected nets (net_or_0 nets name)
net_or_0-IsConnected nets name h = record {
  name = name;
  known = or_else-nonzero nets name h;
  nonzero = omega arith;
}

module _ (nets : Nets) (entries : List Entry) where
  -- if net_num == 0: continue
  pub if_net-Wired :
      (name : Text)
      → (IsConnected nets (net_or_0 nets name) → All (Wired nets) entries)
      → All (Wired nets) (if net_or_0 nets name == 0 then [] else entries)
  if_net-Wired name h = elim (Bool-cases (net_or_0 nets name == 0)) [
    | inl e ↦ rw e tt
    | inr e ↦ rw e (h (net_or_0-IsConnected nets name (ground arith)))
  ]

  -- if net_p and net_n
  pub if_pair-Wired :
      (p n : Text)
      → (IsConnected nets (net_or_0 nets p)
          → IsConnected nets (net_or_0 nets n)
          → All (Wired nets) entries)
      → All
          (Wired nets)
          (if not (net_or_0 nets p == 0) && not (net_or_0 nets n == 0) then entries else [])
  if_pair-Wired p n h = elim (Bool-cases (net_or_0 nets p == 0)) [
    | inl e ↦ rw e tt
    | inr e ↦ elim (Bool-cases (net_or_0 nets n == 0)) [
      | inl f ↦ rw (e, f) tt
      | inr f ↦
          rw (e, f)
            (h (net_or_0-IsConnected nets p (ground arith))
              (net_or_0-IsConnected nets n (ground arith)))
    ]
  ]

-- ===== src/World/Route/Shortest.antt =====
-- `routeCost` ends, and what it has walked is a shortest path.
use mini_world.Base.{
  ℕ, zero, suc, ◌+◌, ◌*◌, ◌≤◌, ◌≡◌, ◌≢◌, refl, ap, sym, subst, ◌∙◌, true, false, some, Bool-cases,
  inl, inr, arith,
}
use mini_world.Base.Int.{eqb_ℤ_iff}
use mini_world.World.Hex.{HexCoord, distance, same_hex}
use mini_world.World.Hex.Metric.{eq_of_distance, distance_self, distance_comm, distance_triangle}
use mini_world.World.Route.{
  WorldMap, hex_cost, terrain_move_cost, step_toward, route_loop, route_cost,
}
use mini_world.World.Route.Greedy.{step_toward_lem}

-- A path over adjacent hexes with its number of steps and the sum of the costs of the hexes entered.
pub data Walk (m : WorldMap) (to : HexCoord) : HexCoord → ℕ → ℕ → Type 0 where
  there_already : Walk m to to 0 0
  move :
      {from next : HexCoord} {steps cost : ℕ}
      → distance from next ≡ 1
      → Walk m to next steps cost
      → Walk m to from (suc steps) (hex_cost (m next) + cost)

pub same_hex-eq : (a b : HexCoord) → same_hex a b ≡ true → a ≡ b
same_hex-eq a b h = ground (arith, eqb_ℤ_iff a.q b.q, eqb_ℤ_iff a.r b.r)

pub same_hex_self : (a : HexCoord) → same_hex a a ≡ true
same_hex_self a = ground arith

-- A hex that is away from the target is not the target, and one at distance 1 is another hex.
not_same : (a b : HexCoord) (k : ℕ) → distance a b ≡ suc k → same_hex a b ≡ false
not_same a b k h = elim (Bool-cases (same_hex a b)) [
  | inl e ↦ absurd (omega (arith, distance_self b, h, ap (λ c. distance c b) (same_hex-eq a b e)))
  | inr e ↦ e
]

-- One round of the loop, away from the target and with a step that moves.
loop_round :
    (m : WorldMap) (to : HexCoord) (fuel : ℕ) (cur : HexCoord) (cost : ℕ)
    → same_hex cur to ≡ false
    → same_hex (step_toward to cur) cur ≡ false
    → route_loop m to (suc fuel) cur cost
      ≡ route_loop m to fuel (step_toward to cur) (cost + hex_cost (m (step_toward to cur)))
unfolding route_loop
loop_round m to fuel cur cost away moved = rw (away, moved)

loop_walks :
    (m : WorldMap) (to : HexCoord) (k : ℕ) (cur : HexCoord) (cost : ℕ)
    → distance cur to ≡ k
    → (c : ℕ) × (route_loop m to (suc k) cur cost ≡ some (cost + c)) × Walk m to cur k c
unfolding route_loop
loop_walks m to zero cur cost h =
    let e = eq_of_distance cur to h in
    let there : same_hex cur to ≡ true = rw e (same_hex_self to) in
    (0, rw there (ap some (omega arith)), subst (λ c. Walk m to c 0 0) (sym e) there_already)
loop_walks m to (suc k) cur cost h =
    let away = not_same cur to k h in
    let ne : cur ≢ to =
      λ e. absurd (omega (arith, distance_self to, h, ap (λ c. distance c to) e)) in
    let (one, nearer) = step_toward_lem to cur k ne h in
    let next = step_toward to cur in
    let moved = not_same next cur 0 (distance_comm next cur ∙ one) in
    let (c, e, w) = loop_walks m to k next (cost + hex_cost (m next)) nearer in
    (
      hex_cost (m next) + c,
      loop_round m to (suc k) cur cost away moved ∙ e ∙ ap some (omega arith),
      move one w,
    )

-- On every map routeCost returns, and its result is the cost of a path over adjacent hexes that
-- reaches the target in exactly as many steps as the hex distance.
pub route_cost-Walk :
    (from to : HexCoord) (m : WorldMap)
    → (c : ℕ) × (route_cost from to m ≡ some c) × Walk m to from (distance from to) c
unfolding route_cost
route_cost-Walk from to m =
    let (c, e, w) = loop_walks m to (distance from to) from 0 refl in
    (c, e ∙ ap some (omega arith), w)

hex_cost_bounds : (m : WorldMap) (h : HexCoord) → (3 ≤ hex_cost (m h)) × (hex_cost (m h) ≤ 999)
unfolding hex_cost terrain_move_cost
hex_cost_bounds m h = ground arith

-- A walk of k steps over a map costs from 3 to 999 for each of them.
pub Walk-bounds :
    {m : WorldMap} {to from : HexCoord} {k c : ℕ} → Walk m to from k c → (3 * k ≤ c) × (c ≤ 999 * k)
Walk-bounds there_already = omega arith
Walk-bounds {m} (move {next = n} e w) = omega (arith, Walk-bounds w, hex_cost_bounds m n)

-- No path over adjacent hexes has fewer steps than the hex distance.
pub Walk-shortest :
    {m : WorldMap} {to from : HexCoord} {k c : ℕ} → Walk m to from k c → distance from to ≤ k
Walk-shortest {to} there_already = omega (arith, distance_self to)
Walk-shortest {to} {from} (move {next = n} e w) =
    omega (arith, Walk-shortest w, distance_triangle from n to)

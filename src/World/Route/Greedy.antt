-- ===== src/World/Route/Greedy.antt =====
-- One step of the greedy walk goes to a neighbour that is nearer the target by one.
use mini_world.Base.{
  ℕ, suc, ◌≤◌, ◌≡◌, ◌≢◌, inl, inr, arith, All, All-map, subst, Any, List, [], ◌∷◌, ltb, Bool-cases,
  tests,
}
use mini_world.World.Hex.{HexCoord, distance, neighbors}
use mini_world.World.Hex.Metric.{distance_triangle, distance_self}
use mini_world.World.Hex.Steps.{step-Nearer, neighbors-at_one}
use mini_world.World.Route.{closest, step_toward}

-- `c` is the first guess or one of the list, and none of these is nearer.
abbrev IsClosest : HexCoord → (HexCoord → Type 0) → HexCoord → List HexCoord → HexCoord → Type 0
IsClosest to P best ns c =
    P c × (distance c to ≤ distance best to) × All (λ n. distance c to ≤ distance n to) ns

closest-IsClosest :
    (to : HexCoord) (P : HexCoord → Type 0) (ns : List HexCoord) (best : HexCoord)
    → P best
    → All P ns
    → IsClosest to P best ns (closest to ns best (distance best to))
unfolding closest
closest-IsClosest to P [] best p ps = (p, omega arith, tt)
closest-IsClosest to P (n ∷ ns) best p (pn, ps) =
    elim (Bool-cases (ltb (distance n to) (distance best to))) [
      | inl nearer ↦
          let (held, low, rest) = closest-IsClosest to P ns n pn ps in
          subst (IsClosest to P best (n ∷ ns)) (rw nearer)
            (held, omega (tests, nearer), (low, rest))
      | inr farther ↦
          let (held, low, rest) = closest-IsClosest to P ns best p ps in
          subst (IsClosest to P best (n ∷ ns)) (rw farther)
            (held, low, (omega (tests, farther), rest))
    ]

-- Where some element lies within a bound and all are at least `d`, so is `d`.
le_of_Any :
    {A : Type 0} (f : A → ℕ) (d k : ℕ) (xs : List A)
    → Any (λ x. f x ≤ k) xs
    → All (λ x. d ≤ f x) xs
    → d ≤ k
le_of_Any f d k [] h all = absurd h
le_of_Any f d k (x ∷ xs) (inl h) all = omega arith
le_of_Any f d k (x ∷ xs) (inr h) all = le_of_Any f d k xs h all.1

-- The next hex of the walk: a neighbour, or the hex itself, and nearer unless the target is reached.
pub step_toward_lem :
    (to cur : HexCoord) (k : ℕ)
    → cur ≢ to
    → distance cur to ≡ suc k
    → (distance cur (step_toward to cur) ≡ 1) × (distance (step_toward to cur) to ≡ k)
unfolding step_toward neighbors
step_toward_lem to cur k ne far =
    let start : distance cur cur ≤ 1 = omega (arith, distance_self cur) in
    let (near, low, least) =
      closest-IsClosest to (λ n. distance cur n ≤ 1) (neighbors cur) cur start
        (All-map {P = λ n. distance cur n ≡ 1} {Q = λ n. distance cur n ≤ 1} (λ n h. omega arith)
          (neighbors cur) (neighbors-at_one cur)) in
    let toward =
      le_of_Any (λ n. distance n to) _ k (neighbors cur) (step-Nearer cur to k (omega arith) ne)
        least in
    let long = distance_triangle cur (closest to (neighbors cur) cur (distance cur to)) to in
    omega arith

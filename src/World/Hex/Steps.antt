-- ===== src/World/Hex/Steps.antt =====
-- Steps to the six neighbours of a hex: each is at distance 1, and one of them is nearer the target.
use mini_world.Base.{ℕ, ◌+◌, ◌≤◌, ◌≡◌, inl, inr, arith, suc, All, Any, ◌≢◌, ap}
use mini_world.Base.Int.{
  pos, pos_part, neg_part, ◌-ℤ◌, ◌+ℤ◌, ◌≤ℤ◌, abs, abs_laws, int_laws, negsuc, compared, below,
  above, level,
}
use mini_world.World.Hex.{offset, HexCoord, s_coord, distance, shift, directions, neighbors}
use mini_world.World.Hex.Metric.{distance-le, le-distance}

-- The three differences that a distance bounds.
abbrev IsWithin : HexCoord → HexCoord → ℕ → Type 0
IsWithin a b k =
    (abs (a.q -ℤ b.q) ≤ k) × (abs (a.r -ℤ b.r) ≤ k) × (abs (s_coord a -ℤ s_coord b) ≤ k)

-- The cube coordinates add up to 0.
abbrev HasSum : HexCoord → Type 0
HasSum h =
    pos_part (s_coord h) + pos_part h.q + pos_part h.r
    ≡ neg_part (s_coord h) + neg_part h.q + neg_part h.r

s_coord-HasSum : (h : HexCoord) → HasSum h
unfolding s_coord
s_coord-HasSum h = omega int_laws

module _ (a b : HexCoord) (k : ℕ) (far : distance a b ≤ suc k) where
  -- Where the signs of the two differences allow it, the step by one direction is nearer.
  abbrev Nearer : HexCoord → Type 0
  Nearer dir = distance (shift a dir) b ≤ k

  -- The differences before the step, and the third coordinates on both sides of it.
  facts : (dir : HexCoord) → IsWithin a b (suc k) × HasSum a × HasSum b × HasSum (shift a dir)
  facts dir =
      let (fq, fr, fs) = le-distance a b in
      (
        (omega arith, omega arith, omega arith),
        s_coord-HasSum a,
        s_coord-HasSum b,
        s_coord-HasSum (shift a dir),
      )

  near_by : (dir : HexCoord) → IsWithin (shift a dir) b k → Nearer dir
  near_by dir h = distance-le (shift a dir) b k h.0 h.1 h.2

  east : a.q +ℤ pos 1 ≤ℤ b.q → a.r ≤ℤ b.r → Nearer (offset (pos 1) (pos 0))
  east h0 h1 =
      let known = facts (offset (pos 1) (pos 0)) in
      near_by (offset (pos 1) (pos 0)) (omega abs_laws)

  north_east : a.q +ℤ pos 1 ≤ℤ b.q → b.r +ℤ pos 1 ≤ℤ a.r → Nearer (offset (pos 1) (negsuc 0))
  north_east h0 h1 =
      let known = facts (offset (pos 1) (negsuc 0)) in
      near_by (offset (pos 1) (negsuc 0)) (omega abs_laws)

  north : a.q ≡ b.q → b.r +ℤ pos 1 ≤ℤ a.r → Nearer (offset (pos 0) (negsuc 0))
  north e h0 =
      let same : pos_part a.q ≡ pos_part b.q = ap pos_part e in
      let same' : neg_part a.q ≡ neg_part b.q = ap neg_part e in
      let known = facts (offset (pos 0) (negsuc 0)) in
      near_by (offset (pos 0) (negsuc 0)) (omega abs_laws)

  west : b.q +ℤ pos 1 ≤ℤ a.q → b.r ≤ℤ a.r → Nearer (offset (negsuc 0) (pos 0))
  west h0 h1 =
      let known = facts (offset (negsuc 0) (pos 0)) in
      near_by (offset (negsuc 0) (pos 0)) (omega abs_laws)

  south_west : b.q +ℤ pos 1 ≤ℤ a.q → a.r +ℤ pos 1 ≤ℤ b.r → Nearer (offset (negsuc 0) (pos 1))
  south_west h0 h1 =
      let known = facts (offset (negsuc 0) (pos 1)) in
      near_by (offset (negsuc 0) (pos 1)) (omega abs_laws)

  south : a.q ≡ b.q → a.r +ℤ pos 1 ≤ℤ b.r → Nearer (offset (pos 0) (pos 1))
  south e h0 =
      let same : pos_part a.q ≡ pos_part b.q = ap pos_part e in
      let same' : neg_part a.q ≡ neg_part b.q = ap neg_part e in
      let known = facts (offset (pos 0) (pos 1)) in
      near_by (offset (pos 0) (pos 1)) (omega abs_laws)

  -- Away from the target some direction leads nearer.
  pub step-Nearer : a ≢ b → Any Nearer directions
  step-Nearer ne = elim (compared a.q b.q) [
    | below h ↦ elim (compared a.r b.r) [
      | below h' ↦ inl (east h (omega int_laws))
      | above h' ↦ inr (inl (north_east h h'))
      | level e ↦ inl (east h (omega (arith, ap pos_part e, ap neg_part e)))
    ]
    | above h ↦ elim (compared a.r b.r) [
      | below h' ↦ inr (inr (inr (inr (inl (south_west h h')))))
      | above h' ↦ inr (inr (inr (inl (west h (omega int_laws)))))
      | level e ↦ inr (inr (inr (inl (west h (omega (arith, ap pos_part e, ap neg_part e))))))
    ]
    | level e ↦ elim (compared a.r b.r) [
      | below h' ↦ inr (inr (inr (inr (inr (inl (south e h'))))))
      | above h' ↦ inr (inr (inl (north e h')))
      | level e' ↦ absurd (ne (λ i. record { q = e i; r = e' i }))
    ]
  ]

module _ (a : HexCoord) where
  -- A step by one direction moves by at most 1, and not by 0.
  unit_step :
      (dir : HexCoord)
      → abs dir.q ≤ 1
      → abs dir.r ≤ 1
      → abs (dir.q +ℤ dir.r) ≤ 1
      → 1 ≤ abs dir.q + abs dir.r
      → distance a (shift a dir) ≡ 1
  unit_step dir hq hr hs some_step =
      let (fq, fr, fs) = le-distance a (shift a dir) in
      let e = s_coord-HasSum a in
      let e' = s_coord-HasSum (shift a dir) in
      let short : distance a (shift a dir) ≤ 1 =
        distance-le a (shift a dir) 1 (omega abs_laws) (omega abs_laws) (omega abs_laws) in
      omega abs_laws

  -- Every neighbour is at distance 1.
  pub neighbors-at_one : All (λ n. distance a n ≡ 1) (neighbors a)
  unfolding neighbors abs ◌+ℤ◌
  neighbors-at_one = (
    unit_step (offset (pos 1) (pos 0)) (omega arith) (omega arith) (omega arith) (omega arith),
    (
      unit_step (offset (pos 1) (negsuc 0)) (omega arith) (omega arith) (omega arith) (omega arith),
      (
        unit_step (offset (pos 0) (negsuc 0)) (omega arith) (omega arith) (omega arith)
            (omega arith),
        (
          unit_step (offset (negsuc 0) (pos 0)) (omega arith) (omega arith) (omega arith)
              (omega arith),
          (
            unit_step (offset (negsuc 0) (pos 1)) (omega arith) (omega arith) (omega arith)
                (omega arith),
            (
              unit_step (offset (pos 0) (pos 1)) (omega arith) (omega arith) (omega arith)
                  (omega arith),
              tt,
            ),
          ),
        ),
      ),
    ),
  )

-- ===== src/World/Hex/Metric.antt =====
-- The hex distance of internal/world/hex.go is a metric.
use mini_world.Base.{ℕ, ◌+◌, ◌≤◌, ◌≡◌, arith}
use mini_world.Base.Int.{ℤ, ◌-ℤ◌, abs, abs_laws, eq_of_parts}
use mini_world.World.Hex.{HexCoord, s_coord, distance}

pub abs-sub_comm : (x y : ℤ) → abs (x -ℤ y) ≡ abs (y -ℤ x)
abs-sub_comm x y = omega abs_laws

pub abs-sub_self : (x : ℤ) → abs (x -ℤ x) ≡ 0
abs-sub_self x = omega abs_laws

pub abs-sub_triangle : (x y z : ℤ) → abs (x -ℤ z) ≤ abs (x -ℤ y) + abs (y -ℤ z)
abs-sub_triangle x y z = omega abs_laws

pub abs-zero : (x y : ℤ) → abs (x -ℤ y) ≡ 0 → x ≡ y
abs-zero x y h = omega (abs_laws, eq_of_parts x y)

-- The distance is the same in both directions.
pub distance_comm : (a b : HexCoord) → distance a b ≡ distance b a
unfolding distance
distance_comm a b =
    ground (arith, abs-sub_comm a.q b.q, abs-sub_comm a.r b.r, abs-sub_comm (s_coord a) (s_coord b))

-- A detour is never shorter: the hex distance obeys the triangle inequality.
pub distance_triangle : (a b c : HexCoord) → distance a c ≤ distance a b + distance b c
unfolding distance
distance_triangle a b c = ground (
  arith,
  abs-sub_triangle a.q b.q c.q,
  abs-sub_triangle a.r b.r c.r,
  abs-sub_triangle (s_coord a) (s_coord b) (s_coord c),
)

-- Two coordinates at distance 0 are the same hex.
pub eq_of_distance : (a b : HexCoord) → distance a b ≡ 0 → a ≡ b
unfolding distance
eq_of_distance a b h = ground (arith, abs-zero a.q b.q, abs-zero a.r b.r)

pub distance_self : (a : HexCoord) → distance a a ≡ 0
unfolding distance
distance_self a = ground (arith, abs-sub_self a.q, abs-sub_self a.r, abs-sub_self (s_coord a))

-- The distance bounds each of the three differences, and is the least such bound.
pub le-distance :
    (a b : HexCoord)
    → (abs (a.q -ℤ b.q) ≤ distance a b)
      × (abs (a.r -ℤ b.r) ≤ distance a b)
      × (abs (s_coord a -ℤ s_coord b) ≤ distance a b)
unfolding distance
le-distance a b = ground arith

pub distance-le :
    (a b : HexCoord) (k : ℕ)
    → abs (a.q -ℤ b.q) ≤ k
    → abs (a.r -ℤ b.r) ≤ k
    → abs (s_coord a -ℤ s_coord b) ≤ k
    → distance a b ≤ k
unfolding distance
distance-le a b k hq hr hs = ground arith

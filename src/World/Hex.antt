-- ===== src/World/Hex.antt =====
-- internal/world/hex.go: axial coordinates, the six neighbours, and the hex distance. Go's `int`
-- coordinates are unbounded integers here; a distance is a natural number.
pub mod Metric
pub mod Steps
use mini_world.Base.{ℕ, ◌+◌, ◌≤◌, Bool, ◌&&◌, List, [], ◌∷◌, map, ltb, leb, if◌then◌else◌}
use mini_world.Base.Int.{ℤ, pos, negsuc, ◌-ℤ◌, ◌+ℤ◌, abs, eqb_ℤ}

pub record HexCoord : Type 0 where
  pub q : ℤ
  pub r : ℤ

-- `HexCoord.S`, the third cube coordinate.
unfoldable pub s_coord : HexCoord → ℤ
s_coord h = pos 0 -ℤ h.q -ℤ h.r

pub data Terrain : Type 0 where
  plains forest mountain coast river desert swamp tundra ocean : Terrain

abbrev pub offset : ℤ → ℤ → HexCoord
offset a b = record { q = a; r = b }

-- `HexNeighborDirections`
abbrev pub directions : List HexCoord
directions =
    offset (pos 1) (pos 0)
    ∷ offset (pos 1) (negsuc 0)
    ∷ offset (pos 0) (negsuc 0)
    ∷ offset (negsuc 0) (pos 0)
    ∷ offset (negsuc 0) (pos 1)
    ∷ offset (pos 0) (pos 1)
    ∷ []

abbrev pub shift : HexCoord → HexCoord → HexCoord
shift h dir = record { q = h.q +ℤ dir.q; r = h.r +ℤ dir.r }

-- `HexCoord.Neighbors`
unfoldable pub neighbors : HexCoord → List HexCoord
neighbors h = map (shift h) directions

-- The running maximum of `Distance` and `InBounds`.
abbrev max3 : ℕ → ℕ → ℕ → ℕ
max3 a b c = let m = if ltb a b then b else a in if ltb m c then c else m

unfoldable pub distance : HexCoord → HexCoord → ℕ
distance a b = max3 (abs (a.q -ℤ b.q)) (abs (a.r -ℤ b.r)) (abs (s_coord a -ℤ s_coord b))

-- `Map.InBounds`
unfoldable pub in_bounds : ℕ → HexCoord → Bool
in_bounds radius h = leb (max3 (abs h.q) (abs h.r) (abs (s_coord h))) radius

-- `cur == to` on coordinates
abbrev pub same_hex : HexCoord → HexCoord → Bool
same_hex a b = eqb_ℤ a.q b.q && eqb_ℤ a.r b.r

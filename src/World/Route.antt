-- ===== src/World/Route.antt =====
-- `routeCost`, `terrainMoveCost` and `roadAdjustedCost` of internal/engine/market.go: the greedy walk
-- over the hex grid that prices a journey. The loop takes fuel; `none` means that it ran out.
pub mod Greedy
pub mod Shortest
use mini_world.Base.{
  ℕ, zero, suc, ◌+◌, ◌≤◌, Bool, Option, none, some, List, [], ◌∷◌, ltb, if◌then◌else◌,
}
use mini_world.World.Hex.{
  HexCoord, Terrain, plains, forest, mountain, coast, river, desert, swamp, tundra, ocean,
  neighbors, distance, same_hex,
}

unfoldable pub terrain_move_cost : Terrain → ℕ
terrain_move_cost plains = 6
terrain_move_cost forest = 8
terrain_move_cost mountain = 12
terrain_move_cost coast = 6
terrain_move_cost river = 3
terrain_move_cost desert = 8
terrain_move_cost swamp = 10
terrain_move_cost tundra = 8
terrain_move_cost ocean = 999

-- `worldMap.Get`, as far as the walk reads it: the terrain of the hex, or nil.
abbrev pub WorldMap : Type 0
WorldMap = HexCoord → Option Terrain

-- What entering a hex adds to the cost.
unfoldable pub hex_cost : Option Terrain → ℕ
hex_cost none = 6
hex_cost (some t) = terrain_move_cost t

-- The inner loop of `routeCost`, on the best hex so far and its distance.
unfoldable pub closest : HexCoord → List HexCoord → HexCoord → ℕ → HexCoord
closest to [] best best_dist = best
closest to (n ∷ ns) best best_dist =
    let d = distance n to in
    let nearer = ltb d best_dist in
    closest to ns (if nearer then n else best) (if nearer then d else best_dist)

unfoldable pub step_toward : HexCoord → HexCoord → HexCoord
unfolding closest
step_toward to cur = closest to (neighbors cur) cur (distance cur to)

-- The outer loop of `routeCost`.
unfoldable pub route_loop : WorldMap → HexCoord → ℕ → HexCoord → ℕ → Option ℕ
route_loop m to zero cur cost = none
route_loop m to (suc fuel) cur cost =
    let best = step_toward to cur in
    let rest = route_loop m to fuel best (cost + hex_cost (m best)) in
    if same_hex cur to then some cost else if same_hex best cur then some cost else rest

-- `routeCost`: the fuel is one more than the distance.
unfoldable pub route_cost : HexCoord → HexCoord → WorldMap → Option ℕ
unfolding route_loop
route_cost from to m = route_loop m to (suc (distance from to)) from 0

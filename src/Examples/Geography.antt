-- ===== src/Examples/Geography.antt =====
-- Journeys over a small map.
use mini_world.Base.Int.{eqb_ℤ, pos, abs, ◌-ℤ◌}
use mini_world.World.Route.Shortest.{Walk, route_cost-Walk, move, there_already}
use mini_world.World.Hex.{HexCoord, distance, mountain, plains, s_coord}
use mini_world.World.Route.{WorldMap, route_cost, hex_cost, terrain_move_cost}
use mini_world.Base.{ℕ, ◌≡◌, refl, some, if◌then◌else◌}
use mini_world.Examples.Town.{here, there}

abbrev hills : WorldMap
hills h = if eqb_ℤ h.q (pos 1) then some mountain else some plains

route_cost-Walk_example :
    (c : ℕ) × (route_cost here there hills ≡ some c) × Walk hills there here (distance here there) c
route_cost-Walk_example = route_cost-Walk here there hills

beside : HexCoord
beside = record { q = pos 1; r = pos 0 }

one_step : Walk hills beside here 1 12
unfolding distance hex_cost terrain_move_cost abs ◌-ℤ◌ s_coord beside
one_step = move {next = beside} refl there_already

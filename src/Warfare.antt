-- ===== src/Warfare.antt =====
-- The hexes that a raid wins: captureHex of internal/engine/warfare.go. The map of hexes is a list, in
-- the order in which a `range` loop happens to visit it; pointers to its hexes are places in it.
pub mod Border
pub mod Capture
use mini_world.Base.Float.{Float}
use mini_world.World.Hex.{HexCoord, neighbors, same_hex}
use mini_world.Base.{
  ℕ, zero, suc, ◌+◌, ◌-◌, ◌*◌, ◌≤◌, ◌<◌, ◌^◌, ◌≡◌, refl, sym, ap, subst, ◌∙◌, ◌≢◌, ◌⊎◌, inl, inr,
  Bool, true, false, not, ◌&&◌, ◌||◌, Option, none, some, List, [], ◌∷◌, ◌++◌, arith, ltb, leb,
  ◌==◌, if◌then◌else◌, tests, Bool-cases, Option-cases, length, get_elem?, modify, All, Any, total,
}

-- `Hex` of internal/world/hex.go
pub record Hex (F : Type 0) : Type 0 where
  pub coord : HexCoord
  pub health : F
  pub claimed_by : Option ℕ
  pub settlement_id : Option ℕ

-- `p != nil && *p == id`
abbrev pub is_id : ℕ → Option ℕ → Bool
is_id id none = false
is_id id (some n) = n == id

module _ {F : Type 0} where
  -- How many hexes a settlement claims.
  abbrev pub count_claimed : ℕ → List (Hex F) → ℕ
  count_claimed id = total (λ (h : Hex F). if is_id id h.claimed_by then 1 else 0)

  -- `attackerClaims[c]`
  unfoldable pub claims : ℕ → List (Hex F) → HexCoord → Bool
  claims id [] c = false
  claims id (h ∷ hs) c = (is_id id h.claimed_by && same_hex h.coord c) || claims id hs c

  unfoldable pub touches : ℕ → List (Hex F) → List HexCoord → Bool
  touches id hexes [] = false
  touches id hexes (c ∷ cs) = claims id hexes c || touches id hexes cs

  -- A hex of the loser, not its home, next to the winner's.
  abbrev pub is_border : ℕ → ℕ → List (Hex F) → Hex F → Bool
  is_border winner loser hexes h =
      is_id loser h.claimed_by
      && (not (is_id loser h.settlement_id) && touches winner hexes (neighbors h.coord))

  abbrev pub take_over : ℕ → Hex F → Hex F
  take_over winner h = record h { claimed_by = some winner }

  abbrev pub transfer : ℕ → Option (ℕ × Hex F) → List (Hex F) → Option HexCoord × List (Hex F)
  transfer winner none hexes = (none, hexes)
  transfer winner (some (at, h)) hexes = (some h.coord, modify at (take_over winner) hexes)

module _ {F : Type 0} ⦃d : Float F⦄ where
  abbrev pub is_fitter : Option (ℕ × Hex F) → Hex F → Bool
  is_fitter none h = true
  is_fitter (some (at, best)) h = d.lt best.health h.health

  -- The loop that picks the healthiest hex of the border, from place `i` on.
  unfoldable pub best_border :
      ℕ → ℕ → List (Hex F) → ℕ → List (Hex F) → Option (ℕ × Hex F) → Option (ℕ × Hex F)
  best_border winner loser all i [] best = best
  best_border winner loser all i (h ∷ hs) best =
      best_border winner loser all (suc i) hs
        (if is_border winner loser all h && is_fitter best h then some (i, h) else best)

  -- `captureHex`, with the IDs of the settlements
  unfoldable pub capture_hex : ℕ → ℕ → List (Hex F) → Option HexCoord × List (Hex F)
  unfolding best_border touches claims
  capture_hex winner loser hexes =
      if leb (count_claimed loser hexes) 1
      then (none, hexes)
      else transfer winner (best_border winner loser hexes 0 hexes none) hexes

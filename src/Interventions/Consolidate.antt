-- ===== src/Interventions/Consolidate.antt =====
-- ConsolidateSettlement of internal/engine/intervention.go: the people of a dying settlement move to the
-- nearest viable one.
pub mod Nearest
pub mod Crowns
use mini_world.Ledger.{World, update_agent}
use mini_world.Model.Agents.{Agent}
use mini_world.World.Hex.{distance}
use mini_world.Base.Float.{Float}
use Prim.Native.String.{String}
use mini_world.Base.Int.{ℤ, pos, leb_ℤ}
use mini_world.Model.Settlements.{Settlement}
use mini_world.Simulation.{
  Sim, emit, Fragment, say, int, is_alive, residents, rebuild_settlement_agents,
}
use mini_world.Interventions.{
  find_settlement_by_name, note, Outcome, done, failed, SimError, no_settlement, no_target,
  nobody_to_move,
}
use mini_world.Base.{
  ℕ, zero, suc, ◌+◌, ◌-◌, ◌*◌, ◌≤◌, ◌<◌, ◌^◌, ◌≡◌, refl, sym, ap, subst, ◌∙◌, ◌≢◌, ◌⊎◌, inl, inr,
  Bool, true, false, not, ◌&&◌, ◌||◌, Option, none, some, List, [], ◌∷◌, ◌++◌, arith, ltb, leb,
  ◌==◌, if◌then◌else◌, tests, Bool-cases, Option-cases, length, get_elem?, modify, All, Any, total,
}

module _ {F : Type 0} where
  -- `sett.ID == source.ID || sett.Population < 50`, the other way round.
  abbrev pub is_viable : Settlement F → Settlement F → Bool
  is_viable source s = not ((s.id == source.id) || ltb s.population 50)

  abbrev pub is_nearer : Settlement F → Settlement F → ℕ → Bool
  is_nearer source s best_dist =
      let dist = distance source.position s.position in
      is_viable source s && (leb dist 8 && ltb dist best_dist)

  -- The loop that finds the target, with the best one so far and its distance.
  unfoldable pub target_from :
      Settlement F → List (Settlement F) → Option (Settlement F) → ℕ → Option (Settlement F)
  target_from source [] best best_dist = best
  target_from source (s ∷ ss) best best_dist =
      let nearer = is_nearer source s best_dist in
      target_from source ss (if nearer then some s else best)
        (if nearer then distance source.position s.position else best_dist)

  abbrev pub settle_in : Settlement F → Agent F → Agent F
  settle_in target a = record a { home_sett_id = some target.id; position = target.position }

  -- The loop over the residents; reassignIfMismatched does nothing.
  unfoldable pub move_agents : ℤ → Settlement F → List ℕ → World F → ℕ → World F × ℕ
  move_agents most target [] w moved = (w, moved)
  move_agents most target (p ∷ ps) w moved =
      let on = move_agents most target ps (update_agent p (settle_in target) w) (moved + 1) in
      let skip = move_agents most target ps w moved in
      if leb_ℤ most (pos moved)
      then (w, moved)
      else if is_alive (get_elem? w.agents p)
      then on
      else skip

  abbrev pub refuge : String → ℕ → String → List (Fragment F)
  refuge name moved target =
      say "Refugees from "
      ∷ say name
      ∷ say " ("
      ∷ int (pos moved)
      ∷ say " souls) seek shelter in "
      ∷ say target
      ∷ []

module _ {F : Type 0} ⦃d : Float F⦄ where
  abbrev pub consolidated : String → Settlement F → World F × ℕ → Sim F → Sim F × Outcome F
  consolidated name target (w, moved) s =
      let text = refuge name moved target.name in
      if moved == 0
      then (record s { world = w }, failed (nobody_to_move name))
      else (note text (rebuild_settlement_agents (record s { world = w })), done text)

  abbrev pub consolidate_into :
      String → ℤ → Settlement F → Option (Settlement F) → Sim F → Sim F × Outcome F
  consolidate_into name most source none s = (s, failed (no_target name))
  consolidate_into name most source (some target) s =
      consolidated name target
        (move_agents most target (residents source.id s.settlement_agents) s.world 0) s

  abbrev pub consolidate_at : String → ℤ → Option (ℕ × Settlement F) → Sim F → Sim F × Outcome F
  consolidate_at name most none s = (s, failed (no_settlement name))
  consolidate_at name most (some (at, source)) s =
      consolidate_into name most source (target_from source s.world.settlements none 999) s

  -- `ConsolidateSettlement`
  unfoldable pub consolidate_settlement : String → ℤ → Sim F → Sim F × Outcome F
  unfolding target_from move_agents
  consolidate_settlement name most s =
      consolidate_at name most (find_settlement_by_name name 0 s.world.settlements) s

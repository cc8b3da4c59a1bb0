-- ===== src/Governance/Revolution.antt =====
-- `checkRevolution` of internal/engine/governance.go: a settlement in crisis falls to a faction.
pub mod Crowns
pub mod Choice
use mini_world.Merchant.Commission.{coherence_of, id_of}
use mini_world.Model.Agents.{Agent, commoner, leader}
use mini_world.Model.Settlements.{
  GovernanceType, Settlement, monarchy, merchant_republic, council, commune,
}
use mini_world.Ledger.{
  Faction, World, update_agent, update_settlement, balance, treasury, credit, chest, debit,
}
use mini_world.Base.{
  ℕ, zero, suc, ◌+◌, ◌-◌, ◌*◌, ◌≤◌, ◌<◌, ◌^◌, ◌≡◌, refl, sym, ap, subst, ◌∙◌, ◌≢◌, ◌⊎◌, inl, inr,
  Bool, true, false, not, ◌&&◌, ◌||◌, Option, none, some, List, [], ◌∷◌, ◌++◌, arith, ltb, leb,
  ◌==◌, if◌then◌else◌, tests, Bool-cases, Option-cases, length, get_elem?, modify, All, Any, total,
}
use mini_world.Base.Float.{Float, psyche, agnosis}

module _ {F : Type 0} ⦃d : Float F⦄ where
  abbrev pub is_over : Option F → Bool
  is_over none = false
  is_over (some inf) = d.lt (d.lit 40 0) inf

  -- `dominantFaction == nil || inf > f.Influence[sett.ID]`, with `f` the faction of the round.
  abbrev pub takes_over : Option F → Option ℕ → Bool
  takes_over inf none = true
  takes_over none (some best) = false
  takes_over (some inf) (some best) = d.lt inf inf

  -- The loop over the factions: the place of the next one, and that of the dominant one so far.
  unfoldable pub dominant_from : ℕ → List (Faction F) → ℕ → Option ℕ → Option ℕ
  dominant_from sett [] i best = best
  dominant_from sett (f ∷ fs) i best =
      let inf = f.influence sett in
      dominant_from sett fs (suc i) (if is_over inf && takes_over inf best then some i else best)

  abbrev pub coherence_at : World F → ℕ → F
  coherence_at w p = coherence_of (get_elem? w.agents p)

  abbrev pub more_coherent : World F → ℕ → Option ℕ → Bool
  more_coherent w p none = true
  more_coherent w p (some best) = d.lt (coherence_at w best) (coherence_at w p)

  -- The loop over the living agents.
  unfoldable pub revolutionary_of : World F → List ℕ → Option ℕ → Option ℕ
  revolutionary_of w [] best = best
  revolutionary_of w (p ∷ ps) best = revolutionary_of w ps (
      if d.lt (d.round32 psyche) (coherence_at w p) && more_coherent w p best then some p else best)

-- The governance that a faction brings; another ID leaves it as it is.
unfoldable pub governance_of : ℕ → GovernanceType → GovernanceType
governance_of faction old =
    if faction == 1
    then monarchy
    else if faction == 2
    then merchant_republic
    else if faction == 3
    then council
    else if faction == 4 || faction == 5
    then commune
    else old

module _ {F : Type 0} where
  abbrev pub depose : Agent F → Agent F
  depose a = if a.alive then record a { role = commoner } else a

  abbrev pub crown : Agent F → Agent F
  crown a = record a { role = leader }

  -- The old leader, if the settlement has one and the index knows it.
  abbrev pub depose_leader : (ℕ → Option ℕ) → Option ℕ → World F → World F
  depose_leader agent_index none w = w
  depose_leader agent_index (some id) w = elim (agent_index id) [
    | none ↦ w
    | some p ↦ update_agent p depose w
  ]

  abbrev pub faction_id : Option (Faction F) → ℕ
  faction_id none = 0
  faction_id (some f) = f.id

  abbrev pub leader_of : Option (Settlement F) → Option ℕ
  leader_of none = none
  leader_of (some s) = s.leader_id

  abbrev pub overturn : ℕ → ℕ → Settlement F → Settlement F
  overturn faction id s = record s {
    governance = governance_of faction s.governance;
    leader_id = some id;
  }

module _ {F : Type 0} ⦃d : Float F⦄ where
  abbrev pub threshold_of : Settlement F → F
  threshold_of s = d.sub (d.lit 3 1) (d.mul (d.mul s.culture_tradition agnosis) (d.lit 1 1))

  unfoldable pub seized : ℕ → F → ℕ
  seized held part = d.trunc (d.mul (d.of_ℕ held) part)

  abbrev pub settle_down : Settlement F → Settlement F
  settle_down s = record s { governance_score = d.lit 5 1 }

  -- From `Revolution fires!` on: the settlement at `at` falls to the faction at `c` and the agent at `p`.
  unfoldable pub revolt : (ℕ → Option ℕ) → ℕ → ℕ → ℕ → World F → World F
  revolt agent_index at c p w =
      let deposed = depose_leader agent_index (leader_of (get_elem? w.settlements at)) w in
      let overturned =
        update_settlement at
          (overturn (faction_id (get_elem? w.factions c)) (id_of (get_elem? w.agents p)))
          (update_agent p crown deposed) in
      let loot = seized (balance (treasury at) overturned) (d.lit 3 1) in
      update_settlement at settle_down (credit (chest c) loot (debit (treasury at) loot overturned))

  abbrev pub revolt_with : (ℕ → Option ℕ) → ℕ → Option ℕ → Option ℕ → World F → World F
  revolt_with agent_index at none p w = w
  revolt_with agent_index at (some c) none w = w
  revolt_with agent_index at (some c) (some p) w = revolt agent_index at c p w

  abbrev pub check_found : (ℕ → Option ℕ) → ℕ → List ℕ → Option (Settlement F) → World F → World F
  check_found agent_index at alive none w = w
  check_found agent_index at alive (some s) w =
      let fallen =
        revolt_with agent_index at (dominant_from s.id w.factions 0 none)
          (revolutionary_of w alive none) w in
      if d.le (threshold_of s) s.governance_score then w else fallen

  -- `checkRevolution`, for the settlement at `at` and its living agents.
  unfoldable pub check_revolution : (ℕ → Option ℕ) → ℕ → List ℕ → World F → World F
  check_revolution agent_index at alive w =
      check_found agent_index at alive (get_elem? w.settlements at) w

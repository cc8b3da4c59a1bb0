-- ===== src/Interventions/Consolidate/Crowns.antt =====
-- What ConsolidateSettlement and the other interventions of internal/engine/intervention.go leave alone.
use mini_world.Model.Goods.{GoodType}
use Prim.Native.String.{String}
use mini_world.Base.Float.{Float}
use mini_world.Ledger.Moves.{Conserves-refl, Conserves-trans, update_agent-Conserves}
use mini_world.Model.Settlements.{Settlement, Entries, Market, MarketEntry, entry_of}
use mini_world.Model.Agents.{Agent}
use mini_world.Base.Int.{ℤ, leb_ℤ, pos}
use mini_world.Interventions.Consolidate.{
  move_agents, settle_in, consolidate_settlement, consolidated, consolidate_into, consolidate_at,
  target_from,
}
use mini_world.Interventions.{
  provision_settlement, provision_at, provision_market, provision_good, provision_entry,
  cultivate_settlement, cultivate_at, Outcome, done, failed, find_settlement_by_name,
  good_type_from_string,
}
use mini_world.Simulation.{
  Sim, rebuild_settlement_agents, update_populations, index_agents, is_alive, residents,
}
use mini_world.Ledger.{World, Conserves, crowns, update_agent}
use mini_world.Base.{
  ℕ, suc, ◌+◌, ◌≤◌, ◌≡◌, refl, ap, inl, inr, Option, none, some, List, [], ◌∷◌, arith, ◌==◌,
  Bool-cases, length, get_elem?, total,
}

-- A failure leaves the simulation as it was.
abbrev pub FailsClean : {F : Type 0} → Sim F → Sim F × Outcome F → Type 0
FailsClean s (s', done text) = Unit
FailsClean s (s', failed e) = s' ≡ s

module _ {F : Type 0} where
  -- Nobody moves without being counted, and no more than asked for.
  move_agents-count :
      (most : ℤ) (target : Settlement F) (ps : List ℕ) (w : World F) (n : ℕ)
      → (n ≤ (move_agents most target ps w n).1)
        × ((move_agents most target ps w n).1 ≡ n → (move_agents most target ps w n).0 ≡ w)
  unfolding move_agents
  move_agents-count most target [] w n = (omega arith, (λ _. refl))
  move_agents-count most target (p ∷ ps) w n = elim (Bool-cases (leb_ℤ most (pos n))) [
    | inl full ↦ rw full (omega arith, (λ _. refl))
    | inr room ↦ elim (Bool-cases (is_alive (get_elem? w.agents p))) [
      | inl up ↦
          let ih = move_agents-count most target ps (update_agent p (settle_in target) w) (n + 1) in
          let ge = ih.0 in rw (room, up) (omega arith, (λ e. absurd (omega arith)))
      | inr down ↦ rw (room, down) (move_agents-count most target ps w n)
    ]
  ]

  move_agents-Conserves :
      (most : ℤ) (target : Settlement F) (ps : List ℕ) (w : World F) (n : ℕ)
      → Conserves w (move_agents most target ps w n).0
  unfolding move_agents
  move_agents-Conserves most target [] w n = Conserves-refl w
  move_agents-Conserves most target (p ∷ ps) w n = elim (Bool-cases (leb_ℤ most (pos n))) [
    | inl full ↦ rw full (Conserves-refl w)
    | inr room ↦ elim (Bool-cases (is_alive (get_elem? w.agents p))) [
      | inl up ↦
          let moved = update_agent p (settle_in target) w in
          rw (room, up)
            (Conserves-trans (update_agent-Conserves p (settle_in target) w (λ a. refl))
              (move_agents-Conserves most target ps moved (n + 1)))
      | inr down ↦ rw (room, down) (move_agents-Conserves most target ps w n)
    ]
  ]

  treasuries-update_populations :
      (agents : List (Agent F)) (m : List (ℕ × List ℕ)) (ss : List (Settlement F))
      → (total (λ (s : Settlement F). s.treasury) (update_populations agents m ss)
          ≡ total (λ (s : Settlement F). s.treasury) ss)
        × (length (update_populations agents m ss) ≡ length ss)
  unfolding update_populations
  treasuries-update_populations agents m [] = (refl, refl)
  treasuries-update_populations agents m (s ∷ ss) =
      let ih = treasuries-update_populations agents m ss in
      (ap (λ n. s.treasury + n) ih.0, ap suc ih.1)

  pub rebuild_settlement_agents-Conserves :
      (s : Sim F) → Conserves s.world (rebuild_settlement_agents s).world
  unfolding rebuild_settlement_agents crowns
  rebuild_settlement_agents-Conserves s =
      let kept =
        treasuries-update_populations s.world.agents (index_agents 0 s.world.agents [])
          s.world.settlements in
      record {
        same_crowns = rw (kept.0);
        same_shape = record { same_agents = refl; same_settlements = kept.1; same_factions = refl };
      }

module _ {F : Type 0} ⦃d : Float F⦄ where
  consolidated-FailsClean :
      (name : String) (target : Settlement F) (r : World F × ℕ) (s : Sim F)
      → (r.1 ≡ 0 → r.0 ≡ s.world)
      → FailsClean s (consolidated name target r s)
  consolidated-FailsClean name target (w, moved) s same = elim (Bool-cases (moved == 0)) [
    | inl nobody ↦
        let zero_moved : moved ≡ 0 = ground arith in let kept = same zero_moved in rw (nobody, kept)
    | inr some_moved ↦ rw some_moved tt
  ]

  consolidate_into-FailsClean :
      (name : String) (most : ℤ) (source : Settlement F) (t : Option (Settlement F)) (s : Sim F)
      → FailsClean s (consolidate_into name most source t s)
  consolidate_into-FailsClean name most source none s = refl
  consolidate_into-FailsClean name most source (some target) s =
      let ps = residents source.id s.settlement_agents in
      consolidated-FailsClean name target (move_agents most target ps s.world 0) s
        (move_agents-count most target ps s.world 0).1

  consolidate_at-FailsClean :
      (name : String) (most : ℤ) (found : Option (ℕ × Settlement F)) (s : Sim F)
      → FailsClean s (consolidate_at name most found s)
  consolidate_at-FailsClean name most none s = refl
  consolidate_at-FailsClean name most (some (at, source)) s =
      consolidate_into-FailsClean name most source (target_from source s.world.settlements none 999)
        s

  pub consolidate_settlement-FailsClean :
      (name : String) (most : ℤ) (s : Sim F) → FailsClean s (consolidate_settlement name most s)
  unfolding consolidate_settlement
  consolidate_settlement-FailsClean name most s =
      consolidate_at-FailsClean name most (find_settlement_by_name name 0 s.world.settlements) s

  provision_entry-FailsClean :
      (name good : String) (n : ℤ) (at : ℕ) (g : GoodType) (e : Option (MarketEntry F)) (s : Sim F)
      → FailsClean s (provision_entry name good n at g e s)
  provision_entry-FailsClean name good n at g none s = refl
  provision_entry-FailsClean name good n at g (some e) s = tt

  provision_good-FailsClean :
      (name good : String) (n : ℤ) (at : ℕ) (es : Entries F) (g : Option GoodType) (s : Sim F)
      → FailsClean s (provision_good name good n at es g s)
  provision_good-FailsClean name good n at es none s = refl
  provision_good-FailsClean name good n at es (some g) s =
      provision_entry-FailsClean name good n at g (entry_of g es) s

  provision_market-FailsClean :
      (name good : String) (n : ℤ) (at : ℕ) (mk : Option (Market F)) (s : Sim F)
      → FailsClean s (provision_market name good n at mk s)
  provision_market-FailsClean name good n at none s = refl
  provision_market-FailsClean name good n at (some mk) s =
      provision_good-FailsClean name good n at mk.entries (good_type_from_string good) s

  provision_at-FailsClean :
      (name good : String) (n : ℤ) (found : Option (ℕ × Settlement F)) (s : Sim F)
      → FailsClean s (provision_at name good n found s)
  provision_at-FailsClean name good n none s = refl
  provision_at-FailsClean name good n (some (at, sett)) s =
      provision_market-FailsClean name good n at sett.market s

  pub provision_settlement-FailsClean :
      (name good : String) (n : ℤ) (s : Sim F) → FailsClean s (provision_settlement name good n s)
  unfolding provision_settlement
  provision_settlement-FailsClean name good n s =
      provision_at-FailsClean name good n (find_settlement_by_name name 0 s.world.settlements) s

  cultivate_at-FailsClean :
      (name : String) (m : F) (days : ℤ) (found : Option (ℕ × Settlement F)) (s : Sim F)
      → FailsClean s (cultivate_at name m days found s)
  cultivate_at-FailsClean name m days none s = refl
  cultivate_at-FailsClean name m days (some (at, sett)) s = tt

  pub cultivate_settlement-FailsClean :
      (name : String) (m : F) (days : ℤ) (s : Sim F)
      → FailsClean s (cultivate_settlement name m days s)
  unfolding cultivate_settlement
  cultivate_settlement-FailsClean name m days s =
      cultivate_at-FailsClean name m days (find_settlement_by_name name 0 s.world.settlements) s

-- ===== src/Examples/Stewardship.antt =====
-- A realm of two settlements with boosts, what an operator asks of it, and what the gardener plans.
use mini_world.Market.Prices.{new_entry, new_market}
use mini_world.Model.Goods.{fish}
use mini_world.Base.Int.{pos}
use mini_world.Interventions.Consolidate.{target_from}
use mini_world.Interventions.{
  clean_expired_boosts, find_settlement_by_name, cultivate_settlement, good_type_from_string,
  provision_settlement, stock_up,
}
use mini_world.Gardener.{Decision, enforce_guardrails, max_interventions, critical}
use mini_world.Interventions.Api.{
  Intervention, handle_intervention, Response, admin_only, success, http_error,
}
use mini_world.Simulation.{Boost, Sim, rebuild_settlement_agents}
use mini_world.Model.Settlements.{Settlement, entry_of}
use mini_world.Simulation.{residents}
use mini_world.Gardener.Triage.{crisis_of}
use mini_world.Gardener.Triage.Severity.{severity, crisis_of_mono}
use mini_world.Base.{
  ℕ, suc, ◌≡◌, refl, ◌≢◌, true, none, some, List, [], ◌∷◌, ◌++◌, arith, All, ◌≤◌, inr, inl,
}
use Prim.Native.String.{String, ◌++◌ as joined}
use mini_world.Examples.Fixed.{fixed, fixed-IsOrdered}
use mini_world.Examples.Town.{town, home, there}
use mini_world.Gardener.Bounds.{IsGraded, Keeps}
use mini_world.Gardener.Decisions.{IsCareful, enforce_guardrails-AreSafe}
use mini_world.Gardener.Accepted.{IsAccepted, enforce_guardrails-IsAccepted}
use mini_world.Interventions.Api.Refusals.{RefusesClean, handle_intervention-RefusesClean}
use mini_world.Interventions.Api.Access.{admin_only-post}
use mini_world.Interventions.Boosts.{
  live, clean_expired_boosts_lem, clean_expired_boosts-cultivate_settlement,
}
use mini_world.Interventions.Provision.{provision_settlement-entry, entry_at}
use mini_world.Interventions.Consolidate.Nearest.{IsNearest, target_from-IsNearest}
use mini_world.Simulation.Index.{rebuild_settlement_agents-IsCensus, homed_at, AreCounted}

fixed-IsGraded : IsGraded ℕ fixed
fixed-IsGraded = record {
  two_not_less = refl;
  one_not_less = refl;
  two_not_one = refl;
  le_zero-lt_one = λ x h. ground arith;
}

abbrev ashby : Settlement ℕ
ashby = record home { id = 8; name = "Ashby"; position = there; population = 120; market = none }

abbrev boost : ℕ → ℕ → ℕ → Boost ℕ
boost id m until = record { settlement_id = id; multiplier = m; expires_at = until }

abbrev realm : Sim ℕ
realm = record {
  world = record town { settlements = home ∷ ashby ∷ [] };
  agent_index = (0, 0) ∷ (1, 1) ∷ (2, 2) ∷ (3, 3) ∷ (4, 4) ∷ (5, 5) ∷ [];
  settlement_agents = (7, 0 ∷ 1 ∷ 2 ∷ 3 ∷ 4 ∷ []) ∷ [];
  active_boosts = boost 7 1200 400 ∷ boost 8 1500 900 ∷ boost 7 1400 950 ∷ [];
  last_tick = 500;
  events = [];
}

abbrev blank : Intervention ℕ
blank = record {
  type_name = "event";
  description = "";
  category = "";
  settlement = "Oakford";
  amount = pos 0;
  count = pos 0;
  good = "grain";
  quantity = pos 0;
  multiplier = 0;
  duration_days = pos 0;
}

-- A plan that asks for too much of everything.
abbrev plan : Decision ℕ
plan = record {
  action = "intervene";
  rationale = "";
  intervention = none;
  interventions =
      some (record blank { type_name = "wealth"; amount = pos 100000 })
      ∷ some (record blank { type_name = "cultivate"; multiplier = 9000; duration_days = pos 90 })
      ∷ some blank
      ∷ some (record blank { type_name = "provision"; quantity = pos 5000 })
      ∷ [];
}

abbrev snap : List (String × ℕ)
snap = ("Oakford", 90) ∷ []

clean_expired_boosts_lem_example :
    clean_expired_boosts 500 realm ≡ record realm { active_boosts = live 500 realm.active_boosts }
clean_expired_boosts_lem_example = clean_expired_boosts_lem 500 realm

clean_expired_boosts-cultivate_settlement_example :
    (clean_expired_boosts 600
      (cultivate_settlement ⦃d = fixed⦄ "Oakford" 1500 (pos 3) realm).0).active_boosts
    ≡ live 600 realm.active_boosts ++ boost 7 1500 4820 ∷ []
unfolding find_settlement_by_name
clean_expired_boosts-cultivate_settlement_example =
    clean_expired_boosts-cultivate_settlement ⦃d = fixed⦄ "Oakford" 1500 3 600 realm 0 home refl
      (omega arith)

provision_settlement-entry_example :
    entry_at ⦃d = fixed⦄
      (provision_settlement ⦃d = fixed⦄ "Oakford" "fish" (pos 40) realm).0.world
      0
      fish
    ≡ some (stock_up ⦃d = fixed⦄ 40000 (new_entry ⦃d = fixed⦄ (fish, 2)).1)
unfolding find_settlement_by_name good_type_from_string entry_of new_market
provision_settlement-entry_example =
    provision_settlement-entry ⦃d = fixed⦄ "Oakford" "fish" (pos 40) realm 0 home
      (new_market ⦃d = fixed⦄) fish ((new_entry ⦃d = fixed⦄ (fish, 2)).1) refl refl refl refl 0 fish

target_from-IsNearest_example :
    IsNearest home realm.world.settlements (target_from home realm.world.settlements none 999)
target_from-IsNearest_example = target_from-IsNearest home realm.world.settlements

rebuild_settlement_agents-IsCensus_example :
    ((id : ℕ)
      → residents id (rebuild_settlement_agents realm).settlement_agents
        ≡ homed_at id 0 realm.world.agents)
    × AreCounted realm.world.agents (rebuild_settlement_agents realm).world.settlements
rebuild_settlement_agents-IsCensus_example = rebuild_settlement_agents-IsCensus realm (omega arith)

handle_intervention-RefusesClean_example : RefusesClean realm (
    handle_intervention ⦃d = fixed⦄ none true
      (some (record blank { type_name = "consolidate"; count = pos 20 }))
      realm)
handle_intervention-RefusesClean_example =
    handle_intervention-RefusesClean ⦃d = fixed⦄ none true
      (some (record blank { type_name = "consolidate"; count = pos 20 })) realm

abbrev admin_key : String
admin_key = "key"

abbrev header : String
header = "Bearer key"

abbrev count_up : ℕ → Response ℕ × ℕ
count_up n = (success [], suc n)

admin_only-post_example :
    (admin_key ≢ ""
      → header ≡ joined "Bearer " admin_key
      → admin_only admin_key true header count_up 3 ≡ count_up 3)
    × (admin_key ≡ "" → admin_only admin_key true header count_up 3 ≡ (http_error 403, 3))
    × (admin_key ≢ ""
        → header ≢ joined "Bearer " admin_key
        → admin_only admin_key true header count_up 3 ≡ (http_error 401, 3))
admin_only-post_example = admin_only-post admin_key header count_up 3

enforce_guardrails-AreSafe_example :
    Keeps
      (IsCareful ⦃d = fixed⦄ snap (some critical))
      (enforce_guardrails ⦃d = fixed⦄ snap (some critical) plan)
enforce_guardrails-AreSafe_example =
    enforce_guardrails-AreSafe ⦃d = fixed⦄ fixed-IsGraded snap (some critical) plan

enforce_guardrails-IsAccepted_example :
    Keeps
      (λ (dec' : Decision ℕ). All (IsAccepted ⦃d = fixed⦄) dec'.interventions)
      (enforce_guardrails ⦃d = fixed⦄ snap (some critical) plan)
enforce_guardrails-IsAccepted_example =
    enforce_guardrails-IsAccepted ⦃d = fixed⦄ fixed-IsGraded snap (some critical) plan

-- A quiet world with little trade, and one with more deaths and none.
crisis_of_mono_example :
    (severity (crisis_of ⦃d = fixed⦄ 1500 20 (pos 800) 100)
      ≤ severity (crisis_of ⦃d = fixed⦄ 2000 0 (pos 800) 100))
    × (max_interventions (some (crisis_of ⦃d = fixed⦄ 1500 20 (pos 800) 100))
        ≤ max_interventions (some (crisis_of ⦃d = fixed⦄ 2000 0 (pos 800) 100)))
crisis_of_mono_example =
    crisis_of_mono ⦃d = fixed⦄ fixed-IsOrdered 1500 2000 20 0 100 100 (pos 800) (inr refl)
      (inr refl) (inl refl)

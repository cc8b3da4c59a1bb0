-- ===== src/Interventions/Api/Refusals.antt =====
-- What handleIntervention of internal/api/server.go refuses, it leaves alone.
use mini_world.Interventions.Consolidate.{consolidate_settlement}
use mini_world.Model.Agents.{Agent}
use text.Mathlib.Text.{◌==◌ as str_eq}
use mini_world.Interventions.{
  Outcome, find_settlement_by_name, done, failed, provision_settlement, cultivate_settlement,
}
use mini_world.Base.Float.{Float, nought}
use mini_world.Model.Settlements.{Settlement}
use mini_world.Base.Int.{ℤ, leb_ℤ, pos, ltb_ℤ}
use mini_world.Simulation.{Sim}
use mini_world.Interventions.Api.{
  Intervention, Response, success, http_error, Kind, reply, adjust_at, spawn_with, handle_event,
  handle_wealth, handle_spawn, handle_consolidate, handle_provision, handle_cultivate, handle_kind,
  handle_body, handle_intervention, kind_of,
}
use mini_world.Interventions.Consolidate.Crowns.{
  FailsClean, consolidate_settlement-FailsClean, provision_settlement-FailsClean,
  cultivate_settlement-FailsClean,
}
use mini_world.Base.{
  ℕ, ◌≤◌, ◌≡◌, refl, Bool, ◌||◌, Option, none, some, List, arith, if◌then◌else◌, if_both,
}

-- A refusal has a code of an HTTP error and leaves the simulation as it was.
abbrev pub RefusesClean : {F : Type 0} → Sim F → Response F × Sim F → Type 0
RefusesClean s (success text, s') = Unit
RefusesClean s (http_error c, s') = (s' ≡ s) × (400 ≤ c) × (c ≤ 503)

module _ {F : Type 0} where
  reply-RefusesClean :
      (s : Sim F) (r : Sim F × Outcome F) → FailsClean s r → RefusesClean s (reply r)
  reply-RefusesClean s (s', done text) h = tt
  reply-RefusesClean s (s', failed e) h = (h, omega arith, omega arith)

  refuse : (s : Sim F) (c : ℕ) → 400 ≤ c → c ≤ 503 → RefusesClean s (http_error c, s)
  refuse s c low high = (refl, low, high)

  -- Behind a test that answers 400.
  checked :
      (s : Sim F) (b : Bool) (r : Response F × Sim F)
      → RefusesClean s r
      → RefusesClean s (if b then (http_error 400, s) else r)
  checked s b r h =
      if_both (RefusesClean s) b (λ _. refuse s 400 (omega arith) (omega arith)) (λ _. h)

  handle_event-RefusesClean :
      (req : Intervention F) (s : Sim F) → RefusesClean s (handle_event req s)
  unfolding handle_event
  handle_event-RefusesClean req s = checked s (str_eq req.description "") _ tt

  adjust_at-RefusesClean :
      (amount : ℤ) (found : Option (ℕ × Settlement F)) (s : Sim F)
      → RefusesClean s (adjust_at amount found s)
  adjust_at-RefusesClean amount none s = refuse s 404 (omega arith) (omega arith)
  adjust_at-RefusesClean amount (some (at, sett)) s = tt

  handle_wealth-RefusesClean :
      (req : Intervention F) (s : Sim F) → RefusesClean s (handle_wealth req s)
  unfolding handle_wealth
  handle_wealth-RefusesClean req s = checked s (str_eq req.settlement "") _ (
      adjust_at-RefusesClean req.amount
        (find_settlement_by_name req.settlement 0 s.world.settlements) s)

  spawn_with-RefusesClean :
      (spawner : Option (ℕ → Settlement F → List (Agent F))) (n : ℤ)
      (found : Option (ℕ × Settlement F)) (s : Sim F)
      → RefusesClean s (spawn_with spawner n found s)
  spawn_with-RefusesClean none n none s = refuse s 404 (omega arith) (omega arith)
  spawn_with-RefusesClean none n (some found) s = refuse s 503 (omega arith) (omega arith)
  spawn_with-RefusesClean (some spawner) n none s = refuse s 404 (omega arith) (omega arith)
  spawn_with-RefusesClean (some spawner) n (some (at, sett)) s = tt

  handle_spawn-RefusesClean :
      (spawner : Option (ℕ → Settlement F → List (Agent F))) (req : Intervention F) (s : Sim F)
      → RefusesClean s (handle_spawn spawner req s)
  unfolding handle_spawn
  handle_spawn-RefusesClean spawner req s =
      checked s (str_eq req.settlement "" || leb_ℤ req.count (pos 0)) _ (
        checked s (ltb_ℤ (pos 100) req.count) _ (
          spawn_with-RefusesClean spawner req.count
            (find_settlement_by_name req.settlement 0 s.world.settlements) s))

module _ {F : Type 0} ⦃d : Float F⦄ where
  handle_consolidate-RefusesClean :
      (req : Intervention F) (s : Sim F) → RefusesClean s (handle_consolidate req s)
  unfolding handle_consolidate
  handle_consolidate-RefusesClean req s =
      checked s (str_eq req.settlement "" || leb_ℤ req.count (pos 0)) _ (
        checked s (ltb_ℤ (pos 100) req.count) _ (
          reply-RefusesClean s (consolidate_settlement req.settlement req.count s)
            (consolidate_settlement-FailsClean req.settlement req.count s)))

  handle_provision-RefusesClean :
      (req : Intervention F) (s : Sim F) → RefusesClean s (handle_provision req s)
  unfolding handle_provision
  handle_provision-RefusesClean req s =
      checked s (str_eq req.settlement "" || (str_eq req.good "" || leb_ℤ req.quantity (pos 0))) _ (
        checked s (ltb_ℤ (pos 200) req.quantity) _ (
          reply-RefusesClean s (provision_settlement req.settlement req.good req.quantity s)
            (provision_settlement-FailsClean req.settlement req.good req.quantity s)))

  handle_cultivate-RefusesClean :
      (req : Intervention F) (s : Sim F) → RefusesClean s (handle_cultivate req s)
  unfolding handle_cultivate
  handle_cultivate-RefusesClean req s =
      checked s
        (str_eq req.settlement ""
          || (d.le req.multiplier nought || leb_ℤ req.duration_days (pos 0)))
        _
        (checked s (d.lt (d.lit 2 0) req.multiplier) _ (
          checked s (ltb_ℤ (pos 14) req.duration_days) _ (
            reply-RefusesClean s
              (cultivate_settlement req.settlement req.multiplier req.duration_days s)
              (cultivate_settlement-FailsClean req.settlement req.multiplier req.duration_days s))))

  handle_kind-RefusesClean :
      (spawner : Option (ℕ → Settlement F → List (Agent F))) (kind : Option Kind)
      (req : Intervention F) (s : Sim F)
      → RefusesClean s (handle_kind spawner kind req s)
  handle_kind-RefusesClean spawner none req s = refuse s 400 (omega arith) (omega arith)
  handle_kind-RefusesClean spawner (some Kind.event) req s = handle_event-RefusesClean req s
  handle_kind-RefusesClean spawner (some Kind.wealth) req s = handle_wealth-RefusesClean req s
  handle_kind-RefusesClean spawner (some Kind.spawn) req s = handle_spawn-RefusesClean spawner req s
  handle_kind-RefusesClean spawner (some Kind.provision) req s = handle_provision-RefusesClean req s
  handle_kind-RefusesClean spawner (some Kind.cultivate) req s = handle_cultivate-RefusesClean req s
  handle_kind-RefusesClean spawner (some Kind.consolidate) req s =
      handle_consolidate-RefusesClean req s

  handle_body-RefusesClean :
      (spawner : Option (ℕ → Settlement F → List (Agent F))) (body : Option (Intervention F))
      (s : Sim F)
      → RefusesClean s (handle_body spawner body s)
  handle_body-RefusesClean spawner none s = refuse s 400 (omega arith) (omega arith)
  handle_body-RefusesClean spawner (some req) s =
      handle_kind-RefusesClean spawner (kind_of req.type_name) req s

  -- Whatever the method, the body, the spawner and the simulation are, an intervention is a
  -- success, or an HTTP error from 400 to 503 that leaves the simulation exactly as it was.
  pub handle_intervention-RefusesClean :
      (spawner : Option (ℕ → Settlement F → List (Agent F))) (post : Bool)
      (body : Option (Intervention F)) (s : Sim F)
      → RefusesClean s (handle_intervention spawner post body s)
  unfolding handle_intervention
  handle_intervention-RefusesClean spawner post body s =
      if_both (RefusesClean s) post (λ _. handle_body-RefusesClean spawner body s)
        (λ _. refuse s 405 (omega arith) (omega arith))

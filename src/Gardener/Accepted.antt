-- ===== src/Gardener/Accepted.antt =====
-- The API of internal/api/server.go accepts what enforceGuardrails of internal/gardener/decide.go keeps.
use mini_world.Interventions.Consolidate.{consolidate_settlement}
use mini_world.Interventions.{find_settlement_by_name, provision_settlement, cultivate_settlement}
use mini_world.Base.Int.{leb_ℤ, pos, ltb_ℤ}
use mini_world.Simulation.{Sim, say}
use mini_world.Model.Agents.{Agent}
use text.Mathlib.TextEquality.{eq_iff}
use mini_world.Model.Settlements.{Settlement}
use text.Mathlib.Text.{◌==◌ as str_eq}
use mini_world.Base.Float.{Float}
use Prim.Native.String.{String}
use mini_world.Gardener.{Decision, CrisisLevel, enforce_guardrails}
use mini_world.Gardener.Bounds.{IsGraded, Keeps, IsSafe, IsBounded, keep_map, not_zero}
use mini_world.Gardener.Decisions.{enforce_guardrails-AreSafe, IsCareful}
use mini_world.Interventions.Api.{
  Intervention, Kind, kind_of, handle_intervention, handle_kind, handle_event, handle_wealth,
  handle_spawn, handle_provision, handle_cultivate, handle_consolidate, Response, success,
  http_error, inject, reply, adjust_at, spawn_with,
}
use mini_world.Base.{
  ℕ, ◌≡◌, ◌≢◌, true, false, Option, none, some, List, [], ◌∷◌, arith, All, All-map,
}

not_blank : (t : String) → t ≢ "" → str_eq t "" ≡ false
not_blank t ne = ground (arith, eq_iff t "")

module _ {F : Type 0} ⦃d : Float F⦄ where
  -- The operation of each kind, without any check of the request.
  abbrev pub operate :
      Option (ℕ → Settlement F → List (Agent F))
      → Option Kind
      → Intervention F
      → Sim F
      → Response F × Sim F
  operate spawner none iv s = (http_error 400, s)
  operate spawner (some Kind.event) iv s = (success (say "event injected" ∷ []), inject iv s)
  operate spawner (some Kind.wealth) iv s =
      adjust_at iv.amount (find_settlement_by_name iv.settlement 0 s.world.settlements) s
  operate spawner (some Kind.spawn) iv s =
      spawn_with spawner iv.count (find_settlement_by_name iv.settlement 0 s.world.settlements) s
  operate spawner (some Kind.provision) iv s =
      reply (provision_settlement iv.settlement iv.good iv.quantity s)
  operate spawner (some Kind.cultivate) iv s =
      reply (cultivate_settlement iv.settlement iv.multiplier iv.duration_days s)
  operate spawner (some Kind.consolidate) iv s =
      reply (consolidate_settlement iv.settlement iv.count s)

  handle_kind-IsBounded :
      (spawner : Option (ℕ → Settlement F → List (Agent F))) (snap : List (String × ℕ))
      (k : Option Kind) (iv : Intervention F) (s : Sim F)
      → IsGraded F d
      → IsBounded snap k iv
      → handle_kind spawner k iv s ≡ operate spawner k iv s
  unfolding handle_event handle_wealth handle_spawn handle_provision handle_cultivate
      handle_consolidate
  handle_kind-IsBounded spawner snap none iv s g h = absurd h
  handle_kind-IsBounded spawner snap (some Kind.event) iv s g h = rw (not_blank iv.description h)
  handle_kind-IsBounded spawner snap (some Kind.wealth) iv s g (named, modest) =
      rw (not_blank iv.settlement named)
  handle_kind-IsBounded spawner snap (some Kind.spawn) iv s g (named, low, high) =
      let some_count : leb_ℤ iv.count (pos 0) ≡ false = ground arith in
      let few : ltb_ℤ (pos 100) iv.count ≡ false = ground arith in
      rw (not_blank iv.settlement named, some_count, few)
  handle_kind-IsBounded spawner snap (some Kind.provision) iv s g (named, good_named, low, high) =
      let some_units : leb_ℤ iv.quantity (pos 0) ≡ false = ground arith in
      let few : ltb_ℤ (pos 200) iv.quantity ≡ false = ground arith in
      rw (not_blank iv.settlement named, not_blank iv.good good_named, some_units, few)
  handle_kind-IsBounded spawner snap (some Kind.cultivate) iv s g
        (named, not_less, small_boost, low, high) =
      let some_boost = not_zero g iv.multiplier not_less in
      let some_days : leb_ℤ iv.duration_days (pos 0) ≡ false = ground arith in
      let few : ltb_ℤ (pos 14) iv.duration_days ≡ false = ground arith in
      rw (not_blank iv.settlement named, some_boost, some_days, small_boost, few)
  handle_kind-IsBounded spawner snap (some Kind.consolidate) iv s g (named, low, high) =
      let some_count : leb_ℤ iv.count (pos 0) ≡ false = ground arith in
      let few : ltb_ℤ (pos 100) iv.count ≡ false = ground arith in
      rw (not_blank iv.settlement named, some_count, few)

  -- The API performs the intervention.
  abbrev pub IsAccepted : Option (Intervention F) → Type 0
  IsAccepted none = ⊥
  IsAccepted (some iv) =
      (spawner : Option (ℕ → Settlement F → List (Agent F))) (s : Sim F)
      → handle_intervention spawner true (some iv) s ≡ operate spawner (kind_of iv.type_name) iv s

  IsSafe-IsAccepted :
      IsGraded F d
      → (snap : List (String × ℕ)) (iv : Option (Intervention F)) → IsSafe snap iv
      → IsAccepted iv
  unfolding handle_intervention
  IsSafe-IsAccepted g snap none h = h
  IsSafe-IsAccepted g snap (some iv) (_, bounded) =
      λ spawner s. handle_kind-IsBounded spawner snap (kind_of iv.type_name) iv s g bounded

  -- Where the constants of the bounds are in order, whatever the decision asks for and at
  -- whatever crisis level, the API performs every intervention that the guardrails keep: none of
  -- its checks of the request refuses it, and its answer and its effect are those of the
  -- operation itself.
  pub enforce_guardrails-IsAccepted :
      IsGraded F d
      → (snap : List (String × ℕ)) (health : Option CrisisLevel) (dec : Decision F)
      → Keeps
          (λ (dec' : Decision F). All IsAccepted dec'.interventions)
          (enforce_guardrails snap health dec)
  enforce_guardrails-IsAccepted g snap health dec =
      keep_map (enforce_guardrails snap health dec)
        (λ dec' (safe : IsCareful snap health dec').
          All-map (IsSafe-IsAccepted g snap) dec'.interventions safe.0)
        (enforce_guardrails-AreSafe g snap health dec)

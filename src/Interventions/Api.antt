-- ===== src/Interventions/Api.antt =====
-- internal/api/server.go: adminOnly, checkBearerToken and handleIntervention. A response keeps its status
-- and, where it is a success, its details; the texts of the errors are left out. The spawner
-- (internal/agents/spawner.go) and the map are arguments.
pub mod Refusals
pub mod Access
use mini_world.Base.Maps.{put, Key-ℕ}
use Prim.Native.Char.{code}
use mini_world.Ledger.{update_settlement}
use mini_world.Base.Float.{Float, nought}
use mini_world.Model.Agents.{Agent}
use mini_world.Model.Settlements.{Settlement}
use text.Mathlib.Text.{◌==◌ as str_eq}
use Prim.Native.String.{String}
use mini_world.Base.Int.{ℤ, pos, negsuc, neg_part, ltb_ℤ, leb_ℤ, ◌+ℤ◌}
use mini_world.Interventions.{
  provision_settlement, cultivate_settlement, find_settlement_by_name, uint64_of, Outcome, done,
  failed,
}
use mini_world.Interventions.Consolidate.{consolidate_settlement}
use mini_world.Simulation.{Sim, emit, Event, Fragment, say, int, residents, add_resident}
use mini_world.Base.Word.{add32}
use mini_world.Base.{
  ℕ, zero, suc, ◌+◌, ◌-◌, ◌*◌, ◌≤◌, ◌<◌, ◌^◌, ◌≡◌, refl, sym, ap, subst, ◌∙◌, ◌≢◌, ◌⊎◌, inl, inr,
  Bool, true, false, not, ◌&&◌, ◌||◌, Option, none, some, List, [], ◌∷◌, ◌++◌, arith, ltb, leb,
  ◌==◌, if◌then◌else◌, tests, Bool-cases, Option-cases, length, get_elem?, modify, All, Any, total,
  ◌%◌,
}

-- The payload, which the gardener also builds (internal/gardener/decide.go).
pub record Intervention (F : Type 0) : Type 0 where
  pub type_name : String
  pub description : String
  pub category : String
  pub settlement : String
  pub amount : ℤ
  pub count : ℤ
  pub good : String
  pub quantity : ℤ
  pub multiplier : F
  pub duration_days : ℤ

pub data Kind : Type 0 where
  event wealth spawn provision cultivate consolidate : Kind

-- The cases of `switch req.Type`.
unfoldable pub kind_of : String → Option Kind
kind_of name =
    if str_eq name "event"
    then some event
    else if str_eq name "wealth"
    then some wealth
    else if str_eq name "spawn"
    then some spawn
    else if str_eq name "provision"
    then some provision
    else if str_eq name "cultivate"
    then some cultivate
    else if str_eq name "consolidate"
    then some consolidate
    else none

pub data Response (F : Type 0) : Type 0 where
  success : List (Fragment F) → Response F
  http_error : ℕ → Response F

-- int64(t) of a uint64
abbrev pub int64_of : ℕ → ℤ
int64_of t = if ltb t (2 ^ 63) then pos t else negsuc (2 ^ 64 - t - 1)

-- The treasury after the adjustment by an int64. The sum wraps round modulo 2^64, as the conversion does.
unfoldable pub adjusted : ℕ → ℤ → ℕ
adjusted t amount =
    if ltb_ℤ amount (pos 0) && ltb t (neg_part amount) then 0 else uint64_of (int64_of t +ℤ amount)

-- The lower 32 bits
abbrev pub uint32_of : ℤ → ℕ
uint32_of n = uint64_of n % 2 ^ 32

module _ {F : Type 0} where
  abbrev pub reply : Sim F × Outcome F → Response F × Sim F
  reply (s, done text) = (success text, s)
  reply (s, failed e) = (http_error 400, s)

  abbrev pub inject : Intervention F → Sim F → Sim F
  inject req s =
      emit
        (record {
          tick = s.last_tick;
          description = say req.description ∷ [];
          category = if str_eq req.category "" then "intervention" else req.category;
        })
        s

  unfoldable pub handle_event : Intervention F → Sim F → Response F × Sim F
  handle_event req s =
      if str_eq req.description ""
      then (http_error 400, s)
      else (success (say "event injected" ∷ []), inject req s)

  abbrev pub adjust_treasury : ℤ → Settlement F → Settlement F
  adjust_treasury amount sett = record sett { treasury = adjusted sett.treasury amount }

  abbrev pub adjust_at : ℤ → Option (ℕ × Settlement F) → Sim F → Response F × Sim F
  adjust_at amount none s = (http_error 404, s)
  adjust_at amount (some (at, sett)) s = (
    success (
        say "treasury of "
        ∷ say sett.name
        ∷ say " adjusted by "
        ∷ int amount
        ∷ say " (now "
        ∷ int (pos (adjusted sett.treasury amount))
        ∷ say ")"
        ∷ []),
    record s { world = update_settlement at (adjust_treasury amount) s.world },
  )

  unfoldable pub handle_wealth : Intervention F → Sim F → Response F × Sim F
  handle_wealth req s =
      let adjust =
        adjust_at req.amount (find_settlement_by_name req.settlement 0 s.world.settlements) s in
      if str_eq req.settlement "" then (http_error 400, s) else adjust

  -- The loop over the immigrants, which joins each to the agents, to the index and to the
  -- residents of its home.
  unfoldable pub join : List (Agent F) → Sim F → Sim F
  join [] s = s
  join (a ∷ xs) s = join xs (record s {
    world = record s.world { agents = s.world.agents ++ record a { born_tick = s.last_tick } ∷ [] };
    agent_index = put a.id (length s.world.agents) s.agent_index;
    settlement_agents = add_resident a.home_sett_id (length s.world.agents) s.settlement_agents;
  })

  abbrev pub grow : ℕ → Settlement F → Settlement F
  grow n sett = record sett { population = add32 sett.population n }

  abbrev pub spawn_at :
      (ℕ → Settlement F → List (Agent F))
      → ℤ
      → Option (ℕ × Settlement F)
      → Sim F
      → Response F × Sim F
  spawn_at spawner n none s = (http_error 404, s)
  spawn_at spawner n (some (at, sett)) s =
      let joined = join (spawner (uint32_of n) sett) s in
      (
        success (int n ∷ say " immigrants arrived in " ∷ say sett.name ∷ []),
        record joined { world = update_settlement at (grow (uint32_of n)) joined.world },
      )

  -- `s.Sim.Spawner == nil` is `none`.
  abbrev pub spawn_with :
      Option (ℕ → Settlement F → List (Agent F))
      → ℤ
      → Option (ℕ × Settlement F)
      → Sim F
      → Response F × Sim F
  spawn_with none n none s = (http_error 404, s)
  spawn_with none n (some found) s = (http_error 503, s)
  spawn_with (some spawner) n found s = spawn_at spawner n found s

  unfoldable pub handle_spawn :
      Option (ℕ → Settlement F → List (Agent F)) → Intervention F → Sim F → Response F × Sim F
  handle_spawn spawner req s =
      let spawned =
        spawn_with spawner req.count (find_settlement_by_name req.settlement 0 s.world.settlements)
          s in
      if str_eq req.settlement "" || leb_ℤ req.count (pos 0)
      then (http_error 400, s)
      else if ltb_ℤ (pos 100) req.count
      then (http_error 400, s)
      else spawned

module _ {F : Type 0} ⦃d : Float F⦄ where
  unfoldable pub handle_consolidate : Intervention F → Sim F → Response F × Sim F
  handle_consolidate req s =
      if str_eq req.settlement "" || leb_ℤ req.count (pos 0)
      then (http_error 400, s)
      else if ltb_ℤ (pos 100) req.count
      then (http_error 400, s)
      else reply (consolidate_settlement req.settlement req.count s)

  unfoldable pub handle_provision : Intervention F → Sim F → Response F × Sim F
  handle_provision req s =
      if str_eq req.settlement "" || (str_eq req.good "" || leb_ℤ req.quantity (pos 0))
      then (http_error 400, s)
      else if ltb_ℤ (pos 200) req.quantity
      then (http_error 400, s)
      else reply (provision_settlement req.settlement req.good req.quantity s)

  unfoldable pub handle_cultivate : Intervention F → Sim F → Response F × Sim F
  handle_cultivate req s =
      if str_eq req.settlement "" || (d.le req.multiplier nought || leb_ℤ req.duration_days (pos 0))
      then (http_error 400, s)
      else if d.lt (d.lit 2 0) req.multiplier
      then (http_error 400, s)
      else if ltb_ℤ (pos 14) req.duration_days
      then (http_error 400, s)
      else reply (cultivate_settlement req.settlement req.multiplier req.duration_days s)

  abbrev pub handle_kind :
      Option (ℕ → Settlement F → List (Agent F))
      → Option Kind
      → Intervention F
      → Sim F
      → Response F × Sim F
  handle_kind spawner none req s = (http_error 400, s)
  handle_kind spawner (some event) req s = handle_event req s
  handle_kind spawner (some wealth) req s = handle_wealth req s
  handle_kind spawner (some spawn) req s = handle_spawn spawner req s
  handle_kind spawner (some provision) req s = handle_provision req s
  handle_kind spawner (some cultivate) req s = handle_cultivate req s
  handle_kind spawner (some consolidate) req s = handle_consolidate req s

  abbrev pub handle_body :
      Option (ℕ → Settlement F → List (Agent F))
      → Option (Intervention F)
      → Sim F
      → Response F × Sim F
  handle_body spawner none s = (http_error 400, s)
  handle_body spawner (some req) s = handle_kind spawner (kind_of req.type_name) req s

  -- `handleIntervention`, with whether the method is POST and the body as JSON, if it decodes.
  unfoldable pub handle_intervention :
      Option (ℕ → Settlement F → List (Agent F))
      → Bool
      → Option (Intervention F)
      → Sim F
      → Response F × Sim F
  handle_intervention spawner post body s =
      if post then handle_body spawner body s else (http_error 405, s)

-- `strings.HasPrefix`
unfoldable pub has_prefix : String → String → Bool
has_prefix s String.[] = true
has_prefix String.[] (String.◌∷◌ p ps) = false
has_prefix (String.◌∷◌ c s) (String.◌∷◌ p ps) = (code c == code p) && has_prefix s ps

-- `strings.TrimPrefix`, of a prefix that is there
unfoldable pub trim_prefix : String → String → String
trim_prefix s String.[] = s
trim_prefix String.[] (String.◌∷◌ p ps) = String.[]
trim_prefix (String.◌∷◌ c s) (String.◌∷◌ p ps) = trim_prefix s ps

-- `checkBearerToken`, of the Authorization header
unfoldable pub check_bearer_token : String → String → Bool
unfolding has_prefix trim_prefix
check_bearer_token admin_key auth =
    has_prefix auth "Bearer " && str_eq (trim_prefix auth "Bearer ") admin_key

module _ {F S : Type 0} where
  -- `adminOnly`
  unfoldable pub admin_only : String → Bool → String → (S → Response F × S) → S → Response F × S
  admin_only admin_key post auth next s =
      if post
      then (if str_eq admin_key ""
          then (http_error 403, s)
          else if check_bearer_token admin_key auth
          then next s
          else (http_error 401, s))
      else next s

-- ===== src/Satisfaction.antt =====
-- Needs and satisfaction: `clampAgentNeeds` of internal/engine/production.go, and internal/agents/
-- sat_bump.go with its global counter of bumps that meet a saturated need.
pub mod Laws
use mini_world.Base.Word.{add64}
use text.Mathlib.Text.{◌==◌ as str_eq}
use mini_world.Ledger.{World, update_agent}
use Prim.Native.String.{String}
use mini_world.Model.Agents.{NeedsState, Agent}
use mini_world.Base.{
  ℕ, zero, suc, ◌+◌, ◌-◌, ◌*◌, ◌≤◌, ◌<◌, ◌^◌, ◌≡◌, refl, sym, ap, subst, ◌∙◌, ◌≢◌, ◌⊎◌, inl, inr,
  Bool, true, false, not, ◌&&◌, ◌||◌, Option, none, some, List, [], ◌∷◌, ◌++◌, arith, ltb, leb,
  ◌==◌, if◌then◌else◌, tests, Bool-cases, Option-cases, length, get_elem?, modify, All, Any, total,
}
use mini_world.Base.Float.{Float, add32, nought, one, lit32}

-- `satBumpCounter.add`
unfoldable pub count_bump : String → List (String × ℕ) → List (String × ℕ)
count_bump source [] = (source, 1) ∷ []
count_bump source ((k, n) ∷ m) =
    if str_eq k source then (k, add64 n 1) ∷ m else (k, n) ∷ count_bump source m

module _ {F : Type 0} ⦃d : Float F⦄ where
  abbrev pub clamp_unit : F → F
  clamp_unit x =
      let raised = if d.lt x nought then nought else x in if d.lt one raised then one else raised

  unfoldable pub clamp_agent_needs : NeedsState F → NeedsState F
  clamp_agent_needs n = record {
    survival = clamp_unit n.survival;
    safety = clamp_unit n.safety;
    belonging = clamp_unit n.belonging;
    esteem = clamp_unit n.esteem;
    purpose = clamp_unit n.purpose;
  }

  -- A need at 0.99 or above, survival apart.
  abbrev pub is_saturated : NeedsState F → Bool
  is_saturated n =
      d.le (lit32 99 2) n.safety
      || d.le (lit32 99 2) n.belonging
      || d.le (lit32 99 2) n.esteem
      || d.le (lit32 99 2) n.purpose

  abbrev pub bumps_at : World F → Option (Agent F) → String → List (String × ℕ)
  bumps_at w none source = w.sat_bumps
  bumps_at w (some a) source =
      if is_saturated a.needs then count_bump source w.sat_bumps else w.sat_bumps

  -- `ApplyDirectSatBump`
  unfoldable pub apply_direct_sat_bump : ℕ → F → String → World F → World F
  apply_direct_sat_bump p delta source w =
      let bumped = update_agent p (λ a. record a { satisfaction = add32 a.satisfaction delta }) w in
      record bumped { sat_bumps = bumps_at w (get_elem? w.agents p) source }

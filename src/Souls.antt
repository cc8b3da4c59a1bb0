-- ===== src/Souls.antt =====
-- The coherence of a soul, internal/agents/soul.go: natural drift and practice. A float32 constant is the
-- rounding of the number that is written.
pub mod Drift
use mini_world.Base.Float.{Float, matter, nought, one, add32}
use mini_world.Base.{
  ℕ, zero, suc, ◌+◌, ◌-◌, ◌*◌, ◌≤◌, ◌<◌, ◌^◌, ◌≡◌, refl, sym, ap, subst, ◌∙◌, ◌≢◌, ◌⊎◌, inl, inr,
  Bool, true, false, not, ◌&&◌, ◌||◌, Option, none, some, List, [], ◌∷◌, ◌++◌, arith, ltb, leb,
  ◌==◌, if◌then◌else◌, tests, Bool-cases, Option-cases, length, get_elem?, modify, All, Any, total,
}

pub data StateOfBeing : Type 0 where
  embodied centered liberated : StateOfBeing

-- `AgentSoul`, as far as the coherence goes
pub record AgentSoul (F : Type 0) : Type 0 where
  pub citta_coherence : F
  pub state : StateOfBeing

module _ {F : Type 0} ⦃d : Float F⦄ where
  -- float32(phi.Matter)
  unfoldable pub matter32 : F
  matter32 = d.round32 matter

  -- `StateFromCoherence`
  unfoldable pub state_from_coherence : F → StateOfBeing
  state_from_coherence c =
      if d.le (d.round32 (d.lit 7 1)) c
      then liberated
      else if d.le (d.round32 (d.lit 4 1)) c
      then centered
      else embodied

  -- The new coherence, with `UpdateState`.
  abbrev pub set_coherence : F → AgentSoul F → AgentSoul F
  set_coherence c s = record s { citta_coherence = c; state = state_from_coherence c }

  abbrev pub at_least_zero : F → F
  at_least_zero c = if d.lt c nought then nought else c

  abbrev pub at_most_one : F → F
  at_most_one c = if d.lt one c then one else c

  abbrev pub natural_cap : F → F → F
  natural_cap delta c = if d.lt nought delta && d.lt matter32 c then matter32 else c

  -- The coherence that natural drift leads to.
  unfoldable pub drifted : F → F → F
  drifted delta c = at_most_one (natural_cap delta (at_least_zero (add32 c delta)))

  -- `AdjustCoherence`
  unfoldable pub adjust_coherence : F → AgentSoul F → AgentSoul F
  unfolding drifted
  adjust_coherence delta s =
      if d.lt nought delta && d.le matter32 s.citta_coherence
      then s
      else set_coherence (drifted delta s.citta_coherence) s

  -- `AdjustCoherenceUncapped`
  unfoldable pub adjust_coherence_uncapped : F → AgentSoul F → AgentSoul F
  adjust_coherence_uncapped delta s =
      set_coherence (at_most_one (at_least_zero (add32 s.citta_coherence delta))) s

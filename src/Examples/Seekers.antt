-- ===== src/Examples/Seekers.antt =====
-- A soul just under Matter, through a rise, a rise that is cut off, and one that is not taken.
use mini_world.Base.Float.{matter}
use mini_world.Souls.{matter32, AgentSoul, centered}
use mini_world.Base.{ℕ, refl, [], ◌∷◌, arith}
use mini_world.Examples.Fixed.{fixed, fixed-IsOrdered}
use mini_world.Souls.Drift.{IsScale, IsMortal, drifts, drifts-IsMortal}

fixed-IsScale : IsScale ℕ fixed
unfolding matter32 matter
fixed-IsScale = record {
  matter_not_neg = refl;
  one_not_neg = refl;
  matter_below_one = refl;
  not_liberated = λ x h. ground arith;
  fall = λ x delta h k. ground arith;
}

abbrev seeker : AgentSoul ℕ
seeker = record { citta_coherence = 590; state = centered }

drifts-IsMortal_example : IsMortal ⦃d = fixed⦄ (drifts ⦃d = fixed⦄ (20 ∷ 300 ∷ 40 ∷ []) seeker)
unfolding matter32 matter
drifts-IsMortal_example =
    drifts-IsMortal ⦃d = fixed⦄ fixed-IsOrdered fixed-IsScale (20 ∷ 300 ∷ 40 ∷ []) seeker
      ((refl, refl), refl, (λ h. cc))

-- ===== src/Satisfaction/Laws.antt =====
-- What the needs and the counter of saturated bumps promise.
use mini_world.Ledger.Moves.{update_agent-Conserves}
use mini_world.Ledger.{crowns, World, Conserves}
use mini_world.Satisfaction.{apply_direct_sat_bump, String, Agent}
use mini_world.Base.{ℕ, refl, arith}
use mini_world.Base.Float.{Float, add32}

module _ {F : Type 0} ⦃d : Float F⦄ where
  -- A bump of the satisfaction moves no crown.
  pub apply_direct_sat_bump-Conserves :
      (p : ℕ) (delta : F) (source : String) (w : World F)
      → Conserves w (apply_direct_sat_bump p delta source w)
  unfolding apply_direct_sat_bump crowns
  apply_direct_sat_bump-Conserves p delta source w =
      let same =
        update_agent-Conserves p
          (λ (a : Agent F). record a { satisfaction = add32 a.satisfaction delta }) w (λ a. refl) in
      record { same_crowns = same.same_crowns; same_shape = omega arith }

-- ===== src/Treasury/Garrison/Crowns.antt =====
-- Stipends move crowns from the treasury to the soldiers.
use mini_world.Satisfaction.Laws.{apply_direct_sat_bump-Conserves}
use mini_world.Ledger.Moves.{
  Conserves-refl, Conserves-trans, payment-Conserves, Holds-mono, update_agent-Conserves,
}
use mini_world.Ledger.Loops.{AreAgents, AreSettlements, AreAgents-mono, AreSettlements-mono}
use mini_world.Treasury.Garrison.{
  pay_stipends, soldiers_of, pay_garrison_at, pay_garrison_stipends, is_soldier, pay_soldier,
  population_of, add64, honoured,
}
use mini_world.Ledger.{
  World, Holds, treasury, balance, crowns, Conserves, credit, id_at, purse, debit, update_agent,
}
use mini_world.Base.{
  ℕ, ◌≤◌, ◌<◌, ◌^◌, refl, ◌||◌, List, [], ◌∷◌, arith, ltb, ◌==◌, if◌then◌else◌, tests, length,
  get_elem?, if_both,
}
use mini_world.Base.Float.{Float, agnosis, lit32}

module _ {F : Type 0} ⦃d : Float F⦄ where
  pay_soldier-Conserves :
      (at stipend p : ℕ) (w : World F)
      → p < length w.agents
      → Holds w (treasury at)
      → stipend ≤ balance (treasury at) w
      → crowns w < 2 ^ 64
      → Conserves w (pay_soldier at stipend p w)
  pay_soldier-Conserves at stipend p w hp ht covered fits =
      let paid = credit (purse p) stipend (debit (treasury at) stipend w) in
      Conserves-trans (payment-Conserves (treasury at) (purse p) stipend w ht hp covered fits) (
        Conserves-trans (update_agent-Conserves p honoured paid (λ a. refl))
          (apply_direct_sat_bump-Conserves p (lit32 8 2) "stipend" (update_agent p honoured paid)))

  pay_stipends-Conserves :
      (at stipend most : ℕ) (ps : List ℕ) (w : World F) (paid : ℕ)
      → AreAgents w ps
      → Holds w (treasury at)
      → crowns w < 2 ^ 64
      → Conserves w (pay_stipends at stipend most ps w paid)
  unfolding pay_stipends
  pay_stipends-Conserves at stipend most [] w paid h ht fits = Conserves-refl w
  pay_stipends-Conserves at stipend most (p ∷ ps) w paid (hp, hps) ht fits =
      if_both (Conserves w) (ltb most (add64 paid stipend)) (λ _. Conserves-refl w)
        (λ _.
          if_both (Conserves w) (ltb (balance (treasury at) w) stipend) (λ _. Conserves-refl w)
            (λ covered.
              let next = pay_soldier at stipend p w in
              let first =
                pay_soldier-Conserves at stipend p w hp ht (omega (tests, covered)) fits in
              Conserves-trans first (
                pay_stipends-Conserves at stipend most ps next (add64 paid stipend)
                  (AreAgents-mono w next ps first.same_shape hps)
                  (Holds-mono w next (treasury at) first.same_shape ht)
                  (omega (arith, first.same_crowns)))))

  soldiers_of-AreAgents :
      (w : World F) (ps : List ℕ) → AreAgents w ps → AreAgents w (soldiers_of w ps)
  unfolding soldiers_of
  soldiers_of-AreAgents w [] h = tt
  soldiers_of-AreAgents w (p ∷ ps) (hp, hps) =
      if_both (AreAgents w) (is_soldier (get_elem? w.agents p))
        (λ _. (hp, soldiers_of-AreAgents w ps hps)) (λ _. soldiers_of-AreAgents w ps hps)

  pay_garrison_at-Conserves :
      (at : ℕ) (ps : List ℕ) (w : World F)
      → AreAgents w ps
      → Holds w (treasury at)
      → crowns w < 2 ^ 64
      → Conserves w (pay_garrison_at at ps w)
  unfolding pay_garrison_at
  pay_garrison_at-Conserves at ps w h ht fits =
      let held = balance (treasury at) w in
      let population = population_of (get_elem? w.settlements at) in
      let per_capita = d.div (d.of_ℕ held) (d.of_ℕ population) in
      let wanted = d.trunc (d.mul (d.mul per_capita agnosis) (d.lit 5 1)) in
      let stipend = if ltb wanted 1 then 1 else wanted in
      let most = d.trunc (d.mul (d.of_ℕ held) agnosis) in
      if_both (Conserves w) (held == 0 || population == 0) (λ _. Conserves-refl w)
        (λ _.
          pay_stipends-Conserves at stipend most (soldiers_of w ps) w 0
            (soldiers_of-AreAgents w ps h) ht fits)

  -- Where all pointers are valid and the crowns of the world are fewer than 2^64, the weekly
  -- stipends make and destroy no crown.
  pub pay_garrison_stipends-Conserves :
      (sett_agents : ℕ → List ℕ) (places : List ℕ) (w : World F)
      → ((id : ℕ) → AreAgents w (sett_agents id))
      → AreSettlements w places
      → crowns w < 2 ^ 64
      → Conserves w (pay_garrison_stipends sett_agents places w)
  unfolding pay_garrison_stipends
  pay_garrison_stipends-Conserves sett_agents [] w h hs fits = Conserves-refl w
  pay_garrison_stipends-Conserves sett_agents (at ∷ rest) w h (ht, hs) fits =
      let ps = sett_agents (id_at w at) in
      let first = pay_garrison_at-Conserves at ps w (h (id_at w at)) ht fits in
      let next = pay_garrison_at at ps w in
      Conserves-trans first (
        pay_garrison_stipends-Conserves sett_agents rest next
          (λ id. AreAgents-mono w next (sett_agents id) first.same_shape (h id))
          (AreSettlements-mono w next rest first.same_shape hs) (omega (arith, first.same_crowns)))

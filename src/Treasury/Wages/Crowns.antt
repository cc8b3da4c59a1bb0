-- ===== src/Treasury/Wages/Crowns.antt =====
-- Wages move crowns from the treasury to the poor.
use mini_world.Ledger.Moves.{Conserves-refl, Conserves-trans, payment-Conserves, Holds-mono}
use mini_world.Ledger.{
  Holds, treasury, crowns, Conserves, id_at, balance, purse, credit, debit, agents_at,
}
use mini_world.Ledger.Loops.{AreAgents, AreSettlements, AreAgents-mono, AreSettlements-mono}
use mini_world.Treasury.Poverty.{is_poor, poverty_line, total_weight}
use mini_world.Base.Word.{add64}
use mini_world.Treasury.Wages.{
  pay_wages, pay_wages_at, pay_settlement_wages, World, pay_wages_all, wage_of, total_treasury,
  outflow_rate,
}
use mini_world.Base.{
  ℕ, ◌<◌, ◌^◌, inl, inr, not, ◌||◌, List, [], ◌∷◌, arith, ltb, ◌==◌, if◌then◌else◌, tests,
  Option-cases, get_elem?, if_both,
}
use mini_world.Base.Float.{Float, nought}

module _ {F : Type 0} ⦃d : Float F⦄ where
  pay_wages-Conserves :
      (at budget : ℕ) (line sum : F) (ps : List ℕ) (w : World F) (paid : ℕ)
      → AreAgents w ps
      → Holds w (treasury at)
      → crowns w < 2 ^ 64
      → Conserves w (pay_wages at budget line sum ps w paid)
  unfolding pay_wages
  pay_wages-Conserves at budget line sum [] w paid h ht fits = Conserves-refl w
  pay_wages-Conserves at budget line sum (p ∷ ps) w paid (hp, hps) ht fits =
      elim (Option-cases (get_elem? w.agents p)) [
        | inl gone ↦
            rw (gone, pay_wages) (pay_wages-Conserves at budget line sum ps w paid hps ht fits)
        | inr (a, e) ↦
            let wage = wage_of budget line sum a.wealth in
            rw (e, pay_wages)
              (if_both (Conserves w) (not (is_poor line a))
                (λ _. pay_wages-Conserves at budget line sum ps w paid hps ht fits)
                (λ _.
                  if_both (Conserves w) (ltb budget (add64 paid wage)) (λ _. Conserves-refl w)
                    (λ _.
                      if_both (Conserves w) (ltb (balance (treasury at) w) wage)
                        (λ _. Conserves-refl w)
                        (λ covered.
                          let first =
                            payment-Conserves (treasury at) (purse p) wage w ht hp
                              (omega (tests, covered)) fits in
                          let next = credit (purse p) wage (debit (treasury at) wage w) in
                          Conserves-trans first (
                            pay_wages-Conserves at budget line sum ps next (add64 paid wage)
                              (AreAgents-mono w next ps first.same_shape hps)
                              (Holds-mono w next (treasury at) first.same_shape ht)
                              (omega (arith, first.same_crowns)))))))
      ]

  pay_wages_at-Conserves :
      (rate : F) (at : ℕ) (ps : List ℕ) (w : World F)
      → AreAgents w ps
      → Holds w (treasury at)
      → crowns w < 2 ^ 64
      → Conserves w (pay_wages_at rate at ps w)
  unfolding pay_wages_at
  pay_wages_at-Conserves rate at ps w h ht fits =
      let held = balance (treasury at) w in
      let wanted = d.trunc (d.mul (d.of_ℕ held) rate) in
      let budget = if ltb wanted 2 then 2 else wanted in
      let line = poverty_line 50 (agents_at w ps) in
      let sum = total_weight line (agents_at w ps) nought in
      if_both (Conserves w) (held == 0 || not (d.lt nought sum || d.lt sum nought))
        (λ _. Conserves-refl w) (λ _. pay_wages-Conserves at budget line sum ps w 0 h ht fits)

  pay_wages_all-Conserves :
      (rate : F) (sett_agents : ℕ → List ℕ) (places : List ℕ) (w : World F)
      → ((id : ℕ) → AreAgents w (sett_agents id))
      → AreSettlements w places
      → crowns w < 2 ^ 64
      → Conserves w (pay_wages_all rate sett_agents places w)
  unfolding pay_wages_all
  pay_wages_all-Conserves rate sett_agents [] w h hs fits = Conserves-refl w
  pay_wages_all-Conserves rate sett_agents (at ∷ rest) w h (ht, hs) fits =
      let ps = sett_agents (id_at w at) in
      let first = pay_wages_at-Conserves rate at ps w (h (id_at w at)) ht fits in
      let next = pay_wages_at rate at ps w in
      Conserves-trans first (
        pay_wages_all-Conserves rate sett_agents rest next
          (λ id. AreAgents-mono w next (sett_agents id) first.same_shape (h id))
          (AreSettlements-mono w next rest first.same_shape hs) (omega (arith, first.same_crowns)))

  -- Where all pointers are valid and the crowns of the world are fewer than 2^64, the daily wages
  -- make and destroy no crown, whatever the statistics and the weights are.
  pub pay_settlement_wages-Conserves :
      (total_wealth : ℕ) (sett_agents : ℕ → List ℕ) (places : List ℕ) (w : World F)
      → ((id : ℕ) → AreAgents w (sett_agents id))
      → AreSettlements w places
      → crowns w < 2 ^ 64
      → Conserves w (pay_settlement_wages total_wealth sett_agents places w)
  unfolding pay_settlement_wages
  pay_settlement_wages-Conserves total_wealth sett_agents places w h hs fits =
      let treasuries = total_treasury w.settlements 0 in
      let all_wealth = add64 treasuries total_wealth in
      if_both (Conserves w) (all_wealth == 0) (λ _. Conserves-refl w)
        (λ _.
          pay_wages_all-Conserves (outflow_rate treasuries all_wealth) sett_agents places w h hs
            fits)

-- ===== src/Treasury/Taxes/Crowns.antt =====
-- Taxes and public works conserve the crowns of the world.
use mini_world.Treasury.Taxes.Revenue.{tax_agents-IsCollected}
use mini_world.Treasury.Taxes.Range.{SharesFit, WorksFit, TaxesFit, after_taxes}
use mini_world.Base.Word.{add64, add64_exact}
use mini_world.Ledger.Moves.{
  SameShape-refl, SameShape-trans, crowns-debit, debit-SameShape, crowns-credit,
  update_agent-Conserves, credit-SameShape, Holds-mono, Conserves-trans, treasury-update_agent,
  treasury-credit_purse, balance-le-crowns, Conserves-refl,
}
use mini_world.Ledger.Loops.{AreAgents, AreAgents-mono, AreSettlements, AreSettlements-mono}
use mini_world.Ledger.{
  World, crowns, SameShape, balance, treasury, purse, credit, Holds, Conserves, agents_at,
  update_agent, id_at,
}
use mini_world.Treasury.Poverty.{share, is_poor, poverty_line, total_weight}
use mini_world.Treasury.Taxes.{
  tax_agents, pay_works, works_budget, public_works, collect_taxes_at, thankful, tax_rate_of,
  collect_taxes,
}
use mini_world.Model.Agents.{Agent}
use mini_world.Base.{
  ℕ, ◌+◌, ◌-◌, ◌≤◌, ◌<◌, ◌^◌, ◌≡◌, refl, ◌∙◌, inl, inr, not, ◌&&◌, ◌||◌, Option, none, some, subst,
  List, [], ◌∷◌, arith, ltb, ◌==◌, tests, Option-cases, get_elem?, if_both, if◌then◌else◌, if_given,
}
use mini_world.Base.Float.{Float, nought}

module _ {F : Type 0} ⦃d : Float F⦄ where
  -- The payments of a budget: what has been paid out has arrived in the purses, and is covered.
  abbrev pub IsPaid : ℕ → ℕ → World F × ℕ → World F × ℕ → Type 0
  IsPaid at budget (w, paid) (w', paid') =
      (crowns w' + paid ≡ crowns w + paid')
      × (paid' ≤ budget)
      × (balance (treasury at) w' ≡ balance (treasury at) w)
      × SameShape w w'

  -- `SharesFit` at an agent that may be missing.
  abbrev AlongShare : ℕ → F → F → ℕ → List ℕ → World F → ℕ → Option (Agent F) → Type 0
  AlongShare budget line sum p ps w paid o = elim o [
    | none ↦ SharesFit budget line sum ps (w, paid)
    | some a ↦
        let wage = share budget line sum a.wealth in
        let skip = SharesFit budget line sum ps (w, paid) in
        let pay =
          SharesFit budget line sum ps
            (update_agent p thankful (credit (purse p) wage w), add64 paid wage) in
        if not (is_poor line a) || wage == 0
        then skip
        else (wage < 2 ^ 63) × (if ltb budget (add64 paid wage) then Unit else pay)
  ]

  pay_works-IsPaid :
      (at budget : ℕ) (line sum : F) (ps : List ℕ) (w : World F) (paid : ℕ)
      → SharesFit budget line sum ps (w, paid)
      → AreAgents w ps
      → paid ≤ budget
      → budget < 2 ^ 63
      → crowns w + (budget - paid) < 2 ^ 64
      → IsPaid at budget (w, paid) (pay_works budget line sum ps (w, paid))
  unfolding pay_works SharesFit
  pay_works-IsPaid at budget line sum [] w paid fit h covered small fits =
      (refl, covered, refl, SameShape-refl w)
  pay_works-IsPaid at budget line sum (p ∷ ps) w paid fit (hp, hps) covered small fits =
      elim (Option-cases (get_elem? w.agents p)) [
        | inl gone ↦
            let fit' = subst (AlongShare budget line sum p ps w paid) gone fit in
            rw (gone, pay_works)
              (pay_works-IsPaid at budget line sum ps w paid fit' hps covered small fits)
        | inr (a, e) ↦
            let wage = share budget line sum a.wealth in
            let fit' = subst (AlongShare budget line sum p ps w paid) e fit in
            rw (e, pay_works)
              (if_given (IsPaid at budget (w, paid)) (not (is_poor line a) || wage == 0)
                (λ _ kept.
                  pay_works-IsPaid at budget line sum ps w paid kept hps covered small fits)
                (λ _ (bound, paying).
                  if_given (IsPaid at budget (w, paid)) (ltb budget (add64 paid wage))
                    (λ _ _. (refl, covered, refl, SameShape-refl w))
                    (λ within later.
                      let up : add64 paid wage ≡ paid + wage =
                        add64_exact paid wage (omega arith) in
                      let room : paid + wage ≤ budget = omega (tests, within, up) in
                      let credited = credit (purse p) wage w in
                      let gained = crowns-credit (purse p) wage w hp (omega arith) in
                      let same = update_agent-Conserves p thankful credited (λ x. refl) in
                      let shape =
                        SameShape-trans (credit-SameShape (purse p) wage w) same.same_shape in
                      let next = update_agent p thankful credited in
                      let gained' : crowns next ≡ crowns w + wage = same.same_crowns ∙ gained in
                      let (even, most, kept, shape') =
                        pay_works-IsPaid at budget line sum ps next (add64 paid wage) later
                          (AreAgents-mono w next ps shape hps) (omega arith) small (omega arith) in
                      (
                        omega arith,
                        most,
                        kept
                            ∙ treasury-update_agent at p thankful credited
                            ∙ treasury-credit_purse at p wage w,
                        SameShape-trans shape shape',
                      ))
                    paying)
                fit')
      ]

  works_budget-le : (at : ℕ) (w : World F) → works_budget at w ≤ balance (treasury at) w
  unfolding works_budget
  works_budget-le at w = ground arith

  public_works-Conserves :
      (at : ℕ) (ps : List ℕ) (w : World F)
      → WorksFit at ps w
      → AreAgents w ps
      → Holds w (treasury at)
      → crowns w < 2 ^ 63
      → Conserves w (public_works at ps w)
  unfolding public_works
  public_works-Conserves at ps w fit h ht fits =
      let budget = works_budget at w in
      let line = poverty_line 30 (agents_at w ps) in
      let sum = total_weight line (agents_at w ps) nought in
      let low = works_budget-le at w in
      let low' = balance-le-crowns (treasury at) w ht in
      let done = pay_works budget line sum ps (w, 0) in
      if_both (Conserves w) (ltb 0 budget && d.lt nought sum)
        (λ enough.
          let (even, most, kept, shape) =
            pay_works-IsPaid at budget line sum ps w 0 (fit enough) h (omega arith) (omega arith)
              (omega arith) in
          let ht' = Holds-mono w done.0 (treasury at) shape ht in
          let down = crowns-debit (treasury at) done.1 done.0 ht' (omega arith) (omega arith) in
          record {
            same_crowns = omega arith;
            same_shape = SameShape-trans shape (debit-SameShape (treasury at) done.1 done.0);
          })
        (λ _. Conserves-refl w)

  collect_taxes_at-Conserves :
      (at : ℕ) (ps : List ℕ) (w : World F)
      → WorksFit at ps (after_taxes at ps w)
      → AreAgents w ps
      → Holds w (treasury at)
      → crowns w < 2 ^ 63
      → Conserves w (collect_taxes_at at ps w)
  unfolding collect_taxes_at
  collect_taxes_at-Conserves at ps w fit h ht fits =
      let taxed = tax_agents (tax_rate_of (get_elem? w.settlements at)) ps (w, 0) in
      let (even, shape) = tax_agents-IsCollected _ ps w 0 h (omega arith) in
      let ht' = Holds-mono w taxed.0 (treasury at) shape ht in
      let up = crowns-credit (treasury at) taxed.1 taxed.0 ht' (omega arith) in
      let filled = credit (treasury at) taxed.1 taxed.0 in
      let shape' = SameShape-trans shape (credit-SameShape (treasury at) taxed.1 taxed.0) in
      Conserves-trans (record { same_crowns = omega arith; same_shape = shape' })
        (public_works-Conserves at ps filled fit (AreAgents-mono w filled ps shape' h)
          (Holds-mono w filled (treasury at) shape' ht) (omega arith))

  -- Where all pointers are valid, the public wages that the run pays or compares with a budget
  -- are below 2^63 and the crowns of the world are fewer than 2^63, the daily taxes and public
  -- works make and destroy no crown.
  pub collect_taxes-Conserves :
      (sett_agents : ℕ → List ℕ) (places : List ℕ) (w : World F)
      → TaxesFit sett_agents places w
      → ((id : ℕ) → AreAgents w (sett_agents id))
      → AreSettlements w places
      → crowns w < 2 ^ 63
      → Conserves w (collect_taxes sett_agents places w)
  unfolding collect_taxes TaxesFit
  collect_taxes-Conserves sett_agents [] w fit h hs fits = Conserves-refl w
  collect_taxes-Conserves sett_agents (at ∷ rest) w (fit, fit') h (ht, hs) fits =
      let ps = sett_agents (id_at w at) in
      let first = collect_taxes_at-Conserves at ps w fit (h (id_at w at)) ht fits in
      let next = collect_taxes_at at ps w in
      Conserves-trans first (
        collect_taxes-Conserves sett_agents rest next fit'
          (λ id. AreAgents-mono w next (sett_agents id) first.same_shape (h id))
          (AreSettlements-mono w next rest first.same_shape hs) (omega (arith, first.same_crowns)))

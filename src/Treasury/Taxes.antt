-- ===== src/Treasury/Taxes.antt =====
-- `collectTaxes` of internal/engine/market.go: taxes into the treasury, and public works out of it.
pub mod Revenue
pub mod Range
pub mod Crowns
use mini_world.Treasury.Poverty.{share, poverty_line, total_weight, is_poor}
use mini_world.Satisfaction.{clamp_agent_needs}
use mini_world.Model.Settlements.{Settlement}
use mini_world.Ledger.{
  World, debit, balance, credit, purse, update_agent, treasury, agents_at, id_at,
}
use mini_world.Model.Agents.{Agent}
use mini_world.Base.Word.{sub64, add64}
use mini_world.Base.{
  ℕ, zero, suc, ◌+◌, ◌-◌, ◌*◌, ◌≤◌, ◌<◌, ◌^◌, ◌≡◌, refl, sym, ap, subst, ◌∙◌, ◌≢◌, ◌⊎◌, inl, inr,
  Bool, true, false, not, ◌&&◌, ◌||◌, Option, none, some, List, [], ◌∷◌, ◌++◌, arith, ltb, leb,
  ◌==◌, if◌then◌else◌, tests, Bool-cases, Option-cases, length, get_elem?, modify, All, Any, total,
}
use mini_world.Base.Float.{Float, agnosis, nought, add32, lit32}

module _ {F : Type 0} ⦃d : Float F⦄ where
  -- The tax on a wealth above 20: a share of what is above, at least 1, at most all.
  unfoldable pub tax_on : F → ℕ → ℕ
  tax_on rate wealth =
      let due = d.trunc (d.mul (d.mul (d.of_ℕ (sub64 wealth 20)) rate) agnosis) in
      let charged = if ltb due 1 then 1 else due in if ltb wealth charged then wealth else charged

  abbrev pub is_taxed : Agent F → Bool
  is_taxed a = a.alive && ltb 20 a.wealth

  abbrev pub tax_found : F → ℕ → Option (Agent F) → World F × ℕ → World F × ℕ
  tax_found rate p none (w, revenue) = (w, revenue)
  tax_found rate p (some a) (w, revenue) =
      let tax = tax_on rate a.wealth in
      if is_taxed a then (debit (purse p) tax w, add64 revenue tax) else (w, revenue)

  -- The loop over the agents of a settlement, on the world and `taxRevenue`.
  unfoldable pub tax_agents : F → List ℕ → World F × ℕ → World F × ℕ
  tax_agents rate [] (w, revenue) = (w, revenue)
  tax_agents rate (p ∷ ps) (w, revenue) =
      tax_agents rate ps (tax_found rate p (get_elem? w.agents p) (w, revenue))

  abbrev pub thankful : Agent F → Agent F
  thankful a = record a {
    needs = clamp_agent_needs (record (a.needs) {
      belonging = add32 a.needs.belonging (lit32 2 3);
      safety = add32 a.needs.safety (lit32 1 3);
    });
  }

  -- The loop that pays public works, with `paid`; it stops at the first wage beyond the budget.
  unfoldable pub pay_works : ℕ → F → F → List ℕ → World F × ℕ → World F × ℕ
  pay_works budget line sum [] (w, paid) = (w, paid)
  pay_works budget line sum (p ∷ ps) (w, paid) = elim (get_elem? w.agents p) [
    | none ↦ pay_works budget line sum ps (w, paid)
    | some a ↦
        let wage = share budget line sum a.wealth in
        let skip = pay_works budget line sum ps (w, paid) in
        let pay =
          pay_works budget line sum ps
            (update_agent p thankful (credit (purse p) wage w), add64 paid wage) in
        if not (is_poor line a) || wage == 0
        then skip
        else if ltb budget (add64 paid wage)
        then (w, paid)
        else pay
  ]

  abbrev pub tax_rate_of : Option (Settlement F) → F
  tax_rate_of none = nought
  tax_rate_of (some s) = s.tax_rate

  abbrev pub population_of : Option (Settlement F) → ℕ
  population_of none = 0
  population_of (some s) = s.population

  -- The budget of the public works, at most the treasury.
  unfoldable pub works_budget : ℕ → World F → ℕ
  works_budget at w =
      let population = population_of (get_elem? w.settlements at) in
      let wanted = d.trunc (d.mul (d.mul (d.of_ℕ population) agnosis) (d.lit 5 1)) in
      let held = balance (treasury at) w in if ltb held wanted then held else wanted

  unfoldable pub public_works : ℕ → List ℕ → World F → World F
  public_works at ps w =
      let budget = works_budget at w in
      let line = poverty_line 30 (agents_at w ps) in
      let sum = total_weight line (agents_at w ps) nought in
      let (w', paid) = pay_works budget line sum ps (w, 0) in
      if ltb 0 budget && d.lt nought sum then debit (treasury at) paid w' else w

  -- One settlement of `collectTaxes`.
  unfoldable pub collect_taxes_at : ℕ → List ℕ → World F → World F
  collect_taxes_at at ps w =
      let (w', revenue) = tax_agents (tax_rate_of (get_elem? w.settlements at)) ps (w, 0) in
      public_works at ps (credit (treasury at) revenue w')

  -- `collectTaxes`, over the settlements at the given places.
  unfoldable pub collect_taxes : (ℕ → List ℕ) → List ℕ → World F → World F
  collect_taxes sett_agents [] w = w
  collect_taxes sett_agents (at ∷ rest) w =
      collect_taxes sett_agents rest (collect_taxes_at at (sett_agents (id_at w at)) w)

-- ===== src/Treasury/Taxes/Range.antt =====
-- Which conversions of floats to integers the public works of internal/engine/market.go make.
use mini_world.Base.Word.{add64}
use mini_world.Ledger.{World, treasury, purse, credit, agents_at, update_agent, id_at}
use mini_world.Treasury.Poverty.{share, is_poor, poverty_line, total_weight}
use mini_world.Treasury.Taxes.{tax_agents, works_budget, collect_taxes_at, thankful, tax_rate_of}
use mini_world.Base.{
  ℕ, ◌<◌, ◌^◌, ◌≡◌, not, ◌&&◌, ◌||◌, none, some, List, [], ◌∷◌, ltb, ◌==◌, get_elem?, true,
  if◌then◌else◌,
}
use mini_world.Base.Float.{Float, nought}

module _ {F : Type 0} ⦃d : Float F⦄ where
  -- Along the loop of the public works, the wages that are paid or compared with the budget are
  -- below 2^63.
  unfoldable pub SharesFit : ℕ → F → F → List ℕ → World F × ℕ → Type 0
  SharesFit budget line sum [] (w, paid) = Unit
  SharesFit budget line sum (p ∷ ps) (w, paid) = elim (get_elem? w.agents p) [
    | none ↦ SharesFit budget line sum ps (w, paid)
    | some a ↦
        let wage = share budget line sum a.wealth in
        let skip = SharesFit budget line sum ps (w, paid) in
        let pay =
          SharesFit budget line sum ps
            (update_agent p thankful (credit (purse p) wage w), add64 paid wage) in
        if not (is_poor line a) || wage == 0
        then skip
        else (wage < 2 ^ 63) × (if ltb budget (add64 paid wage) then Unit else pay)
  ]

  -- The shares of the public works in this world fit.
  abbrev pub WorksFit : ℕ → List ℕ → World F → Type 0
  WorksFit at ps w =
      let budget = works_budget at w in
      let line = poverty_line 30 (agents_at w ps) in
      let sum = total_weight line (agents_at w ps) nought in
      ltb 0 budget && d.lt nought sum ≡ true → SharesFit budget line sum ps (w, 0)

  -- A settlement after its taxes.
  abbrev pub after_taxes : ℕ → List ℕ → World F → World F
  after_taxes at ps w =
      let (w', revenue) = tax_agents (tax_rate_of (get_elem? w.settlements at)) ps (w, 0) in
      credit (treasury at) revenue w'

  -- In each settlement, in the order of the run, the shares of its public works fit.
  unfoldable pub TaxesFit : (ℕ → List ℕ) → List ℕ → World F → Type 0
  TaxesFit sett_agents [] w = Unit
  TaxesFit sett_agents (at ∷ rest) w =
      let ps = sett_agents (id_at w at) in
      WorksFit at ps (after_taxes at ps w) × TaxesFit sett_agents rest (collect_taxes_at at ps w)

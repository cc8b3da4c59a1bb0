-- ===== src/Treasury/Wages.antt =====
-- `paySettlementWages` of internal/engine/market.go: the daily wage of the poor from the treasury.
pub mod Crowns
use mini_world.Base.Word.{add64}
use mini_world.Ledger.{World, credit, balance, id_at, purse, treasury, debit, agents_at}
use mini_world.Treasury.Poverty.{share, poverty_line, is_poor, total_weight}
use mini_world.Model.Settlements.{Settlement}
use mini_world.Base.{
  ℕ, zero, suc, ◌+◌, ◌-◌, ◌*◌, ◌≤◌, ◌<◌, ◌^◌, ◌≡◌, refl, sym, ap, subst, ◌∙◌, ◌≢◌, ◌⊎◌, inl, inr,
  Bool, true, false, not, ◌&&◌, ◌||◌, Option, none, some, List, [], ◌∷◌, ◌++◌, arith, ltb, leb,
  ◌==◌, if◌then◌else◌, tests, Bool-cases, Option-cases, length, get_elem?, modify, All, Any, total,
}
use mini_world.Base.Float.{Float, agnosis, matter, nought, one}

module _ {F : Type 0} ⦃d : Float F⦄ where
  -- The sum of the treasuries, as uint64.
  unfoldable pub total_treasury : List (Settlement F) → ℕ → ℕ
  total_treasury [] acc = acc
  total_treasury (s ∷ ss) acc = total_treasury ss (add64 acc s.treasury)

  -- The rate at which treasuries pay out, by how far their share of all wealth exceeds the target.
  unfoldable pub outflow_rate : ℕ → ℕ → F
  outflow_rate treasuries wealth =
      let excess = d.sub (d.div (d.of_ℕ treasuries) (d.of_ℕ wealth)) (d.sub one matter) in
      let scaled = d.add (d.lit 1 2) (d.mul (d.mul excess excess) (d.lit 400 1)) in
      if d.lt nought excess then if d.lt agnosis scaled then agnosis else scaled else d.lit 5 3

  abbrev pub wage_of : ℕ → F → F → ℕ → ℕ
  wage_of budget line sum wealth =
      let wage = share budget line sum wealth in if ltb wage 1 then 1 else wage

  -- The loop that pays wages, with `paid`.
  unfoldable pub pay_wages : ℕ → ℕ → F → F → List ℕ → World F → ℕ → World F
  pay_wages at budget line sum [] w paid = w
  pay_wages at budget line sum (p ∷ ps) w paid = elim (get_elem? w.agents p) [
    | none ↦ pay_wages at budget line sum ps w paid
    | some a ↦
        let wage = wage_of budget line sum a.wealth in
        let skip = pay_wages at budget line sum ps w paid in
        let pay =
          pay_wages at budget line sum ps (credit (purse p) wage (debit (treasury at) wage w))
            (add64 paid wage) in
        if not (is_poor line a)
        then skip
        else if ltb budget (add64 paid wage)
        then w
        else if ltb (balance (treasury at) w) wage
        then w
        else pay
  ]

  -- One settlement of `paySettlementWages`.
  unfoldable pub pay_wages_at : F → ℕ → List ℕ → World F → World F
  pay_wages_at rate at ps w =
      let held = balance (treasury at) w in
      let wanted = d.trunc (d.mul (d.of_ℕ held) rate) in
      let budget = if ltb wanted 2 then 2 else wanted in
      let line = poverty_line 50 (agents_at w ps) in
      let sum = total_weight line (agents_at w ps) nought in
      let paid = pay_wages at budget line sum ps w 0 in
      if held == 0 || not (d.lt nought sum || d.lt sum nought) then w else paid

  pay_wages_all : F → (ℕ → List ℕ) → List ℕ → World F → World F
  pay_wages_all rate sett_agents [] w = w
  pay_wages_all rate sett_agents (at ∷ rest) w =
      pay_wages_all rate sett_agents rest (pay_wages_at rate at (sett_agents (id_at w at)) w)

  -- `paySettlementWages`, with `s.Stats.TotalWealth` given.
  unfoldable pub pay_settlement_wages : ℕ → (ℕ → List ℕ) → List ℕ → World F → World F
  unfolding pay_wages_all
  pay_settlement_wages total_wealth sett_agents places w =
      let treasuries = total_treasury w.settlements 0 in
      let all_wealth = add64 treasuries total_wealth in
      let paid = pay_wages_all (outflow_rate treasuries all_wealth) sett_agents places w in
      if all_wealth == 0 then w else paid

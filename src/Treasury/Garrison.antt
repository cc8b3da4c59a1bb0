-- ===== src/Treasury/Garrison.antt =====
-- `payGarrisonStipends` of internal/engine/market.go: soldiers are paid from the treasury.
pub mod Crowns
use mini_world.Treasury.Taxes.{population_of}
use mini_world.Base.Word.{add64}
use mini_world.Satisfaction.{apply_direct_sat_bump}
use mini_world.Ledger.{World, balance, id_at, update_agent, treasury, credit, purse, debit}
use mini_world.Model.Agents.{Agent, is_occupied, soldier}
use mini_world.Base.{
  ℕ, zero, suc, ◌+◌, ◌-◌, ◌*◌, ◌≤◌, ◌<◌, ◌^◌, ◌≡◌, refl, sym, ap, subst, ◌∙◌, ◌≢◌, ◌⊎◌, inl, inr,
  Bool, true, false, not, ◌&&◌, ◌||◌, Option, none, some, List, [], ◌∷◌, ◌++◌, arith, ltb, leb,
  ◌==◌, if◌then◌else◌, tests, Bool-cases, Option-cases, length, get_elem?, modify, All, Any, total,
}
use mini_world.Base.Float.{Float, agnosis, add32, lit32}

module _ {F : Type 0} ⦃d : Float F⦄ where
  abbrev pub honoured : Agent F → Agent F
  honoured a = record a {
    needs = record (a.needs) {
      safety = add32 a.needs.safety (lit32 3 3);
      purpose = add32 a.needs.purpose (lit32 2 3);
    };
  }

  abbrev pub pay_soldier : ℕ → ℕ → ℕ → World F → World F
  pay_soldier at stipend p w =
      apply_direct_sat_bump p (lit32 8 2) "stipend"
        (update_agent p honoured (credit (purse p) stipend (debit (treasury at) stipend w)))

  -- The loop over the soldiers, with `paid`.
  unfoldable pub pay_stipends : ℕ → ℕ → ℕ → List ℕ → World F → ℕ → World F
  pay_stipends at stipend most [] w paid = w
  pay_stipends at stipend most (p ∷ ps) w paid =
      let rest =
        pay_stipends at stipend most ps (pay_soldier at stipend p w) (add64 paid stipend) in
      if ltb most (add64 paid stipend)
      then w
      else if ltb (balance (treasury at) w) stipend
      then w
      else rest

  abbrev pub is_soldier : Option (Agent F) → Bool
  is_soldier none = false
  is_soldier (some a) = a.alive && is_occupied a.occupation soldier

  unfoldable pub soldiers_of : World F → List ℕ → List ℕ
  soldiers_of w [] = []
  soldiers_of w (p ∷ ps) =
      let rest = soldiers_of w ps in if is_soldier (get_elem? w.agents p) then p ∷ rest else rest

  -- One settlement of `payGarrisonStipends`.
  unfoldable pub pay_garrison_at : ℕ → List ℕ → World F → World F
  pay_garrison_at at ps w =
      let held = balance (treasury at) w in
      let population = population_of (get_elem? w.settlements at) in
      let per_capita = d.div (d.of_ℕ held) (d.of_ℕ population) in
      let wanted = d.trunc (d.mul (d.mul per_capita agnosis) (d.lit 5 1)) in
      let stipend = if ltb wanted 1 then 1 else wanted in
      let most = d.trunc (d.mul (d.of_ℕ held) agnosis) in
      let paid = pay_stipends at stipend most (soldiers_of w ps) w 0 in
      if held == 0 || population == 0 then w else paid

  -- `payGarrisonStipends`
  unfoldable pub pay_garrison_stipends : (ℕ → List ℕ) → List ℕ → World F → World F
  pay_garrison_stipends sett_agents [] w = w
  pay_garrison_stipends sett_agents (at ∷ rest) w =
      pay_garrison_stipends sett_agents rest (pay_garrison_at at (sett_agents (id_at w at)) w)

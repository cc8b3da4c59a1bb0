-- ===== src/Merchant/Commission.antt =====
-- `tier2Commission` of internal/engine/market.go: the guild fee of the Tier 2 merchants.
pub mod Crowns
use mini_world.Ledger.{World, balance, purse, credit, debit}
use mini_world.Base.Word.{add64, sub64}
use mini_world.Model.Agents.{Agent, is_tier2, is_occupied, Occupation}
use mini_world.Base.{
  ℕ, zero, suc, ◌+◌, ◌-◌, ◌*◌, ◌≤◌, ◌<◌, ◌^◌, ◌≡◌, refl, sym, ap, subst, ◌∙◌, ◌≢◌, ◌⊎◌, inl, inr,
  Bool, true, false, not, ◌&&◌, ◌||◌, Option, none, some, List, [], ◌∷◌, ◌++◌, arith, ltb, leb,
  ◌==◌, if◌then◌else◌, tests, Bool-cases, Option-cases, length, get_elem?, modify, All, Any, total,
}
use mini_world.Base.Float.{Float, agnosis, nought, one}

-- The cap on all commissions, then the seller's wealth.
abbrev pub capped : ℕ → ℕ → ℕ → ℕ → ℕ
capped most paid held commission =
    let within = if ltb most (add64 paid commission) then sub64 most paid else commission in
    if ltb held within then held else within

module _ {F : Type 0} ⦃d : Float F⦄ where
  abbrev pub earns : ℕ → Option (Agent F) → Bool
  earns seller none = false
  earns seller (some a) =
      is_tier2 a.tier
      && is_occupied a.occupation Occupation.merchant
      && a.alive
      && not (a.id == seller)

  abbrev pub coherence_of : Option (Agent F) → F
  coherence_of none = nought
  coherence_of (some a) = a.citta_coherence

  -- `uint64(float64(revenue) * phi.Agnosis * 0.1 * (1.0 + coherence))`
  unfoldable pub commission_of : ℕ → F → ℕ
  commission_of revenue coherence =
      d.trunc (d.mul (d.mul (d.mul (d.of_ℕ revenue) agnosis) (d.lit 1 1)) (d.add one coherence))

  -- The loop over the agents of the settlement; `seller` is the ID of the merchant at `p`.
  unfoldable pub pay_commissions : ℕ → ℕ → ℕ → ℕ → List ℕ → World F → ℕ → World F
  pay_commissions p seller revenue most [] w paid = w
  pay_commissions p seller revenue most (q ∷ qs) w paid =
      let found = get_elem? w.agents q in
      let full = commission_of revenue (coherence_of found) in
      let commission = capped most paid (balance (purse p) w) full in
      let next = credit (purse q) commission (debit (purse p) commission w) in
      let skip = pay_commissions p seller revenue most qs w paid in
      let go_on = pay_commissions p seller revenue most qs next (add64 paid commission) in
      if not (earns seller found) || full == 0
      then skip
      else if commission == 0
      then w
      else if leb most (add64 paid commission)
      then next
      else go_on

  abbrev pub id_of : Option (Agent F) → ℕ
  id_of none = 0
  id_of (some a) = a.id

  abbrev pub most_commission : F → ℕ → ℕ
  most_commission half revenue = d.trunc (d.add (d.mul (d.of_ℕ revenue) agnosis) half)

  -- `tier2Commission`
  unfoldable pub tier2_commission : ℕ → ℕ → List ℕ → World F → World F
  tier2_commission p revenue ps w =
      let most = most_commission (d.lit 5 1) revenue in
      let paid = pay_commissions p (id_of (get_elem? w.agents p)) revenue most ps w 0 in
      if most == 0 then w else paid

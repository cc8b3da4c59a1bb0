-- ===== src/Lifecycle/Inheritance.antt =====
-- Who gets what when inheritWealth of internal/engine/simulation.go hands the crowns of the dead on.
use mini_world.Ledger.Balances.{
  balance-credit, balance-credit_ne, balance-update_settlement, balance-update_agent,
  balance-set_balance_ne,
}
use mini_world.Ledger.Moves.{crowns-credit, credit-SameShape, Holds-mono}
use mini_world.Lifecycle.Heirs.{IsFirstHeir, heir_of-IsFirstHeir}
use mini_world.Lifecycle.Sums.{
  inherit_wealth-total, heir_of-other, agents-credit_treasury, treasury-stock_market, lost,
}
use mini_world.Base.Word.{sub64, sub64_exact}
use mini_world.Treasury.Decay.{home_of}
use mini_world.Model.Goods.{is_empty, clear}
use mini_world.Model.Agents.{Agent}
use mini_world.Base.Float.{Float}
use mini_world.Ledger.{
  World, Account, purse, treasury, balance, credit, crowns, update_settlement, set_balance, id_at,
}
use mini_world.Lifecycle.{
  heir_of, inherit_wealth, give_share, leave_nothing, bequeath, stock_market,
}
use mini_world.Base.{
  ℕ, ◌+◌, ◌-◌, ◌<◌, ◌^◌, ◌≡◌, refl, sym, subst, ◌∙◌, ◌≢◌, inl, inr, ◌&&◌, Option, none, some, List,
  arith, ltb, ◌==◌, tests, Bool-cases, Option-cases, length, get_elem?, ◌/◌, if_both,
}

module _ {F : Type 0} where
  -- How `n` crowns of the agent at place `p` are settled: without an heir all go to the treasury;
  -- with an heir half of them, rounded down, go to the treasury and the rest to the heir. No other
  -- account but that of the dead changes.
  abbrev pub IsSettled : ℕ → ℕ → ℕ → Option ℕ → World F → World F → Type 0
  IsSettled p at n none w w' =
      (balance (treasury at) w' ≡ balance (treasury at) w + n)
      × ((acc : Account) → acc ≢ purse p → acc ≢ treasury at → balance acc w' ≡ balance acc w)
  IsSettled p at n (some h) w w' =
      (balance (treasury at) w' ≡ balance (treasury at) w + n / 2)
      × (balance (purse h) w' ≡ balance (purse h) w + (n - n / 2))
      × ((acc : Account)
          → acc ≢ purse p
          → acc ≢ treasury at
          → acc ≢ purse h
          → balance acc w' ≡ balance acc w)

  -- A world in which all accounts but that of the dead are the same is as settled.
  IsSettled-trans :
      (p at n : ℕ) (heir : Option ℕ) (w w' w'' : World F)
      → ((h : ℕ) → heir ≡ some h → h ≢ p)
      → ((acc : Account) → acc ≢ purse p → balance acc w'' ≡ balance acc w')
      → IsSettled p at n heir w w'
      → IsSettled p at n heir w w''
  IsSettled-trans p at n none w w' w'' other same (town, rest) =
      (same (treasury at) (λ e. cc) ∙ town, λ acc ne ne'. same acc ne ∙ rest acc ne ne')
  IsSettled-trans p at n (some h) w w' w'' other same (town, own, rest) = (
    same (treasury at) (λ e. cc) ∙ town,
    same (purse h) (λ e. other h refl (let same : h ≡ p = cc in same)) ∙ own,
    λ acc ne ne' ne''. same acc ne ∙ rest acc ne ne' ne'',
  )

  -- Nothing to settle
  IsSettled-nothing :
      (p at n : ℕ) (heir : Option ℕ) (w : World F) → n ≡ 0 → IsSettled p at n heir w w
  IsSettled-nothing p at n none w h = (omega arith, λ acc ne ne'. refl)
  IsSettled-nothing p at n (some k) w h = (omega arith, omega arith, λ acc ne ne' ne''. refl)

  give_share-IsSettled :
      (p at n : ℕ) (heir : Option ℕ) (w : World F)
      → at < length w.settlements
      → ((h : ℕ) → heir ≡ some h → (h ≢ p) × (h < length w.agents))
      → crowns w + n < 2 ^ 64
      → IsSettled p at n heir w
          (give_share at heir (sub64 n (n / 2)) (credit (treasury at) (n / 2) w))
  give_share-IsSettled p at n heir w there other fits =
      let half = n / 2 in
      let share = sub64 n half in
      let exact : share ≡ n - half = sub64_exact n half (omega arith) (omega arith) in
      let w1 = credit (treasury at) half w in
      let shape = credit-SameShape (treasury at) half w in
      let sum1 = crowns-credit (treasury at) half w there (omega arith) in
      let town1 = balance-credit (treasury at) half w there (omega arith) in
      let rest1 : (acc : Account) → acc ≢ treasury at → balance acc w1 ≡ balance acc w =
        λ acc ne. balance-credit_ne (treasury at) acc half w ne in
      elim (Option-cases heir) [
        | inl no_heir ↦
            rw (no_heir, give_share)
              (elim (Bool-cases (ltb 0 share)) [
                | inl left_over ↦ rw left_over (
                    let town2 =
                      balance-credit (treasury at) share w1
                        (Holds-mono w w1 (treasury at) shape there) (omega arith) in
                    (
                      omega arith,
                      λ acc ne ne'.
                          balance-credit_ne (treasury at) acc share w1 ne' ∙ rest1 acc ne',
                    ))
                | inr nothing ↦
                    rw nothing (omega (tests, nothing, exact, town1), λ acc ne ne'. rest1 acc ne')
              ])
        | inr (h, an_heir) ↦
            let (_, lt) = other h an_heir in
            let own2 =
              balance-credit (purse h) share w1 (Holds-mono w w1 (purse h) shape lt)
                (omega arith) in
            let own1 = rest1 (purse h) (λ e. cc) in
            rw (an_heir, give_share)
              (
                balance-credit_ne (purse h) (treasury at) share w1 (λ e. cc) ∙ town1,
                omega arith,
                λ acc ne ne' ne''. balance-credit_ne (purse h) acc share w1 ne'' ∙ rest1 acc ne',
              )
      ]

  leave_nothing-rest :
      (p : ℕ) (w : World F) (acc : Account)
      → acc ≢ purse p
      → balance acc (leave_nothing p w) ≡ balance acc w
  leave_nothing-rest p w acc ne =
      balance-update_agent acc p (λ a. record a { inventory = clear a.inventory })
        (set_balance (purse p) 0 w) (λ a. refl)
      ∙ balance-set_balance_ne (purse p) acc 0 w ne

  -- How the wealth of a dead agent is passed on: all of it in its home, where the heir is the first
  -- of the residents who can inherit; and to nobody without a home.
  abbrev pub IsPassedOn : (ℕ → List ℕ) → ℕ → Agent F → Option ℕ → World F → World F → Type 0
  IsPassedOn sett_agents p a none w w' =
      (crowns w' + a.wealth ≡ crowns w)
      × ((acc : Account) → acc ≢ purse p → balance acc w' ≡ balance acc w)
  IsPassedOn sett_agents p a (some at) w w' =
      (crowns w' ≡ crowns w)
      × (heir : Option ℕ) × IsFirstHeir a.id w.agents (sett_agents (id_at w at)) heir
      × IsSettled p at a.wealth heir w w'

  IsPassedOn-nothing :
      (sett_agents : ℕ → List ℕ) (p : ℕ) (a : Agent F) (home : Option ℕ) (w : World F)
      → a.wealth ≡ 0
      → IsPassedOn sett_agents p a home w w
  IsPassedOn-nothing sett_agents p a none w h = (omega arith, λ acc ne. refl)
  IsPassedOn-nothing sett_agents p a (some at) w h =
      let ps = sett_agents (id_at w at) in
      let heir = heir_of a.id w ps in
      (refl, heir, heir_of-IsFirstHeir a.id w ps, IsSettled-nothing p at a.wealth heir w h)

module _ {F : Type 0} ⦃d : Float F⦄ where
  bequeath-IsPassedOn :
      (sett_agents : ℕ → List ℕ) (p : ℕ) (a : Agent F) (home : Option ℕ) (w : World F)
      → get_elem? w.agents p ≡ some a
      → ((at : ℕ) → home ≡ some at → at < length w.settlements)
      → crowns w + a.wealth < 2 ^ 64
      → let w' = leave_nothing p (bequeath sett_agents a home w) in
        crowns w' + lost home a.wealth ≡ crowns w → IsPassedOn sett_agents p a home w w'
  bequeath-IsPassedOn sett_agents p a none w found there fits sum =
      (sum, λ acc ne. leave_nothing-rest p w acc ne)
  bequeath-IsPassedOn sett_agents p a (some at) w found there fits sum =
      let ps = sett_agents (id_at w at) in
      let half = a.wealth / 2 in
      let w1 = credit (treasury at) half w in
      let same_agents = agents-credit_treasury at half w in
      let heir = heir_of a.id w1 ps in
      let found1 = subst (λ xs. get_elem? xs p ≡ some a) (sym same_agents) found in
      let other = λ (h : ℕ) (e : heir ≡ some h). heir_of-other p w1 ps found1 e in
      let w2 = give_share at heir (sub64 a.wealth half) w1 in
      let w3 = update_settlement at (stock_market a.inventory) w2 in
      (
        omega (arith, sum),
        heir,
        subst (λ xs. IsFirstHeir a.id xs ps heir) same_agents (heir_of-IsFirstHeir a.id w1 ps),
        IsSettled-trans p at a.wealth heir w w2 (leave_nothing p w3) (λ h e. (other h e).0)
            (λ acc ne.
              leave_nothing-rest p w3 acc ne
              ∙ balance-update_settlement acc at (stock_market a.inventory) w2
                  (treasury-stock_market a.inventory))
            (give_share-IsSettled p at a.wealth heir w (there at refl)
              (λ h e. let (ne, lt) = other h e in (ne, subst (λ xs. h < length xs) same_agents lt))
              fits),
      )

  inherit_wealth-IsPassedOn :
      (sett_index : ℕ → Option ℕ) (sett_agents : ℕ → List ℕ) (p : ℕ) (w : World F) (a : Agent F)
      → get_elem? w.agents p ≡ some a
      → ((at : ℕ) → home_of sett_index a ≡ some at → at < length w.settlements)
      → crowns w + a.wealth < 2 ^ 64
      → let w' = inherit_wealth sett_index sett_agents p w in
        let home = home_of sett_index a in
        crowns w' + lost home a.wealth ≡ crowns w → IsPassedOn sett_agents p a home w w'
  unfolding inherit_wealth
  inherit_wealth-IsPassedOn sett_index sett_agents p w a found there fits =
      let home = home_of sett_index a in
      let Passed = λ (u : World F).
        crowns u + lost home a.wealth ≡ crowns w → IsPassedOn sett_agents p a home w u in
      rw found (
        if_both Passed ((a.wealth == 0) && is_empty a.inventory)
          (λ poor sum. IsPassedOn-nothing sett_agents p a home w (ground arith))
          (λ _. bequeath-IsPassedOn sett_agents p a home w found there fits))

  -- Where the dead is an agent of the world, its home is among the settlements if it has one, and
  -- the crowns of the world with its wealth are fewer than 2^64, it keeps nothing. Where it has a
  -- home, no crown is made or lost, and its wealth goes to the treasury there if none of the
  -- residents is alive with another ID; otherwise half of it, rounded down, goes to the treasury
  -- and the rest to the first such resident. Where it has no home, its wealth leaves the world.
  -- No other account changes.
  pub inherit_wealth-crowns :
      (sett_index : ℕ → Option ℕ) (sett_agents : ℕ → List ℕ) (p : ℕ) (w : World F) (a : Agent F)
      → get_elem? w.agents p ≡ some a
      → ((at : ℕ) → home_of sett_index a ≡ some at → at < length w.settlements)
      → crowns w + a.wealth < 2 ^ 64
      → (balance (purse p) (inherit_wealth sett_index sett_agents p w) ≡ 0)
        × IsPassedOn sett_agents p a
            (home_of sett_index a)
            w
            (inherit_wealth sett_index sett_agents p w)
  inherit_wealth-crowns sett_index sett_agents p w a found there fits =
      let (sum, nothing) = inherit_wealth-total sett_index sett_agents p w a found there fits in
      (nothing, inherit_wealth-IsPassedOn sett_index sett_agents p w a found there fits sum)

-- ===== src/Lifecycle/Sums.antt =====
-- The crowns of the world and the purse of the dead when inheritWealth of
-- internal/engine/simulation.go hands its wealth on.
use mini_world.Model.Goods.{clear, is_empty, GoodInventory}
use mini_world.Ledger.Moves.{
  crowns-credit, credit-SameShape, SameShape-refl, purse-some, Holds-mono, update_agent-Conserves,
  crowns-set_balance, update_settlement-Conserves, SameShape-trans,
}
use mini_world.Base.Word.{add64, sub64, sub64_exact}
use mini_world.Treasury.Decay.{home_of}
use mini_world.Model.Settlements.{Settlement}
use mini_world.Model.Agents.{Agent}
use mini_world.Base.Float.{Float}
use mini_world.Ledger.{
  balance, credit, World, set_balance, purse, treasury, crowns, wealth_of, update_settlement,
  SameShape, id_at, Conserves,
}
use mini_world.Lifecycle.{
  heir_of, inherit_wealth, is_heir, give_share, leave_nothing, bequeath, stock_market,
}
use mini_world.Base.{
  ℕ, zero, suc, ◌+◌, ◌<◌, ◌^◌, ◌≡◌, refl, sym, ap, subst, ◌∙◌, ◌≢◌, inl, inr, true, false, ◌&&◌,
  Option, none, some, List, [], ◌∷◌, arith, ltb, ◌==◌, if◌then◌else◌, tests, Bool-cases,
  Option-cases, length, get_elem?, modify, get_elem?-modify_ne, get_elem?-some, ◌/◌, if_both,
  get_elem?-modify_self,
}

-- What is found is in range.
pub get_elem?-lt :
    {A : Type 0} (xs : List A) (i : ℕ) {x : A} → get_elem? xs i ≡ some x → i < length xs
get_elem?-lt [] i h = cc
get_elem?-lt (y ∷ xs) zero h = omega arith
get_elem?-lt (y ∷ xs) (suc i) h = let lt = get_elem?-lt xs i h in omega arith

-- What is lost where there is no home.
abbrev pub lost : Option ℕ → ℕ → ℕ
lost none n = n
lost (some at) n = 0

lost-zero : (home : Option ℕ) {n : ℕ} → n ≡ 0 → lost home n ≡ 0
lost-zero none h = h
lost-zero (some at) h = refl

module _ {F : Type 0} where
  -- An heir is another agent.
  pub heir_of-other :
      (p : ℕ) {a : Agent F} (w : World F) (ps : List ℕ) {h : ℕ}
      → get_elem? w.agents p ≡ some a
      → heir_of a.id w ps ≡ some h
      → (h ≢ p) × (h < length w.agents)
  unfolding heir_of
  heir_of-other p {a} w [] found e = cc
  heir_of-other p {a} w (q ∷ ps) {h} found e =
      elim (Bool-cases (is_heir a.id (get_elem? w.agents q))) [
        | inl heir ↦
            let first = subst (λ b. (if b then some q else heir_of a.id w ps) ≡ some h) heir e in
            let same : q ≡ h = cc in
            elim (Option-cases (get_elem? w.agents q)) [
              | inl gone ↦ let clash = subst (λ o. is_heir a.id o ≡ true) gone heir in cc
              | inr (b, there) ↦
                  let heir' = subst (λ o. is_heir a.id o ≡ true) there heir in
                  let other : (b.id == a.id) ≡ false = ground arith in
                  let in_range : q < length w.agents = get_elem?-lt w.agents q there in
                  (
                    (λ same_place.
                        let q_p : q ≡ p = same ∙ same_place in
                        let at_p : get_elem? w.agents q ≡ some a =
                          subst (λ i. get_elem? w.agents i ≡ some a) (sym q_p) found in
                        let one_agent : b ≡ a = cc in
                        let clash : (a.id == a.id) ≡ false =
                          subst (λ (x : Agent F). (x.id == a.id) ≡ false) one_agent other in
                        absurd (ground arith)),
                    subst (λ i. i < length w.agents) same in_range,
                  )
            ]
        | inr away ↦
            let later = subst (λ b. (if b then some q else heir_of a.id w ps) ≡ some h) away e in
            heir_of-other p w ps found later
      ]

  purse-credit_other :
      (p h c : ℕ) (w : World F)
      → h ≢ p
      → balance (purse p) (credit (purse h) c w) ≡ balance (purse p) w
  unfolding balance credit set_balance
  purse-credit_other p h c w ne = ap wealth_of (
      get_elem?-modify_ne h p (λ (a : Agent F). record a { wealth = add64 (balance (purse h) w) c })
        w.agents ne)

  purse-credit_treasury :
      (p at c : ℕ) (w : World F)
      → balance (purse p) (credit (treasury at) c w) ≡ balance (purse p) w
  unfolding balance credit
  purse-credit_treasury p at c w = refl

  purse-update_settlement :
      (p at : ℕ) (f : Settlement F → Settlement F) (w : World F)
      → balance (purse p) (update_settlement at f w) ≡ balance (purse p) w
  unfolding balance
  purse-update_settlement p at f w = refl

  pub agents-credit_treasury :
      (at c : ℕ) (w : World F) → (credit (treasury at) c w).agents ≡ w.agents
  unfolding credit
  agents-credit_treasury at c w = refl

  -- The share is given once, and not from the purse of the dead.
  give_share-adds :
      (at p share : ℕ) (heir : Option ℕ) (w : World F)
      → at < length w.settlements
      → ((h : ℕ) → heir ≡ some h → (h ≢ p) × (h < length w.agents))
      → crowns w + share < 2 ^ 64
      → (crowns (give_share at heir share w) ≡ crowns w + share)
        × (balance (purse p) (give_share at heir share w) ≡ balance (purse p) w)
        × SameShape w (give_share at heir share w)
  give_share-adds at p share none w there other fits = elim (Bool-cases (ltb 0 share)) [
    | inl some_left ↦ rw some_left (
      crowns-credit (treasury at) share w there fits,
      purse-credit_treasury p at share w,
      credit-SameShape (treasury at) share w,
    )
    | inr nothing ↦ rw nothing (omega (tests, nothing), refl, SameShape-refl w)
  ]
  give_share-adds at p share (some h) w there other fits =
      let (ne, lt) = other h refl in
      (
        crowns-credit (purse h) share w lt fits,
        purse-credit_other p h share w ne,
        credit-SameShape (purse h) share w,
      )

  -- The dead keeps nothing, and what it had leaves its purse.
  leave_nothing-crowns :
      (p : ℕ) (w : World F)
      → p < length w.agents
      → (crowns (leave_nothing p w) + balance (purse p) w ≡ crowns w)
        × (balance (purse p) (leave_nothing p w) ≡ 0)
  unfolding balance set_balance
  leave_nothing-crowns p w h =
      let (a, found) = get_elem?-some w.agents p h in
      let emptied = λ (x : Agent F). record x { wealth = 0 } in
      let cleared = λ (x : Agent F). record x { inventory = clear x.inventory } in
      let one_write = get_elem?-modify_self p emptied w.agents found in
      let two_writes = get_elem?-modify_self p cleared (modify p emptied w.agents) one_write in
      let kept = update_agent-Conserves p cleared (set_balance (purse p) 0 w) (λ x. refl) in
      let taken = crowns-set_balance (purse p) 0 w h in
      (omega (arith, kept.same_crowns, taken), ap wealth_of two_writes)

module _ {F : Type 0} ⦃d : Float F⦄ where
  pub treasury-stock_market :
      (inv : GoodInventory) (s : Settlement F) → (stock_market inv s).treasury ≡ s.treasury
  treasury-stock_market inv s = elim (Option-cases s.market) [
    | inl closed ↦ rw closed refl
    | inr (mk, open_market) ↦ rw open_market refl
  ]

  bequeath-adds :
      (sett_agents : ℕ → List ℕ) (p : ℕ) {a : Agent F} (home : Option ℕ) (w : World F)
      → get_elem? w.agents p ≡ some a
      → ((at : ℕ) → home ≡ some at → at < length w.settlements)
      → crowns w + a.wealth < 2 ^ 64
      → (crowns (bequeath sett_agents a home w) + lost home a.wealth ≡ crowns w + a.wealth)
        × (balance (purse p) (bequeath sett_agents a home w) ≡ a.wealth)
        × SameShape w (bequeath sett_agents a home w)
  bequeath-adds sett_agents p {a} none w found there fits =
      (refl, purse-some p w found, SameShape-refl w)
  bequeath-adds sett_agents p {a} (some at) w found there fits =
      let n = a.wealth in
      let half = n / 2 in
      let share = sub64 n half in
      let here = there at refl in
      let w1 = credit (treasury at) half w in
      let shape1 = credit-SameShape (treasury at) half w in
      let same_agents = agents-credit_treasury at half w in
      let found1 = subst (λ xs. get_elem? xs p ≡ some a) (sym same_agents) found in
      let whole : half + share ≡ n =
        let exact = sub64_exact n half (omega arith) (omega arith) in omega arith in
      let sum1 = crowns-credit (treasury at) half w here (omega arith) in
      let here1 = Holds-mono w w1 (treasury at) shape1 here in
      let heir = heir_of a.id w1 (sett_agents (id_at w at)) in
      let (sum2, purse2, shape2) =
        give_share-adds at p share heir w1 here1
          (λ h e. heir_of-other p w1 (sett_agents (id_at w at)) found1 e) (omega arith) in
      let w2 = give_share at heir share w1 in
      let kept : Conserves w2 (update_settlement at (stock_market a.inventory) w2) =
        update_settlement-Conserves at (stock_market a.inventory) w2
          (treasury-stock_market a.inventory) in
      (
        omega (arith, kept.same_crowns, sum2, sum1, whole),
        purse-update_settlement p at (stock_market a.inventory) w2
            ∙ purse2
            ∙ purse-credit_treasury p at half w
            ∙ purse-some p w found,
        SameShape-trans shape1 (SameShape-trans shape2 kept.same_shape),
      )

  -- Where it has a home no crown is made or lost; where it has none, just its wealth is.
  pub inherit_wealth-total :
      (sett_index : ℕ → Option ℕ) (sett_agents : ℕ → List ℕ) (p : ℕ) (w : World F) (a : Agent F)
      → get_elem? w.agents p ≡ some a
      → ((at : ℕ) → home_of sett_index a ≡ some at → at < length w.settlements)
      → crowns w + a.wealth < 2 ^ 64
      → (crowns (inherit_wealth sett_index sett_agents p w) + lost (home_of sett_index a) a.wealth
          ≡ crowns w)
        × (balance (purse p) (inherit_wealth sett_index sett_agents p w) ≡ 0)
  unfolding inherit_wealth
  inherit_wealth-total sett_index sett_agents p w a found there fits =
      let home = home_of sett_index a in
      let n = a.wealth in
      let after = bequeath sett_agents a home w in
      let (sum, purse_after, shape) = bequeath-adds sett_agents p home w found there fits in
      let at_p = Holds-mono w after (purse p) shape (get_elem?-lt w.agents p found) in
      let (rest, nothing) = leave_nothing-crowns p after at_p in
      rw found (
        if_both (λ (u : World F). (crowns u + lost home n ≡ crowns w) × (balance (purse p) u ≡ 0))
          ((n == 0) && is_empty a.inventory)
          (λ poor.
            let none_left : n ≡ 0 = ground arith in
            (omega (arith, lost-zero home none_left), purse-some p w found ∙ none_left))
          (λ _. (omega (arith, rest, sum, purse_after), nothing)))

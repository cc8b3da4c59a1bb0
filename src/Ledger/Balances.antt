-- ===== src/Ledger/Balances.antt =====
-- What credits and debits do to each account of the world.
use mini_world.Ledger.Moves.{balance-le-crowns}
use mini_world.Base.Word.{sub64_exact, add64_exact, add64, sub64}
use mini_world.Model.Agents.{Agent}
use mini_world.Model.Settlements.{Settlement}
use mini_world.Ledger.{
  World, Faction, Account, purse, treasury, chest, balance, set_balance, credit, debit, crowns,
  Holds, wealth_of, treasury_of, chest_of, update_agent, update_settlement,
}
use mini_world.Base.{
  ℕ, zero, suc, ◌+◌, ◌≤◌, ◌<◌, ◌^◌, ◌≡◌, refl, sym, ap, ◌∙◌, ◌≢◌, List, [], ◌∷◌, arith, get_elem?,
  modify, get_elem?-some, get_elem?-modify_ne, get_elem?-modify_self,
}

module _ {F : Type 0} where
  wealth-modify :
      (p q : ℕ) (f : Agent F → Agent F) (xs : List (Agent F))
      → ((a : Agent F) → (f a).wealth ≡ a.wealth)
      → wealth_of (get_elem? (modify p f xs) q) ≡ wealth_of (get_elem? xs q)
  wealth-modify p q f [] keep = refl
  wealth-modify zero zero f (x ∷ xs) keep = keep x
  wealth-modify zero (suc q) f (x ∷ xs) keep = refl
  wealth-modify (suc p) zero f (x ∷ xs) keep = refl
  wealth-modify (suc p) (suc q) f (x ∷ xs) keep = wealth-modify p q f xs keep

  treasury-modify :
      (p q : ℕ) (f : Settlement F → Settlement F) (xs : List (Settlement F))
      → ((s : Settlement F) → (f s).treasury ≡ s.treasury)
      → treasury_of (get_elem? (modify p f xs) q) ≡ treasury_of (get_elem? xs q)
  treasury-modify p q f [] keep = refl
  treasury-modify zero zero f (x ∷ xs) keep = keep x
  treasury-modify zero (suc q) f (x ∷ xs) keep = refl
  treasury-modify (suc p) zero f (x ∷ xs) keep = refl
  treasury-modify (suc p) (suc q) f (x ∷ xs) keep = treasury-modify p q f xs keep

  pub balance-set_balance :
      (a : Account) (v : ℕ) (w : World F) → Holds w a → balance a (set_balance a v w) ≡ v
  unfolding balance set_balance
  balance-set_balance (purse p) v w h =
      let (x, e) = get_elem?-some w.agents p h in
      ap wealth_of (get_elem?-modify_self p (λ (a : Agent F). record a { wealth = v }) w.agents e)
  balance-set_balance (treasury p) v w h =
      let (x, e) = get_elem?-some w.settlements p h in
      ap treasury_of
        (get_elem?-modify_self p (λ (s : Settlement F). record s { treasury = v }) w.settlements e)
  balance-set_balance (chest p) v w h =
      let (x, e) = get_elem?-some w.factions p h in
      ap chest_of
        (get_elem?-modify_self p (λ (f : Faction F). record f { treasury = v }) w.factions e)

  -- A write to one account leaves each other account as it is.
  pub balance-set_balance_ne :
      (a acc : Account) (v : ℕ) (w : World F)
      → acc ≢ a
      → balance acc (set_balance a v w) ≡ balance acc w
  unfolding balance set_balance
  balance-set_balance_ne (purse p) (purse q) v w ne = ap wealth_of (
      get_elem?-modify_ne p q (λ (a : Agent F). record a { wealth = v }) w.agents
        (λ e. ne (ap purse (sym e))))
  balance-set_balance_ne (treasury p) (treasury q) v w ne = ap treasury_of (
      get_elem?-modify_ne p q (λ (s : Settlement F). record s { treasury = v }) w.settlements
        (λ e. ne (ap treasury (sym e))))
  balance-set_balance_ne (chest p) (chest q) v w ne = ap chest_of (
      get_elem?-modify_ne p q (λ (f : Faction F). record f { treasury = v }) w.factions
        (λ e. ne (ap chest (sym e))))
  balance-set_balance_ne a acc v w ne = refl

  pub balance-credit :
      (a : Account) (c : ℕ) (w : World F)
      → Holds w a
      → crowns w + c < 2 ^ 64
      → balance a (credit a c w) ≡ balance a w + c
  unfolding credit
  balance-credit a c w h fits =
      let low = balance-le-crowns a w h in
      balance-set_balance a (add64 (balance a w) c) w h ∙ add64_exact (balance a w) c (omega arith)

  pub balance-credit_ne :
      (a acc : Account) (c : ℕ) (w : World F) → acc ≢ a → balance acc (credit a c w) ≡ balance acc w
  unfolding credit
  balance-credit_ne a acc c w ne = balance-set_balance_ne a acc (add64 (balance a w) c) w ne

  pub balance-debit :
      (a : Account) (c : ℕ) (w : World F)
      → Holds w a
      → c ≤ balance a w
      → crowns w < 2 ^ 64
      → balance a (debit a c w) + c ≡ balance a w
  unfolding debit
  balance-debit a c w h covered fits =
      let low = balance-le-crowns a w h in
      let left = balance-set_balance a (sub64 (balance a w) c) w h in
      let exact = sub64_exact (balance a w) c covered (omega arith) in omega (arith, left, exact)

  pub balance-debit_ne :
      (a acc : Account) (c : ℕ) (w : World F) → acc ≢ a → balance acc (debit a c w) ≡ balance acc w
  unfolding debit
  balance-debit_ne a acc c w ne = balance-set_balance_ne a acc (sub64 (balance a w) c) w ne

  -- A write to an agent that keeps its wealth changes no balance.
  pub balance-update_agent :
      (acc : Account) (p : ℕ) (f : Agent F → Agent F) (w : World F)
      → ((a : Agent F) → (f a).wealth ≡ a.wealth)
      → balance acc (update_agent p f w) ≡ balance acc w
  unfolding balance
  balance-update_agent (purse q) p f w keep = wealth-modify p q f w.agents keep
  balance-update_agent (treasury q) p f w keep = refl
  balance-update_agent (chest q) p f w keep = refl

  -- So does one to a settlement that keeps its treasury.
  pub balance-update_settlement :
      (acc : Account) (p : ℕ) (f : Settlement F → Settlement F) (w : World F)
      → ((s : Settlement F) → (f s).treasury ≡ s.treasury)
      → balance acc (update_settlement p f w) ≡ balance acc w
  unfolding balance
  balance-update_settlement (treasury q) p f w keep = treasury-modify p q f w.settlements keep
  balance-update_settlement (purse q) p f w keep = refl
  balance-update_settlement (chest q) p f w keep = refl

-- ===== src/Treasury/Decay/Crowns.antt =====
-- The decay of wealth moves crowns into the home treasuries, and loses those of the homeless.
use mini_world.Ledger.Balances.{balance-debit, balance-debit_ne}
use mini_world.Base.Word.{sub64_exact}
use mini_world.Ledger.Moves.{
  credit-SameShape, balance-le-crowns, Conserves-refl, crowns-debit, payment-Conserves,
  Conserves-trans, purse-some,
}
use mini_world.Treasury.Decay.{
  decay_rate, decay_of, decay_wealth, decay_one, home_of, each, decays, sub64, decay_found,
}
use mini_world.Ledger.{
  World, debit, credit, balance, purse, treasury, crowns, Conserves, wealth_of, Account,
}
use mini_world.Model.Agents.{Agent}
use mini_world.Base.{
  ℕ, zero, suc, ◌+◌, ◌≤◌, ◌<◌, ◌^◌, ◌≡◌, sym, ap, subst, inl, inr, true, Option, none, some, List,
  [], ◌∷◌, arith, Option-cases, length, get_elem?, modify, All, All-map, if_both, ◌-◌, ◌≢◌,
}
use mini_world.Ledger.Loops.{each, AreAgents, AreAgents-mono}
use mini_world.Base.Float.{Float}

-- Of a wealth above 20 the rate, which is positive there, takes at most what is above 20.
abbrev pub RateFits : (F : Type 0) → (d : Float F) → Type 0
RateFits F d =
    (wealth : ℕ)
    → 20 < wealth
    → wealth < 2 ^ 64
    → d.trunc (d.mul (d.of_ℕ (wealth - 20)) (decay_rate {F = F} ⦃d = d⦄ wealth)) ≤ wealth - 20

pub decay_of-le :
    {F : Type 0} (d : Float F)
    → RateFits F d
    → (wealth : ℕ) → 20 < wealth
    → wealth < 2 ^ 64
    → decay_of {F = F} ⦃d = d⦄ (decay_rate {F = F} ⦃d = d⦄ wealth) wealth ≤ wealth
unfolding decay_of
decay_of-le d fits wealth h small =
    let low = fits wealth h small in
    let exact : sub64 wealth 20 ≡ wealth - 20 = sub64_exact wealth 20 (omega arith) small in
    rw exact (ground arith)

module _ {F : Type 0} where
  -- The home of an agent, where there is an agent, is one of `n` settlements.
  abbrev pub HasHome : (ℕ → Option ℕ) → ℕ → Option (Agent F) → Type 0
  HasHome sett_index n none = Unit
  HasHome sett_index n (some a) = (at : ℕ) × (home_of sett_index a ≡ some at) × (at < n)

  abbrev pub AreHomed : (ℕ → Option ℕ) → World F → List ℕ → Type 0
  AreHomed sett_index w =
      All (λ p. HasHome sett_index (length w.settlements) (get_elem? w.agents p))

  HasHome-modify :
      (sett_index : ℕ → Option ℕ) (n : ℕ) (p q v : ℕ) (xs : List (Agent F))
      → HasHome sett_index n (get_elem? xs q)
      → HasHome sett_index n (get_elem? (modify p (λ a. record a { wealth = v }) xs) q)
  HasHome-modify sett_index n p q v [] h = h
  HasHome-modify sett_index n zero zero v (x ∷ xs) h = h
  HasHome-modify sett_index n zero (suc q) v (x ∷ xs) h = h
  HasHome-modify sett_index n (suc p) zero v (x ∷ xs) h = h
  HasHome-modify sett_index n (suc p) (suc q) v (x ∷ xs) h = HasHome-modify sett_index n p q v xs h

  AreHomed-debit :
      (sett_index : ℕ → Option ℕ) (p c : ℕ) (w : World F) (ps : List ℕ)
      → AreHomed sett_index w ps
      → AreHomed sett_index (debit (purse p) c w) ps
  unfolding debit balance
  AreHomed-debit sett_index p c w ps h =
      let n = length w.settlements in
      let v = sub64 (wealth_of (get_elem? w.agents p)) c in
      let after = modify p (λ (a : Agent F). record a { wealth = v }) w.agents in
      All-map {P = λ q. HasHome sett_index n (get_elem? w.agents q)}
        {Q = λ q. HasHome sett_index n (get_elem? after q)}
        (λ q k. HasHome-modify sett_index n p q v w.agents k) ps h

  AreHomed-credit :
      (sett_index : ℕ → Option ℕ) (at c : ℕ) (w : World F) (ps : List ℕ)
      → AreHomed sett_index w ps
      → AreHomed sett_index (credit (treasury at) c w) ps
  unfolding credit
  AreHomed-credit sett_index at c w ps h =
      let same = credit-SameShape (treasury at) c w in
      let n : length (credit (treasury at) c w).settlements ≡ length w.settlements =
        same.same_settlements in
      All-map {P = λ q. HasHome sett_index (length w.settlements) (get_elem? w.agents q)}
        {Q = λ q.
          HasHome sett_index (length (credit (treasury at) c w).settlements) (get_elem? w.agents q)}
        (λ q k. subst (λ m. HasHome sett_index m (get_elem? w.agents q)) (sym n) k) ps h

  -- What a decay of `c` crowns does to the purse of an agent without a home: the purse and the
  -- crowns of the world are `c` lower, and no other account changes.
  abbrev pub IsLost : ℕ → ℕ → World F → World F → Type 0
  IsLost p c w w' =
      (balance (purse p) w' + c ≡ balance (purse p) w)
      × ((acc : Account) → acc ≢ purse p → balance acc w' ≡ balance acc w)
      × (crowns w' + c ≡ crowns w)

module _ {F : Type 0} ⦃d : Float F⦄ where
  decay_found-Conserves :
      RateFits F d
      → (sett_index : ℕ → Option ℕ) (p : ℕ) (w : World F) (ps : List ℕ) → p < length w.agents
      → crowns w < 2 ^ 64
      → HasHome sett_index (length w.settlements) (get_elem? w.agents p)
      → AreHomed sett_index w ps
      → (Conserves w (decay_found sett_index p (get_elem? w.agents p) w))
        × AreHomed sett_index (decay_found sett_index p (get_elem? w.agents p) w) ps
  unfolding balance
  decay_found-Conserves fits sett_index p w ps hp small home homed =
      let P = λ (u : World F). Conserves w u × AreHomed sett_index u ps in
      elim (Option-cases (get_elem? w.agents p)) [
        | inl gone ↦ rw gone (Conserves-refl w, homed)
        | inr (a, e) ↦
            let (at, is_home, there) = subst (HasHome sett_index (length w.settlements)) e home in
            let decay = decay_of {F = F} (decay_rate a.wealth) a.wealth in
            let low = balance-le-crowns (purse p) w hp in
            let held : balance (purse p) w ≡ a.wealth = ap wealth_of e in
            rw (e, is_home)
              (if_both P (decays a)
                (λ taxed. (
                  payment-Conserves (purse p) (treasury at) decay w hp there
                      (omega
                        (arith, held, decay_of-le d fits a.wealth (ground arith) (omega arith)))
                      small,
                  AreHomed-credit sett_index at decay (debit (purse p) decay w) ps
                      (AreHomed-debit sett_index p decay w ps homed),
                ))
                (λ _. (Conserves-refl w, homed)))
      ]

  -- Where all pointers are valid, every agent's home is a settlement of the world, of every
  -- wealth above 20 the rate takes at most what is above 20, and the crowns of the world are
  -- fewer than 2^64, the daily decay of wealth makes and destroys no crown.
  pub decay_wealth-Conserves :
      RateFits F d
      → (sett_index : ℕ → Option ℕ) (ps : List ℕ) (w : World F) → AreAgents w ps
      → AreHomed sett_index w ps
      → crowns w < 2 ^ 64
      → Conserves w (decay_wealth sett_index ps w)
  unfolding decay_wealth decay_one each
  decay_wealth-Conserves fits sett_index [] w h homed small = Conserves-refl w
  decay_wealth-Conserves fits sett_index (p ∷ ps) w (hp, hps) (home, homed) small =
      let next = decay_found sett_index p (get_elem? w.agents p) w in
      let (first, homed') = decay_found-Conserves fits sett_index p w ps hp small home homed in
      Conserves-trans first (
        decay_wealth-Conserves fits sett_index ps next
          (AreAgents-mono w next ps first.same_shape hps) homed' (omega (arith, first.same_crowns)))

  -- Where of every wealth above 20 the rate takes at most what is above 20, and the crowns of the
  -- world are fewer than 2^64, a living agent with a wealth above 20 and no home that the index
  -- knows loses the decay from its purse, no other account changes, and so the world loses these
  -- crowns.
  pub decay_one-loses :
      RateFits F d
      → (sett_index : ℕ → Option ℕ) (p : ℕ) (w : World F) (a : Agent F)
      → get_elem? w.agents p ≡ some a
      → decays a ≡ true
      → home_of sett_index a ≡ none
      → p < length w.agents
      → crowns w < 2 ^ 64
      → IsLost p (decay_of {F = F} (decay_rate a.wealth) a.wealth) w (decay_one sett_index p w)
  unfolding decay_one
  decay_one-loses fits sett_index p w a e taxed homeless hp small =
      let decay = decay_of {F = F} (decay_rate a.wealth) a.wealth in
      let low = balance-le-crowns (purse p) w hp in
      let held : balance (purse p) w ≡ a.wealth = purse-some p w e in
      let covered = decay_of-le d fits a.wealth (ground arith) (omega arith) in
      rw (e, taxed, homeless)
        (
          balance-debit (purse p) decay w hp (omega arith) small,
          λ acc ne. balance-debit_ne (purse p) acc decay w ne,
          crowns-debit (purse p) decay w hp (omega arith) small,
        )

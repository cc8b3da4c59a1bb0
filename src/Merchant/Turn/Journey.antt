-- ===== src/Merchant/Turn/Journey.antt =====
-- What a merchant does at home makes no crown: the search, the purchase and the provisions.
use mini_world.Clock.{ticks_per_sim_hour, ticks_per_sim_day}
use mini_world.Base.Int.{◌-ℤ◌}
use mini_world.Memories.Bound.{wealth-add_memory}
use mini_world.Ledger.Moves.{
  Conserves-refl, update_agent-Conserves, Conserves-trans, Holds-mono, payment-Conserves,
}
use mini_world.Merchant.Turn.Crowns.{NoMint, of_Conserves, NoMint-trans, buy_units-NoMint}
use mini_world.Base.Maps.{Meets}
use mini_world.Model.Settlements.{MarketEntry, Entries}
use mini_world.Merchant.Seek.{Outlook, entries_of, Chance, pays_off, best_chance, travel_cost}
use Prim.Native.String.{String}
use mini_world.Merchant.Turn.{
  embark, remember_dry_spell, seek, Settlement, Agent, words, is_tier2, embark_for, unit_price,
  grain, entry_of, price_of, fish, forget_preference, place_of, pos, pos_part, food_held,
}
use mini_world.Merchant.Purchase.{
  provision, or_else, buy_meal_of, buy_units, buy_meal, load, set_out,
}
use mini_world.Ledger.{
  World, Holds, update_agent, crowns, treasury, Conserves, credit, debit, purse, balance,
}
use mini_world.Model.Goods.{GoodType, add_good}
use mini_world.Base.{
  ℕ, zero, suc, ◌+◌, ◌<◌, ◌^◌, ◌≡◌, refl, subst, inl, inr, ◌&&◌, Option, none, some, List, [], ◌∷◌,
  arith, ltb, leb, ◌==◌, tests, Option-cases, length, get_elem?, if_both, ◌%◌, ◌/◌,
}
use mini_world.Base.Float.{Float, nought, lit32}

module _ {F : Type 0} ⦃d : Float F⦄ where
  buy_meal_of-Conserves :
      (p at : ℕ) (good : GoodType) (found : Option (MarketEntry F)) (w : World F)
      → p < length w.agents
      → Holds w (treasury at)
      → crowns w < 2 ^ 64
      → Meets (Conserves w) (buy_meal_of p at good found w)
  buy_meal_of-Conserves p at good none w hp ht fits = tt
  buy_meal_of-Conserves p at good (some e) w hp ht fits =
      let cost = unit_price e.price in
      let paid = credit (treasury at) cost (debit (purse p) cost w) in
      let eat = λ (a : Agent F). record a { inventory = add_good good (pos 1) a.inventory } in
      if_both (Meets (Conserves w)) (leb cost (balance (purse p) w))
        (λ covered.
          Conserves-trans
            (payment-Conserves (purse p) (treasury at) cost w hp ht (omega (tests, covered)) fits)
            (update_agent-Conserves p eat paid (λ a. refl)))
        (λ _. tt)

  or_else-Meets :
      (P : World F → Type 0) (x y : Option (World F))
      → Meets P x
      → Meets P y
      → Meets P (or_else x y)
  or_else-Meets P none y hx hy = hy
  or_else-Meets P (some x) y hx hy = hx

  provision-Conserves :
      (p at : ℕ) (es : Entries F) (n : ℕ) (w : World F)
      → p < length w.agents
      → Holds w (treasury at)
      → crowns w < 2 ^ 64
      → Conserves w (provision p at es n w)
  unfolding provision
  provision-Conserves p at es zero w hp ht fits = Conserves-refl w
  provision-Conserves p at es (suc n) w hp ht fits =
      let meal =
        or_else-Meets (Conserves w) (buy_meal_of p at grain (entry_of grain es) w)
          (buy_meal_of p at fish (entry_of fish es) w)
          (buy_meal_of-Conserves p at grain (entry_of grain es) w hp ht fits)
          (buy_meal_of-Conserves p at fish (entry_of fish es) w hp ht fits) in
      elim (Option-cases (buy_meal p at es w)) [
        | inl gone ↦ rw (gone, provision) (Conserves-refl w)
        | inr (w', e) ↦
            let first : Conserves w w' = subst (Meets (Conserves w)) e meal in
            rw (e, provision)
              (Conserves-trans first (
                provision-Conserves p at es n w' (Holds-mono w w' (purse p) first.same_shape hp)
                  (Holds-mono w w' (treasury at) first.same_shape ht)
                  (omega (arith, first.same_crowns))))
      ]

  embark-NoMint :
      (o : Outlook F) (p home : ℕ) (s n : Settlement F) (good : GoodType) (w : World F)
      → p < length w.agents
      → Holds w (treasury home)
      → crowns w < 2 ^ 64
      → NoMint w (embark o p home s n good w)
  unfolding embark
  embark-NoMint o p home s n good w hp ht fits =
      let es = entries_of s.market in
      let price = unit_price (price_of (entry_of good es)) in
      let b = buy_units p home price 5 (w, 0) in
      let loaded = update_agent p (load good b.1 n.id) b.0 in
      let cost = travel_cost o s n in
      let meals =
        pos_part (pos (cost / ticks_per_sim_hour + 2) -ℤ food_held (get_elem? loaded.agents p)) in
      let first = buy_units-NoMint p home price 5 w 0 hp ht fits in
      let second =
        NoMint-trans first
          (of_Conserves (update_agent-Conserves p (load good b.1 n.id) b.0 (λ a. refl))) in
      let fed = provision p home es meals loaded in
      if_both (NoMint w) (b.1 == 0) (λ _. first)
        (λ _. NoMint-trans second (
          NoMint-trans
            (of_Conserves (
              provision-Conserves p home es meals loaded
                (Holds-mono w loaded (purse p) second.same_shape hp)
                (Holds-mono w loaded (treasury home) second.same_shape ht)
                (omega (arith, second.no_more))))
            (of_Conserves (update_agent-Conserves p (set_out cost) fed (λ a. refl)))))

  wealth-remember_dry_spell :
      (tick : ℕ) (name : String) (a : Agent F) → (remember_dry_spell tick name a).wealth ≡ a.wealth
  unfolding remember_dry_spell
  wealth-remember_dry_spell tick name a =
      let content = words "No profitable trade routes from " ∷ words name ∷ words " today." ∷ [] in
      if_both (λ (b : Agent F). b.wealth ≡ a.wealth)
        (is_tier2 a.tier && ltb (tick % ticks_per_sim_day) ticks_per_sim_hour)
        (λ _. wealth-add_memory tick content (lit32 3 1) a) (λ _. refl)

  dry_spell-NoMint :
      (tick p : ℕ) (name : String) (w : World F)
      → NoMint w (update_agent p (remember_dry_spell tick name) w)
  dry_spell-NoMint tick p name w = of_Conserves (
      update_agent-Conserves p (remember_dry_spell tick name) w
        (wealth-remember_dry_spell tick name))

  embark_for-NoMint :
      (o : Outlook F) (tick p home : ℕ) (s : Settlement F) (good : GoodType)
      (found : Option (Settlement F)) (w : World F)
      → p < length w.agents
      → Holds w (treasury home)
      → crowns w < 2 ^ 64
      → NoMint w (embark_for o tick p home s good found w)
  embark_for-NoMint o tick p home s good none w hp ht fits = dry_spell-NoMint tick p s.name w
  embark_for-NoMint o tick p home s good (some n) w hp ht fits =
      if_both (NoMint w) (pays_off o s n good) (λ _. embark-NoMint o p home s n good w hp ht fits)
        (λ _. dry_spell-NoMint tick p s.name w)

  pub seek-NoMint :
      (o : Outlook F) (tick p home : ℕ) (neighbors : List ℕ) (s : Settlement F) (a : Agent F)
      (w : World F)
      → p < length w.agents
      → Holds w (treasury home)
      → crowns w < 2 ^ 64
      → NoMint w (seek o tick p home neighbors s a w)
  unfolding seek
  seek-NoMint o tick p home neighbors s a w hp ht fits =
      let none_yet : Chance F = record { profit = nought; good = grain; dest = none } in
      let best = best_chance o a s w neighbors none_yet in
      let first = update_agent-Conserves p forget_preference w (λ a. refl) in
      let next = update_agent p forget_preference w in
      NoMint-trans (of_Conserves first) (
        embark_for-NoMint o tick p home s best.good (place_of best.dest w) next
          (Holds-mono w next (purse p) first.same_shape hp)
          (Holds-mono w next (treasury home) first.same_shape ht)
          (omega (arith, first.same_crowns)))

-- ===== src/Interventions.antt =====
-- internal/engine/intervention.go: what an operator or the gardener does to a settlement. An event keeps
-- its text and category; its Meta map repeats the arguments and is left out.
pub mod Boosts
pub mod Provision
pub mod Consolidate
pub mod Api
use mini_world.Base.Word.{add64}
use text.Mathlib.Text.{◌==◌ as str_eq}
use mini_world.Model.Settlements.{Settlement, MarketEntry, Entries, Market, entry_of}
use mini_world.Model.Goods.{
  GoodType, same_good, grain, fish, timber, iron_ore, stone, coal, herbs, furs, gems, exotics,
  tools, weapons, clothing, medicine, luxuries,
}
use mini_world.Base.Float.{Float, one}
use Prim.Native.String.{String}
use mini_world.Base.Int.{ℤ, pos, negsuc}
use mini_world.Ledger.{World, update_settlement}
use mini_world.Simulation.{Sim, Event, Boost, Fragment, say, int, tenths, emit}
use mini_world.Clock.{ticks_per_sim_day}
use mini_world.Base.{
  ℕ, zero, suc, ◌+◌, ◌-◌, ◌*◌, ◌≤◌, ◌<◌, ◌^◌, ◌≡◌, refl, sym, ap, subst, ◌∙◌, ◌≢◌, ◌⊎◌, inl, inr,
  Bool, true, false, not, ◌&&◌, ◌||◌, Option, none, some, List, [], ◌∷◌, ◌++◌, arith, ltb, leb,
  ◌==◌, if◌then◌else◌, tests, Bool-cases, Option-cases, length, get_elem?, modify, All, Any, total,
  ◌%◌, set, take,
}

-- The errors, in place of their texts.
pub data SimError : Type 0 where
  no_settlement no_market no_target nobody_to_move : String → SimError
  unknown_good : String → SimError
  not_in_market : String → String → SimError

pub data Outcome (F : Type 0) : Type 0 where
  done : List (Fragment F) → Outcome F
  failed : SimError → Outcome F

-- `GoodTypeFromString`
unfoldable pub good_type_from_string : String → Option GoodType
good_type_from_string name =
    if str_eq name "grain"
    then some grain
    else if str_eq name "fish"
    then some fish
    else if str_eq name "timber"
    then some timber
    else if str_eq name "iron_ore"
    then some iron_ore
    else if str_eq name "stone"
    then some stone
    else if str_eq name "coal"
    then some coal
    else if str_eq name "herbs"
    then some herbs
    else if str_eq name "furs"
    then some furs
    else if str_eq name "gems"
    then some gems
    else if str_eq name "exotics"
    then some exotics
    else if str_eq name "tools"
    then some tools
    else if str_eq name "weapons"
    then some weapons
    else if str_eq name "clothing"
    then some clothing
    else if str_eq name "medicine"
    then some medicine
    else if str_eq name "luxuries"
    then some luxuries
    else none

-- uint64(n) of an int
abbrev pub uint64_of : ℤ → ℕ
uint64_of (pos n) = n % 2 ^ 64
uint64_of (negsuc n) = (2 ^ 64 - (n + 1) % 2 ^ 64) % 2 ^ 64

module _ {F : Type 0} where
  -- `findSettlementByName`: the place of the first settlement with the name, from `i` on.
  unfoldable pub find_settlement_by_name :
      String → ℕ → List (Settlement F) → Option (ℕ × Settlement F)
  find_settlement_by_name name i [] = none
  find_settlement_by_name name i (s ∷ ss) =
      if str_eq s.name name then some (i, s) else find_settlement_by_name name (suc i) ss

  -- The loop of `CleanExpiredBoosts`, which writes what is kept to the front of the slice that it
  -- reads: round `i`, with `n` kept so far.
  unfoldable pub clean_loop : ℕ → ℕ → ℕ → ℕ → List (Boost F) → List (Boost F) × ℕ
  clean_loop tick zero i n bs = (bs, n)
  clean_loop tick (suc k) i n bs = elim (get_elem? bs i) [
    | none ↦ (bs, n)
    | some b ↦ elim (ltb tick b.expires_at) [
      | true ↦ clean_loop tick k (suc i) (suc n) (set bs n b)
      | false ↦ clean_loop tick k (suc i) n bs
    ]
  ]

  -- `CleanExpiredBoosts`
  unfoldable pub clean_expired_boosts : ℕ → Sim F → Sim F
  unfolding clean_loop
  clean_expired_boosts tick s =
      let (bs, n) = clean_loop tick (length s.active_boosts) 0 0 s.active_boosts in
      record s { active_boosts = take n bs }

module _ {F : Type 0} ⦃d : Float F⦄ where
  -- float64(quantity)
  abbrev pub of_ℤ : ℤ → F
  of_ℤ (pos n) = d.of_ℕ n
  of_ℤ (negsuc n) = d.neg (d.of_ℕ (n + 1))

  abbrev pub stock_up : F → MarketEntry F → MarketEntry F
  stock_up q e = record e { supply = d.add e.supply q }

  -- The write through `entry`, the entry of the good.
  unfoldable pub raise_supply : GoodType → F → Entries F → Entries F
  raise_supply g q [] = []
  raise_supply g q ((k, e) ∷ es) =
      if same_good k g then (k, stock_up q e) ∷ es else (k, e) ∷ raise_supply g q es

  abbrev pub supply_market : GoodType → F → Settlement F → Settlement F
  supply_market g q s = elim s.market [
    | none ↦ s
    | some mk ↦ record s { market = some (record mk { entries = raise_supply g q mk.entries }) }
  ]

  abbrev pub caravan : String → String → ℤ → List (Fragment F)
  caravan name good n =
      say "A merchant caravan arrives in "
      ∷ say name
      ∷ say " bearing "
      ∷ int n
      ∷ say " units of "
      ∷ say good
      ∷ []

  abbrev pub note : List (Fragment F) → Sim F → Sim F
  note text s = emit (record { tick = s.last_tick; description = text; category = "gardener" }) s

  abbrev pub provision_entry :
      String → String → ℤ → ℕ → GoodType → Option (MarketEntry F) → Sim F → Sim F × Outcome F
  provision_entry name good n at g none s = (s, failed (not_in_market good name))
  provision_entry name good n at g (some e) s =
      let text = caravan name good n in
      (
        note text (record s { world = update_settlement at (supply_market g (of_ℤ n)) s.world }),
        done text,
      )

  abbrev pub provision_good :
      String → String → ℤ → ℕ → Entries F → Option GoodType → Sim F → Sim F × Outcome F
  provision_good name good n at es none s = (s, failed (unknown_good good))
  provision_good name good n at es (some g) s = provision_entry name good n at g (entry_of g es) s

  abbrev pub provision_market :
      String → String → ℤ → ℕ → Option (Market F) → Sim F → Sim F × Outcome F
  provision_market name good n at none s = (s, failed (no_market name))
  provision_market name good n at (some mk) s =
      provision_good name good n at mk.entries (good_type_from_string good) s

  abbrev pub provision_at :
      String → String → ℤ → Option (ℕ × Settlement F) → Sim F → Sim F × Outcome F
  provision_at name good n none s = (s, failed (no_settlement name))
  provision_at name good n (some (at, sett)) s = provision_market name good n at sett.market s

  -- `ProvisionSettlement`
  unfoldable pub provision_settlement : String → String → ℤ → Sim F → Sim F × Outcome F
  provision_settlement name good n s =
      provision_at name good n (find_settlement_by_name name 0 s.world.settlements) s

  abbrev pub bounty : String → F → ℤ → List (Fragment F)
  bounty name m days =
      say "A bountiful season blesses the workers of "
      ∷ say name
      ∷ say " ("
      ∷ tenths m
      ∷ say "x production for "
      ∷ int days
      ∷ say " days)"
      ∷ []

  abbrev pub cultivate_at : String → F → ℤ → Option (ℕ × Settlement F) → Sim F → Sim F × Outcome F
  cultivate_at name m days none s = (s, failed (no_settlement name))
  cultivate_at name m days (some (at, sett)) s =
      let boost : Boost F = record {
        settlement_id = sett.id;
        multiplier = m;
        expires_at = add64 s.last_tick (uint64_of days * ticks_per_sim_day % 2 ^ 64);
      } in
      let text = bounty name m days in
      (note text (record s { active_boosts = s.active_boosts ++ boost ∷ [] }), done text)

  -- `CultivateSettlement`
  unfoldable pub cultivate_settlement : String → F → ℤ → Sim F → Sim F × Outcome F
  cultivate_settlement name m days s =
      cultivate_at name m days (find_settlement_by_name name 0 s.world.settlements) s

  -- The loop of `GetSettlementBoost`.
  unfoldable pub best_boost : ℕ → List (Boost F) → F → F
  best_boost id [] best = best
  best_boost id (b ∷ bs) best =
      best_boost id bs
        (if (b.settlement_id == id) && d.lt best b.multiplier then b.multiplier else best)

  unfoldable pub get_settlement_boost : ℕ → Sim F → F
  unfolding best_boost
  get_settlement_boost id s = best_boost id s.active_boosts one

-- ===== src/Treasury/Decay.antt =====
-- `decayWealth` of internal/engine/market.go: a daily decay of wealth into the home treasury.
pub mod Crowns
use mini_world.Ledger.Loops.{each}
use mini_world.Ledger.{World, credit, debit, treasury, purse}
use mini_world.Model.Agents.{Agent}
use mini_world.Base.Word.{sub64}
use mini_world.Base.{
  ℕ, zero, suc, ◌+◌, ◌-◌, ◌*◌, ◌≤◌, ◌<◌, ◌^◌, ◌≡◌, refl, sym, ap, subst, ◌∙◌, ◌≢◌, ◌⊎◌, inl, inr,
  Bool, true, false, not, ◌&&◌, ◌||◌, Option, none, some, List, [], ◌∷◌, ◌++◌, arith, ltb, leb,
  ◌==◌, if◌then◌else◌, tests, Bool-cases, Option-cases, length, get_elem?, modify, All, Any, total,
}
use mini_world.Base.Float.{Float, agnosis, one}

module _ {F : Type 0} where
  -- Where the settlement with this ID stands, if `HomeSettID` is set and the index has it.
  abbrev pub home_of : (ℕ → Option ℕ) → Agent F → Option ℕ
  home_of sett_index a = elim a.home_sett_id [ none ↦ none | some id ↦ sett_index id ]

module _ {F : Type 0} ⦃d : Float F⦄ where
  -- `baseRate * (1.0 + phi.Agnosis*math.Log2(float64(a.Wealth)/20.0))`
  unfoldable pub decay_rate : ℕ → F
  decay_rate wealth =
      d.mul (d.mul agnosis (d.lit 1 2))
        (d.add one (d.mul agnosis (d.log2 (d.div (d.of_ℕ wealth) (d.lit 20 0)))))

  unfoldable pub decay_of : F → ℕ → ℕ
  decay_of rate wealth =
      let decay = d.trunc (d.mul (d.of_ℕ (sub64 wealth 20)) rate) in
      if ltb decay 1 then 1 else decay

  abbrev pub give_home : Option ℕ → ℕ → World F → World F
  give_home none decay w = w
  give_home (some at) decay w = credit (treasury at) decay w

  abbrev pub decays : Agent F → Bool
  decays a = a.alive && ltb 20 a.wealth

  abbrev pub decay_found : (ℕ → Option ℕ) → ℕ → Option (Agent F) → World F → World F
  decay_found sett_index p none w = w
  decay_found sett_index p (some a) w =
      let decay = decay_of (decay_rate a.wealth) a.wealth in
      let moved = give_home (home_of sett_index a) decay (debit (purse p) decay w) in
      if decays a then moved else w

  -- One agent of the loop.
  unfoldable pub decay_one : (ℕ → Option ℕ) → ℕ → World F → World F
  decay_one sett_index p w = decay_found sett_index p (get_elem? w.agents p) w

  -- `decayWealth`, over the agents at the given places.
  unfoldable pub decay_wealth : (ℕ → Option ℕ) → List ℕ → World F → World F
  decay_wealth sett_index = each (decay_one sett_index)

-- ===== src/Interventions/Provision.antt =====
-- ProvisionSettlement of internal/engine/intervention.go: which entry it raises, and what a failure leaves.
use mini_world.Base.Int.{ℤ}
use mini_world.Simulation.{emit, Sim}
use mini_world.Ledger.{World}
use text.Mathlib.Text.{◌==◌ as str_eq}
use mini_world.Base.Float.{Float}
use Prim.Native.String.{String}
use mini_world.Merchant.Sale.{good_name}
use mini_world.Interventions.{
  provision_settlement, find_settlement_by_name, good_type_from_string, raise_supply, supply_market,
  stock_up, of_ℤ,
}
use mini_world.Model.Goods.{
  GoodType, same_good, grain, timber, iron_ore, stone, fish, herbs, gems, furs, coal, exotics,
  tools, weapons, clothing, medicine, luxuries, index,
}
use mini_world.Model.Settlements.{Settlement, MarketEntry, Entries, entry_of, Market}
use mini_world.Base.{
  ℕ, suc, ◌+◌, ◌≡◌, refl, subst, ◌≢◌, inl, inr, false, ◌&&◌, Option, none, some, List, [], ◌∷◌,
  arith, ◌==◌, if◌then◌else◌, Bool-cases, get_elem?, get_elem?-modify_self, get_elem?-modify_ne,
}

-- The name that is printed of a good is read back, but for iron ore, which is read as iron_ore.
pub good_type_from_string-good_name :
    (g : GoodType) → g ≢ iron_ore → good_type_from_string (good_name g) ≡ some g
unfolding good_type_from_string good_name
good_type_from_string-good_name grain ne = refl
good_type_from_string-good_name timber ne = refl
good_type_from_string-good_name iron_ore ne = absurd (ne refl)
good_type_from_string-good_name stone ne = refl
good_type_from_string-good_name fish ne = refl
good_type_from_string-good_name herbs ne = refl
good_type_from_string-good_name gems ne = refl
good_type_from_string-good_name furs ne = refl
good_type_from_string-good_name coal ne = refl
good_type_from_string-good_name exotics ne = refl
good_type_from_string-good_name tools ne = refl
good_type_from_string-good_name weapons ne = refl
good_type_from_string-good_name clothing ne = refl
good_type_from_string-good_name medicine ne = refl
good_type_from_string-good_name luxuries ne = refl

module _ {F : Type 0} where
  pub find_settlement_by_name-get :
      (name : String) (i : ℕ) (ss : List (Settlement F)) {at : ℕ} {s : Settlement F}
      → find_settlement_by_name name i ss ≡ some (at, s)
      → (k : ℕ) × (at ≡ i + k) × (get_elem? ss k ≡ some s)
  unfolding find_settlement_by_name
  find_settlement_by_name-get name i [] h = cc
  find_settlement_by_name-get name i (x ∷ ss) {at} {s} h = elim (Bool-cases (str_eq x.name name)) [
    | inl same ↦
        let e =
          subst
            (λ b.
              (if b then some (i, x) else find_settlement_by_name name (suc i) ss) ≡ some (at, s))
            same h in
        (0, ground arith, ground arith)
    | inr other ↦
        let e =
          subst
            (λ b.
              (if b then some (i, x) else find_settlement_by_name name (suc i) ss) ≡ some (at, s))
            other h in
        let (k, off, found) = find_settlement_by_name-get name (suc i) ss e in
        (suc k, omega arith, found)
  ]

module _ {F : Type 0} ⦃d : Float F⦄ where
  abbrev pub entry_found : GoodType → Option (Settlement F) → Option (MarketEntry F)
  entry_found g none = none
  entry_found g (some s) = elim s.market [ none ↦ none | some mk ↦ entry_of g mk.entries ]

  -- The entry of a good in the market of the settlement at a place.
  abbrev pub entry_at : World F → ℕ → GoodType → Option (MarketEntry F)
  entry_at w i g = entry_found g (get_elem? w.settlements i)

  entry_of-raise_supply :
      (g h : GoodType) (q : F) (es : Entries F) {e : MarketEntry F}
      → entry_of g es ≡ some e
      → entry_of h (raise_supply g q es)
        ≡ (if same_good g h then some (stock_up q e) else entry_of h es)
  unfolding entry_of raise_supply
  entry_of-raise_supply g h q [] found = cc
  entry_of-raise_supply g h q ((k, x) ∷ es) {e} found = elim (Bool-cases (same_good k g)) [
    | inl same ↦
        let here = subst (λ b. (if b then some x else entry_of g es) ≡ some e) same found in
        let ix : index k ≡ index g = ground arith in
        let value : x ≡ e = cc in
        rw (same, ix, value) (elim (Bool-cases (same_good g h)) [ inl y ↦ rw y | inr n ↦ rw n ])
    | inr other ↦
        let later = subst (λ b. (if b then some x else entry_of g es) ≡ some e) other found in
        let ih = entry_of-raise_supply g h q es later in
        elim (Bool-cases (same_good k h)) [
          | inl y ↦ let apart : same_good g h ≡ false = ground arith in rw (other, y, apart)
          | inr n ↦ rw (other, n) ih
        ]
  ]

  entry_found-supply_market :
      (g h : GoodType) (q : F) (s : Settlement F) {mk : Market F} {e : MarketEntry F}
      → s.market ≡ some mk
      → entry_of g mk.entries ≡ some e
      → entry_found h (some (supply_market g q s))
        ≡ (if same_good g h then some (stock_up q e) else entry_found h (some s))
  entry_found-supply_market g h q s {mk} {e} trades found =
      rw trades (entry_of-raise_supply g h q mk.entries found)

  -- Where the settlement, its market, the good and its entry are found, provisioning adds the
  -- quantity to the supply of that entry, and leaves every other entry of every market as it is.
  pub provision_settlement-entry :
      (name good : String) (n : ℤ) (s : Sim F) (at : ℕ) (sett : Settlement F) (mk : Market F)
      (g : GoodType) (e : MarketEntry F)
      → find_settlement_by_name name 0 s.world.settlements ≡ some (at, sett)
      → sett.market ≡ some mk
      → good_type_from_string good ≡ some g
      → entry_of g mk.entries ≡ some e
      → (i : ℕ) (h : GoodType)
      → entry_at (provision_settlement name good n s).0.world i h
        ≡ (if (i == at) && same_good g h then some (stock_up (of_ℤ n) e) else entry_at s.world i h)
  unfolding provision_settlement emit
  provision_settlement-entry name good n s at sett mk g e found trades named listed i h =
      let (k, off, there) = find_settlement_by_name-get name 0 s.world.settlements found in
      let place : k ≡ at = omega arith in
      let got : get_elem? s.world.settlements at ≡ some sett =
        subst (λ j. get_elem? s.world.settlements j ≡ some sett) place there in
      rw (found, trades, named, listed)
        (elim (Bool-cases (i == at)) [
          | inl here ↦
              let same : i ≡ at = ground arith in
              rw
                (
                  here,
                  same,
                  got,
                  get_elem?-modify_self at (supply_market g (of_ℤ n)) s.world.settlements got,
                )
                (entry_found-supply_market g h (of_ℤ n) sett trades listed)
          | inr away ↦
              let ne : at ≢ i = ground arith in
              rw (away, get_elem?-modify_ne at i (supply_market g (of_ℤ n)) s.world.settlements ne)
        ])

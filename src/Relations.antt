-- ===== src/Relations.antt =====
-- Pairs of settlements: the canonical key of internal/engine/relations.go, RecordInterSettlementTrade,
-- and IsEmbargoed of internal/engine/peace.go.
pub mod Pairs
pub mod Peace
use mini_world.Base.Maps.{Key, put, get}
use mini_world.Base.{
  ℕ, zero, suc, ◌+◌, ◌-◌, ◌*◌, ◌≤◌, ◌<◌, ◌^◌, ◌≡◌, refl, sym, ap, subst, ◌∙◌, ◌≢◌, ◌⊎◌, inl, inr,
  Bool, true, false, not, ◌&&◌, ◌||◌, Option, none, some, List, [], ◌∷◌, ◌++◌, arith, ltb, leb,
  ◌==◌, if◌then◌else◌, tests, Bool-cases, Option-cases, length, get_elem?, modify, All, Any, total,
  ◌↔◌,
}
use mini_world.Base.Float.{Float, nought, one}

-- `SettRelKey`
pub record Pair : Type 0 where
  pub low : ℕ
  pub high : ℕ

abbrev pub same_pair : Pair → Pair → Bool
same_pair x y = (x.low == y.low) && (x.high == y.high)

unfoldable pub sett_rel_key : ℕ → ℕ → Pair
sett_rel_key a b = if ltb b a then record { low = b; high = a } else record { low = a; high = b }

pub same_pair_iff : (x y : Pair) → (same_pair x y ≡ true) ↔ (x ≡ y)
same_pair_iff x y = ground arith

instance abbrev pub Key-Pair : Key Pair
Key-Pair = record { same = same_pair; same_iff = same_pair_iff }

module _ {F : Type 0} ⦃d : Float F⦄ where
  abbrev pub count_of : Option F → F
  count_of none = nought
  count_of (some n) = n

  -- `RecordInterSettlementTrade`
  unfoldable pub record_trade : ℕ → ℕ → List (Pair × F) → List (Pair × F)
  record_trade source dest tracker =
      let key = sett_rel_key source dest in
      if source == dest then tracker else put key (d.add (count_of (get key tracker)) one) tracker

  abbrev pub is_hostile : Option F → Bool
  is_hostile none = false
  is_hostile (some sentiment) = d.lt sentiment (d.neg (d.lit 382 3))

  -- `IsEmbargoed`, on the sentiments of the relations.
  unfoldable pub is_embargoed : List (Pair × F) → ℕ → ℕ → Bool
  is_embargoed sentiments a b = is_hostile (get (sett_rel_key a b) sentiments)

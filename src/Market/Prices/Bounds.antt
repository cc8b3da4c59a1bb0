-- ===== src/Market/Prices/Bounds.antt =====
-- Every price that the market sets lies between the floor and the ceiling of its good.
use mini_world.Market.Prices.{
  clamp, resolve_price, blend_price, MarketEntry, price_ceiling, price_floor,
}
use mini_world.Base.{ℕ, ◌≡◌, false, arith}
use mini_world.Base.Float.{Float, IsOrdered}

module _ {F : Type 0} ⦃d : Float F⦄ (laws : IsOrdered F d) where
  -- Not below the one bound and not above the other, as Go's `<` and `>` see it.
  abbrev pub IsWithin : F → F → F → Type 0
  IsWithin low high p = (d.lt p low ≡ false) × (d.lt high p ≡ false)

  pub clamp-IsWithin :
      (low high p : F) → d.lt high low ≡ false → IsWithin low high (clamp low high p)
  unfolding clamp
  clamp-IsWithin low high p h = ground (arith, laws.lt_irrefl low, laws.lt_irrefl high)

  -- Where the order of floats is irreflexive and transitive and the floor of a good is not above
  -- its ceiling, the reference price lies between them, for whatever supply, demand and
  -- modifiers.
  pub resolve_price-IsWithin :
      (e : MarketEntry F) (seasonal regional : F)
      → d.lt (price_ceiling e) (price_floor e) ≡ false
      → IsWithin (price_floor e) (price_ceiling e) (resolve_price e seasonal regional)
  unfolding resolve_price
  resolve_price-IsWithin e seasonal regional h =
      clamp-IsWithin (price_floor e) (price_ceiling e) _ h

  -- Where the order of floats is irreflexive and transitive and the floor of a good is not above
  -- its ceiling, the price after trades lies between them.
  pub blend_price-IsWithin :
      (e : MarketEntry F) (traded : ℕ) (revenue : F)
      → d.lt (price_ceiling e) (price_floor e) ≡ false
      → let e' = blend_price e traded revenue in
        IsWithin (price_floor e') (price_ceiling e') e'.price
  unfolding blend_price
  blend_price-IsWithin e traded revenue h = clamp-IsWithin (price_floor e) (price_ceiling e) _ h

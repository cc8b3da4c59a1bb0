-- ===== src/Relations/Pairs.antt =====
-- The key of a pair does not depend on the order of the two.
use mini_world.Relations.{Key-Pair}
use mini_world.Base.Maps.{get-put, same_self}
use mini_world.Relations.{sett_rel_key, record_trade, Pair, get, count_of}
use mini_world.Base.{ℕ, ◌≡◌, ◌≢◌, ◌⊎◌, false, some, List, arith, ◌==◌, ◌↔◌}
use mini_world.Base.Float.{Float, one}

-- Two pairs of settlements have the same key just when they are the same pair, in the one order
-- or the other.
pub sett_rel_key_iff :
    (a b c e : ℕ)
    → (sett_rel_key a b ≡ sett_rel_key c e) ↔ ((a ≡ c) × (b ≡ e)) ⊎ ((a ≡ e) × (b ≡ c))
unfolding sett_rel_key
sett_rel_key_iff a b c e = ground arith

key_comm : (a b : ℕ) → sett_rel_key a b ≡ sett_rel_key b a
unfolding sett_rel_key
key_comm a b = ground arith

module _ {F : Type 0} ⦃d : Float F⦄ where
  -- A trade between two different settlements adds one to the count of the pair, and the count is
  -- found from either side.
  pub record_trade_count :
      (a b : ℕ) (tracker : List (Pair × F))
      → a ≢ b
      → get (sett_rel_key b a) (record_trade a b tracker)
        ≡ some (d.add (count_of (get (sett_rel_key a b) tracker)) one)
  unfolding record_trade
  record_trade_count a b tracker ne =
      let key = sett_rel_key a b in
      let apart : (a == b) ≡ false = ground arith in
      rw (
        key_comm b a,
        apart,
        get-put key key (d.add (count_of (get key tracker)) one) tracker,
        same_self key,
      )

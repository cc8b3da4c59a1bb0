-- ===== src/Examples/Fixed.antt =====
-- A coarse arithmetic in thousandths that instances the interface of Float: rounding down, negative
-- numbers coded above a million, and powers of the golden ratio from a table.
use mini_world.Merchant.Sale.Crowns.{FeeFits}
use mini_world.Treasury.Decay.Crowns.{RateFits}
use mini_world.Treasury.Decay.{decay_rate}
use mini_world.Base.{ℕ, ◌+◌, ◌-◌, ◌*◌, ◌^◌, arith, ltb, leb, ◌==◌, if◌then◌else◌, ◌/◌}
use mini_world.Base.Float.{Float, IsOrdered, agnosis}

abbrev pub fixed : Float ℕ
fixed = record {
  of_ℕ = λ n. n * 1000;
  lit = λ m k. m * 1000 / 10 ^ k;
  add = λ x y. x + y;
  sub = λ x y. x - y;
  mul = λ x y. x * y / 1000;
  div = λ x y. x * 1000 / y;
  neg = λ x. x + 1000000;
  lt = ltb;
  le = leb;
  trunc = λ x. x / 1000;
  round32 = λ x. x;
  log2 = λ x. 5000;
  log1p = λ x. 4000;
  pow = λ x y.
      if y == 1003000
      then 236
      else if y == 1002000
      then 382
      else if y == 1001000
      then 618
      else 4236;
}

pub fixed-IsOrdered : IsOrdered ℕ fixed
fixed-IsOrdered = record { lt_irrefl = λ x. ground arith; lt_trans = λ x y z h k. ground arith }

pub fixed-RateFits : RateFits ℕ fixed
unfolding decay_rate agnosis
fixed-RateFits wealth h small = omega arith

pub fixed-FeeFits : FeeFits ℕ fixed
unfolding agnosis
fixed-FeeFits n = omega arith

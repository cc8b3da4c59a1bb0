-- ===== src/Base/Float.antt =====
-- Go's float64, as far as the simulation uses it. The type and its operations are a parameter: the
-- hardware's arithmetic is not part of the repository. A float32 is kept as the float64 of the same
-- value, and `round32` is the conversion to float32; a float32 sum is `round32` of the float64 sum.
use Prim.Native.Nat.{ℕ}
use mathlib.Core.Path.{◌≡◌}
use mathlib.Core.Bool.{Bool, true, false}

pub record Float (F : Type 0) : Type 0 where
  -- float64(n) of a non-negative integer
  pub of_ℕ : ℕ → F
  -- the constant m / 10^k
  pub lit : ℕ → ℕ → F
  pub add : F → F → F
  pub sub : F → F → F
  pub mul : F → F → F
  pub div : F → F → F
  pub neg : F → F
  -- `x < y`; `x > y` is written with the arguments exchanged
  pub lt : F → F → Bool
  -- `x <= y`
  pub le : F → F → Bool
  -- uint64(x) and int(x) of a non-negative value, which cut off the fraction
  pub trunc : F → ℕ
  -- float32(x)
  pub round32 : F → F
  -- math.Log2, math.Log1p and math.Pow
  pub log2 : F → F
  pub log1p : F → F
  pub pow : F → F → F

-- IEEE comparison, NaN included: `<` is irreflexive and transitive.
pub record IsOrdered (F : Type 0) (d : Float F) : Type 0 where
  pub lt_irrefl : (x : F) → d.lt x x ≡ false
  pub lt_trans : (x y z : F) → d.lt x y ≡ true → d.lt y z ≡ true → d.lt x z ≡ true

module _ {F : Type 0} ⦃d : Float F⦄ where
  -- internal/phi/constants.go
  abbrev pub golden : F
  golden = d.lit 16180339887498948 16

  unfoldable pub agnosis : F
  agnosis = d.pow golden (d.neg (d.lit 3 0))

  unfoldable pub psyche : F
  psyche = d.pow golden (d.neg (d.lit 2 0))

  unfoldable pub matter : F
  matter = d.pow golden (d.neg (d.lit 1 0))

  unfoldable pub being : F
  being = golden

  -- phi.Nous
  unfoldable pub nous : F
  nous = d.pow golden (d.lit 2 0)

  unfoldable pub totality : F
  totality = d.pow golden (d.lit 3 0)

  abbrev pub nought : F
  nought = d.lit 0 0

  abbrev pub one : F
  one = d.lit 1 0

  -- The constant m / 10^k as a float32
  abbrev pub lit32 : ℕ → ℕ → F
  lit32 m k = d.round32 (d.lit m k)

  -- A sum of two float32 values.
  abbrev pub add32 : F → F → F
  add32 x y = d.round32 (d.add x y)

  -- uint64(x + 0.5)
  abbrev pub rounded : F → ℕ
  rounded x = d.trunc (d.add x (d.lit 5 1))

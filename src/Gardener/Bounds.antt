-- ===== src/Gardener/Bounds.antt =====
-- What enforceGuardrails of internal/gardener/decide.go keeps is within the bounds.
use mini_world.Gardener.Cap.{IsModest, max_adjust-IsCap}
use text.Mathlib.TextEquality.{eq_iff}
use text.Mathlib.Text.{◌==◌ as str_eq}
use Prim.Native.String.{String}
use mini_world.Base.Int.{ℤ, pos, ◌≤ℤ◌, ◌-ℤ◌, ltb_ℤ, int_laws}
use mini_world.Base.Float.{Float, one, nought}
use mini_world.Gardener.{
  panicked, Guarded, guard_kind, guard_one, clamp_ℤ, clamp_multiplier, max_adjust, treasury_in,
  kept, rejected, GuardError, needs_settlement, needs_good, ◌>>=◌,
}
use mini_world.Interventions.Api.{Intervention, Kind, kind_of}
use mini_world.Base.{
  ℕ, ◌≡◌, refl, sym, subst, ◌≢◌, inl, inr, Bool, true, false, Option, none, some, List, arith,
  if◌then◌else◌, Bool-cases, if_both,
}

-- The constants are in order, and what is at most 0 is less than 1; both are so in IEEE arithmetic.
pub record IsGraded (F : Type 0) (d : Float F) : Type 0 where
  pub two_not_less : d.lt (d.lit 2 0) (d.lit 2 0) ≡ false
  pub one_not_less : d.lt (d.lit 1 0) (d.lit 1 0) ≡ false
  pub two_not_one : d.lt (d.lit 2 0) (d.lit 1 0) ≡ false
  pub le_zero-lt_one : (x : F) → d.le x (d.lit 0 0) ≡ true → d.lt x (d.lit 1 0) ≡ true

-- What is kept has the property.
abbrev pub Keeps : {A : Type 0} → (A → Type 0) → Guarded A → Type 0
Keeps P (kept a) = P a
Keeps P (rejected e) = Unit
Keeps P panicked = Unit

module _ {F : Type 0} ⦃d : Float F⦄ where
  -- The bounds of each kind.
  abbrev pub IsBounded : List (String × ℕ) → Option Kind → Intervention F → Type 0
  IsBounded snap none iv = ⊥
  IsBounded snap (some Kind.event) iv = iv.description ≢ ""
  IsBounded snap (some Kind.wealth) iv =
      (iv.settlement ≢ "") × IsModest (treasury_in iv.settlement snap) iv.amount
  IsBounded snap (some Kind.spawn) iv =
      (iv.settlement ≢ "") × (pos 1 ≤ℤ iv.count) × (iv.count ≤ℤ pos 100)
  IsBounded snap (some Kind.provision) iv =
      (iv.settlement ≢ "") × (iv.good ≢ "") × (pos 1 ≤ℤ iv.quantity) × (iv.quantity ≤ℤ pos 200)
  IsBounded snap (some Kind.cultivate) iv =
      (iv.settlement ≢ "")
      × (d.lt iv.multiplier one ≡ false)
      × (d.lt (d.lit 2 0) iv.multiplier ≡ false)
      × (pos 1 ≤ℤ iv.duration_days)
      × (iv.duration_days ≤ℤ pos 14)
  IsBounded snap (some Kind.consolidate) iv =
      (iv.settlement ≢ "") × (pos 1 ≤ℤ iv.count) × (iv.count ≤ℤ pos 100)

  abbrev pub IsSafe : List (String × ℕ) → Option (Intervention F) → Type 0
  IsSafe snap none = ⊥
  IsSafe snap (some iv) = (iv.category ≡ "gardener") × IsBounded snap (kind_of iv.type_name) iv

clamp_bounds :
    (low high n : ℤ) → low ≤ℤ high → (low ≤ℤ clamp_ℤ low high n) × (clamp_ℤ low high n ≤ℤ high)
unfolding clamp_ℤ
clamp_bounds low high n h = ground arith

at_least_one : (m : ℤ) → pos 1 ≤ℤ (if ltb_ℤ m (pos 1) then pos 1 else m)
at_least_one m = ground arith

opposite : (m : ℕ) → pos 0 -ℤ pos m ≤ℤ pos m
opposite m = omega int_laws

pub keep_map :
    {A : Type 0} {P Q : A → Type 0} (r : Guarded A) → ((a : A) → P a → Q a) → Keeps P r → Keeps Q r
keep_map (kept a) f p = f a p
keep_map (rejected e) f p = tt
keep_map panicked f p = tt

both_keep :
    {A : Type 0} {P Q R : A → Type 0} (r : Guarded A)
    → ((a : A) → P a → Q a → R a)
    → Keeps P r
    → Keeps Q r
    → Keeps R r
both_keep (kept a) f p q = f a p q
both_keep (rejected e) f p q = tt
both_keep panicked f p q = tt

pub then_keep :
    {A B : Type 0} (P : A → Type 0) (Q : B → Type 0) (r : Guarded A) (f : A → Guarded B)
    → Keeps P r
    → ((a : A) → P a → Keeps Q (f a))
    → Keeps Q (r >>= f)
then_keep P Q (kept a) f p h = h a p
then_keep P Q (rejected e) f p h = tt
then_keep P Q panicked f p h = tt

-- Behind a test that rejects.
guarded_by :
    {A : Type 0} (P : A → Type 0) (b : Bool) (e : GuardError) (r : Guarded A)
    → (b ≡ false → Keeps P r)
    → Keeps P (if b then rejected e else r)
guarded_by P b e r h = if_both (Keeps P) b (λ _. tt) h

set_text : (s : String) → str_eq s "" ≡ false → s ≢ ""
set_text s h e = let t = (eq_iff s "").1 e in cc

module _ {F : Type 0} ⦃d : Float F⦄ where
  pub not_zero : IsGraded F d → (x : F) → d.lt x one ≡ false → d.le x nought ≡ false
  not_zero g x h = elim (Bool-cases (d.le x nought)) [
    | inl low ↦ let clash = g.le_zero-lt_one x low in cc
    | inr e ↦ e
  ]

  clamp_multiplier_bounds :
      IsGraded F d
      → (m : F)
      → (d.lt (clamp_multiplier m) one ≡ false) × (d.lt (d.lit 2 0) (clamp_multiplier m) ≡ false)
  unfolding clamp_multiplier
  clamp_multiplier_bounds g m = elim (Bool-cases (d.lt (d.lit 2 0) m)) [
    | inl over ↦ rw (over, g.two_not_one) (g.two_not_one, g.two_not_less)
    | inr within ↦ elim (Bool-cases (d.lt m one)) [
      | inl under ↦ rw (within, under) (g.one_not_less, g.two_not_one)
      | inr high ↦ rw (within, high) (high, within)
    ]
  ]

  guard_kind-IsBounded :
      IsGraded F d
      → (snap : List (String × ℕ)) (k : Option Kind) (iv : Intervention F)
      → Keeps (IsBounded snap k) (guard_kind snap k iv)
  guard_kind-IsBounded g snap none iv = tt
  guard_kind-IsBounded g snap (some Kind.event) iv = elim (Bool-cases (str_eq iv.description "")) [
    | inl gone ↦ rw gone (set_text "A strange wind blows across the land." refl)
    | inr given ↦ rw given (set_text iv.description given)
  ]
  guard_kind-IsBounded g snap (some Kind.wealth) iv =
      let most = max_adjust (treasury_in iv.settlement snap) in
      guarded_by (IsBounded snap (some Kind.wealth)) (str_eq iv.settlement "")
        (needs_settlement Kind.wealth)
        (kept (record iv { amount = clamp_ℤ (pos 0 -ℤ most) most iv.amount }))
        (λ given.
          let (n, is_n, cap) = max_adjust-IsCap (treasury_in iv.settlement snap) in
          let order = subst (λ m. pos 0 -ℤ m ≤ℤ m) (sym is_n) (opposite n) in
          let (low, high) = clamp_bounds (pos 0 -ℤ most) most iv.amount order in
          (
            set_text iv.settlement given,
            (
              n,
              cap,
              subst (λ m. pos 0 -ℤ m ≤ℤ clamp_ℤ (pos 0 -ℤ most) most iv.amount) is_n low,
              subst (λ m. clamp_ℤ (pos 0 -ℤ most) most iv.amount ≤ℤ m) is_n high,
            ),
          ))
  guard_kind-IsBounded g snap (some Kind.spawn) iv =
      guarded_by (IsBounded snap (some Kind.spawn)) (str_eq iv.settlement "")
        (needs_settlement Kind.spawn)
        (kept (record iv { count = clamp_ℤ (pos 1) (pos 100) iv.count }))
        (λ given.
          let (low, high) = clamp_bounds (pos 1) (pos 100) iv.count (omega arith) in
          (set_text iv.settlement given, low, high))
  guard_kind-IsBounded g snap (some Kind.provision) iv =
      let iv' = record iv { quantity = clamp_ℤ (pos 1) (pos 200) iv.quantity } in
      let P = IsBounded snap (some Kind.provision) in
      guarded_by P (str_eq iv.settlement "") (needs_settlement Kind.provision)
        (if str_eq iv.good "" then rejected needs_good else kept iv')
        (λ given. guarded_by P (str_eq iv.good "") needs_good (kept iv') (λ good_given.
          let (low, high) = clamp_bounds (pos 1) (pos 200) iv.quantity (omega arith) in
          (set_text iv.settlement given, set_text iv.good good_given, low, high)))
  guard_kind-IsBounded g snap (some Kind.cultivate) iv =
      guarded_by (IsBounded snap (some Kind.cultivate)) (str_eq iv.settlement "")
        (needs_settlement Kind.cultivate)
        (kept (record iv {
          multiplier = clamp_multiplier iv.multiplier;
          duration_days = clamp_ℤ (pos 1) (pos 14) iv.duration_days;
        }))
        (λ given.
          let (not_none, not_more) = clamp_multiplier_bounds g iv.multiplier in
          let (low, high) = clamp_bounds (pos 1) (pos 14) iv.duration_days (omega arith) in
          (set_text iv.settlement given, not_none, not_more, low, high))
  guard_kind-IsBounded g snap (some Kind.consolidate) iv =
      guarded_by (IsBounded snap (some Kind.consolidate)) (str_eq iv.settlement "")
        (needs_settlement Kind.consolidate)
        (kept (record iv { count = clamp_ℤ (pos 1) (pos 100) iv.count }))
        (λ given.
          let (low, high) = clamp_bounds (pos 1) (pos 100) iv.count (omega arith) in
          (set_text iv.settlement given, low, high))

  kind-guard_kind :
      (snap : List (String × ℕ)) (k : Option Kind) (iv : Intervention F)
      → Keeps
          (λ (iv' : Intervention F). (iv'.type_name ≡ iv.type_name) × (iv'.category ≡ iv.category))
          (guard_kind snap k iv)
  kind-guard_kind snap none iv = tt
  kind-guard_kind snap (some Kind.event) iv = elim (Bool-cases (str_eq iv.description "")) [
    | inl e ↦ rw e (refl, refl)
    | inr e ↦ rw e (refl, refl)
  ]
  kind-guard_kind snap (some Kind.wealth) iv = elim (Bool-cases (str_eq iv.settlement "")) [
    | inl e ↦ rw e tt
    | inr e ↦ rw e (refl, refl)
  ]
  kind-guard_kind snap (some Kind.spawn) iv = elim (Bool-cases (str_eq iv.settlement "")) [
    | inl e ↦ rw e tt
    | inr e ↦ rw e (refl, refl)
  ]
  kind-guard_kind snap (some Kind.provision) iv = elim (Bool-cases (str_eq iv.settlement "")) [
    | inl e ↦ rw e tt
    | inr e ↦ elim (Bool-cases (str_eq iv.good "")) [
      | inl e' ↦ rw (e, e') tt
      | inr e' ↦ rw (e, e') (refl, refl)
    ]
  ]
  kind-guard_kind snap (some Kind.cultivate) iv = elim (Bool-cases (str_eq iv.settlement "")) [
    | inl e ↦ rw e tt
    | inr e ↦ rw e (refl, refl)
  ]
  kind-guard_kind snap (some Kind.consolidate) iv = elim (Bool-cases (str_eq iv.settlement "")) [
    | inl e ↦ rw e tt
    | inr e ↦ rw e (refl, refl)
  ]

  pub guard_one-IsSafe :
      IsGraded F d
      → (snap : List (String × ℕ)) (iv : Option (Intervention F))
      → Keeps (λ iv'. IsSafe snap (some iv')) (guard_one snap iv)
  unfolding guard_one
  guard_one-IsSafe g snap none = tt
  guard_one-IsSafe g snap (some iv) =
      let k = kind_of iv.type_name in
      let named = record iv { category = "gardener" } in
      both_keep (guard_kind snap k named)
        (λ iv' (same : (iv'.type_name ≡ iv.type_name) × (iv'.category ≡ "gardener")) bounded.
          (same.1, subst (λ name. IsBounded snap (kind_of name) iv') (sym same.0) bounded))
        (kind-guard_kind snap k named) (guard_kind-IsBounded g snap k named)

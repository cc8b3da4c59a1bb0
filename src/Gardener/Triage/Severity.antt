-- ===== src/Gardener/Triage/Severity.antt =====
-- A worse world is no less of a crisis.
use mini_world.Base.Int.{ℤ, ltb_ℤ, pos}
use mini_world.Base.Float.{Float, IsOrdered, one, being, totality}
use mini_world.Gardener.{CrisisLevel, healthy, watch, warning, critical, max_interventions}
use mini_world.Gardener.Triage.{crisis_of}
use mini_world.Base.{
  ℕ, ◌≤◌, ◌≡◌, refl, sym, subst, ◌⊎◌, inl, inr, Bool, true, false, ◌&&◌, some, arith, if◌then◌else◌,
  if_both,
}

abbrev pub severity : CrisisLevel → ℕ
severity healthy = 0
severity watch = 1
severity warning = 2
severity critical = 3

severity-le : (level : CrisisLevel) → severity level ≤ 3
severity-le healthy = omega arith
severity-le watch = omega arith
severity-le warning = omega arith
severity-le critical = omega arith

-- A test for a level that is above what the rest gives.
raise_mono :
    (b b' : Bool) (top y y' : CrisisLevel)
    → severity y ≤ severity top
    → (b ≡ true → b' ≡ true)
    → severity y ≤ severity y'
    → severity (if b then top else y) ≤ severity (if b' then top else y')
raise_mono b true top y y' below up rest =
    if_both (λ x. severity x ≤ severity top) b (λ _. omega arith) (λ _. below)
raise_mono false false top y y' below up rest = rest
raise_mono true false top y y' below up rest = let clash = up refl in cc

allowed_mono :
    (x y : CrisisLevel)
    → severity x ≤ severity y
    → max_interventions (some x) ≤ max_interventions (some y)
unfolding max_interventions
allowed_mono healthy healthy h = omega arith
allowed_mono healthy watch h = omega arith
allowed_mono healthy warning h = omega arith
allowed_mono healthy critical h = omega arith
allowed_mono watch healthy h = absurd (omega arith)
allowed_mono watch watch h = omega arith
allowed_mono watch warning h = omega arith
allowed_mono watch critical h = omega arith
allowed_mono warning healthy h = absurd (omega arith)
allowed_mono warning watch h = absurd (omega arith)
allowed_mono warning warning h = omega arith
allowed_mono warning critical h = omega arith
allowed_mono critical healthy h = absurd (omega arith)
allowed_mono critical watch h = absurd (omega arith)
allowed_mono critical warning h = absurd (omega arith)
allowed_mono critical critical h = omega arith

both_up : (a b a' : Bool) → (a ≡ true → a' ≡ true) → (a && b) ≡ true → (a' && b) ≡ true
both_up true b a' up h = let e = up refl in rw e h
both_up false b a' up h = cc

module _ {F : Type 0} ⦃d : Float F⦄ where
  abbrev pub IsAtMost : F → F → Type 0
  IsAtMost x y = (x ≡ y) ⊎ (d.lt x y ≡ true)

  passes :
      IsOrdered F d → (bound x y : F) → IsAtMost x y → d.lt bound x ≡ true → d.lt bound y ≡ true
  passes o bound x y (inl e) h = subst (λ z. d.lt bound z ≡ true) e h
  passes o bound x y (inr up) h = o.lt_trans bound x y h up

  falls : IsOrdered F d → (bound x y : F) → IsAtMost y x → d.lt x bound ≡ true → d.lt y bound ≡ true
  falls o bound x y (inl e) h = subst (λ z. d.lt z bound ≡ true) (sym e) h
  falls o bound x y (inr up) h = o.lt_trans y x bound up h

  -- Where the order of floats is irreflexive and transitive, a world of the same population with
  -- a ratio of deaths to births and a share of tiny settlements that are no lower, and a trade
  -- per head that is no higher, is on no less severe a level, and the guardrails allow no fewer
  -- interventions for it.
  pub crisis_of_mono :
      IsOrdered F d
      → (ratio ratio' trade trade' tiny tiny' : F) (population : ℤ) → IsAtMost ratio ratio'
      → IsAtMost trade' trade
      → IsAtMost tiny tiny'
      → (severity (crisis_of ratio trade population tiny)
          ≤ severity (crisis_of ratio' trade' population tiny'))
        × (max_interventions (some (crisis_of ratio trade population tiny))
            ≤ max_interventions (some (crisis_of ratio' trade' population tiny')))
  unfolding crisis_of
  crisis_of_mono o ratio ratio' trade trade' tiny tiny' population more less tinier =
      let many = ltb_ℤ (pos 100) population in
      let low = if d.lt one ratio then watch else healthy in
      let low' = if d.lt one ratio' then watch else healthy in
      let mid = if d.lt being ratio then warning else low in
      let mid' = if d.lt being ratio' then warning else low' in
      let high = if d.lt (d.lit 4 1) tiny then critical else mid in
      let high' = if d.lt (d.lit 4 1) tiny' then critical else mid' in
      let below : severity low ≤ 2 =
        if_both (λ x. severity x ≤ 2) (d.lt one ratio) (λ _. omega arith) (λ _. omega arith) in
      let step1 : severity low ≤ severity low' =
        raise_mono (d.lt one ratio) (d.lt one ratio') watch healthy healthy (omega arith)
          (passes o one ratio ratio' more) (omega arith) in
      let step2 : severity mid ≤ severity mid' =
        raise_mono (d.lt being ratio) (d.lt being ratio') warning low low' below
          (passes o being ratio ratio' more) step1 in
      let step3 : severity high ≤ severity high' =
        raise_mono (d.lt (d.lit 4 1) tiny) (d.lt (d.lit 4 1) tiny') critical mid mid'
          (severity-le mid) (passes o (d.lit 4 1) tiny tiny' tinier) step2 in
      let poor = d.lt trade (d.lit 1 2) && many in
      let poor' = d.lt trade' (d.lit 1 2) && many in
      let step4 =
        raise_mono poor poor' critical high high' (severity-le high)
          (both_up (d.lt trade (d.lit 1 2)) many (d.lt trade' (d.lit 1 2))
            (falls o (d.lit 1 2) trade trade' less))
          step3 in
      let whole =
        raise_mono (d.lt totality ratio) (d.lt totality ratio') critical
          (if poor then critical else high) (if poor' then critical else high')
          (severity-le (if poor then critical else high)) (passes o totality ratio ratio' more)
          step4 in
      (whole, allowed_mono _ _ whole)

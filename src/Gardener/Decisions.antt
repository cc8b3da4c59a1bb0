-- ===== src/Gardener/Decisions.antt =====
-- Whole decisions that enforceGuardrails of internal/gardener/decide.go keeps.
use text.Mathlib.Text.{◌==◌ as str_eq}
use Prim.Native.String.{String}
use mini_world.Base.Float.{Float}
use mini_world.Gardener.{
  kept, Decision, CrisisLevel, guard_one, guard_all, enforce_guardrails, cut, max_interventions,
  has_none, critical, warning,
}
use mini_world.Gardener.Bounds.{IsGraded, Keeps, IsSafe, then_keep, guard_one-IsSafe}
use mini_world.Interventions.Api.{Intervention}
use mini_world.Base.{
  ℕ, zero, suc, ◌≤◌, refl, ◌≢◌, inl, inr, ◌||◌, Option, none, some, List, [], ◌∷◌, arith, ltb,
  tests, Bool-cases, length, All, take, if_both,
}

module _ {ℓ} {A : Type ℓ} where
  length-take : (n : ℕ) (xs : List A) → length (take n xs) ≤ n
  length-take zero xs = omega arith
  length-take (suc n) [] = omega arith
  length-take (suc n) (x ∷ xs) = omega (arith, length-take n xs)

module _ {F : Type 0} ⦃d : Float F⦄ where
  -- At most three interventions in a crisis, two on a warning, and one otherwise
  abbrev pub AreFew : Option CrisisLevel → List (Option (Intervention F)) → Type 0
  AreFew health ivs =
      (length ivs ≤ 3)
      × (health ≢ some critical → length ivs ≤ 2)
      × (health ≢ some critical → health ≢ some warning → length ivs ≤ 1)

  le_cap-AreFew :
      (health : Option CrisisLevel) (ivs : List (Option (Intervention F)))
      → length ivs ≤ max_interventions health
      → AreFew health ivs
  unfolding max_interventions
  le_cap-AreFew none ivs h = (omega arith, λ ne. omega arith, λ ne ne'. h)
  le_cap-AreFew (some critical) ivs h = (h, λ ne. absurd (ne refl), λ ne ne'. absurd (ne refl))
  le_cap-AreFew (some warning) ivs h = (omega arith, λ ne. h, λ ne ne'. absurd (ne' refl))
  le_cap-AreFew (some CrisisLevel.watch) ivs h = (omega arith, λ ne. omega arith, λ ne ne'. h)
  le_cap-AreFew (some CrisisLevel.healthy) ivs h = (omega arith, λ ne. omega arith, λ ne ne'. h)

  -- Every intervention is safe, and there are no more than a number.
  abbrev pub AreSafe : List (String × ℕ) → ℕ → List (Option (Intervention F)) → Type 0
  AreSafe snap most ivs = All (IsSafe snap) ivs × (length ivs ≤ most)

  guard_all-AreSafe :
      IsGraded F d
      → (snap : List (String × ℕ)) (most : ℕ) (ivs : List (Option (Intervention F)))
      → length ivs ≤ most
      → Keeps (AreSafe snap most) (guard_all snap ivs)
  unfolding guard_all
  guard_all-AreSafe g snap most [] le = (tt, le)
  guard_all-AreSafe g snap zero (iv ∷ ivs) le = absurd (omega arith)
  guard_all-AreSafe g snap (suc most) (iv ∷ ivs) le =
      then_keep (λ iv'. IsSafe snap (some iv')) (AreSafe snap (suc most)) (guard_one snap iv) _
        (guard_one-IsSafe g snap iv)
        (λ iv' safe.
          then_keep (AreSafe snap most) (AreSafe snap (suc most)) (guard_all snap ivs)
            (λ rest. kept (some iv' ∷ rest)) (guard_all-AreSafe g snap most ivs (omega arith))
            (λ rest (all, short). ((safe, all), omega arith)))

  cut-le :
      (health : Option CrisisLevel) (ivs : List (Option (Intervention F)))
      → Keeps
          (λ (ivs' : List (Option (Intervention F))). length ivs' ≤ max_interventions health)
          (cut health ivs)
  unfolding max_interventions
  cut-le none ivs = elim (Bool-cases (ltb 1 (length ivs))) [
    | inl e ↦ rw e tt
    | inr e ↦ rw e (omega (tests, e))
  ]
  cut-le (some level) ivs =
      let most = max_interventions (some level) in
      if_both (λ (xs : List (Option (Intervention F))). length xs ≤ most) (ltb most (length ivs))
        (λ _. length-take most ivs) (λ short. omega (tests, short))

  -- Every intervention of the decision is safe, and there are few.
  abbrev pub IsCareful : List (String × ℕ) → Option CrisisLevel → Decision F → Type 0
  IsCareful snap health dec = All (IsSafe snap) dec.interventions × AreFew health dec.interventions

  -- Where the constants of the bounds are in order, the interventions that the guardrails keep
  -- are at most three on a critical level, two on a warning and one otherwise, have the category
  -- of the gardener, and every one names what its kind needs and is within the bounds of its
  -- kind: an amount up or down by at most 1 or at most a tenth of the treasury, a count from 1 to
  -- 100, a quantity from 1 to 200, a multiplier not below 1 and not above 2, and from 1 to 14
  -- days.
  pub enforce_guardrails-AreSafe :
      IsGraded F d
      → (snap : List (String × ℕ)) (health : Option CrisisLevel) (dec : Decision F)
      → Keeps (IsCareful snap health) (enforce_guardrails snap health dec)
  unfolding enforce_guardrails
  enforce_guardrails-AreSafe g snap health dec =
      let most = max_interventions health in
      let P = IsCareful snap health in
      if_both (Keeps P) (str_eq dec.action "none" || has_none dec.interventions)
        (λ _. (tt, (omega arith, λ ne. omega arith, λ ne ne'. omega arith)))
        (λ _.
          then_keep (λ (ivs : List (Option (Intervention F))). length ivs ≤ most) P
            (cut health dec.interventions) _ (cut-le health dec.interventions)
            (λ ivs short.
              then_keep (AreSafe snap most) P (guard_all snap ivs) _
                (guard_all-AreSafe g snap most ivs short)
                (λ guarded safe. (safe.0, le_cap-AreFew health guarded safe.1))))

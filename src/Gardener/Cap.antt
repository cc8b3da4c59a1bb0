-- ===== src/Gardener/Cap.antt =====
-- The cap of an adjustment of a treasury, in internal/gardener/decide.go.
use mini_world.Base.Int.{ℤ, pos, ◌≤ℤ◌, ◌-ℤ◌, ltb_ℤ, int_laws}
use mini_world.Gardener.{max_adjust}
use mini_world.Base.{
  ℕ, ◌≡◌, refl, inl, inr, true, arith, Bool-cases, ◌⊎◌, ◌*◌, ◌≤◌, ltb, ◌^◌, ◌/◌, ◌-◌, ◌+◌,
}

-- Up or down by at most 1, or at most a tenth of a treasury
abbrev pub IsModest : ℕ → ℤ → Type 0
IsModest t amount =
    (most : ℕ) × ((most ≡ 1) ⊎ (10 * most ≤ t))
    × (pos 0 -ℤ pos most ≤ℤ amount)
    × (amount ≤ℤ pos most)

-- The cap is 1, or positive and at most a tenth.
abbrev pub IsCap : ℕ → ℤ → Type 0
IsCap t m = (most : ℕ) × (m ≡ pos most) × ((most ≡ 1) ⊎ (10 * most ≤ t))

minus_small : (n : ℕ) → ltb_ℤ (pos 0 -ℤ pos n) (pos 1) ≡ true
minus_small n = grind int_laws

pub max_adjust-IsCap : (t : ℕ) → IsCap t (max_adjust t)
unfolding max_adjust
max_adjust-IsCap t = elim (Bool-cases (ltb t (2 ^ 63))) [
  | inl small ↦ elim (Bool-cases (ltb_ℤ (pos (t / 10)) (pos 1))) [
    | inl low ↦ rw (small, low) (1, refl, inl refl)
    | inr high ↦ rw (small, high) (t / 10, refl, inr (omega arith))
  ]
  | inr huge ↦ rw (huge, minus_small ((2 ^ 64 - t - 1 + 1) / 10)) (1, refl, inl refl)
]

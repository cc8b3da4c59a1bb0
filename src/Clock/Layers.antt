-- ===== src/Clock/Layers.antt =====
-- How often the layers of internal/engine/tick.go run.
use mini_world.Base.Word.{add64, add64_exact}
use mini_world.Clock.{
  step, run, Engine, layer, call, ticks_per_sim_hour, ticks_per_sim_day, ticks_per_sim_week,
  ticks_per_sim_season,
}
use mini_world.Base.{
  ℕ, zero, suc, ◌+◌, ◌-◌, ◌*◌, ◌<◌, ◌^◌, ◌≡◌, sym, ap, subst, ◌∙◌, inl, inr, Option, arith, ◌==◌,
  if◌then◌else◌, Bool-cases, ◌/◌, ◌%◌,
}

-- What a call of each layer adds to a count.
pub record Weights : Type 0 where
  pub each : ℕ
  pub hour : ℕ
  pub day : ℕ
  pub week : ℕ
  pub season : ℕ

-- The multiples of a period that n ticks after t pass.
abbrev pub passed : ℕ → ℕ → ℕ → ℕ
passed period t n = (t + n) / period - t / period

abbrev pub growth : Weights → ℕ → ℕ → ℕ
growth k t n =
    k.each * n
    + k.hour * passed ticks_per_sim_hour t n
    + k.day * passed ticks_per_sim_day t n
    + k.week * passed ticks_per_sim_week t n
    + k.season * passed ticks_per_sim_season t n

abbrev due : ℕ → ℕ → ℕ → ℕ
due period k t = if t % period == 0 then k else 0

mul-suc : (k x : ℕ) → k * suc x ≡ k * x + k
mul-suc k x = omega arith

-- A period's passes grow by one just when the next tick is a multiple.
Grows : ℕ → Type 0
Grows period = (t n : ℕ) → passed period t (suc n) ≡ passed period t n + due period 1 (t + suc n)

hour-Grows : Grows ticks_per_sim_hour
unfolding Grows
hour-Grows t n = ground arith

day-Grows : Grows ticks_per_sim_day
unfolding Grows
day-Grows t n = ground arith

week-Grows : Grows ticks_per_sim_week
unfolding Grows
week-Grows t n = ground arith

season-Grows : Grows ticks_per_sim_season
unfolding Grows
season-Grows t n = ground arith

weighed : (p k t n : ℕ) → Grows p → k * passed p t (suc n) ≡ k * passed p t n + due p k (t + suc n)
unfolding Grows
weighed p k t n g = elim (Bool-cases ((t + suc n) % p == 0)) [
  | inl now ↦
      let more : passed p t (suc n) ≡ suc (passed p t n) = g t n ∙ rw now (ground arith) in
      rw (now, more, mul-suc k (passed p t n)) (ground arith)
  | inr no_call ↦
      let same : passed p t (suc n) ≡ passed p t n = g t n ∙ rw no_call (ground arith) in
      rw (no_call, same) (ground arith)
]

module _ {W : Type 0} (count : W → ℕ) where
  unfoldable pub Adds : ℕ → Option (ℕ → W → W) → Type 0
  Adds k f = (t : ℕ) → (w : W) → count (call f t w) ≡ count w + k

  layer-Adds :
      (p k : ℕ)
      → (f : Option (ℕ → W → W)) → Adds k f
      → (t : ℕ) → (w : W) → count (layer p f t w) ≡ count w + due p k t
  unfolding layer Adds
  layer-Adds p k f adds t w = elim (Bool-cases (t % p == 0)) [
    | inl now ↦ rw (now, adds t w) (ground arith)
    | inr no_call ↦ rw no_call (ground arith)
  ]

  unfoldable pub AllAdd : Weights → Engine W → Type 0
  AllAdd k e =
      Adds k.each e.on_tick
      × Adds k.hour e.on_hour
      × Adds k.day e.on_day
      × Adds k.week e.on_week
      × Adds k.season e.on_season

  run-tick :
      (n : ℕ)
      → (e : Engine W) → (w : W) → e.tick + n < 2 ^ 64
      → (run n (e, w)).0 ≡ record e { tick = e.tick + n }
  unfolding run step
  run-tick zero e w fits = let same : e.tick + 0 ≡ e.tick = omega arith in rw same
  run-tick (suc n) e w fits =
      let ih = run-tick n e w (omega arith) in
      let next : add64 (e.tick + n) 1 ≡ e.tick + suc n =
        add64_exact (e.tick + n) 1 (omega arith) ∙ omega arith in
      rw (ih, next)

  step-count :
      (k : Weights)
      → (e : Engine W) → (w : W) → AllAdd k e
      → (t : ℕ) → add64 e.tick 1 ≡ t
      → count (step (e, w)).1
        ≡ count w
          + (k.each
              + due 60 k.hour t
              + due 1440 k.day t
              + due 10080 k.week t
              + due 90000 k.season t)
  unfolding step AllAdd Adds
  step-count k e w (each, hour, day, week, season) t at =
      let w1 = call e.on_tick t w in
      let w2 = layer 60 e.on_hour t w1 in
      let w3 = layer 1440 e.on_day t w2 in
      let w4 = layer 10080 e.on_week t w3 in
      rw
        (
          at,
          layer-Adds 90000 k.season e.on_season season t w4,
          layer-Adds 10080 k.week e.on_week week t w3,
          layer-Adds 1440 k.day e.on_day day t w2,
          layer-Adds 60 k.hour e.on_hour hour t w1,
          each t w,
        )
        (omega arith)

  none_passed : (p t : ℕ) → passed p t 0 ≡ 0
  none_passed p t = let same : t + 0 ≡ t = omega arith in rw same (omega arith)

  growth-suc :
      (k : Weights)
      → (t n : ℕ)
      → growth k t (suc n)
        ≡ growth k t n
          + (k.each
              + due 60 k.hour (t + suc n)
              + due 1440 k.day (t + suc n)
              + due 10080 k.week (t + suc n)
              + due 90000 k.season (t + suc n))
  growth-suc k t n =
      rw
        (
          mul-suc k.each n,
          weighed 60 k.hour t n hour-Grows,
          weighed 1440 k.day t n day-Grows,
          weighed 10080 k.week t n week-Grows,
          weighed 90000 k.season t n season-Grows,
        )
        (omega arith)

  -- Where every callback adds a fixed number to a count (0 where it is nil or leaves the count
  -- alone) and the tick stays below 2^64, n ticks of the loop add that number once for each tick,
  -- and once for each multiple of 60, 1440, 10080 and 90000 that the tick passes.
  pub run-counts :
      (k : Weights)
      → (n : ℕ) → (e : Engine W) → (w : W) → AllAdd k e
      → e.tick + n < 2 ^ 64
      → count (run n (e, w)).1 ≡ count w + growth k e.tick n
  unfolding run AllAdd
  run-counts k zero e w adds fits =
      rw
        (
          none_passed 60 e.tick,
          none_passed 1440 e.tick,
          none_passed 10080 e.tick,
          none_passed 90000 e.tick,
        )
        (omega arith)
  run-counts k (suc n) e w adds fits =
      let s = run n (e, w) in
      let ticked = run-tick n e w (omega arith) in
      let still : AllAdd k s.0 = subst (AllAdd k) (sym ticked) adds in
      let at : add64 s.0.tick 1 ≡ e.tick + suc n =
        ap (λ x. add64 x 1) (ap Engine.tick ticked)
        ∙ add64_exact (e.tick + n) 1 (omega arith)
        ∙ omega arith in
      let stepped = step-count k s.0 s.1 still (e.tick + suc n) at in
      let ih = run-counts k n e w adds (omega arith) in
      rw (stepped, ih, growth-suc k e.tick n) (omega arith)

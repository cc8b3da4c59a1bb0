-- ===== src/RateLimiter.antt =====
-- internal/api/ratelimit.go: requests per address and window. The clock is an argument, in the unit of
-- time.Duration, and does not run backwards (time.Now has a monotonic reading); the mutex makes each
-- operation atomic, and the hourly cleanup is one more operation.
pub mod Windows
use mini_world.Base.Maps.{Key, put, get}
use mini_world.Base.Int.{ℤ, ◌-ℤ◌, pos, ltb_ℤ}
use mini_world.Base.{
  ℕ, zero, suc, ◌+◌, ◌-◌, ◌*◌, ◌≤◌, ◌<◌, ◌^◌, ◌≡◌, refl, sym, ap, subst, ◌∙◌, ◌≢◌, ◌⊎◌, inl, inr,
  Bool, true, false, not, ◌&&◌, ◌||◌, Option, none, some, List, [], ◌∷◌, ◌++◌, arith, ltb, leb,
  ◌==◌, if◌then◌else◌, tests, Bool-cases, Option-cases, length, get_elem?, modify, All, Any, total,
  ◌/◌,
}

pub record Bucket : Type 0 where
  pub tokens : ℤ
  pub last_reset : ℕ

-- `maxRate` and `window`; the buckets are the state.
pub record Limits : Type 0 where
  pub max_rate : ℤ
  pub window : ℕ

-- A new bucket, with the first token taken.
abbrev pub fresh : Limits → ℕ → Bucket
fresh l now = record { tokens = l.max_rate -ℤ pos 1; last_reset = now }

abbrev pub spend : Bucket → Bucket
spend b = record b { tokens = b.tokens -ℤ pos 1 }

abbrev pub wait : Limits → ℕ → ℕ → Option Bucket → ℕ
wait l second now none = 0
wait l second now (some b) =
    if ltb l.window (now - b.last_reset) then 0 else (l.window - (now - b.last_reset)) / second + 1

module _ {Ip : Type 0} ⦃k : Key Ip⦄ where
  -- `Allow` on the bucket that is found.
  abbrev pub allow_found :
      Limits → Ip → ℕ → Option Bucket → List (Ip × Bucket) → Bool × List (Ip × Bucket)
  allow_found l ip now none bs = (true, put ip (fresh l now) bs)
  allow_found l ip now (some b) bs =
      if leb l.window (now - b.last_reset)
      then (true, put ip (fresh l now) bs)
      else if ltb_ℤ (pos 0) b.tokens
      then (true, put ip (spend b) bs)
      else (false, bs)

  -- `Allow`
  unfoldable pub allow : Limits → Ip → ℕ → List (Ip × Bucket) → Bool × List (Ip × Bucket)
  allow l ip now bs = allow_found l ip now (get ip bs) bs

  -- `cleanup`
  unfoldable pub cleanup : Limits → ℕ → List (Ip × Bucket) → List (Ip × Bucket)
  cleanup l now [] = []
  cleanup l now ((ip, b) ∷ bs) =
      let rest = cleanup l now bs in
      if ltb (2 * l.window) (now - b.last_reset) then rest else (ip, b) ∷ rest

  -- `RetryAfter`, with the length of a second in the unit of the clock.
  unfoldable pub retry_after : Limits → ℕ → Ip → ℕ → List (Ip × Bucket) → ℕ
  retry_after l second ip now bs = wait l second now (get ip bs)

-- What may happen to the limiter, in any order.
pub data Event (Ip : Type 0) : Type 0 where
  request : Ip → ℕ → Event Ip
  sweep : ℕ → Event Ip

module _ {Ip : Type 0} ⦃k : Key Ip⦄ where
  -- How many requests from one address are allowed in the course of the events.
  unfoldable pub count_allowed : Limits → Ip → List (Event Ip) → List (Ip × Bucket) → ℕ
  count_allowed l ip [] bs = 0
  count_allowed l ip (sweep now ∷ es) bs = count_allowed l ip es (cleanup l now bs)
  count_allowed l ip (request other now ∷ es) bs =
      let (ok, bs') = allow l other now bs in
      let rest = count_allowed l ip es bs' in if ok && k.same other ip then suc rest else rest

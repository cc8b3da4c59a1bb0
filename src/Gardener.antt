-- ===== src/Gardener.antt =====
-- enforceGuardrails of internal/gardener/decide.go: what the answer of the language model may do. A nil
-- pointer in the answer, or the missing diagnosis where the cap is logged, is a panic.
pub mod Cap
pub mod Bounds
pub mod Decisions
pub mod Accepted
pub mod Triage
use text.Mathlib.Text.{◌==◌ as str_eq}
use mini_world.Base.Float.{Float, one}
use Prim.Native.String.{String}
use mini_world.Base.Int.{ℤ, pos, negsuc, ltb_ℤ, ◌-ℤ◌}
use mini_world.Interventions.Api.{Intervention, Kind, kind_of, int64_of}
use mini_world.Base.{
  ℕ, zero, suc, ◌+◌, ◌-◌, ◌*◌, ◌≤◌, ◌<◌, ◌^◌, ◌≡◌, refl, sym, ap, subst, ◌∙◌, ◌≢◌, ◌⊎◌, inl, inr,
  Bool, true, false, not, ◌&&◌, ◌||◌, Option, none, some, List, [], ◌∷◌, ◌++◌, arith, ltb, leb,
  ◌==◌, if◌then◌else◌, tests, Bool-cases, Option-cases, length, get_elem?, modify, All, Any, total,
  ◌/◌, take,
}

-- `CrisisLevel`, which Triage sets to one of four texts.
pub data CrisisLevel : Type 0 where
  healthy watch warning critical : CrisisLevel

-- `Decision`; the interventions are pointers.
pub record Decision (F : Type 0) : Type 0 where
  pub action : String
  pub rationale : String
  pub intervention : Option (Intervention F)
  pub interventions : List (Option (Intervention F))

pub data GuardError : Type 0 where
  needs_settlement : Kind → GuardError
  needs_good : GuardError
  unknown_type : String → GuardError

pub data Guarded (A : Type 0) : Type 0 where
  kept : A → Guarded A
  rejected : GuardError → Guarded A
  panicked : Guarded A

infixl 5 ◌>>=◌
abbrev pub ◌>>=◌ : {A B : Type 0} → Guarded A → (A → Guarded B) → Guarded B
kept a >>= f = f a
rejected e >>= f = rejected e
panicked >>= f = panicked

-- The settlements of the snapshot, with their treasuries.
abbrev pub treasury_in : String → List (String × ℕ) → ℕ
treasury_in name [] = 0
treasury_in name ((n, t) ∷ ss) = if str_eq n name then t else treasury_in name ss

-- Go's division of an int64 by 10, which rounds towards 0
abbrev pub tenth : ℤ → ℤ
tenth (pos n) = pos (n / 10)
tenth (negsuc n) = pos 0 -ℤ pos ((n + 1) / 10)

unfoldable pub max_adjust : ℕ → ℤ
max_adjust t = let m = tenth (int64_of t) in if ltb_ℤ m (pos 1) then pos 1 else m

-- `if n > high { n = high }; if n < low { n = low }`
unfoldable pub clamp_ℤ : ℤ → ℤ → ℤ → ℤ
clamp_ℤ low high n =
    let capped = if ltb_ℤ high n then high else n in if ltb_ℤ capped low then low else capped

unfoldable pub max_interventions : Option CrisisLevel → ℕ
max_interventions none = 1
max_interventions (some critical) = 3
max_interventions (some warning) = 2
max_interventions (some watch) = 1
max_interventions (some healthy) = 1

module _ {F : Type 0} ⦃d : Float F⦄ where
  unfoldable pub clamp_multiplier : F → F
  clamp_multiplier m =
      let capped = if d.lt (d.lit 2 0) m then d.lit 2 0 else m in
      if d.lt capped one then one else capped

  -- The case of the switch, of an intervention whose category is set.
  abbrev pub guard_kind :
      List (String × ℕ) → Option Kind → Intervention F → Guarded (Intervention F)
  guard_kind snap none iv = rejected (unknown_type iv.type_name)
  guard_kind snap (some Kind.event) iv = kept (
      if str_eq iv.description ""
      then record iv { description = "A strange wind blows across the land." }
      else iv)
  guard_kind snap (some Kind.wealth) iv =
      let most = max_adjust (treasury_in iv.settlement snap) in
      if str_eq iv.settlement ""
      then rejected (needs_settlement Kind.wealth)
      else kept (record iv { amount = clamp_ℤ (pos 0 -ℤ most) most iv.amount })
  guard_kind snap (some Kind.spawn) iv =
      if str_eq iv.settlement ""
      then rejected (needs_settlement Kind.spawn)
      else kept (record iv { count = clamp_ℤ (pos 1) (pos 100) iv.count })
  guard_kind snap (some Kind.provision) iv =
      if str_eq iv.settlement ""
      then rejected (needs_settlement Kind.provision)
      else if str_eq iv.good ""
      then rejected needs_good
      else kept (record iv { quantity = clamp_ℤ (pos 1) (pos 200) iv.quantity })
  guard_kind snap (some Kind.cultivate) iv =
      if str_eq iv.settlement ""
      then rejected (needs_settlement Kind.cultivate)
      else kept (record iv {
        multiplier = clamp_multiplier iv.multiplier;
        duration_days = clamp_ℤ (pos 1) (pos 14) iv.duration_days;
      })
  guard_kind snap (some Kind.consolidate) iv =
      if str_eq iv.settlement ""
      then rejected (needs_settlement Kind.consolidate)
      else kept (record iv { count = clamp_ℤ (pos 1) (pos 100) iv.count })

  unfoldable pub guard_one : List (String × ℕ) → Option (Intervention F) → Guarded (Intervention F)
  guard_one snap none = panicked
  guard_one snap (some iv) =
      guard_kind snap (kind_of iv.type_name) (record iv { category = "gardener" })

  -- The loop over the interventions.
  unfoldable pub guard_all :
      List (String × ℕ) → List (Option (Intervention F)) → Guarded (List (Option (Intervention F)))
  guard_all snap [] = kept []
  guard_all snap (iv ∷ ivs) = do
    iv' ← guard_one snap iv
    rest ← guard_all snap ivs
    kept (some iv' ∷ rest)

  -- The cut to the cap, with the log line that reads the crisis level.
  abbrev pub cut :
      Option CrisisLevel → List (Option (Intervention F)) → Guarded (List (Option (Intervention F)))
  cut none ivs = if ltb 1 (length ivs) then panicked else kept ivs
  cut (some level) ivs =
      let most = max_interventions (some level) in
      kept (if ltb most (length ivs) then take most ivs else ivs)

  abbrev pub has_none : List (Option (Intervention F)) → Bool
  has_none [] = true
  has_none (iv ∷ ivs) = false

  abbrev pub guard_decision :
      List (String × ℕ) → Option CrisisLevel → Decision F → Guarded (Decision F)
  guard_decision snap health dec = do
    ivs ← cut health dec.interventions
    guarded ← guard_all snap ivs
    kept (record dec { interventions = guarded })

  -- `enforceGuardrails`
  unfoldable pub enforce_guardrails :
      List (String × ℕ) → Option CrisisLevel → Decision F → Guarded (Decision F)
  enforce_guardrails snap health dec =
      if str_eq dec.action "none" || has_none dec.interventions
      then kept (record dec { action = "none"; interventions = []; intervention = none })
      else guard_decision snap health dec

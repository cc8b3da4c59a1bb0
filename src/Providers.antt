-- ===== src/Providers.antt =====
-- internal/llm/providers.go and client.go: one completion over the chain of providers. What a provider
-- answers over HTTP, and what the clock says meanwhile, is an argument; a failure of the call is the whole
-- text of its error. The counters of usage and the logging are left out.
pub mod Fallback
use mini_world.Base.Maps.{Key, put, get}
use mini_world.Base.{
  ℕ, zero, suc, ◌+◌, ◌-◌, ◌*◌, ◌≤◌, ◌<◌, ◌^◌, ◌≡◌, refl, sym, ap, subst, ◌∙◌, ◌≢◌, ◌⊎◌, inl, inr,
  Bool, true, false, not, ◌&&◌, ◌||◌, Option, none, some, List, [], ◌∷◌, ◌++◌, arith, ltb, leb,
  ◌==◌, if◌then◌else◌, tests, Bool-cases, Option-cases, length, get_elem?, modify, All, Any, total,
}
use Prim.Native.String.{String}
use Prim.Native.Char.{code}
use text.Mathlib.TextEquality.{eq_iff}
use text.Mathlib.Text.{◌==◌ as str_eq}

instance abbrev pub Key-String : Key String
Key-String = record { same = str_eq; same_iff = eq_iff }

pub data ProviderKind : Type 0 where
  anthropic openai : ProviderKind

pub record Provider : Type 0 where
  pub name : String
  pub kind : ProviderKind

-- In nanoseconds.
abbrev pub minute : ℕ
minute = 60000000000

abbrev pub provider_cooldown : ℕ
provider_cooldown = 30 * minute

pub record Client : Type 0 where
  pub api_key : String
  pub providers : List Provider
  pub call_count : ℕ
  pub reset_at : ℕ
  pub max_per_min : ℕ
  pub failures : List (String × ℕ)
  pub cooldowns : List (String × ℕ)

pub data Answer : Type 0 where
  replied refused : String → Answer

-- What one provider meets in a dispatch: the clock when its cooldown is looked up, when its call is
-- counted and when its failure is noted, and the answer.
pub record Attempt : Type 0 where
  pub asked_at : ℕ
  pub sent_at : ℕ
  pub answer : Answer
  pub done_at : ℕ

pub data CallError : Type 0 where
  no_providers not_configured rate_limited : CallError
  failed : String → CallError

pub data Completion : Type 0 where
  completed : String → Completion
  uncompleted : CallError → Completion

-- `strings.ToLower` of a character, as far as the result is one of ASCII
abbrev pub lower : ℕ → ℕ
lower n =
    if leb 65 n && leb n 90 then n + 32 else if n == 304 then 105 else if n == 8490 then 107 else n

unfoldable pub starts_lower : String → String → Bool
starts_lower s String.[] = true
starts_lower String.[] (String.◌∷◌ p ps) = false
starts_lower (String.◌∷◌ c s) (String.◌∷◌ p ps) = (lower (code c) == code p) && starts_lower s ps

-- `strings.Contains(strings.ToLower(s), p)`, of a text `p` in small letters of ASCII
unfoldable pub contains_lower : String → String → Bool
contains_lower String.[] p = starts_lower String.[] p
contains_lower (String.◌∷◌ c s) p = starts_lower (String.◌∷◌ c s) p || contains_lower s p

-- `isCapError`; the texts of the client's own errors have none of the phrases.
unfoldable pub is_cap_error : CallError → Bool
unfolding contains_lower starts_lower
is_cap_error no_providers = false
is_cap_error not_configured = false
is_cap_error rate_limited = false
is_cap_error (failed s) =
    contains_lower s "specified api usage"
    || (contains_lower s "usage limit"
        || (contains_lower s "credit balance"
            || (contains_lower s "quota" || contains_lower s "insufficient balance")))

-- `now.After(c.resetAt)`
abbrev pub renewed : ℕ → Client → Client
renewed now c =
    if ltb c.reset_at now then record c { call_count = 0; reset_at = now + minute } else c

abbrev pub count_call : Client → Bool × Client
count_call c =
    if leb c.max_per_min c.call_count
    then (false, c)
    else (true, record c { call_count = c.call_count + 1 })

-- `rateLimit`, with whether the call may go on
unfoldable pub rate_limit : ℕ → Client → Bool × Client
rate_limit now c = count_call (renewed now c)

abbrev pub or_zero : Option ℕ → ℕ
or_zero none = 0
or_zero (some n) = n

abbrev pub record_provider_failure : String → Client → Client
record_provider_failure name c = record c {
  failures = put name (or_zero (get name c.failures) + 1) c.failures;
}

abbrev pub reset_provider_failures : String → Client → Client
reset_provider_failures name c = record c { failures = put name 0 c.failures }

abbrev pub receive : Answer → String → Client → Completion × Client
receive (replied t) name c = (completed t, reset_provider_failures name c)
receive (refused e) name c = (uncompleted (failed e), record_provider_failure name c)

abbrev pub send : Attempt → String → Bool × Client → Completion × Client
send a name (false, c) = (uncompleted rate_limited, c)
send a name (true, c) = receive a.answer name c

-- `callProvider`, with `doRequest` and `callOpenAI`
unfoldable pub call_provider : Attempt → Provider → Client → Completion × Client
call_provider a p c =
    let sent = send a p.name (rate_limit a.sent_at c) in
    elim p.kind [
      | anthropic ↦ if str_eq c.api_key "" then (uncompleted not_configured, c) else sent
      | openai ↦ sent
    ]

abbrev pub is_later : ℕ → Option ℕ → Bool
is_later now none = false
is_later now (some until) = ltb now until

unfoldable pub in_cooldown : ℕ → String → Client → Bool
in_cooldown now name c = is_later now (get name c.cooldowns)

abbrev pub set_cooldown : ℕ → String → Client → Client
set_cooldown now name c = record c { cooldowns = put name (now + provider_cooldown) c.cooldowns }

abbrev pub cool : ℕ → String → CallError → Client → Client
cool now name e c = if is_cap_error e then set_cooldown now name c else c

-- `return "", lastErr`
abbrev pub give_up : Option CallError → Completion
give_up none = completed ""
give_up (some e) = uncompleted e

abbrev pub advance :
    (CallError → Client → Completion × Client) → Completion × Client → Completion × Client
advance next (completed t, c) = (completed t, c)
advance next (uncompleted e, c) = next e c

-- The loop over the candidates, with the last error.
unfoldable pub try_all :
    (Provider → Attempt) → List Provider → Option CallError → Client → Completion × Client
try_all attempt [] last c = (give_up last, c)
try_all attempt (p ∷ ps) last c =
    advance (λ e c'. try_all attempt ps (some e) (cool (attempt p).done_at p.name e c'))
      (call_provider (attempt p) p c)

-- The providers that are not in cooldown.
unfoldable pub available : (Provider → Attempt) → Client → List Provider → List Provider
available attempt c [] = []
available attempt c (p ∷ ps) =
    let rest = available attempt c ps in
    if in_cooldown (attempt p).asked_at p.name c then rest else p ∷ rest

-- All of them, where none is left.
abbrev pub or_all : List Provider → List Provider → List Provider
or_all [] all = all
or_all (p ∷ ps) all = p ∷ ps

unfoldable pub candidates : (Provider → Attempt) → Client → List Provider
unfolding available
candidates attempt c = or_all (available attempt c c.providers) c.providers

abbrev pub dispatch_to : (Provider → Attempt) → List Provider → Client → Completion × Client
dispatch_to attempt [] c = (uncompleted no_providers, c)
dispatch_to attempt (p ∷ ps) c = try_all attempt (candidates attempt c) none c

-- `dispatch`
unfoldable pub dispatch : (Provider → Attempt) → Client → Completion × Client
unfolding try_all candidates
dispatch attempt c = dispatch_to attempt c.providers c

-- ===== src/Providers/Fallback.antt =====
-- The chain of internal/llm/providers.go answers with the first provider that does.
use text.Mathlib.TextEquality.{eq_iff}
use text.Mathlib.Text.{◌==◌ as str_eq}
use mini_world.Providers.{
  Completion, Answer, Provider, Client, rate_limit, call_provider, try_all, Attempt, completed,
  receive, CallError, uncompleted, failed, count_call, renewed, replied, cool, ProviderKind,
  available, or_all, candidates, refused, anthropic, dispatch_to, openai, is_cap_error, in_cooldown,
  send, record_provider_failure, dispatch, advance,
}
use mini_world.Base.{
  ℕ, suc, ◌+◌, ◌≤◌, ◌≡◌, refl, ap, ◌≢◌, ◌⊎◌, inl, inr, true, false, Option, none, some, List, [],
  ◌∷◌, arith, ltb, leb, Bool-cases, length, All, if_both,
}
use Prim.Native.String.{String}

-- The answer of a completion, and the first answer of the providers of a list.
abbrev pub answer_of : Completion → Option String
answer_of (completed t) = some t
answer_of (uncompleted e) = none

abbrev pub text_of : Answer → Option String
text_of (replied t) = some t
text_of (refused e) = none

abbrev pub or_else : Option String → Option String → Option String
or_else none o = o
or_else (some t) o = some t

abbrev pub first_answer : (Provider → Attempt) → List Provider → Option String
first_answer attempt [] = none
first_answer attempt (p ∷ ps) = or_else (text_of (attempt p).answer) (first_answer attempt ps)

-- Calls are left for `n` more providers, in whatever minute.
abbrev pub HasBudget : ℕ → Client → Type 0
HasBudget n c = (c.call_count + n ≤ c.max_per_min) × (c.api_key ≢ "")

count_call-HasBudget :
    (n : ℕ) (c : Client)
    → HasBudget (suc n) c
    → (c' : Client) × (count_call c ≡ (true, c')) × HasBudget n c'
count_call-HasBudget n c (room, key) =
    let free : leb c.max_per_min c.call_count ≡ false = ground arith in
    (record c { call_count = c.call_count + 1 }, rw free refl, (omega arith, key))

renewed-HasBudget :
    (now n : ℕ) (c : Client) → HasBudget (suc n) c → HasBudget (suc n) (renewed now c)
renewed-HasBudget now n c (room, key) =
    if_both (HasBudget (suc n)) (ltb c.reset_at now) (λ _. (omega arith, key)) (λ _. (room, key))

kind-cases : (k : ProviderKind) → (k ≡ anthropic) ⊎ (k ≡ openai)
kind-cases anthropic = inl refl
kind-cases openai = inr refl

call_provider-HasBudget :
    (a : Attempt) (p : Provider) (n : ℕ) (c : Client)
    → HasBudget (suc n) c
    → (c' : Client) × (call_provider a p c ≡ receive a.answer p.name c') × HasBudget n c'
unfolding call_provider rate_limit
call_provider-HasBudget a p n c (room, key) =
    let (c', counted, left) =
      count_call-HasBudget n (renewed a.sent_at c) (renewed-HasBudget a.sent_at n c (room, key)) in
    let given : str_eq c.api_key "" ≡ false = ground (arith, eq_iff c.api_key "") in
    let sent : send a p.name (count_call (renewed a.sent_at c)) ≡ receive a.answer p.name c' =
      ap (send a p.name) counted in
    (c', (elim (kind-cases p.kind) [ inl e ↦ rw (e, given) sent | inr e ↦ rw e sent ]), left)

receive-answer :
    (next : CallError → Client → Completion × Client) (a : Answer) (name : String) (c : Client)
    (later : Option String)
    → ((e : String) → answer_of (next (failed e) (record_provider_failure name c)).0 ≡ later)
    → answer_of (advance next (receive a name c)).0 ≡ or_else (text_of a) later
receive-answer next (replied t) name c later h = refl
receive-answer next (refused e) name c later h = h e

cool-HasBudget :
    (now : ℕ) (name : String) (e : CallError) (n : ℕ) (c : Client)
    → HasBudget n c
    → HasBudget n (cool now name e c)
cool-HasBudget now name e n c h = if_both (HasBudget n) (is_cap_error e) (λ _. h) (λ _. h)

try_all-answer :
    (attempt : Provider → Attempt) (ps : List Provider) (last : Option CallError) (c : Client)
    → HasBudget (length ps) c
    → (last ≢ none) ⊎ (ps ≢ [])
    → answer_of (try_all attempt ps last c).0 ≡ first_answer attempt ps
unfolding try_all
try_all-answer attempt [] none c budget (inl some_error) = absurd (some_error refl)
try_all-answer attempt [] none c budget (inr some_left) = absurd (some_left refl)
try_all-answer attempt [] (some e) c budget some_error = refl
try_all-answer attempt (p ∷ ps) last c budget some_error =
    let (c', called, left) = call_provider-HasBudget (attempt p) p (length ps) c budget in
    rw called (
      receive-answer _ (attempt p).answer p.name c' (first_answer attempt ps) (λ e.
        try_all-answer attempt ps (some (failed e)) _
          (cool-HasBudget (attempt p).done_at p.name (failed e) (length ps) _ left)
          (inl (λ h. cc))))

length-available :
    (attempt : Provider → Attempt) (c : Client) (ps : List Provider)
    → length (available attempt c ps) ≤ length ps
unfolding available
length-available attempt c [] = omega arith
length-available attempt c (p ∷ ps) =
    let le = length-available attempt c ps in
    if_both (λ (xs : List Provider). length xs ≤ suc (length ps))
      (in_cooldown (attempt p).asked_at p.name c) (λ _. omega arith) (λ _. omega arith)

-- A choice of providers for one dispatch.
or_all-fits :
    (xs : List Provider) {all : List Provider}
    → length xs ≤ length all
    → all ≢ []
    → (or_all xs all ≢ []) × (length (or_all xs all) ≤ length all)
or_all-fits [] le ne = (ne, omega arith)
or_all-fits (x ∷ xs) le ne = ((λ h. cc), le)

dispatch_to-answer :
    (attempt : Provider → Attempt) (all : List Provider) (c : Client)
    → c.providers ≡ all
    → HasBudget (length all) c
    → answer_of (dispatch_to attempt all c).0 ≡ first_answer attempt (candidates attempt c)
unfolding candidates available
dispatch_to-answer attempt [] c same budget = rw same refl
dispatch_to-answer attempt (p ∷ ps) c same (room, key) =
    let some_provider : c.providers ≢ [] = λ h. cc in
    let le = length-available attempt c c.providers in
    let (some_left, short) = or_all-fits (available attempt c c.providers) le some_provider in
    let count : length c.providers ≡ suc (length ps) = ap length same in
    try_all-answer attempt (candidates attempt c) none c (omega arith, key) (inr some_left)

-- Where the native key is set and the budget of calls has room for the whole chain, a dispatch
-- answers just when one of its candidates does, and with the answer of the first one that does:
-- failures of the providers before it, whatever their texts, change nothing.
pub dispatch-answer :
    (attempt : Provider → Attempt) (c : Client)
    → HasBudget (length c.providers) c
    → answer_of (dispatch attempt c).0 ≡ first_answer attempt (candidates attempt c)
unfolding dispatch
dispatch-answer attempt c budget = dispatch_to-answer attempt c.providers c refl budget

advance-same :
    (next next' : CallError → Client → Completion × Client) (r : Completion × Client)
    → ((e : CallError) (c : Client) → next e c ≡ next' e c)
    → advance next r ≡ advance next' r
advance-same next next' (completed t, c) h = refl
advance-same next next' (uncompleted e, c) h = h e c

try_all-same :
    (attempt attempt' : Provider → Attempt) (ps : List Provider) (last : Option CallError)
    (c : Client)
    → All (λ p. attempt' p ≡ attempt p) ps
    → try_all attempt' ps last c ≡ try_all attempt ps last c
unfolding try_all
try_all-same attempt attempt' [] last c same = refl
try_all-same attempt attempt' (p ∷ ps) last c (here, later) = rw here (
    advance-same _ _ (call_provider (attempt p) p c) (λ e c'.
      try_all-same attempt attempt' ps (some e) (cool (attempt p).done_at p.name e c') later))

-- The providers of a list that are not in cooldown meet the same.
abbrev pub AreSameAvailable :
    (Provider → Attempt) → (Provider → Attempt) → Client → List Provider → Type 0
AreSameAvailable attempt attempt' c = All (λ p.
    ((attempt' p).asked_at ≡ (attempt p).asked_at)
    × (in_cooldown (attempt p).asked_at p.name c ≡ false → attempt' p ≡ attempt p))

available-same :
    (attempt attempt' : Provider → Attempt) (c : Client) (ps : List Provider)
    → AreSameAvailable attempt attempt' c ps
    → (available attempt' c ps ≡ available attempt c ps)
      × All (λ p. attempt' p ≡ attempt p) (available attempt c ps)
unfolding available
available-same attempt attempt' c [] h = (refl, tt)
available-same attempt attempt' c (p ∷ ps) ((asked, same), later) =
    let (ih, all) = available-same attempt attempt' c ps later in
    elim (Bool-cases (in_cooldown (attempt p).asked_at p.name c)) [
      | inl asleep ↦ rw (asked, asleep) (ih, all)
      | inr up ↦ rw (asked, up) (ap (λ xs. p ∷ xs) ih, (same up, all))
    ]

or_all-same :
    (P : List Provider → Type 0) (xs all : List Provider) → xs ≢ [] → P xs → P (or_all xs all)
or_all-same P [] all ne h = absurd (ne refl)
or_all-same P (x ∷ xs) all ne h = h

dispatch_to-same :
    (attempt attempt' : Provider → Attempt) (all : List Provider) (c : Client)
    → available attempt c c.providers ≢ []
    → AreSameAvailable attempt attempt' c c.providers
    → dispatch_to attempt' all c ≡ dispatch_to attempt all c
unfolding candidates
dispatch_to-same attempt attempt' [] c someone same = refl
dispatch_to-same attempt attempt' (p ∷ ps) c someone same =
    let (chosen, all) = available-same attempt attempt' c c.providers same in
    rw chosen (
      or_all-same (λ xs. try_all attempt' xs none c ≡ try_all attempt xs none c)
        (available attempt c c.providers) c.providers someone
        (try_all-same attempt attempt' (available attempt c c.providers) none c all))

-- Where some provider is not in cooldown, two dispatches from one state that differ only in what
-- the providers in cooldown would say have the same result and leave the same state: no provider
-- in cooldown is asked.
pub dispatch-ignores :
    (attempt attempt' : Provider → Attempt) (c : Client)
    → available attempt c c.providers ≢ []
    → AreSameAvailable attempt attempt' c c.providers
    → dispatch attempt' c ≡ dispatch attempt c
unfolding dispatch
dispatch-ignores attempt attempt' c someone same =
    dispatch_to-same attempt attempt' c.providers c someone same

-- ===== src/Examples/Completions.antt =====
-- A chain of three providers: the first one is in cooldown, the second one fails, the third one answers.
use text.Mathlib.TextEquality.{eq_iff}
use text.Mathlib.Text.{◌==◌ as str_eq}
use mini_world.Providers.{
  Provider, Client, Answer, dispatch, available, openai, anthropic, Attempt, candidates,
  in_cooldown, replied, refused,
}
use mini_world.Base.{◌≡◌, refl, [], ◌∷◌, arith, if◌then◌else◌}
use Prim.Native.String.{String}
use mini_world.Providers.Fallback.{answer_of, first_answer, dispatch-answer, dispatch-ignores}

abbrev deepseek : Provider
deepseek = record { name = "deepseek"; kind = openai }

abbrev xai : Provider
xai = record { name = "xai"; kind = openai }

abbrev native : Provider
native = record { name = "anthropic"; kind = anthropic }

abbrev chain : Client
chain = record {
  api_key = "key";
  providers = deepseek ∷ xai ∷ native ∷ [];
  call_count = 5;
  reset_at = 1000;
  max_per_min = 20;
  failures = [];
  cooldowns = ("deepseek", 5000) ∷ [];
}

abbrev meet : Answer → Attempt
meet a = record { asked_at = 2000; sent_at = 2000; answer = a; done_at = 3000 }

-- What each of them says, with the text of the first one.
abbrev says : String → Provider → Attempt
says first p =
    if str_eq p.name "deepseek"
    then meet (replied first)
    else if str_eq p.name "xai"
    then meet (refused "You exceeded your current QUOTA")
    else meet (replied "Rain is near.")

dispatch-answer_example :
    answer_of (dispatch (says "Sunshine.") chain).0
    ≡ first_answer (says "Sunshine.") (candidates (says "Sunshine.") chain)
dispatch-answer_example =
    dispatch-answer (says "Sunshine.") chain
      (omega arith, (λ e. let t = (eq_iff "key" "").1 e in cc))

dispatch-ignores_example : dispatch (says "Snow.") chain ≡ dispatch (says "Sunshine.") chain
unfolding available in_cooldown
dispatch-ignores_example =
    dispatch-ignores (says "Sunshine.") (says "Snow.") chain (λ h. cc)
      ((refl, (λ h. cc)), ((refl, (λ h. refl)), ((refl, (λ h. refl)), tt)))

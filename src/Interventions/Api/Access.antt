-- ===== src/Interventions/Api/Access.antt =====
-- adminOnly of internal/api/server.go lets a POST through only with the key of the server.
use text.Mathlib.Text.{◌==◌ as str_eq}
use Prim.Native.Char.{code}
use Prim.Native.String.{String, ◌++◌ as joined}
use text.Mathlib.TextLemmas.{nil-append, cons-append}
use text.Mathlib.TextEquality.{Char-path, eq_iff}
use mini_world.Interventions.Api.{
  Response, http_error, has_prefix, trim_prefix, check_bearer_token, admin_only,
}
use mini_world.Base.{
  ◌≡◌, refl, sym, ap, ◌∙◌, ◌≢◌, inl, inr, true, false, arith, ◌==◌, Bool-cases, ◌↔◌,
}

prefix_split : (s p : String) → has_prefix s p ≡ true → s ≡ joined p (trim_prefix s p)
unfolding has_prefix trim_prefix
prefix_split s String.[] h = sym (nil-append s)
prefix_split String.[] (String.◌∷◌ p ps) h = cc
prefix_split (String.◌∷◌ c s) (String.◌∷◌ p ps) h = elim (Bool-cases (code c == code p)) [
  | inl same ↦
      let rest : has_prefix s ps ≡ true = ground arith in
      let ih = prefix_split s ps rest in
      let first = Char-path c p (ground arith) in
      rw (first, cons-append p ps (trim_prefix s ps)) (ap (String.◌∷◌ p) ih)
  | inr other ↦ ground arith
]

prefix_joined :
    (p s : String) → (has_prefix (joined p s) p ≡ true) × (trim_prefix (joined p s) p ≡ s)
unfolding has_prefix trim_prefix
prefix_joined String.[] s = (refl, nil-append s)
prefix_joined (String.◌∷◌ p ps) s =
    let ih = prefix_joined ps s in rw (cons-append p ps s) (ground (arith, ih.0), ih.1)

check_bearer_token_iff :
    (key auth : String) → (check_bearer_token key auth ≡ true) ↔ (auth ≡ joined "Bearer " key)
unfolding check_bearer_token
check_bearer_token_iff key auth = (
  (λ h.
      let has : has_prefix auth "Bearer " ≡ true = ground arith in
      let same : str_eq (trim_prefix auth "Bearer ") key ≡ true = ground arith in
      prefix_split auth "Bearer " has
      ∙ ap (joined "Bearer ") ((eq_iff (trim_prefix auth "Bearer ") key).0 same)),
  (λ e.
      let (has, rest) = prefix_joined "Bearer " key in
      let same = (eq_iff (trim_prefix (joined "Bearer " key) "Bearer ") key).1 rest in
      rw (e, has) same),
)

module _ {F S : Type 0} where
  -- Where an admin key is set, a POST gets to the handler just when its Authorization header is
  -- Bearer with that key, and is 401 otherwise; without an admin key it is 403. Both leave the
  -- state alone.
  pub admin_only-post :
      (key auth : String) (next : S → Response F × S) (s : S)
      → (key ≢ "" → auth ≡ joined "Bearer " key → admin_only key true auth next s ≡ next s)
        × (key ≡ "" → admin_only key true auth next s ≡ (http_error 403, s))
        × (key ≢ ""
            → auth ≢ joined "Bearer " key
            → admin_only key true auth next s ≡ (http_error 401, s))
  unfolding admin_only
  admin_only-post key auth next s = (
    (λ given e.
        let set_key : str_eq key "" ≡ false = ground (arith, eq_iff key "") in
        rw (set_key, (check_bearer_token_iff key auth).1 e)),
    (λ e. let none_set = (eq_iff key "").1 e in rw none_set),
    (λ given ne.
        let set_key : str_eq key "" ≡ false = ground (arith, eq_iff key "") in
        let wrong : check_bearer_token key auth ≡ false =
          ground (arith, check_bearer_token_iff key auth) in
        rw (set_key, wrong)),
  )

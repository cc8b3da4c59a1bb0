-- ===== src/Relations/Peace/Expiry.antt =====
-- How long a treaty of internal/engine/peace.go lasts.
use mini_world.Base.Int.{ℤ, leb_ℤ}
use mini_world.Base.Maps.{get, get-put, HasUniqueKeys, HasUniqueKeys-put}
use mini_world.Relations.{Pair, Key-Pair}
use mini_world.Relations.Peace.{
  Peace, Treaty, age_treaties, one_week_less, is_over, form_treaties, make_peace, new_treaty,
  record_raid, is_some, peace_raid_threshold,
}
use mini_world.Base.{
  ℕ, ◌≡◌, refl, sym, ap, subst, ◌∙◌, inl, inr, Bool, true, false, not, ◌&&◌, Option, none, some,
  List, [], ◌∷◌, if◌then◌else◌, Bool-cases, if_both,
}

unfoldable pub aged : Option Treaty → Option Treaty
aged none = none
aged (some t) = if is_over (one_week_less t) then none else some (one_week_less t)

pub aged-none : {o : Option Treaty} → o ≡ none → aged o ≡ none
unfolding aged
aged-none h = ap aged h

pub get-age_treaties :
    (k : Pair) (ts : List (Pair × Treaty))
    → HasUniqueKeys ts
    → get k (age_treaties ts) ≡ aged (get k ts)
unfolding age_treaties aged
get-age_treaties k [] u = refl
get-age_treaties k ((key, t) ∷ ts) (fresh, u) =
    let ih = get-age_treaties k ts u in
    elim (Bool-cases (Key-Pair.same key k)) [
      | inl same ↦
          let e : key ≡ k = (Key-Pair.same_iff key k).0 same in
          let gone : get k ts ≡ none = subst (λ x. get x ts ≡ none) e fresh in
          elim (Bool-cases (is_over (one_week_less t))) [
            | inl over ↦ rw (same, over) (ih ∙ ap aged gone)
            | inr on ↦ rw (same, on) (rw same)
          ]
      | inr other ↦ elim (Bool-cases (is_over (one_week_less t))) [
        | inl over ↦ rw (over, other) ih
        | inr on ↦ rw (on, other) ih
      ]
    ]

pub age_treaties-HasUniqueKeys :
    (ts : List (Pair × Treaty)) → HasUniqueKeys ts → HasUniqueKeys (age_treaties ts)
unfolding age_treaties
age_treaties-HasUniqueKeys [] u = tt
age_treaties-HasUniqueKeys ((key, t) ∷ ts) (fresh, u) =
    let ih = age_treaties-HasUniqueKeys ts u in
    let still : get key (age_treaties ts) ≡ none = get-age_treaties key ts u ∙ aged-none fresh in
    if_both HasUniqueKeys (is_over (one_week_less t)) (λ _. ih) (λ _. (still, ih))

and_false : (b : Bool) → (b && false) ≡ true → ⊥
and_false true h = cc
and_false false h = cc

and_true : {b : Bool} {o : Option Treaty} → b ≡ true → o ≡ none → (b && not (is_some o)) ≡ true
and_true h e = rw (h, e)

not_new :
    (b : Bool) {o : Option Treaty} {t : Treaty} → o ≡ some t → (b && not (is_some o)) ≡ true → ⊥
not_new b e h = and_false b (subst (λ x. (b && not (is_some x)) ≡ true) e h)

module _ {F : Type 0} where
  -- Peace is made only where there is none.
  pub form_treaties-keeps :
      (tick : ℕ) (k : Pair) {t : Treaty} (counts : List (Pair × ℤ)) (s : Peace F)
      → get k s.treaties ≡ some t
      → get k (form_treaties tick counts s).treaties ≡ some t
  unfolding form_treaties
  form_treaties-keeps tick k [] s h = h
  form_treaties-keeps tick k {t} ((key, n) ∷ counts) s h = form_treaties-keeps tick k counts _ (
      if_both (λ (s' : Peace F). get k s'.treaties ≡ some t)
        (leb_ℤ peace_raid_threshold n && not (is_some (get key s.treaties)))
        (λ new.
          let apart_key : Key-Pair.same key k ≡ false = elim (Bool-cases (Key-Pair.same key k)) [
            | inl e ↦
                let found : get key s.treaties ≡ some t =
                  subst (λ x. get x s.treaties ≡ some t) (sym ((Key-Pair.same_iff key k).0 e)) h in
                absurd (not_new (leb_ℤ peace_raid_threshold n) found new)
            | inr e ↦ e
          ] in
          get-put key k (new_treaty tick n) s.treaties ∙ rw apart_key h)
        (λ _. h))

  pub form_treaties-HasUniqueKeys :
      (tick : ℕ) (counts : List (Pair × ℤ)) (s : Peace F)
      → HasUniqueKeys s.treaties
      → HasUniqueKeys (form_treaties tick counts s).treaties
  unfolding form_treaties
  form_treaties-HasUniqueKeys tick [] s u = u
  form_treaties-HasUniqueKeys tick ((key, n) ∷ counts) s u =
      form_treaties-HasUniqueKeys tick counts _ (
        if_both (λ (s' : Peace F). HasUniqueKeys s'.treaties)
          (leb_ℤ peace_raid_threshold n && not (is_some (get key s.treaties)))
          (λ _. HasUniqueKeys-put key (new_treaty tick n) s.treaties u) (λ _. u))

  -- A pair at war long enough makes peace.
  pub form_treaties-forms :
      (tick : ℕ) (k : Pair) {n : ℤ} (counts : List (Pair × ℤ)) (s : Peace F)
      → get k counts ≡ some n
      → leb_ℤ peace_raid_threshold n ≡ true
      → get k s.treaties ≡ none
      → get k (form_treaties tick counts s).treaties ≡ some (new_treaty tick n)
  unfolding form_treaties
  form_treaties-forms tick k [] s found many h = cc
  form_treaties-forms tick k {n} ((key, m) ∷ counts) s found many h =
      elim (Bool-cases (Key-Pair.same key k)) [
        | inl same ↦
            let e_key : key ≡ k = (Key-Pair.same_iff key k).0 same in
            let first = subst (λ b. (if b then some m else get k counts) ≡ some n) same found in
            let value : m ≡ n = cc in
            let none_yet : get key s.treaties ≡ none =
              subst (λ x. get x s.treaties ≡ none) (sym e_key) h in
            let due : leb_ℤ peace_raid_threshold m ≡ true =
              subst (λ x. leb_ℤ peace_raid_threshold x ≡ true) (sym value) many in
            let cond : (leb_ℤ peace_raid_threshold m && not (is_some (get key s.treaties))) ≡ true =
              and_true due none_yet in
            let made : get k (make_peace tick key m s).treaties ≡ some (new_treaty tick n) =
              get-put key k (new_treaty tick m) s.treaties ∙ rw (same, value) in
            let stepped : (if leb_ℤ peace_raid_threshold m && not (is_some (get key s.treaties))
                  then make_peace tick key m s
                  else s)
                ≡ make_peace tick key m s =
              rw cond in
            subst
              (λ (s' : Peace F).
                get k (form_treaties tick counts s').treaties ≡ some (new_treaty tick n))
              (sym stepped) (form_treaties-keeps tick k counts (make_peace tick key m s) made)
        | inr other ↦
            let later = subst (λ b. (if b then some m else get k counts) ≡ some n) other found in
            form_treaties-forms tick k counts _ later many (
              if_both (λ (s' : Peace F). get k s'.treaties ≡ none)
                (leb_ℤ peace_raid_threshold m && not (is_some (get key s.treaties)))
                (λ _. get-put key k (new_treaty tick m) s.treaties ∙ rw other h) (λ _. h))
      ]

  -- The raids of a week.
  abbrev pub record_raids : List (ℕ × ℕ) → Peace F → Peace F
  record_raids [] s = s
  record_raids ((a, b) ∷ raids) s = record_raids raids (record_raid a b s)

  pub treaties-record_raids :
      (raids : List (ℕ × ℕ)) (s : Peace F) → (record_raids raids s).treaties ≡ s.treaties
  unfolding record_raid
  treaties-record_raids [] s = refl
  treaties-record_raids ((a, b) ∷ raids) s = treaties-record_raids raids (record_raid a b s)

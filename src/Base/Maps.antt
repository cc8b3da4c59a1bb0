-- ===== src/Base/Maps.antt =====
-- Go's maps as association lists, over any type of keys with a test of equality. The order of the list
-- is the one in which a `range` loop happens to visit the map.
use Prim.Native.Nat.{ℕ}
use mathlib.Core.Path.{◌≡◌, refl, sym, subst, ◌∙◌}
use mathlib.Core.Logic.{◌↔◌, inl, inr}
use mathlib.Core.Bool.{Bool, true, false}
use mathlib.Core.Option.{Option, none, some}
use mathlib.Core.List.{List, [], ◌∷◌}
use mini_world.Base.Tests.{if_both, if◌then◌else◌, Bool-cases, ◌==◌, ==_iff}
use mini_world.Base.Lists.{All}

pub record Key (K : Type 0) : Type 0 where
  pub same : K → K → Bool
  pub same_iff : (a b : K) → (same a b ≡ true) ↔ (a ≡ b)

instance abbrev pub Key-ℕ : Key ℕ
Key-ℕ = record { same = ◌==◌; same_iff = ==_iff }

-- The predicate on what a lookup finds, where it finds something.
abbrev pub Meets : {V : Type 0} → (V → Type 0) → Option V → Type 0
Meets P none = Unit
Meets P (some v) = P v

module _ {K : Type 0} ⦃k : Key K⦄ where
  apart :
      (c key other : K) → k.same c key ≡ false → k.same c other ≡ true → k.same key other ≡ false
  apart c key other h h' = elim (Bool-cases (k.same key other)) [
    | inl e ↦
        let c_key = (k.same_iff c other).0 h' ∙ sym ((k.same_iff key other).0 e) in
        let clash : true ≡ false = sym ((k.same_iff c key).1 c_key) ∙ h in cc
    | inr e ↦ e
  ]

  pub same_self : (key : K) → k.same key key ≡ true
  same_self key = (k.same_iff key key).1 refl

module _ {K V : Type 0} ⦃k : Key K⦄ where
  abbrev pub get : K → List (K × V) → Option V
  get key [] = none
  get key ((c, v) ∷ m) = if k.same c key then some v else get key m

  abbrev pub put : K → V → List (K × V) → List (K × V)
  put key v [] = (key, v) ∷ []
  put key v ((c, u) ∷ m) = if k.same c key then (c, v) ∷ m else (c, u) ∷ put key v m

  abbrev pub erase : K → List (K × V) → List (K × V)
  erase key [] = []
  erase key ((c, u) ∷ m) = let rest = erase key m in if k.same c key then rest else (c, u) ∷ rest

  -- A write is seen under its own key, and under no other.
  pub get-put :
      (key other : K) (v : V) (m : List (K × V))
      → get other (put key v m) ≡ (if k.same key other then some v else get other m)
  get-put key other v [] = refl
  get-put key other v ((c, u) ∷ m) = elim (Bool-cases (k.same c key)) [
    | inl e ↦
        let same = (k.same_iff c key).0 e in
        rw e (
          subst
            (λ x.
              (if k.same c other then some v else get other m)
              ≡ (if k.same x other then some v else if k.same c other then some u else get other m))
            same (elim (Bool-cases (k.same c other)) [ inl e' ↦ rw e' | inr e' ↦ rw e' ]))
    | inr e ↦ elim (Bool-cases (k.same c other)) [
      | inl e' ↦ rw (e, e', apart c key other e e')
      | inr e' ↦ rw (e, e') (get-put key other v m)
    ]
  ]

  pub get-erase :
      (key other : K) (m : List (K × V))
      → get other (erase key m) ≡ (if k.same key other then none else get other m)
  get-erase key other [] = elim (Bool-cases (k.same key other)) [ inl e ↦ rw e | inr e ↦ rw e ]
  get-erase key other ((c, u) ∷ m) = elim (Bool-cases (k.same c key)) [
    | inl e ↦
        let same = (k.same_iff c key).0 e in
        elim (Bool-cases (k.same c other)) [
          | inl e' ↦
              let key_other = subst (λ x. k.same x other ≡ true) same e' in
              rw (e, key_other)
                (subst (λ b. get other (erase key m) ≡ (if b then none else get other m)) key_other
                  (get-erase key other m))
          | inr e' ↦
              let key_other = subst (λ x. k.same x other ≡ false) same e' in
              rw (e, e', key_other)
                (subst (λ b. get other (erase key m) ≡ (if b then none else get other m)) key_other
                  (get-erase key other m))
        ]
    | inr e ↦ elim (Bool-cases (k.same c other)) [
      | inl e' ↦ rw (e, e', apart c key other e e')
      | inr e' ↦ rw (e, e') (get-erase key other m)
    ]
  ]

  -- What holds of every value still does after a write of one of which it holds.
  pub All-put :
      (P : V → Type 0) (key : K) (v : V) (m : List (K × V))
      → P v
      → All (λ e. P e.1) m
      → All (λ e. P e.1) (put key v m)
  All-put P key v [] h hs = (h, tt)
  All-put P key v ((c, u) ∷ m) h (hu, hs) =
      if_both (All (λ e. P e.1)) (k.same c key) (λ _. (h, hs)) (λ _. (hu, All-put P key v m h hs))

  pub All-erase :
      (P : V → Type 0) (key : K) (m : List (K × V))
      → All (λ e. P e.1) m
      → All (λ e. P e.1) (erase key m)
  All-erase P key [] h = tt
  All-erase P key ((c, u) ∷ m) (hu, hs) =
      if_both (All (λ e. P e.1)) (k.same c key) (λ _. All-erase P key m hs)
        (λ _. (hu, All-erase P key m hs))

  -- What holds of every value holds of one that is found.
  pub get-Meets :
      (P : V → Type 0) (key : K) (m : List (K × V)) → All (λ e. P e.1) m → Meets P (get key m)
  get-Meets P key [] hs = tt
  get-Meets P key ((c, u) ∷ m) (hu, hs) =
      if_both (Meets P) (k.same c key) (λ _. hu) (λ _. get-Meets P key m hs)

  -- Each key once, as in a map of Go.
  abbrev pub HasUniqueKeys : List (K × V) → Type 0
  HasUniqueKeys [] = Unit
  HasUniqueKeys ((c, v) ∷ m) = (get c m ≡ none) × HasUniqueKeys m

  pub HasUniqueKeys-put :
      (key : K) (v : V) (m : List (K × V)) → HasUniqueKeys m → HasUniqueKeys (put key v m)
  HasUniqueKeys-put key v [] u = (refl, tt)
  HasUniqueKeys-put key v ((c, w) ∷ m) (fresh, u) = elim (Bool-cases (k.same c key)) [
    | inl same ↦ rw same (fresh, u)
    | inr other ↦
        let apart_key : k.same key c ≡ false = elim (Bool-cases (k.same key c)) [
          | inl e ↦
              let flipped = (k.same_iff c key).1 (sym ((k.same_iff key c).0 e)) in
              let clash : true ≡ false = sym flipped ∙ other in cc
          | inr e ↦ e
        ] in
        rw other (get-put key c v m ∙ rw apart_key fresh, HasUniqueKeys-put key v m u)
  ]

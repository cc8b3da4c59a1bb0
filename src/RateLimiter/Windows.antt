-- ===== src/RateLimiter/Windows.antt =====
-- How many requests a window lets through.
use mini_world.Base.Int.{pos_part, ltb_ℤ, pos, ◌-ℤ◌, abs_laws}
use mini_world.Base.Maps.{Key, get, Meets, get-put, put, same_self}
use mini_world.RateLimiter.{
  Limits, Event, cleanup, Bucket, request, sweep, allow_found, count_allowed, allow, fresh, spend,
}
use mini_world.Base.{
  ℕ, suc, ◌-◌, ◌*◌, ◌≤◌, ◌<◌, ◌≡◌, refl, sym, subst, ◌∙◌, inl, inr, Bool, true, false, ◌&&◌, Option,
  none, some, List, [], ◌∷◌, arith, ltb, leb, if◌then◌else◌, tests, Bool-cases, All, if_both,
}

-- The event falls into the window that began at a time.
abbrev pub InWindow : {Ip : Type 0} → Limits → ℕ → Event Ip → Type 0
InWindow l start (request ip now) = now - start < l.window
InWindow l start (sweep now) = now - start < l.window

and_right : (a b : Bool) → a && b ≡ true → b ≡ true
and_right true b h = h
and_right false b h = cc

module _ {Ip : Type 0} ⦃k : Key Ip⦄ where
  -- A bucket whose window is not over survives the cleanup.
  get-cleanup :
      (l : Limits) (now : ℕ) (ip : Ip) (bs : List (Ip × Bucket)) (b : Bucket)
      → get ip bs ≡ some b
      → now - b.last_reset < l.window
      → get ip (cleanup l now bs) ≡ some b
  unfolding cleanup
  get-cleanup l now ip [] b e h = e
  get-cleanup l now ip ((c, u) ∷ bs) b e h = elim (Bool-cases (k.same c ip)) [
    | inl found ↦
        let here : some u ≡ some b =
          subst (λ t. (if t then some u else get ip bs) ≡ some b) found e in
        let is_b : u ≡ b = subst (Meets (λ x. u ≡ x)) here refl in
        let young : ltb (2 * l.window) (now - u.last_reset) ≡ false =
          subst (λ (x : Bucket). ltb (2 * l.window) (now - x.last_reset) ≡ false) (sym is_b)
            (ground arith) in
        rw (young, found) here
    | inr other ↦
        let there = subst (λ t. (if t then some u else get ip bs) ≡ some b) other e in
        let rest = get-cleanup l now ip bs b there h in
        if_both (λ (xs : List (Ip × Bucket)). get ip xs ≡ some b)
          (ltb (2 * l.window) (now - u.last_reset)) (λ _. rest) (λ _. rw other rest)
  ]

  -- A request leaves the bucket of another address alone.
  get-allow_found :
      (l : Limits) (other ip : Ip) (now : ℕ) (found : Option Bucket) (bs : List (Ip × Bucket))
      → k.same other ip ≡ false
      → get ip (allow_found l other now found bs).1 ≡ get ip bs
  get-allow_found l other ip now none bs apart = rw (get-put other ip (fresh l now) bs, apart)
  get-allow_found l other ip now (some b) bs apart =
      let P = λ (s : Bool × List (Ip × Bucket)). get ip s.1 ≡ get ip bs in
      if_both P (leb l.window (now - b.last_reset))
        (λ _. rw (get-put other ip (fresh l now) bs, apart))
        (λ _.
          if_both P (ltb_ℤ (pos 0) b.tokens) (λ _. rw (get-put other ip (spend b) bs, apart))
            (λ _. refl))

  count-step :
      (l : Limits) (ip other : Ip) (now : ℕ) (es : List (Event Ip)) (s : Bool × List (Ip × Bucket))
      (n : ℕ)
      → (s.0 && k.same other ip ≡ true → suc (count_allowed l ip es s.1) ≤ n)
      → (s.0 && k.same other ip ≡ false → count_allowed l ip es s.1 ≤ n)
      → (if s.0 && k.same other ip
          then suc (count_allowed l ip es s.1)
          else count_allowed l ip es s.1)
        ≤ n
  count-step l ip other now es s n counted free =
      if_both (λ x. x ≤ n) (s.0 && k.same other ip) counted free

  count_allowed-le :
      (l : Limits) (ip : Ip) (start : ℕ) (es : List (Event Ip)) (bs : List (Ip × Bucket))
      (b : Bucket)
      → get ip bs ≡ some b
      → b.last_reset ≡ start
      → All (InWindow l start) es
      → count_allowed l ip es bs ≤ pos_part b.tokens
  unfolding count_allowed allow
  count_allowed-le l ip start [] bs b e at h = omega arith
  count_allowed-le l ip start (sweep now ∷ es) bs b e at (h, hs) =
      count_allowed-le l ip start es (cleanup l now bs) b
        (get-cleanup l now ip bs b e (omega (arith, at, h))) at hs
  count_allowed-le l ip start (request other now ∷ es) bs b e at (h, hs) =
      elim (Bool-cases (k.same other ip)) [
        | inl same ↦
            let found : get other bs ≡ some b =
              subst (λ x. get x bs ≡ some b) (sym ((k.same_iff other ip).0 same)) e in
            let P = λ (s : Bool × List (Ip × Bucket)).
              (if s.0 && k.same other ip
                then suc (count_allowed l ip es s.1)
                else count_allowed l ip es s.1)
              ≤ pos_part b.tokens in
            subst (λ o. P (allow_found l other now o bs)) (sym found)
              (if_both P (leb l.window (now - b.last_reset))
                (λ late. absurd (omega (tests, late, at, h)))
                (λ _.
                  if_both P (ltb_ℤ (pos 0) b.tokens)
                    (λ left.
                      let rest : count_allowed l ip es (put other (spend b) bs)
                          ≤ pos_part (b.tokens -ℤ pos 1) =
                        count_allowed-le l ip start es (put other (spend b) bs) (spend b)
                          (rw (get-put other ip (spend b) bs, same)) at hs in
                      rw same (omega (abs_laws, tests, left, rest)))
                    (λ _. count_allowed-le l ip start es bs b e at hs)))
        | inr apart ↦
            let s = allow_found l other now (get other bs) bs in
            let rest =
              count_allowed-le l ip start es s.1 b
                (get-allow_found l other ip now (get other bs) bs apart ∙ e) at hs in
            count-step l ip other now es s (pos_part b.tokens)
              (λ counted. let mine = and_right s.0 (k.same other ip) counted in cc) (λ _. rest)
      ]

  -- In the window that its first request begins, an address without a bucket gets at most max(1,
  -- maxRate) requests through, whatever others ask for and whenever the cleanup runs meanwhile.
  pub count_allowed-window :
      (l : Limits) (ip : Ip) (start : ℕ) (es : List (Event Ip)) (bs : List (Ip × Bucket))
      → get ip bs ≡ none
      → All (InWindow l start) es
      → count_allowed l ip (request ip start ∷ es) bs ≤ suc (pos_part (l.max_rate -ℤ pos 1))
  unfolding count_allowed allow
  count_allowed-window l ip start es bs e h =
      let rest =
        count_allowed-le l ip start es (put ip (fresh l start) bs) (fresh l start)
          (rw (get-put ip ip (fresh l start) bs, same_self ip)) refl h in
      rw (e, same_self ip) (omega (arith, rest))

-- ===== src/Souls/Drift.antt =====
-- Natural drift never reaches liberation.
use mini_world.Souls.{
  matter32, AgentSoul, state_from_coherence, drifted, adjust_coherence, liberated, at_least_zero,
  natural_cap,
}
use mini_world.Base.Float.{Float, nought, IsOrdered, one, add32}
use mini_world.Base.{
  ◌≡◌, ◌≢◌, inl, inr, true, false, ◌&&◌, List, [], ◌∷◌, arith, Bool-cases, if_both,
}

-- Matter lies between 0 and 1 and under the bound of liberation, and a fall does not raise the
-- coherence above it; all hold of IEEE arithmetic, NaN included.
pub record IsScale (F : Type 0) (d : Float F) : Type 0 where
  pub matter_not_neg : d.lt (matter32 ⦃d = d⦄) (d.lit 0 0) ≡ false
  pub one_not_neg : d.lt (d.lit 1 0) (d.lit 0 0) ≡ false
  pub matter_below_one : d.lt (matter32 ⦃d = d⦄) (d.lit 1 0) ≡ true
  pub not_liberated :
      (x : F) → d.lt (matter32 ⦃d = d⦄) x ≡ false → d.le (d.round32 (d.lit 7 1)) x ≡ false
  pub fall :
      (x delta : F)
      → d.lt (d.lit 0 0) delta ≡ false
      → d.lt (matter32 ⦃d = d⦄) x ≡ false
      → d.lt (matter32 ⦃d = d⦄) (d.round32 (d.add x delta)) ≡ false

module _ {F : Type 0} ⦃d : Float F⦄ where
  abbrev pub IsWithin : F → Type 0
  IsWithin c = (d.lt c nought ≡ false) × (d.lt one c ≡ false)

  -- From 0 to 1, not above Matter, and not liberated.
  abbrev pub IsMortal : AgentSoul F → Type 0
  IsMortal s =
      IsWithin s.citta_coherence × (d.lt matter32 s.citta_coherence ≡ false) × (s.state ≢ liberated)

  -- The drifts of a life, in order.
  abbrev pub drifts : List F → AgentSoul F → AgentSoul F
  drifts [] s = s
  drifts (delta ∷ deltas) s = drifts deltas (adjust_coherence delta s)

  state_from_coherence-mortal :
      (c : F) → d.le (d.round32 (d.lit 7 1)) c ≡ false → state_from_coherence c ≢ liberated
  unfolding state_from_coherence
  state_from_coherence-mortal c low =
      rw low (if_both (λ x. x ≢ liberated) (d.le (d.round32 (d.lit 4 1)) c) (λ _ h. cc) (λ _ h. cc))

  drifted-IsWithin : IsOrdered F d → IsScale F d → (delta c : F) → IsWithin (drifted delta c)
  unfolding drifted
  drifted-IsWithin o scale delta c =
      let c1 = add32 c delta in
      let c2 = at_least_zero c1 in
      let c3 = natural_cap delta c2 in
      let low2 : d.lt c2 nought ≡ false =
        if_both (λ x. d.lt x nought ≡ false) (d.lt c1 nought) (λ _. o.lt_irrefl nought) (λ f. f) in
      let low3 : d.lt c3 nought ≡ false =
        if_both (λ x. d.lt x nought ≡ false) (d.lt nought delta && d.lt matter32 c2)
          (λ _. scale.matter_not_neg) (λ _. low2) in
      (
        if_both (λ x. d.lt x nought ≡ false) (d.lt one c3) (λ _. scale.one_not_neg) (λ _. low3),
        if_both (λ x. d.lt one x ≡ false) (d.lt one c3) (λ _. o.lt_irrefl one) (λ f. f),
      )

  at_least_zero-low :
      IsScale F d → (c : F) → d.lt matter32 c ≡ false → d.lt matter32 (at_least_zero c) ≡ false
  at_least_zero-low scale c low =
      if_both (λ x. d.lt matter32 x ≡ false) (d.lt c nought) (λ _. scale.matter_not_neg) (λ _. low)

  -- Up to the cap: a rise is cut off, and a fall was low already.
  natural_cap-low :
      IsOrdered F d
      → (delta c : F) → (d.lt nought delta ≡ false → d.lt matter32 c ≡ false)
      → d.lt matter32 (natural_cap delta c) ≡ false
  natural_cap-low o delta c low =
      if_both (λ x. d.lt matter32 x ≡ false) (d.lt nought delta && d.lt matter32 c)
        (λ _. o.lt_irrefl matter32)
        (λ f. elim (Bool-cases (d.lt nought delta)) [ inl up ↦ ground arith | inr down ↦ low down ])

  drifted-low :
      IsOrdered F d
      → IsScale F d
      → (delta c : F) → d.lt matter32 c ≡ false
      → d.lt matter32 (drifted delta c) ≡ false
  unfolding drifted
  drifted-low o scale delta c low =
      let c1 = add32 c delta in
      let c3 = natural_cap delta (at_least_zero c1) in
      let low3 : d.lt matter32 c3 ≡ false =
        natural_cap-low o delta (at_least_zero c1)
          (λ down. at_least_zero-low scale c1 (scale.fall c delta down low)) in
      if_both (λ x. d.lt matter32 x ≡ false) (d.lt one c3)
        (λ over. let clash = o.lt_trans matter32 one c3 scale.matter_below_one over in cc)
        (λ _. low3)

  adjust_coherence-IsMortal :
      IsOrdered F d
      → IsScale F d
      → (delta : F) (s : AgentSoul F) → IsMortal s
      → IsMortal (adjust_coherence delta s)
  unfolding adjust_coherence
  adjust_coherence-IsMortal o scale delta s (within, low, mortal) =
      let c = drifted delta s.citta_coherence in
      let low' = drifted-low o scale delta s.citta_coherence low in
      if_both IsMortal (d.lt nought delta && d.le matter32 s.citta_coherence)
        (λ _. (within, low, mortal))
        (λ _. (
          drifted-IsWithin o scale delta s.citta_coherence,
          low',
          state_from_coherence-mortal c (scale.not_liberated c low'),
        ))

  -- Where Matter lies between 0 and 1 and under the bound of liberation, the order of floats is
  -- irreflexive and transitive and a fall does not raise a coherence above Matter, no sequence of
  -- natural drifts, up or down, takes a soul that is not above Matter and not liberated above
  -- Matter, out of the range from 0 to 1, or to liberation.
  pub drifts-IsMortal :
      IsOrdered F d
      → IsScale F d
      → (deltas : List F) (s : AgentSoul F) → IsMortal s
      → IsMortal (drifts deltas s)
  drifts-IsMortal o scale [] s h = h
  drifts-IsMortal o scale (delta ∷ deltas) s h =
      drifts-IsMortal o scale deltas (adjust_coherence delta s)
        (adjust_coherence-IsMortal o scale delta s h)

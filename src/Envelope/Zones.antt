-- ===== src/Envelope/Zones.antt =====
-- How the zones of include/safety_core/safety/safety_envelope.hpp depend on the distance and the speed.
use safety_autonomy_core.Common.{
  ℕ, ◌≤◌, ◌≡◌, ◌⊎◌, inl, inr, true, false, arith, refl, ap, ◌∙◌, Bool-cases, if◌then◌else◌,
}
use safety_autonomy_core.Common.Double.{Double, nought, fmax}
use safety_autonomy_core.Common.Double.Laws.{
  ◌≼◌, IsOrdered, IsMonotone, lt_of_le-lt, lt_of_lt-le, fmax_nought_mono, nought-le-fmax,
  fmax-nought_finite, nought_refl, lt_not_a_number,
}
use safety_autonomy_core.Envelope.{
  SafetyZone, EnvelopeEvaluation, required_of, zone_of, evaluation_of, evaluate_stop_distance,
}

-- The values of `enum class SafetyZone : std::uint8_t`.
abbrev pub zone_number : SafetyZone → ℕ
zone_number SafetyZone.clear = 0
zone_number SafetyZone.warning = 1
zone_number SafetyZone.protective = 2
zone_number SafetyZone.emergency = 3

module _ {W : Type 0} ⦃d : Double W⦄ where
  open d use {dec, infinity, lt, le, is_finite, add, mul, div}

  -- The zone is no more severe at `(a', r')` than at `(a, r)`, if no threshold is crossed upwards.
  zone_of_mono :
      (a a' r r' v v' decel decel' buffer : W)
      → (lt a' buffer ≡ true → lt a buffer ≡ true)
      → (le r a ≡ true → le r' a' ≡ true)
      → (lt a' (mul r' (dec 15 1)) ≡ true → lt a (mul r (dec 15 1)) ≡ true)
      → zone_number (zone_of a' r' v' decel' buffer).0 ≤ zone_number (zone_of a r v decel buffer).0
  unfolding zone_of
  zone_of_mono a a' r r' v v' decel decel' buffer h k l = ground arith

  zone-eq :
      (a v decel latency buffer : W)
      → (evaluate_stop_distance a v decel latency buffer).zone
        ≡ (zone_of a
            (required_of v decel latency buffer)
            (fmax nought v)
            (fmax nought decel)
            buffer).0
  unfolding evaluate_stop_distance evaluation_of
  zone-eq a v decel latency buffer = refl

-- The evaluation that stops the robot.
abbrev pub IsHeld : {W : Type 0} ⦃d : Double W⦄ → EnvelopeEvaluation W → Type 0
IsHeld e =
    (e.within_envelope ≡ false)
    × (e.zone ≡ SafetyZone.protective)
    × (e.recommended_speed_limit_mps ≡ nought)

module _ {W : Type 0} ⦃d : Double W⦄ (laws : IsOrdered W) where
  open d use {dec, infinity, lt, le, is_finite, add, mul, div}
  open laws use {le_trans, refl_of_le, lt-eq-not-le, le_of_lt}

  -- For the same speed, limits and buffer, a nearer obstacle is never in a less severe zone. This holds
  -- for all values, not a number and infinities included.
  pub zone_of_nearer :
      (near far v decel latency buffer : W)
      → near ≼ far
      → zone_number (evaluate_stop_distance far v decel latency buffer).zone
        ≤ zone_number (evaluate_stop_distance near v decel latency buffer).zone
  zone_of_nearer near far v decel latency buffer h =
      let r = required_of v decel latency buffer in
      rw (zone-eq far v decel latency buffer, zone-eq near v decel latency buffer)
        (zone_of_mono near far r r _ _ _ _ buffer (lt_of_le-lt laws near far buffer h)
          (λ k. le_trans r near far k h) (lt_of_le-lt laws near far _ h))

  distance_not_a_number :
      (a v decel latency buffer : W)
      → le a a ≡ false
      → IsHeld (evaluate_stop_distance a v decel latency buffer)
  unfolding evaluate_stop_distance evaluation_of zone_of
  distance_not_a_number a v decel latency buffer h =
      rw
        (
          (lt_not_a_number laws a buffer h).0,
          (lt_not_a_number laws a (required_of v decel latency buffer) h).2,
        )
        (refl, refl, refl)

  lt-nought : lt nought nought ≡ false
  lt-nought =
      ground
        (arith, lt-eq-not-le nought nought (nought_refl laws) (nought_refl laws), nought_refl laws)

  fmax_not_a_number : (v : W) → le v v ≡ false → fmax nought v ≡ fmax nought nought
  fmax_not_a_number v h = rw ((lt_not_a_number laws v nought h).1, lt-nought) refl

  required_not_a_number :
      (v decel latency buffer : W)
      → le v v ≡ false
      → required_of v decel latency buffer ≡ required_of nought decel latency buffer
  unfolding required_of
  required_not_a_number v decel latency buffer h =
      let two = mul (dec 2 0) (fmax nought decel) in
      ap
        (λ s.
          add
            (add (mul s (fmax nought latency))
              (if lt nought (fmax nought decel) then div (mul s s) two else infinity))
            buffer)
        (fmax_not_a_number v h)

  speed_not_a_number :
      (a v decel latency buffer : W)
      → le v v ≡ false
      → evaluate_stop_distance a v decel latency buffer
        ≡ evaluate_stop_distance a nought decel latency buffer
  unfolding evaluate_stop_distance
  speed_not_a_number a v decel latency buffer h =
      ap (λ r. evaluation_of a r (fmax nought v) (fmax nought decel) buffer)
        (required_not_a_number v decel latency buffer h)
      ∙ ap
          (λ s.
            evaluation_of a (required_of nought decel latency buffer) s (fmax nought decel) buffer)
          (fmax_not_a_number v h)

  -- A distance that is not a number is never within the envelope: the zone is Protective and the
  -- recommended speed 0. A speed that is not a number is evaluated as standstill.
  pub evaluate_not_a_number :
      (a v decel latency buffer : W)
      → let e = evaluate_stop_distance a v decel latency buffer in
        ((a ≼ a) ⊎ IsHeld e)
        × ((v ≼ v) ⊎ (e ≡ evaluate_stop_distance a nought decel latency buffer))
  evaluate_not_a_number a v decel latency buffer = (
    elim (Bool-cases (le a a)) [
      | inl h ↦ inl h
      | inr h ↦ inr (distance_not_a_number a v decel latency buffer h)
    ],
    elim (Bool-cases (le v v)) [
      | inl h ↦ inl h
      | inr h ↦ inr (speed_not_a_number a v decel latency buffer h)
    ],
  )

  module _ (monotone : IsMonotone W) where
    open monotone use {
      add_nonneg, add_mono, mul_nonneg, mul_mono, half_more_mono, div_nonneg, div_mono, twice_pos,
      infinity_nonneg,
    }

    -- The braking distance.
    braking_mono :
        (s f decel : W)
        → nought ≼ s
        → s ≼ f
        → is_finite s ≡ true
        → is_finite f ≡ true
        → is_finite (mul (dec 2 0) decel) ≡ true
        → let at =
            λ (v : W). if lt nought decel then div (mul v v) (mul (dec 2 0) decel) else infinity in
          (nought ≼ at s) × (at s ≼ at f)
    braking_mono s f decel h k fs ff fd = elim (Bool-cases (lt nought decel)) [
      | inl p ↦ rw p (
        div_nonneg _ _ (mul_nonneg s s h fs h fs) (twice_pos decel p) fd,
        div_mono _ _ _ (mul_nonneg s s h fs h fs) (mul_mono s f s f h k ff h k ff)
            (twice_pos decel p) fd,
      )
      | inr p ↦ rw p (infinity_nonneg, (refl_of_le nought infinity infinity_nonneg).1)
    ]

    required_of_mono :
        (slow fast decel latency buffer : W)
        → slow ≼ fast
        → is_finite slow ≡ true
        → is_finite fast ≡ true
        → is_finite latency ≡ true
        → is_finite (mul (dec 2 0) (fmax nought decel)) ≡ true
        → nought ≼ buffer
        → (nought ≼ required_of slow decel latency buffer)
          × (required_of slow decel latency buffer ≼ required_of fast decel latency buffer)
    unfolding required_of
    required_of_mono slow fast decel latency buffer h fs ff fl fd hb =
        let s = fmax nought slow in
        let f = fmax nought fast in
        let t = fmax nought latency in
        let hs = nought-le-fmax laws slow in
        let ht = nought-le-fmax laws latency in
        let less = fmax_nought_mono laws slow fast h in
        let fs' = fmax-nought_finite laws slow fs in
        let ff' = fmax-nought_finite laws fast ff in
        let ft' = fmax-nought_finite laws latency fl in
        let (b, b') = braking_mono s f (fmax nought decel) hs less fs' ff' fd in
        let moved = mul_nonneg s t hs fs' ht ft' in
        let moved' = mul_mono s f t t hs less ff' ht (refl_of_le nought t ht).1 ft' in
        (
          add_nonneg _ _ (add_nonneg _ _ moved b) hb,
          add_mono _ _ _ _ (add_nonneg _ _ moved b) (add_mono _ _ _ _ moved moved' b b') hb
              (refl_of_le nought buffer hb).1,
        )

    -- For the same distance, limits and a buffer that is not negative, a faster robot is never in a
    -- less severe zone: for finite speeds and a finite latency, and a deceleration whose double is
    -- finite.
    pub zone_of_faster :
        (a slow fast decel latency buffer : W)
        → slow ≼ fast
        → is_finite slow ≡ true
        → is_finite fast ≡ true
        → is_finite latency ≡ true
        → is_finite (mul (dec 2 0) (fmax nought decel)) ≡ true
        → nought ≼ buffer
        → zone_number (evaluate_stop_distance a slow decel latency buffer).zone
          ≤ zone_number (evaluate_stop_distance a fast decel latency buffer).zone
    zone_of_faster a slow fast decel latency buffer h fs ff fl fd hb =
        let (nonneg, less) = required_of_mono slow fast decel latency buffer h fs ff fl fd hb in
        let s = required_of slow decel latency buffer in
        let f = required_of fast decel latency buffer in
        rw (zone-eq a slow decel latency buffer, zone-eq a fast decel latency buffer)
          (zone_of_mono a a f s _ _ _ _ buffer (λ k. k) (λ k. le_trans s f a less k)
            (λ k. lt_of_lt-le laws a _ _ k (half_more_mono s f nonneg less)))

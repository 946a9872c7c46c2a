-- ===== src/Risk/Hysteresis.antt =====
-- The state machine of PRISM/src/risk/risk_model.cpp.
use prism_dev.Common.{
  ◌≡◌, ◌↔◌, refl, ap, ◌∙◌, arith, Bool, true, false, List, [], ◌∷◌, Option, none, some,
  if◌then◌else◌,
}
use prism_dev.Common.Latch.{obeying, last_signal, obeying-last_signal}
use prism_dev.Double.{Double, ◌≼◌, IsOrdered}
use prism_dev.Packet.{medium, high}
use prism_dev.Risk.{DetectionResult, probability_of, switch, decide_level, evaluate, run}

module _ {ℓ} {W : Type ℓ} ⦃d : Double W⦄ where
  -- What a probability says of the alarm: on from 0.7 up, off from 0.5 down, and nothing between.
  abbrev pub signal_of : DetectionResult W → Option Bool
  signal_of r =
      if d.le (d.lit 7 1) (probability_of r)
      then some true
      else if d.le (probability_of r) (d.lit 5 1)
      then some false
      else none

  -- Each decision follows the flag: the level is high, the writes are restricted and the alarm is
  -- escalated exactly when the flag is on; otherwise the level is medium exactly above 0.4.
  -- The decision carries the probability.
  pub evaluate_levels :
      (is_on : Bool) (r : DetectionResult W)
      → let (on, decision) = evaluate is_on r in
        ((decision.level ≡ high) ↔ (on ≡ true))
        × (decision.restrict_writes ≡ on)
        × (decision.escalate ≡ on)
        × ((decision.level ≡ medium)
            ↔ ((on ≡ false) × (d.lt (d.lit 4 1) (probability_of r) ≡ true)))
        × (decision.probability ≡ probability_of r)
  unfolding evaluate decide_level
  evaluate_levels is_on r = ground arith

  module _ (laws : IsOrdered W) where
    open laws use {lt_of_le_lt, lt_irrefl, le_trans, thresholds}

    -- No probability reaches both thresholds.
    disjoint : (p : W) → d.lit 7 1 ≼ p → p ≼ d.lit 5 1 → ⊥
    disjoint p up down = ground (
      arith,
      lt_of_le_lt (d.lit 7 1) (d.lit 5 1) (d.lit 7 1) (le_trans (d.lit 7 1) p (d.lit 5 1) up down)
          thresholds,
      lt_irrefl (d.lit 7 1),
    )

    pub evaluate-signal_of :
        (is_on : Bool) (r : DetectionResult W) → (evaluate is_on r).0 ≡ obeying (signal_of r) is_on
    unfolding evaluate switch
    evaluate-signal_of is_on r = ground (arith, disjoint (probability_of r))

    -- Where `double` is ordered as IsOrdered states, after any sequence of results the flag is what
    -- the last decisive one made of it: on if its probability was at least 0.7, off if it was at
    -- most 0.5; and if none was decisive, it is as at first.
    pub run-last_signal :
        (is_on : Bool) (rs : List (DetectionResult W))
        → run is_on rs ≡ obeying (last_signal signal_of rs) is_on
    unfolding run
    run-last_signal is_on [] = refl
    run-last_signal is_on (r ∷ rs) =
        run-last_signal (evaluate is_on r).0 rs
        ∙ ap (obeying (last_signal signal_of rs)) (evaluate-signal_of is_on r)
        ∙ obeying-last_signal signal_of r rs is_on

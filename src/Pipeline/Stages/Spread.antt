-- ===== src/Pipeline/Stages/Spread.antt =====
-- What PRISM/src/main.cpp makes of a window whose records come at irregular times.
use prism_dev.Common.{◌≡◌, Bool, true}
use prism_dev.Double.{Double, ◌≼◌, IsOrdered, IsMonotone, IsSpread}
use prism_dev.Packet.{high}
use prism_dev.Features.{Iteration, compute}
use prism_dev.Features.Laws.{feature}
use prism_dev.Detection.{hst_score, burst_score, base_sigma, epsilon}
use prism_dev.Detection.Laws.{scores_lem}
use prism_dev.Risk.{DetectionResult, sigmoid, probability_of, evaluate, fuse}
use prism_dev.Risk.Monotone.{sigmoid_mono, le-max_right}
use prism_dev.Pipeline.Stages.{Assessment, result_of}
use prism_dev.Pipeline.Stages.Alarm.{loud_evaluate}

module _ {ℓ} (W : Type ℓ) ⦃d : Double W⦄ (order : IsOrdered W) (mono : IsMonotone W)
    (spread : IsSpread W) where
  open order use {le_trans, refl_right}
  open mono use {div_ten}
  open spread use {square, distance, div_base, loud_spread}

  -- The burst score at the deviation 0.9.
  abbrev spread_score : W
  spread_score =
      d.div (d.abs (d.sub (d.mul (d.lit 9 1) (d.lit 9 1)) (d.mul base_sigma base_sigma)))
        (d.add epsilon base_sigma)

  burst_score_of_spread :
      (it : Iteration) (a : Assessment)
      → d.lit 9 1 ≼ feature it a.window 6
      → spread_score ≼ burst_score (compute {W = W} it a.window)
  burst_score_of_spread it a wide =
      rw (scores_lem {W = W} it a.window).1
        (div_base _ _ (distance _ (square (feature it a.window 6) wide)))

  spread_loud :
      (r : DetectionResult W)
      → spread_score ≼ r.burst_score
      → r.hst_score ≼ r.hst_score
      → d.lit 7 1 ≼ probability_of r
  unfolding probability_of sigmoid
  spread_loud r h number =
      let weight = d.div spread_score (d.lit 100 1) in
      let s = sigmoid (d.div r.burst_score (d.lit 100 1)) in
      let t = sigmoid (d.div r.hst_score (d.lit 100 1)) in
      let above : sigmoid weight ≼ s =
        sigmoid_mono order mono weight _ (div_ten _ r.burst_score h) in
      le_trans (d.lit 7 1) s _ (le_trans (d.lit 7 1) (sigmoid weight) s loud_spread above) (
        le-max_right order mono t s (sigmoid_mono order mono _ _ (div_ten _ _ number))
          (refl_right (sigmoid weight) s above))

  -- Where `double` is ordered, monotone and spread as IsOrdered, IsMonotone and IsSpread state: a
  -- window whose feature 6, the deviation of the gaps, is 0.9 or more has a probability of 0.7 or
  -- more, if its tree score is a number and not NaN. The alarm is on after it, whatever it was
  -- before, and the decision is of a high level and restricts the writes; it is not asked whether a
  -- record of the window is a write.
  pub spread_alarm :
      (it : Iteration) (a : Assessment) (is_on : Bool)
      → d.lit 9 1 ≼ feature it a.window 6
      → hst_score (compute {W = W} it a.window) ≼ hst_score (compute it a.window)
      → let r = result_of {W = W} it a in
        let (on, decision) = evaluate is_on r in
        (d.lit 7 1 ≼ probability_of r)
        × (on ≡ true)
        × (decision.level ≡ high)
        × (decision.restrict_writes ≡ true)
  unfolding result_of fuse
  spread_alarm it a is_on wide number =
      let r = result_of {W = W} it a in
      let loud = spread_loud r (burst_score_of_spread it a wide) number in
      let (on, level, restricts) = loud_evaluate order is_on r loud in (loud, on, level, restricts)

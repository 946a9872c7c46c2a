-- ===== src/Pipeline/Stages/Writes.antt =====
-- What PRISM/src/main.cpp makes of a window with many writes.
use prism_dev.Common.{◌≡◌, ◌*◌, ◌≤◌, ◌<◌, ◌^◌, Bool, true, length}
use prism_dev.Double.{Double, ◌≼◌, IsExact, IsOrdered, IsMonotone, IsWeighted}
use prism_dev.Packet.{Window, high}
use prism_dev.Features.{Iteration, compute}
use prism_dev.Features.Laws.{IsIteration, feature}
use prism_dev.Features.Shares.{write_count, features_of_writes}
use prism_dev.Detection.{hst_score}
use prism_dev.Detection.Laws.{scores_lem}
use prism_dev.Risk.{DetectionResult, sigmoid, probability_of, evaluate, fuse}
use prism_dev.Risk.Monotone.{sigmoid_mono, le-max_left}
use prism_dev.Pipeline.Stages.Alarm.{loud_evaluate}
use prism_dev.Pipeline.Stages.{Assessment, result_of}

module _ {ℓ} (W : Type ℓ) ⦃d : Double W⦄ (exact : IsExact W) (order : IsOrdered W)
    (mono : IsMonotone W) (weighted : IsWeighted W) where
  open order use {le_trans, refl_right}
  open mono use {div_ten}
  open weighted use {mul_fifty, weights, mul_share, add_nonneg, loud_weight}

  loud_score :
      (r : DetectionResult W)
      → d.mul (d.lit 3 1) (d.lit 500 1) ≼ r.hst_score
      → d.lit 7 1 ≼ probability_of r
  unfolding probability_of sigmoid
  loud_score r h =
      let weight = d.div (d.mul (d.lit 3 1) (d.lit 500 1)) (d.lit 100 1) in
      let s = sigmoid (d.div r.hst_score (d.lit 100 1)) in
      let above : sigmoid weight ≼ s = sigmoid_mono order mono weight _ (div_ten _ r.hst_score h) in
      le_trans (d.lit 7 1) s _ (le_trans (d.lit 7 1) (sigmoid weight) s loud_weight above) (
        le-max_left order mono s (sigmoid (d.div r.burst_score (d.lit 100 1)))
          (refl_right (sigmoid weight) s above))

  module _ (it : Iteration) (once : IsIteration it) where
    hst_score_of_writes :
        (w : Window)
        → 0 < length w.records
        → length w.records < 2 ^ 31
        → 3 * length w.records ≤ 10 * write_count w
        → d.mul (d.lit 3 1) (d.lit 500 1) ≼ hst_score (compute {W = W} it w)
    hst_score_of_writes w pos small many =
        let (f1_nonneg, f1_low, f1_high, f2_nonneg, f3_nonneg) =
          features_of_writes W exact weighted it once w pos small many in
        let f1 = feature {W = W} it w 1 in
        let x = d.mul f1 (d.lit 500 1) in
        let y = d.mul (feature {W = W} it w 2) (d.lit 25 1) in
        let z = d.mul (d.mul (feature {W = W} it w 3) f1) (d.lit 200 1) in
        let x_nonneg = (weights f1 f1_nonneg).0 in
        let y_nonneg = (weights (feature it w 2) f2_nonneg).1 in
        let z_nonneg =
          (weights (d.mul (feature it w 3) f1)
            (mul_share (feature it w 3) f1 f3_nonneg f1_low f1_high)).2 in
        let x_y = add_nonneg x y x_nonneg y_nonneg in
        let sum =
          add_nonneg (d.add x y) z (le_trans (d.lit 0 1) x (d.add x y) x_nonneg x_y) z_nonneg in
        rw (scores_lem {W = W} it w).0
          (le_trans _ x _ (mul_fifty (d.lit 3 1) f1 f1_low) (le_trans x (d.add x y) _ x_y sum))

    -- Where counts are exact and `double` is ordered, monotone and weighted as IsExact, IsOrdered,
    -- IsMonotone and IsWeighted state: a window of 1 to 2^31 - 1 records, of which three tenths or
    -- more are writes, has a probability of 0.7 or more, whatever else is in the records and in
    -- whatever order the maps are gone through. The alarm is on after it, whatever it was before, and
    -- the decision is of a high level and restricts the writes.
    pub writes_alarm :
        (a : Assessment) (is_on : Bool)
        → 0 < length a.window.records
        → length a.window.records < 2 ^ 31
        → 3 * length a.window.records ≤ 10 * write_count a.window
        → let r = result_of {W = W} it a in
          let (on, decision) = evaluate is_on r in
          (d.lit 7 1 ≼ probability_of r)
          × (on ≡ true)
          × (decision.level ≡ high)
          × (decision.restrict_writes ≡ true)
    unfolding result_of fuse
    writes_alarm a is_on pos small many =
        let r = result_of {W = W} it a in
        let loud : d.lit 7 1 ≼ probability_of r =
          loud_score r (hst_score_of_writes a.window pos small many) in
        let (on, level, restricts) = loud_evaluate order is_on r loud in
        (loud, on, level, restricts)

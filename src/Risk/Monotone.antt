-- ===== src/Risk/Monotone.antt =====
-- How the probability of PRISM/src/risk/risk_model.cpp depends on the scores.
use prism_dev.Common.{◌≡◌, arith, Bool, true}
use prism_dev.Double.{Double, ◌≼◌, IsOrdered, IsMonotone}
use prism_dev.Risk.{DetectionResult, sigmoid, max_double, probability_of, switch, evaluate}

module _ {ℓ} {W : Type ℓ} ⦃d : Double W⦄ (order : IsOrdered W) (mono : IsMonotone W) where
  open order use {le_trans, refl_left, refl_right, le_of_lt, le_of_not_lt}
  open mono use {
    div_ten, sub_one, mul_minus_two, exp_mono, exp_nonneg, one_add, one_le, one_div, one_div_bounds,
  }

  abbrev exponent : W → W
  exponent z = d.mul (d.neg (d.lit 20 1)) (d.sub z (d.lit 10 1))

  exponent_falls : (y z : W) → y ≼ z → exponent z ≼ exponent y
  exponent_falls y z h = mul_minus_two (d.sub y (d.lit 10 1)) (d.sub z (d.lit 10 1)) (sub_one y z h)

  pub sigmoid_mono : (y z : W) → y ≼ z → sigmoid y ≼ sigmoid z
  unfolding sigmoid
  sigmoid_mono y z h =
      let falls = exponent_falls y z h in
      let low = exp_nonneg (exponent z) (refl_left (exponent z) (exponent y) falls) in
      one_div (d.add (d.lit 10 1) (d.exp (exponent z))) (d.add (d.lit 10 1) (d.exp (exponent y)))
        (one_le (d.exp (exponent z)) low)
        (one_add (d.exp (exponent z)) (d.exp (exponent y)) low
          (exp_mono (exponent z) (exponent y) falls))

  sigmoid_bounds : (z : W) → z ≼ z → (d.lit 0 1 ≼ sigmoid z) × (sigmoid z ≼ d.lit 10 1)
  unfolding sigmoid
  sigmoid_bounds z h =
      one_div_bounds (d.add (d.lit 10 1) (d.exp (exponent z)))
        (one_le (d.exp (exponent z)) (exp_nonneg (exponent z) (exponent_falls z z h)))

  pub le-max_left : (a b : W) → a ≼ a → a ≼ max_double a b
  le-max_left a b h = ground (arith, le_of_lt a b)

  pub le-max_right : (a b : W) → a ≼ a → b ≼ b → b ≼ max_double a b
  le-max_right a b h k = ground (arith, le_of_not_lt a b)

  max-le : (a b c : W) → a ≼ c → b ≼ c → max_double a b ≼ c
  max-le a b c h k = ground arith

  max_mono : (a b x y : W) → a ≼ x → b ≼ y → max_double a b ≼ max_double x y
  max_mono a b x y h k =
      max-le a b (max_double x y)
        (le_trans a x (max_double x y) h (le-max_left x y (refl_right a x h)))
        (le_trans b y (max_double x y) k (le-max_right x y (refl_right a x h) (refl_right b y k)))

  -- Both scores of the one result are at most those of the other, and none is NaN.
  abbrev pub Below : DetectionResult W → DetectionResult W → Type 0
  Below r s = (r.hst_score ≼ s.hst_score) × (r.burst_score ≼ s.burst_score)

  probability_mono : (r s : DetectionResult W) → Below r s → probability_of r ≼ probability_of s
  unfolding probability_of
  probability_mono r s (h, b) =
      max_mono _ _ _ _ (sigmoid_mono _ _ (div_ten r.hst_score s.hst_score h))
        (sigmoid_mono _ _ (div_ten r.burst_score s.burst_score b))

  -- Where `double` is ordered and monotone as IsOrdered and IsMonotone state: with scores that are
  -- at least as high the probability is at least as high, and an alarm that is raised or held on
  -- the lower scores is raised or held on the higher ones.
  pub evaluate_mono :
      (is_on : Bool) (r s : DetectionResult W)
      → Below r s
      → (probability_of r ≼ probability_of s)
        × ((evaluate is_on r).0 ≡ true → (evaluate is_on s).0 ≡ true)
  unfolding evaluate switch
  evaluate_mono is_on r s h =
      let p = probability_of r in
      let q = probability_of s in
      let le = probability_mono r s h in
      (le, ground (arith, le_trans (d.lit 7 1) p q, le_trans p q (d.lit 5 1) le))

  -- Where `double` is ordered and monotone as IsOrdered and IsMonotone state, the probability of
  -- scores that are numbers, and not NaN, lies between 0 and 1.
  pub probability_bounds :
      (r : DetectionResult W)
      → Below r r
      → (d.lit 0 1 ≼ probability_of r) × (probability_of r ≼ d.lit 10 1)
  unfolding probability_of
  probability_bounds r (h, b) =
      let x = d.div r.hst_score (d.lit 100 1) in
      let y = d.div r.burst_score (d.lit 100 1) in
      let (x_low, x_high) = sigmoid_bounds x (div_ten _ _ h) in
      let (y_low, y_high) = sigmoid_bounds y (div_ten _ _ b) in
      (
        le_trans (d.lit 0 1) (sigmoid x) (max_double (sigmoid x) (sigmoid y)) x_low
            (le-max_left (sigmoid x) (sigmoid y) (refl_right (d.lit 0 1) (sigmoid x) x_low)),
        max-le (sigmoid x) (sigmoid y) (d.lit 10 1) x_high y_high,
      )

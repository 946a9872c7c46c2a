-- ===== src/Detection.antt =====
-- PRISM/src/detection: the two detectors, hst.cpp and burst.cpp.
use prism_dev.Common.{ℕ, List, length, get_or, ltb, if◌then◌else◌}
use prism_dev.Double.{Double}
pub mod Laws

module _ {ℓ} {W : Type ℓ} ⦃d : Double W⦄ where
  -- `fv.values[i]`, which is read behind the test of the size.
  abbrev pub value : List W → ℕ → W
  value fv i = get_or fv i (d.lit 0 1)

  -- HalfSpaceTrees::score.
  unfoldable pub hst_score : List W → W
  hst_score fv =
      if ltb (length fv) 8 then d.lit 0 1 else d.add (d.add write_risk func_risk) spray_risk
    where
      write_risk : W
      write_risk = d.mul (value fv 1) (d.lit 500 1)

      func_risk : W
      func_risk = d.mul (value fv 2) (d.lit 25 1)

      spray_risk : W
      spray_risk = d.mul (d.mul (value fv 3) (value fv 1)) (d.lit 200 1)

  -- BASE_SIGMA and EPSILON.
  abbrev pub base_sigma : W
  base_sigma = d.lit 5 2

  abbrev pub epsilon : W
  epsilon = d.lit 1 3

  -- BurstDetector::score.
  unfoldable pub burst_score : List W → W
  burst_score fv =
      if ltb (length fv) 8
      then d.lit 0 1
      else d.div (d.abs (d.sub var_current var_base)) (d.add epsilon base_sigma)
    where
      current_sigma : W
      current_sigma = value fv 6

      var_current : W
      var_current = d.mul current_sigma current_sigma

      var_base : W
      var_base = d.mul base_sigma base_sigma

-- ===== src/Risk.antt =====
-- PRISM/src/risk/risk_model.cpp: the fusion of the two scores, with hysteresis. The only state is
-- the flag `isOn_`.
use prism_dev.Common.{List, [], ◌∷◌, Bool, true, false, not, ◌&&◌, if◌then◌else◌}
use prism_dev.Double.{Double}
use prism_dev.Packet.{RiskLevel, low, medium, high}
pub mod Hysteresis
pub mod Monotone

pub record DetectionResult {ℓ} (W : Type ℓ) : Type ℓ where
  pub hst_score : W
  pub burst_score : W

pub record RiskDecision {ℓ} (W : Type ℓ) : Type ℓ where
  pub level : RiskLevel
  pub escalate : Bool
  pub restrict_writes : Bool
  pub probability : W

module _ {ℓ} {W : Type ℓ} ⦃d : Double W⦄ where
  -- tauOn_, tauOff_ and k_.
  abbrev pub tau_on : W
  tau_on = d.lit 7 1

  abbrev pub tau_off : W
  tau_off = d.lit 5 1

  abbrev pub steepness : W
  steepness = d.lit 20 1

  unfoldable pub fuse : W → W → DetectionResult W
  fuse hst burst = record { hst_score = hst; burst_score = burst }

  unfoldable pub sigmoid : W → W
  sigmoid z =
      d.div (d.lit 10 1)
        (d.add (d.lit 10 1) (d.exp (d.mul (d.neg steepness) (d.sub z (d.lit 10 1)))))

  -- `std::max`: the first argument unless it is less than the second.
  abbrev pub max_double : W → W → W
  max_double a b = if d.lt a b then b else a

  -- The probability that a pair of scores is given.
  unfoldable pub probability_of : DetectionResult W → W
  probability_of r =
      max_double (sigmoid (d.div r.hst_score (d.lit 100 1)))
        (sigmoid (d.div r.burst_score (d.lit 100 1)))

  -- `isOn_` after the test of the thresholds.
  unfoldable pub switch : Bool → W → Bool
  switch is_on p =
      if not is_on && d.le tau_on p then true else if is_on && d.le p tau_off then false else is_on

  unfoldable pub decide_level : Bool → W → RiskDecision W
  decide_level is_on p =
      if is_on
      then record { level = high; escalate = true; restrict_writes = true; probability = p }
      else if not is_on && d.lt (d.lit 4 1) p
      then record { level = medium; escalate = false; restrict_writes = false; probability = p }
      else record { level = low; escalate = false; restrict_writes = false; probability = p }

  unfoldable pub evaluate : Bool → DetectionResult W → Bool × RiskDecision W
  evaluate is_on r = let p = probability_of r in let on = switch is_on p in (on, decide_level on p)

  -- The flag after a sequence of results.
  unfoldable pub run : Bool → List (DetectionResult W) → Bool
  run is_on [] = is_on
  run is_on (r ∷ rs) = run (evaluate is_on r).0 rs

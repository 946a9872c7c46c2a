-- ===== src/Tests/Alarms.antt =====
-- Examples for the risk model and the enforcer.
use prism_dev.Common.{◌+◌, ◌≡◌, refl, true, false, [], ◌∷◌, none}
use prism_dev.Common.Latch.{obeying, last_signal}
use prism_dev.Double.{◌≼◌}
use prism_dev.Double.Fixed.{Fixed, fixed_double, Fixed-IsOrdered, Fixed-IsMonotone}
use prism_dev.Packet.{high}
use prism_dev.Risk.{DetectionResult, RiskDecision, probability_of, run}
use prism_dev.Risk.Hysteresis.{signal_of, run-last_signal}
use prism_dev.Risk.Monotone.{evaluate_mono}
use prism_dev.Enforcement.{send_safety_coil, engage, Net, apply}
use prism_dev.Enforcement.Debounce.{
  Asks, Reaches, apply_lem, delivered, delivered_once, attempts, never_again,
}
use prism_dev.Enforcement.Debounce
use prism_dev.Tests.{good_net}

abbrev quiet : DetectionResult Fixed
quiet = record { hst_score = fixed_double.lit 0 1; burst_score = fixed_double.lit 100 1 }

abbrev loud : DetectionResult Fixed
loud = record { hst_score = fixed_double.lit 9000 1; burst_score = fixed_double.lit 300 1 }

run-last_signal_example :
    run false (quiet ∷ loud ∷ []) ≡ obeying (last_signal signal_of (quiet ∷ loud ∷ [])) false
run-last_signal_example = run-last_signal Fixed-IsOrdered false (quiet ∷ loud ∷ [])

evaluate_mono_example : probability_of quiet ≼ probability_of loud
evaluate_mono_example =
    (evaluate_mono Fixed-IsOrdered Fixed-IsMonotone false quiet loud (refl, refl)).0

abbrev alarming : RiskDecision Fixed
alarming = record {
  level = high;
  escalate = true;
  restrict_writes = true;
  probability = fixed_double.lit 9 1;
}

abbrev bad_net : Net
bad_net = record { made = true; connected = false; written = none }

delivered_once_example :
    delivered false ((alarming, bad_net) ∷ (alarming, good_net) ∷ (alarming, good_net) ∷ []) + 0 ≡ 1
unfolding Debounce.run apply engage send_safety_coil
delivered_once_example =
    delivered_once false ((alarming, bad_net) ∷ (alarming, good_net) ∷ (alarming, good_net) ∷ [])

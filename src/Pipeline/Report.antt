-- ===== src/Pipeline/Report.antt =====
-- The lines that PRISM/src/main.cpp logs about a packet, and PRISM/src/enforcement/enforcer.cpp for it.
use Prim.Native.String.{◌++◌}
use prism_dev.Common.{
  not, ◌+◌, ℕ, refl, ◌≡◌, arith, String, Bool, true, false, ◌&&◌, List, [], ◌∷◌, length, count_if,
  get_or, if◌then◌else◌,
}
use prism_dev.Double.{Double}
use prism_dev.Packet.{RawPacket, ParsedRecord, RiskLevel, low, medium, high}
use prism_dev.Features.{Iteration}
use prism_dev.Enforcement.{Net}
use prism_dev.Enforcement.Debounce.{bit}
use prism_dev.Socket.{logs}
use prism_dev.Logging.{Severity, info, warn, error}
use prism_dev.Pipeline.{Monitor, Step, Alert, alerted, process}
use prism_dev.Pipeline.Names.{fc_name}
use prism_dev.Pipeline.Signals.{Follows, process-Follows}

-- `fixed n` writes a `double` with `n` digits after the point, `to_string` a number, and `text_of`
-- reads the bytes of a text.
pub record Format {ℓ} (W : Type ℓ) : Type ℓ where
  pub fixed : ℕ → W → String
  pub to_string : ℕ → String
  pub text_of : List ℕ → String

abbrev pub Lines : Type 0
Lines = List (Severity × String)

-- Lines behind some that were logged as errors.
abbrev pub behind_errors : List String → Lines → Lines
behind_errors [] more = more
behind_errors (s ∷ ss) more = (error, s) ∷ behind_errors ss more

unfoldable pub severity_of : RiskLevel → Severity
severity_of high = error
severity_of medium = warn
severity_of low = info

module _ {ℓ} {W : Type ℓ} ⦃d : Double W⦄ (format : Format W) where
  open format use {fixed, to_string, text_of}

  unfoldable pub alert_line : Alert W → String
  alert_line a =
      "ALERT: "
      ++ a.label
      ++ " "
      ++ text_of a.bar
      ++ " Risk: "
      ++ fixed 2 (d.mul a.decision.probability (d.lit 1000 1))
      ++ "%"
      ++ " — "
      ++ a.action

  unfoldable pub identity_line : ParsedRecord → String
  identity_line r =
      " "
      ++ r.protocol
      ++ " "
      ++ (if r.is_request then "Request" else "Response")
      ++ " | FC "
      ++ to_string r.function_code
      ++ " ("
      ++ fc_name to_string r.protocol r.function_code
      ++ ")"
      ++ " | Address: "
      ++ to_string r.address

  unfoldable pub metrics_line : List W → String
  metrics_line values =
      " Packets: "
      ++ fixed 0 (get_or values 0 (d.lit 0 1))
      ++ " | Write%: "
      ++ fixed 0 (d.mul (get_or values 1 (d.lit 0 1)) (d.lit 1000 1))
      ++ " | Func Spread: "
      ++ fixed 2 (get_or values 2 (d.lit 0 1))
      ++ " | Entropy: "
      ++ fixed 2 (get_or values 3 (d.lit 0 1))
      ++ " | Proto Mix: "
      ++ fixed 2 (get_or values 4 (d.lit 0 1))
      ++ " | Density: "
      ++ fixed 2 (get_or values 7 (d.lit 0 1))

  -- The three lines of the alert.
  unfoldable pub alert_lines : Alert W → Lines
  unfolding severity_of
  alert_lines a =
      (severity_of a.decision.level, alert_line a)
      ∷ (info, identity_line a.shown)
      ∷ (info, metrics_line a.features)
      ∷ []

  -- What is logged for a packet, from how its handling ended: the enforcer's line, if it logged one,
  -- comes first.
  unfoldable pub report : Step W → Lines
  unfolding alert_lines
  report (alerted a) = behind_errors (logs a.effects) (alert_lines a)
  report _ = []

abbrev pub is_alert {ℓ} : {W : Type ℓ} → Step W → Bool
is_alert (alerted a) = true
is_alert _ = false

abbrev pub is_error : Severity × String → Bool
is_error (error, s) = true
is_error _ = false

length-behind_errors :
    (ss : List String) (more : Lines) → length (behind_errors ss more) ≡ length ss + length more
length-behind_errors [] more = omega arith
length-behind_errors (s ∷ ss) more = omega (arith, length-behind_errors ss more)

count_if-behind_errors :
    (ss : List String) (more : Lines)
    → count_if is_error (behind_errors ss more) ≡ length ss + count_if is_error more
count_if-behind_errors [] more = omega arith
count_if-behind_errors (s ∷ ss) more = ground (arith, count_if-behind_errors ss more)

module _ {ℓ} (W : Type ℓ) ⦃d : Double W⦄ (format : Format W) where
  report-Follows :
      (net : Net) (is_on locked : Bool) (m : Monitor) (s : Step W)
      → Follows net is_on locked m s
      → let new = bit (m.locked && not locked) in
        (length (report format s) ≡ (if is_alert s then 3 + new else 0))
        × (count_if is_error (report format s) ≡ (if is_alert s then bit m.is_on + new else 0))
  unfolding report
  report-Follows net is_on locked m (alerted a) follows = ground (
    arith,
    follows,
    length-behind_errors (logs a.effects) (alert_lines format a),
    count_if-behind_errors (logs a.effects) (alert_lines format a),
  )
  report-Follows net is_on locked m s follows = (refl, refl)

  -- A packet is logged with three lines if it ended in an alert, with a fourth if it made the enforcer
  -- set its flag, and with none otherwise; of the three, one is an error exactly if the alarm of the
  -- risk model is on after the packet, and the fourth is an error.
  pub process-report :
      (it : Iteration) (m : Monitor) (packet : RawPacket) (net : Net)
      → let (m', step) = process {W = W} it m packet net in
        let new = bit (m'.locked && not m.locked) in
        (length (report format step) ≡ (if is_alert step then 3 + new else 0))
        × (count_if is_error (report format step)
            ≡ (if is_alert step then bit m'.is_on + new else 0))
  process-report it m packet net =
      let (m', step) = process {W = W} it m packet net in
      report-Follows net m.is_on m.locked m' step (process-Follows W it m packet net).0

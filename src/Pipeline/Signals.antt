-- ===== src/Pipeline/Signals.antt =====
-- What one packet changes in the state that PRISM/src/main.cpp keeps, and what it makes of the PLC.
use prism_dev.Common.{
  not, ◌&&◌, length, ◌≡◌, ◌↔◌, ◌⊎◌, refl, arith, Bool, true, Option, none, some, Bool-cases, inl,
  inr,
}
use prism_dev.Double.{Double}
use prism_dev.Enforcement.Debounce.{Reaches, apply_lem, apply_outcome, bit}
use prism_dev.Socket.{logs}
use prism_dev.Risk.Hysteresis.{evaluate_levels}
use prism_dev.Common.{length, ◌==◌, if◌then◌else◌}
use prism_dev.Packet.{Proto}
use prism_dev.Parser.Classifier.{classify_protocol}
use prism_dev.Packet.{unknown, modbus, dnp3, iec104}
use prism_dev.Packet.{unknown, RawPacket, ParsedRecord, Window, high}
use prism_dev.Parser.Classifier.{classify_protocol}
use prism_dev.Features.{compute, Iteration}
use prism_dev.Enforcement.{Net}
use prism_dev.Pipeline.{
  handle_as, is_dropped, evaluate, add_record, parse_as, burst_score, hst_score, fuse, Monitor,
  Step, process, assess, after_record, observe, not_scada, dropped, alerted,
}

-- The two flags after a step, from those before it. After an alert the alarm is on exactly if the
-- level is high, and the lock is set exactly if it was, or if the level is high and the network takes
-- the whole request, and one line is logged where the lock becomes set; after any other step the flags are those before it.
abbrev pub Follows {ℓ} : {W : Type ℓ} → Net → (is_on locked : Bool) → Monitor → Step W → Type 0
Follows net is_on locked m' (alerted a) =
    ((a.decision.level ≡ high) ↔ (m'.is_on ≡ true))
    × ((m'.locked ≡ true) ↔ ((locked ≡ true) ⊎ ((a.decision.level ≡ high) × Reaches net)))
    × (length (logs a.effects) ≡ bit (m'.locked && not locked))
Follows net is_on locked m' _ = (m'.is_on ≡ is_on) × (m'.locked ≡ locked)

module _ {ℓ} (W : Type ℓ) ⦃d : Double W⦄ (it : Iteration) where
  assess-Follows :
      (m : Monitor) (r : ParsedRecord) (window : Window) (net : Net)
      → let (m', step) = assess {W = W} it m r window net in Follows net m.is_on m.locked m' step
  unfolding assess
  assess-Follows m r window net =
      let fv = compute {W = W} it window in
      let found = fuse (hst_score fv) (burst_score fv) in
      let levels = evaluate_levels m.is_on found in
      let lock = apply_lem m.locked (evaluate m.is_on found).1 net in
      let outcome = apply_outcome m.locked (evaluate m.is_on found).1 net in
      ground (arith, levels, lock, outcome.2)

  after_record-Follows :
      (m : Monitor) (r : ParsedRecord) (window : Option Window) (net : Net)
      → let (m', step) = after_record {W = W} it m r window net in
        Follows net m.is_on m.locked m' step
  unfolding after_record
  after_record-Follows m r none net = (refl, refl)
  after_record-Follows m r (some window) net = elim (Bool-cases (length window.records == 0)) [
    | inl none_left ↦ rw none_left (refl, refl)
    | inr filled ↦ rw filled (assess-Follows m r window net)
  ]

  observe-Follows :
      (m : Monitor) (r : ParsedRecord) (net : Net)
      → let (m', step) = observe {W = W} it m r net in Follows net m.is_on m.locked m' step
  unfolding observe
  observe-Follows m r net =
      let (manager, window) = add_record m.manager r in
      after_record-Follows (record m { manager = manager }) r window net

  parsed-Follows :
      (m : Monitor) (r : ParsedRecord) (net : Net)
      → let (m', step) = if is_dropped r then (m, dropped) else observe {W = W} it m r net in
        Follows net m.is_on m.locked m' step
  parsed-Follows m r net = elim (Bool-cases (is_dropped r)) [
    | inl gone ↦ rw gone (refl, refl)
    | inr kept ↦ rw kept (observe-Follows m r net)
  ]

  handle_as-Follows :
      (p : Proto) (m : Monitor) (packet : RawPacket) (net : Net)
      → let (m', step) = handle_as {W = W} it p m packet net in
        Follows net m.is_on m.locked m' step
        × (p ≡ unknown → handle_as {W = W} it p m packet net ≡ (m, not_scada))
  unfolding handle_as
  handle_as-Follows unknown m packet net = ((refl, refl), λ h. refl)
  handle_as-Follows modbus m packet net =
      (parsed-Follows m (parse_as modbus packet) net, λ h. ground arith)
  handle_as-Follows dnp3 m packet net =
      (parsed-Follows m (parse_as dnp3 packet) net, λ h. ground arith)
  handle_as-Follows iec104 m packet net =
      (parsed-Follows m (parse_as iec104 packet) net, λ h. ground arith)

  -- Only an alert touches the two flags: then the alarm is on exactly if the level is high, and the
  -- lock is set exactly if it was, or if the level is high and the network takes the whole request.
  -- A packet that ends in any other step leaves both flags as they were, and one of an unknown
  -- protocol leaves the whole state.
  pub process-Follows :
      (m : Monitor) (packet : RawPacket) (net : Net)
      → let (m', step) = process {W = W} it m packet net in
        Follows net m.is_on m.locked m' step
        × (classify_protocol packet ≡ unknown → process {W = W} it m packet net ≡ (m, not_scada))
  unfolding process
  process-Follows m packet net = handle_as-Follows (classify_protocol packet) m packet net

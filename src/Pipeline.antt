-- ===== src/Pipeline.antt =====
-- PRISM/src/main.cpp: the loops that hand each captured packet through the stages. Pipeline.Report has
-- the texts that they log.
use prism_dev.Common.{
  ℕ, suc, ◌+◌, String, Bool, true, false, ◌||◌, List, [], ◌∷◌, Option, none, some, length, ltb,
  ◌==◌, str_eq, if◌then◌else◌,
}
use prism_dev.Double.{Double}
use prism_dev.Packet.{
  RawPacket, ParsedRecord, default_record, Window, Proto, unknown, modbus, dnp3, iec104,
}
use prism_dev.Parser.Classifier.{classify_protocol}
use prism_dev.Parser.Modbus
use prism_dev.Parser.Dnp3
use prism_dev.Parser.Iec104
use prism_dev.Windowing
use prism_dev.Windowing.{WindowManager, add_record}
use prism_dev.Features.{Iteration, compute}
use prism_dev.Detection.{hst_score, burst_score}
use prism_dev.Risk.{RiskDecision, fuse, evaluate}
use prism_dev.Enforcement.{Net, apply}
use prism_dev.Socket.{Effect}
use prism_dev.Viz.{get_fuzzy_label, get_progress_bar}
pub mod Loops
pub mod Program
pub mod Names
pub mod Ranges
pub mod Report
pub mod Source
pub mod Stages
pub mod Signals

-- The objects of `main` that keep a state: the window manager, `isOn_` and `locked_`.
pub record Monitor : Type 0 where
  pub manager : WindowManager
  pub is_on : Bool
  pub locked : Bool

-- Windows of 5000 ms every 1000 ms.
unfoldable pub start : Monitor
start = record { manager = Windowing.new 5000 1000; is_on = false; locked = false }

-- The parser that the protocol selects.
unfoldable pub parse_as : Proto → RawPacket → ParsedRecord
parse_as modbus packet = Modbus.parse packet
parse_as dnp3 packet = Dnp3.parse packet
parse_as iec104 packet = Iec104.parse packet
parse_as unknown packet = default_record

-- A record that the loop drops.
unfoldable pub is_dropped : ParsedRecord → Bool
is_dropped r = str_eq r.protocol "" || str_eq r.protocol "Unknown"

-- What an alert reports.
pub record Alert {ℓ} (W : Type ℓ) : Type ℓ where
  pub decision : RiskDecision W
  pub action : String
  pub label : String
  pub bar : List ℕ
  pub shown : ParsedRecord
  pub features : List W
  pub effects : List Effect

-- How the handling of one packet ends.
pub data Step {ℓ} (W : Type ℓ) : Type ℓ where
  not_scada dropped buffered empty_window : Step W
  alerted : Alert W → Step W

-- What the loops meet: `running` is false, `nextPacket` fails, or it fills a packet.
pub data Poll : Type 0 where
  stopped no_packet : Poll
  arrived : RawPacket → Net → Poll

-- What a call of the batch loop leaves: the state, `drained`, how the packets ended, and what has
-- not been met yet.
pub record Batch {ℓ} (W : Type ℓ) : Type ℓ where
  pub monitor : Monitor
  pub drained : ℕ
  pub steps : List (Step W)
  pub left : List Poll

abbrev pub max_drain : ℕ
max_drain = 1024

-- Whether a step runs `++drained`.
unfoldable pub is_counted {ℓ} : {W : Type ℓ} → Step W → Bool
is_counted not_scada = true
is_counted dropped = false
is_counted buffered = true
is_counted empty_window = false
is_counted (alerted a) = true

module _ {ℓ} {W : Type ℓ} ⦃d : Double W⦄ (it : Iteration) where
  -- From the features of a window that is not empty to the alert.
  unfoldable pub assess : Monitor → ParsedRecord → Window → Net → Monitor × Step W
  assess m r window net =
      let fv = compute {W = W} it window in
      let (is_on, decision) = evaluate m.is_on (fuse (hst_score fv) (burst_score fv)) in
      let (locked, action, effects) = apply m.locked decision net in
      (
        record m { is_on = is_on; locked = locked },
        alerted (record {
          decision = decision;
          action = action;
          label = get_fuzzy_label decision.probability;
          bar = get_progress_bar decision.probability 20;
          shown = r;
          features = fv;
          effects = effects;
        }),
      )

  -- From what the window manager returned for a record.
  unfoldable pub after_record : Monitor → ParsedRecord → Option Window → Net → Monitor × Step W
  after_record m r none net = (m, buffered)
  after_record m r (some window) net =
      if length window.records == 0 then (m, empty_window) else assess m r window net

  -- From a record that is not dropped.
  unfoldable pub observe : Monitor → ParsedRecord → Net → Monitor × Step W
  observe m r net =
      let (manager, window) = add_record m.manager r in
      after_record (record m { manager = manager }) r window net

  -- From the protocol that the ports select.
  unfoldable pub handle_as : Proto → Monitor → RawPacket → Net → Monitor × Step W
  handle_as unknown m packet net = (m, not_scada)
  handle_as proto m packet net =
      let r = parse_as proto packet in if is_dropped r then (m, dropped) else observe m r net

  -- The body of the loops: one packet, and what the network does if the PLC is signalled.
  unfoldable pub process : Monitor → RawPacket → Net → Monitor × Step W
  process m packet net = handle_as (classify_protocol packet) m packet net

  -- The inner loop of the branch that polls: it runs while `running` is set, `drained` is below
  -- `max_drain`, and a packet is there.
  unfoldable pub drain : Monitor → ℕ → List Poll → Batch W
  drain m n [] = record { monitor = m; drained = n; steps = []; left = [] }
  drain m n (stopped ∷ es) = record { monitor = m; drained = n; steps = []; left = stopped ∷ es }
  drain m n (no_packet ∷ es) =
      if ltb n max_drain
      then record { monitor = m; drained = n; steps = []; left = es }
      else record { monitor = m; drained = n; steps = []; left = no_packet ∷ es }
  drain m n (arrived packet net ∷ es) =
      let (m', step) = process m packet net in
      let rest = drain m' (if is_counted step then n + 1 else n) es in
      if ltb n max_drain
      then record rest { steps = step ∷ rest.steps }
      else record { monitor = m; drained = n; steps = []; left = arrived packet net ∷ es }

  -- The loop of the branch without a descriptor to poll.
  unfoldable pub fallback : Monitor → List Poll → Monitor × List (Step W)
  fallback m [] = (m, [])
  fallback m (stopped ∷ es) = (m, [])
  fallback m (no_packet ∷ es) = fallback m es
  fallback m (arrived packet net ∷ es) =
      let (m', step) = process m packet net in
      let (last, steps) = fallback m' es in (last, step ∷ steps)

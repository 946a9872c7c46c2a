-- ===== src/System/Engaged.antt =====
-- The flag of the enforcer in PRISM/src/main.cpp, and the lock of the PLC that it stands for.
use prism_dev.Common.{
  ℕ, ◌≡◌, ◌++◌, ◌∙◌, refl, arith, Bool, true, false, List, [], ◌∷◌, Option, none, some, length,
  ◌==◌, Bool-cases, inl, inr, if◌then◌else◌,
}
use prism_dev.Double.{Double}
use prism_dev.Packet.{RawPacket, ParsedRecord, Window, Proto, unknown, modbus, dnp3, iec104}
use prism_dev.Parser.Classifier.{classify_protocol}
use prism_dev.Windowing.{add_record}
use prism_dev.Features.{Iteration, compute}
use prism_dev.Detection.{hst_score, burst_score}
use prism_dev.Risk.{RiskDecision, fuse, evaluate}
use prism_dev.Enforcement.{Net, apply}
use prism_dev.Enforcement.Debounce.{apply_lem, apply_outcome, lock_bytes}
use prism_dev.Socket.{taken}
use prism_dev.Simulator.Modbus.Server.{Connection, read_failed, received, serve_one}
use prism_dev.Pipeline.{
  Monitor, Step, alerted, dropped, is_dropped, parse_as, assess, after_record, observe, handle_as,
  process, Poll, stopped, no_packet, arrived, fallback,
}
use prism_dev.Simulator.Modbus.{decode_mbap_pdu}
use prism_dev.Simulator.Modbus.Server.{handle}

-- What the socket takes in a step, and the PLC gets.
abbrev pub taken_by {ℓ} : {W : Type ℓ} → Step W → List (List ℕ)
taken_by (alerted a) = taken a.effects
taken_by _ = []

-- A connection that brings these bytes, if any.
abbrev pub bringing : List ℕ → Connection
bringing [] = read_failed
bringing (b ∷ bs) = received b bs

-- The lock of the PLC after connections.
abbrev pub deliver : Bool → List (List ℕ) → Bool
deliver plc [] = plc
deliver plc (v ∷ vs) = deliver (serve_one plc (bringing v)).0 vs

serve_one-lock_bytes : (plc : Bool) → (serve_one plc (bringing lock_bytes)).0 ≡ true
unfolding serve_one handle decode_mbap_pdu
serve_one-lock_bytes plc = refl

module _ {ℓ} (W : Type ℓ) ⦃d : Double W⦄ (it : Iteration) (plc : Bool) where
  -- If the flag stands for a lock of the PLC before a step, it does so after the step.
  abbrev Engages : Monitor → Monitor × Step W → Type 0
  Engages m result =
      (m.locked ≡ true → plc ≡ true)
      → result.0.locked ≡ true
      → deliver plc (taken_by result.1) ≡ true

  apply-taken :
      (locked : Bool) (decision : RiskDecision W) (net : Net)
      → (locked ≡ true → plc ≡ true)
      → (apply locked decision net).0 ≡ true
      → deliver plc (taken (apply locked decision net).2) ≡ true
  apply-taken true decision net agrees set =
      let outcome = apply_outcome true decision net in
      let quiet : taken (apply true decision net).2 ≡ [] = outcome.0 refl in rw quiet (agrees refl)
  apply-taken false decision net agrees set =
      let (flag, asked, idle, sockets) = apply_lem false decision net in
      let unlocked = apply_outcome false decision net in
      let got : taken (apply false decision net).2 ≡ lock_bytes ∷ [] =
        unlocked.1 (ground (arith, flag.0 set)) in
      rw got (serve_one-lock_bytes plc)

  assess-Engages :
      (m : Monitor) (r : ParsedRecord) (w : Window) (net : Net)
      → Engages m (assess {W = W} it m r w net)
  unfolding assess
  assess-Engages m r w net =
      let fv = compute {W = W} it w in
      apply-taken m.locked (evaluate m.is_on (fuse (hst_score fv) (burst_score fv))).1 net

  after_record-Engages :
      (m : Monitor) (r : ParsedRecord) (w : Option Window) (net : Net)
      → Engages m (after_record {W = W} it m r w net)
  unfolding after_record
  after_record-Engages m r none net = λ agrees set. agrees set
  after_record-Engages m r (some w) net = elim (Bool-cases (length w.records == 0)) [
    | inl none_left ↦ rw none_left (λ agrees set. agrees set)
    | inr filled ↦ rw filled (assess-Engages m r w net)
  ]

  parsed-Engages :
      (m : Monitor) (r : ParsedRecord) (net : Net)
      → Engages m (if is_dropped r then (m, dropped) else observe {W = W} it m r net)
  unfolding observe
  parsed-Engages m r net = elim (Bool-cases (is_dropped r)) [
    | inl gone ↦ rw gone (λ agrees set. agrees set)
    | inr kept ↦ rw kept (
        let (manager, window) = add_record m.manager r in
        after_record-Engages (record m { manager = manager }) r window net)
  ]

  handle_as-Engages :
      (p : Proto) (m : Monitor) (packet : RawPacket) (net : Net)
      → Engages m (handle_as {W = W} it p m packet net)
  unfolding handle_as
  handle_as-Engages unknown m packet net = λ agrees set. agrees set
  handle_as-Engages modbus m packet net = parsed-Engages m (parse_as modbus packet) net
  handle_as-Engages dnp3 m packet net = parsed-Engages m (parse_as dnp3 packet) net
  handle_as-Engages iec104 m packet net = parsed-Engages m (parse_as iec104 packet) net

  process-Engages :
      (m : Monitor) (packet : RawPacket) (net : Net) → Engages m (process {W = W} it m packet net)
  unfolding process
  process-Engages m packet net = handle_as-Engages (classify_protocol packet) m packet net

-- What the sockets take in the steps, in their order.
abbrev pub all_taken {ℓ} : {W : Type ℓ} → List (Step W) → List (List ℕ)
all_taken [] = []
all_taken (s ∷ ss) = taken_by s ++ all_taken ss

deliver-append :
    (plc : Bool) (vs ws : List (List ℕ)) → deliver plc (vs ++ ws) ≡ deliver (deliver plc vs) ws
deliver-append plc [] ws = refl
deliver-append plc (v ∷ vs) ws = deliver-append (serve_one plc (bringing v)).0 vs ws

module _ {ℓ} (W : Type ℓ) ⦃d : Double W⦄ (it : Iteration) where
  -- If the enforcer's flag is set only when the PLC is locked, then it is so again once the PLC has
  -- served what the monitor's sockets took while it handled any packets up to a stop, of each request
  -- no more than the bytes that `write` took: a monitor that takes the writes to be locked has a PLC
  -- with its lock engaged.
  pub fallback-deliver :
      (es : List Poll) (m : Monitor) (plc : Bool)
      → (m.locked ≡ true → plc ≡ true)
      → (fallback {W = W} it m es).0.locked ≡ true
      → deliver plc (all_taken (fallback {W = W} it m es).1) ≡ true
  unfolding fallback
  fallback-deliver [] m plc agrees set = agrees set
  fallback-deliver (stopped ∷ es) m plc agrees set = agrees set
  fallback-deliver (no_packet ∷ es) m plc agrees set = fallback-deliver es m plc agrees set
  fallback-deliver (arrived packet net ∷ es) m plc agrees set =
      let (m', step) = process {W = W} it m packet net in
      deliver-append plc (taken_by step) (all_taken (fallback {W = W} it m' es).1)
      ∙ fallback-deliver es m' (deliver plc (taken_by step))
          (process-Engages W it plc m packet net agrees) set

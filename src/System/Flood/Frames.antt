-- ===== src/System/Flood/Frames.antt =====
-- An attack as the frames that the PLC of PRISM_simulator/proto/modbus/server.cpp decodes, seen by
-- PRISM/src/main.cpp.
use prism_dev.Common.{
  ℕ, ◌+◌, ◌*◌, ◌^◌, ◌≤◌, ◌<◌, ◌≡◌, ◌≢◌, refl, ap, ◌∙◌, arith, Bool, true, false, List, [], ◌∷◌,
  ◌++◌, some, map, length, count_if, All,
}
use prism_dev.Double.{Double, IsExact, IsOrdered, IsMonotone, IsWeighted}
use prism_dev.Packet.{RawPacket, ParsedRecord}
use prism_dev.Parser.Classifier.{Touches, classify_protocol_iff}
use prism_dev.Parser.Modbus
use prism_dev.Features.{Iteration}
use prism_dev.Features.Laws.{IsIteration}
use prism_dev.Enforcement.{Net}
use prism_dev.Enforcement.Debounce.{Reaches}
use prism_dev.Windowing.{ms}
use prism_dev.Windowing.First.{Before}
use prism_dev.Pipeline
use prism_dev.Pipeline.{Poll, arrived, fallback, is_dropped, parse_as}
use prism_dev.Pipeline.Stages.{kept, parsed}
use prism_dev.Pipeline.Stages.First.{records_of}
use prism_dev.Simulator.Modbus.{decode_mbap_pdu}
use prism_dev.Simulator.Modbus.Server.{Connection, serve, is_write_fc}
use prism_dev.Simulator.Modbus.Lock.{AreBytes, frame, command, IsRefused, Answers}
use prism_dev.System.Engaged.{deliver, all_taken}
use prism_dev.System.Wire.{parse-decode_mbap_pdu}
use prism_dev.System.Flood.{flood_locks}

-- A packet of the PLC's port with a whole frame.
abbrev pub IsFrame : RawPacket → Type 0
IsFrame p = Touches p 502 × (12 ≤ length p.payload)

-- Whether the PLC decodes a write.
abbrev pub asks_write : RawPacket × Net → Bool
asks_write p = is_write_fc (decode_mbap_pdu p.0.payload).function

-- The packets come in the order of their times, from `last` on, and before `end`.
abbrev pub Arrive : ℕ → ℕ → List (RawPacket × Net) → Type 0
Arrive end last [] = Unit {0}
Arrive end last ((p, net) ∷ ps) =
    (last ≤ p.timestamp) × (p.timestamp < end) × Arrive end p.timestamp ps

abbrev pub arriving : List (RawPacket × Net) → List Poll
arriving = map (λ p. arrived p.0 p.1)

abbrev as_record : RawPacket × Net → ParsedRecord × Net
as_record (p, net) = (Modbus.parse p, net)

frame-parsed : (p : RawPacket) → IsFrame p → parsed p ≡ some (Modbus.parse p)
unfolding parsed parse_as is_dropped
frame-parsed p (touches, long) =
    rw ((classify_protocol_iff p).0.1 touches, (parse-decode_mbap_pdu p long).0) refl

kept-arriving :
    (ps : List (RawPacket × Net)) (rest : List Poll)
    → All (λ p. IsFrame p.0) ps
    → kept (arriving ps ++ rest) ≡ map as_record ps ++ kept rest
unfolding kept
kept-arriving [] rest h = refl
kept-arriving ((p, net) ∷ ps) rest h = rw (frame-parsed p h.0) (
    ap (λ (rs : List (ParsedRecord × Net)). (Modbus.parse p, net) ∷ rs) (kept-arriving ps rest h.1))

parse-timestamp : (p : RawPacket) → (Modbus.parse p).timestamp ≡ p.timestamp
unfolding Modbus.parse
parse-timestamp p = ground arith

Arrive-Before :
    (end last : ℕ) (ps : List (RawPacket × Net))
    → Arrive end last ps
    → Before end last (records_of (map as_record ps))
Arrive-Before end last [] h = tt
Arrive-Before end last ((p, net) ∷ ps) h =
    rw (parse-timestamp p) (h.0, h.1, Arrive-Before end p.timestamp ps h.2)

length-as_record :
    (ps : List (RawPacket × Net)) → length (records_of (map as_record ps)) ≡ length ps
length-as_record [] = refl
length-as_record (p ∷ ps) = omega (arith, length-as_record ps)

writes-as_record :
    (ps : List (RawPacket × Net))
    → All (λ p. IsFrame p.0) ps
    → count_if (λ r. r.is_write) (records_of (map as_record ps)) ≡ count_if asks_write ps
writes-as_record [] h = refl
writes-as_record ((p, net) ∷ ps) h =
    let (name, code, address, write) = parse-decode_mbap_pdu p h.0.1 in
    rw write (omega (arith, writes-as_record ps h.1))

module _ {ℓ} (W : Type ℓ) ⦃d : Double W⦄ (exact : IsExact W) (order : IsOrdered W)
    (mono : IsMonotone W) (weighted : IsWeighted W) (it : Iteration) (once : IsIteration it) where
  -- Where counts are exact and `double` is ordered, monotone and weighted as IsExact, IsOrdered,
  -- IsMonotone and IsWeighted state, of a new monitor: let fewer than 2^31 packets of the PLC's port
  -- with whole frames come first, in the order of their times and within five seconds, of which the
  -- PLC decodes three tenths or more as writes; and let one more such packet come later than that,
  -- at a time when the network carries a request. Then, whatever comes behind it, at the end the flag
  -- of the enforcer is set, and a PLC that served what the monitor's sockets took is locked,
  -- whatever its lock was before; and over any later connections that bring bytes, none of them the
  -- release command, it stays locked and refuses every write to something other than the safety coil.
  pub frames_lock :
      (plc : Bool) (p : RawPacket) (n : Net) (ps : List (RawPacket × Net)) (late : RawPacket)
      (net : Net) (rest : List Poll) (cs : List Connection)
      → All (λ q. IsFrame q.0) ((p, n) ∷ ps)
      → IsFrame late
      → Arrive (p.timestamp + ms 5000) p.timestamp ps
      → p.timestamp + ms 5000 < late.timestamp
      → length ((p, n) ∷ ps) < 2 ^ 31
      → 3 * length ((p, n) ∷ ps) ≤ 10 * count_if asks_write ((p, n) ∷ ps)
      → Reaches net
      → All AreBytes cs
      → All (λ c. command (frame c) ≢ some false) cs
      → let (last, steps) =
          fallback {W = W} it Pipeline.start (arriving ((p, n) ∷ ps) ++ arrived late net ∷ rest) in
        let (lock, answers) = serve (deliver plc (all_taken steps)) cs in
        (last.locked ≡ true)
        × (deliver plc (all_taken steps) ≡ true)
        × (lock ≡ true)
        × Answers IsRefused cs answers
  frames_lock plc p n ps late net rest cs frames late_frame early lt small many reach bytes held =
      let es = arriving ((p, n) ∷ ps) ++ arrived late net ∷ rest in
      let seen : kept es ≡ map as_record ((p, n) ∷ ps) ++ (Modbus.parse late, net) ∷ kept rest =
        kept-arriving ((p, n) ∷ ps) (arrived late net ∷ rest) frames
        ∙ ap (λ (rs : List (ParsedRecord × Net)). map as_record ((p, n) ∷ ps) ++ rs)
            (kept-arriving ((late, net) ∷ []) rest (late_frame, tt)) in
      flood_locks W exact order mono weighted it once es plc (Modbus.parse p) n (map as_record ps)
        (Modbus.parse late) net (kept rest) cs seen
        (rw (parse-timestamp p) (Arrive-Before _ p.timestamp ps early))
        (rw (parse-timestamp p, parse-timestamp late) lt) (omega (arith, length-as_record ps))
        (omega (arith, length-as_record ps, writes-as_record ((p, n) ∷ ps) frames)) reach bytes held

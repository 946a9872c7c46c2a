-- ===== src/Tests/Attacks.antt =====
-- Examples for an attack and for traffic without one, from the packets on.
use prism_dev.Common.{ℕ, List, ◌≡◌, refl, arith, true, false, [], ◌∷◌, ◌++◌, All, inr}
use prism_dev.Double.Fixed.{
  Fixed, fixed_double, Fixed-IsExact, Fixed-IsOrdered, Fixed-IsMonotone, Fixed-IsWeighted,
  Fixed-IsSpread, Fixed-IsQuiet,
}
use prism_dev.Parser.Modbus
use prism_dev.Parser.Classifier.{classify_protocol}
use prism_dev.Windowing.{new, add_record, arm, emit, drop_older}
use prism_dev.Features.{compute, features, deltas, mean_gap, deviation}
use prism_dev.Features.Quiet.{IsRead}
use prism_dev.Pipeline
use prism_dev.Pipeline.{Poll, arrived, fallback, is_dropped, parse_as}
use prism_dev.Pipeline.Stages.{kept, assessed, called}
use prism_dev.Pipeline.Stages.Quiet.{IsSteady, reads_unlocked}
use prism_dev.Simulator.Modbus.Lock.{command}
use prism_dev.Simulator.Modbus.Server.{serve, received, is_write_fc}
use prism_dev.System.Engaged.{deliver, all_taken}
use prism_dev.System.Flood.Sustained.{sustained_lock}
use prism_dev.Pipeline.Stages.Sustained.{Besieges}
use prism_dev.Enforcement.{Net}
use prism_dev.Windowing.{ms}
use prism_dev.Pipeline.Stages.Short.{short_unseen}
use prism_dev.System.Flood.Frames.{arriving, frames_lock}
use prism_dev.Simulator.Modbus.{decode_mbap_pdu}
use prism_dev.Packet.{RawPacket, ParsedRecord}
use prism_dev.Tests.{in_order-IsIteration, in_order, packet_of, good_net}
use prism_dev.Tests.Whole.{later_write, write_frame, write_at, read_at, write_record, reads}

-- A write to register 258 at a time.
abbrev write_packet : ℕ → RawPacket
write_packet t = record (packet_of 502 write_frame) { timestamp = t }

-- Two writes, and a third six seconds later.
abbrev attack : List Poll
attack =
    arriving ((write_packet 0, good_net) ∷ (write_packet 1_000_000, good_net) ∷ [])
    ++ arrived (write_packet 6_000_000_000) good_net ∷ []

frames_lock_example :
    let plc = deliver false (all_taken (fallback {W = Fixed} in_order Pipeline.start attack).1) in
    (serve plc (received 0 later_write ∷ [])).0 ≡ true
unfolding command decode_mbap_pdu is_write_fc
frames_lock_example =
    (frames_lock Fixed Fixed-IsExact Fixed-IsOrdered Fixed-IsMonotone Fixed-IsWeighted in_order
      in_order-IsIteration false (write_packet 0) good_net ((write_packet 1_000_000, good_net) ∷ [])
      (write_packet 6_000_000_000) good_net [] (received 0 later_write ∷ [])
      ((inr refl, omega arith), ((inr refl, omega arith), tt)) (inr refl, omega arith) (omega arith)
      (omega arith) (omega arith) (omega arith) (refl, refl, refl) (omega arith)
      ((λ e. ground arith), tt)).2

reads-IsRead : All (λ r. IsRead r.0) (kept reads)
unfolding kept is_dropped parse_as classify_protocol Modbus.parse
reads-IsRead = (refl, (refl, tt))

reads-IsSteady : All (IsSteady Fixed in_order) (assessed Pipeline.start.manager (kept reads))
unfolding assessed kept is_dropped parse_as classify_protocol Modbus.parse add_record Pipeline.start
    new arm emit drop_older compute features deltas mean_gap deviation
reads-IsSteady = ((omega arith, refl, refl), tt)

reads_unlocked_example : called (fallback {W = Fixed} in_order Pipeline.start reads).1 ≡ []
reads_unlocked_example =
    (reads_unlocked Fixed Fixed-IsExact Fixed-IsOrdered Fixed-IsMonotone Fixed-IsWeighted
      Fixed-IsSpread Fixed-IsQuiet in_order in_order-IsIteration reads reads-IsRead
      reads-IsSteady).2

-- What the monitor keeps of the read.
abbrev read_record : ParsedRecord
read_record = record {
  timestamp = 0;
  protocol = "Modbus";
  is_request = true;
  is_write = false;
  function_code = 3;
  address = 258;
}

-- A read, and then a write in each of seven seconds.
abbrev siege : List Poll
siege =
    read_at 0
    ∷ write_at 1_000_000_000
    ∷ write_at 2_000_000_000
    ∷ write_at 3_000_000_000
    ∷ write_at 4_000_000_000
    ∷ write_at 5_000_000_000
    ∷ write_at 6_000_000_000
    ∷ write_at 7_000_000_000
    ∷ []

abbrev siege_records : List (ParsedRecord × Net)
siege_records =
    (write_record 1_000_000_000, good_net)
    ∷ (write_record 2_000_000_000, good_net)
    ∷ (write_record 3_000_000_000, good_net)
    ∷ (write_record 4_000_000_000, good_net)
    ∷ (write_record 5_000_000_000, good_net)
    ∷ (write_record 6_000_000_000, good_net)
    ∷ (write_record 7_000_000_000, good_net)
    ∷ []

kept-siege : kept siege ≡ (read_record, good_net) ∷ siege_records
unfolding kept is_dropped parse_as classify_protocol Modbus.parse
kept-siege = refl

siege-Besieges : Besieges 0 (ms 1000) 0 siege_records
siege-Besieges = (
  omega arith,
  omega arith,
  (λ h. refl),
  (λ h. (refl, refl, refl)),
  (
    omega arith,
    omega arith,
    (λ h. refl),
    (λ h. (refl, refl, refl)),
    (
      omega arith,
      omega arith,
      (λ h. refl),
      (λ h. (refl, refl, refl)),
      (
        omega arith,
        omega arith,
        (λ h. refl),
        (λ h. (refl, refl, refl)),
        (
          omega arith,
          omega arith,
          (λ h. refl),
          (λ h. (refl, refl, refl)),
          (
            omega arith,
            omega arith,
            (λ h. refl),
            (λ h. (refl, refl, refl)),
            (omega arith, omega arith, (λ h. refl), (λ h. (refl, refl, refl)), tt),
          ),
        ),
      ),
    ),
  ),
)

sustained_lock_example :
    let plc = deliver false (all_taken (fallback {W = Fixed} in_order Pipeline.start siege).1) in
    (serve plc (received 0 later_write ∷ [])).0 ≡ true
unfolding command
sustained_lock_example =
    (sustained_lock Fixed Fixed-IsExact Fixed-IsOrdered Fixed-IsMonotone Fixed-IsWeighted in_order
      in_order-IsIteration siege false 0 read_record good_net siege_records
      (received 0 later_write ∷ []) kept-siege (omega arith) siege-Besieges (omega arith)
      (omega arith) (omega arith) ((λ e. ground arith), tt)).2

-- A flood of two seconds, and then nothing.
abbrev flash : List Poll
flash = write_at 0 ∷ write_at 1_000_000_000 ∷ write_at 2_000_000_000 ∷ []

kept-flash :
    kept flash
    ≡ (write_record 0, good_net)
      ∷ (write_record 1_000_000_000, good_net)
      ∷ (write_record 2_000_000_000, good_net)
      ∷ []
unfolding kept is_dropped parse_as classify_protocol Modbus.parse
kept-flash = refl

short_unseen_example : called (fallback {W = Fixed} in_order Pipeline.start flash).1 ≡ []
short_unseen_example =
    (short_unseen Fixed in_order flash (write_record 0) good_net
      ((write_record 1_000_000_000, good_net) ∷ (write_record 2_000_000_000, good_net) ∷ [])
      kept-flash (omega arith)).1

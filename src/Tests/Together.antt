-- ===== src/Tests/Together.antt =====
-- Examples for the frames that pass between the monitor and the plant.
use prism_dev.Enforcement.Debounce.{bit}
use prism_dev.Common.{◌+◌, ◌&&◌, not}
use prism_dev.Common.{◌+◌, ℕ, ◌≡◌, refl, arith, true, false, List, [], ◌∷◌, inr}
use prism_dev.Double.Fixed.{Fixed, fixed_double}
use prism_dev.Simulator.Modbus.{decode_mbap_pdu}
use prism_dev.Simulator.Modbus.Server.{received, serve}
use prism_dev.Simulator.Modbus.Lock.{command}
use prism_dev.Simulator.Dnp3 as Station
use prism_dev.Simulator.Iec104 as Outstation
use prism_dev.Parser.Modbus
use prism_dev.Parser.Iec104
use prism_dev.Parser.Classifier.{classify_protocol}
use prism_dev.Pipeline
use prism_dev.Pipeline.{
  process, dropped, Monitor, handle_as, parse_as, is_dropped, observe, after_record, assess,
}
use prism_dev.Windowing.{add_record, arm, emit, drop_older}
use prism_dev.Packet.{RawPacket}
use prism_dev.System.Engaged.{deliver, all_taken, fallback-deliver}
use prism_dev.Features.{
  of_int, compute, features, collect, tally_record, bump, top, entropy_from, deltas, mean_gap,
  deviation,
}
use prism_dev.Detection.{hst_score, burst_score}
use prism_dev.Risk.{evaluate, probability_of, sigmoid, switch, decide_level, fuse}
use prism_dev.Enforcement.{apply}
use prism_dev.System.Wire.{
  parse-decode_mbap_pdu, process-build_frame_dnp3, parse-build_frame_iec104,
}
use prism_dev.System.LockOut.{lock_request, serve-lock_request}
use prism_dev.Common.{length, if◌then◌else◌}
use prism_dev.Pipeline.Report.{Format, report, is_alert, process-report}
use prism_dev.Pipeline.{Poll, no_packet, arrived, stopped, fallback}
use prism_dev.Tests.{record_at, packet_of, in_order, good_net}

-- A write to register 258.
abbrev write_frame : List ℕ
write_frame = 1 ∷ 0 ∷ 0 ∷ 0 ∷ 6 ∷ 1 ∷ 6 ∷ 1 ∷ 2 ∷ 3 ∷ 4 ∷ []

serve-lock_request_example : (serve false (lock_request ∷ received 0 write_frame ∷ [])).0 ≡ true
unfolding command
serve-lock_request_example =
    (serve-lock_request false (received 0 write_frame ∷ []) (omega arith)
      ((λ e. ground arith), tt)).0

parse-decode_mbap_pdu_example :
    (Modbus.parse (packet_of 502 (0 ∷ write_frame))).function_code
    ≡ (decode_mbap_pdu (0 ∷ write_frame)).function
parse-decode_mbap_pdu_example =
    (parse-decode_mbap_pdu (packet_of 502 (0 ∷ write_frame)) (omega arith)).1

process-build_frame_dnp3_example :
    process {W = Fixed} in_order Pipeline.start (packet_of 20000 (Station.build_frame 2)) good_net
    ≡ (Pipeline.start, dropped)
unfolding classify_protocol
process-build_frame_dnp3_example =
    process-build_frame_dnp3 in_order Pipeline.start (packet_of 20000 []) 2 good_net refl

parse-build_frame_iec104_example :
    (Iec104.parse (packet_of 2404 (Outstation.build_frame 45 16))).function_code ≡ 45
parse-build_frame_iec104_example =
    (parse-build_frame_iec104 (packet_of 2404 []) 45 16 (inr refl) (omega arith)).1

-- Two writes are buffered, and the next packet makes their window be emitted.
abbrev tense : Monitor
tense = record {
  manager = record {
    window_size = 2;
    step_size = 1;
    buffer = record_at 0 ∷ record_at 1 ∷ [];
    next_emit_time = 2_000_000;
    last_time = 1_000_000;
    initialized = true;
  };
  is_on = false;
  locked = false;
}

abbrev next_write : RawPacket
next_write = record (packet_of 502 (0 ∷ write_frame)) { timestamp = 3_000_000 }

abbrev alarming : List Poll
alarming = no_packet ∷ arrived next_write good_net ∷ stopped ∷ []

fallback-deliver_example :
    deliver false (all_taken (fallback {W = Fixed} in_order tense alarming).1) ≡ true
unfolding fallback process handle_as parse_as Modbus.parse is_dropped observe after_record assess
    classify_protocol add_record arm emit drop_older compute features collect tally_record bump top
    of_int entropy_from deltas mean_gap deviation hst_score burst_score evaluate probability_of
    sigmoid switch decide_level fuse apply
fallback-deliver_example =
    fallback-deliver Fixed in_order alarming tense false (λ e. ground arith) refl

abbrev plain : Format Fixed
plain = record { fixed = λ n x. "0"; to_string = λ n. "0"; text_of = λ bytes. "bar" }

process-report_example :
    let (m', step) = process {W = Fixed} in_order tense next_write good_net in
    length (report plain step)
    ≡ (if is_alert step then 3 + bit (m'.locked && not tense.locked) else 0)
process-report_example = (process-report Fixed plain in_order tense next_write good_net).0

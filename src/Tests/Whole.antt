-- ===== src/Tests/Whole.antt =====
-- Examples for whole runs of the monitor.
use mathlib.Core.List.{Memᴰ}
use prism_dev.Common.{ℕ, ◌≡◌, refl, arith, true, false, List, [], ◌∷◌}
use prism_dev.Double.Fixed.{
  Fixed-IsSpread, Fixed, fixed_double, Fixed-IsOrdered, Fixed-IsExact, Fixed-IsMonotone,
  Fixed-IsWeighted,
}
use prism_dev.Packet.{ParsedRecord}
use prism_dev.Parser.Modbus
use prism_dev.Parser.Classifier.{classify_protocol}
use prism_dev.Windowing.{new, feed, add_record, arm, emit, drop_older}
use prism_dev.Windowing.Schedule.{windows}
use prism_dev.Windowing.History.{accepted}
use prism_dev.Windowing.Complete.{Found, accepted-Found}
use prism_dev.Pipeline
use prism_dev.Pipeline.{
  Poll, arrived, no_packet, stopped, fallback, process, dropped, is_dropped, parse_as,
}
use prism_dev.Pipeline.Stages.{Assessment, kept, assessed, result_of}
use prism_dev.Pipeline.Stages.Agree.{Agrees, fallback-Agrees}
use prism_dev.Pipeline.Stages.Alarm.{IsLoud}
use prism_dev.System.Engaged.{deliver, all_taken}
use prism_dev.System.Attack.{attack-deliver}
use prism_dev.System.Replies.{process-handle}
use prism_dev.Simulator.Modbus.{decode_mbap_pdu}
use prism_dev.Simulator.Modbus.Lock.{command}
use prism_dev.Simulator.Modbus.Server.{serve, received, handle, is_write_fc, is_safety_coil}
use prism_dev.Features.{
  of_int, compute, features, collect, tally_record, bump, top, entropy_from, deltas, mean_gap,
  deviation,
}
use prism_dev.Detection.{hst_score, burst_score}
use prism_dev.Risk.{evaluate, probability_of, sigmoid, fuse}
use prism_dev.Double.{◌≼◌}
use prism_dev.Features.Laws.{feature}
use prism_dev.Pipeline.Stages.Spread.{spread_alarm}
use prism_dev.Pipeline.Stages.Writes.{writes_alarm}
use prism_dev.Tests.{in_order-IsIteration, packet_of, in_order, good_net, record_at}

abbrev pub write_frame : List ℕ
write_frame = 0 ∷ 1 ∷ 0 ∷ 0 ∷ 0 ∷ 6 ∷ 1 ∷ 6 ∷ 1 ∷ 2 ∷ 3 ∷ 4 ∷ []

-- The same frame behind its first byte, as it arrives later.
abbrev pub later_write : List ℕ
later_write = 1 ∷ 0 ∷ 0 ∷ 0 ∷ 6 ∷ 1 ∷ 6 ∷ 1 ∷ 2 ∷ 3 ∷ 4 ∷ []

-- A write to register 258 at a time.
abbrev pub write_at : ℕ → Poll
write_at t = arrived (record (packet_of 502 write_frame) { timestamp = t }) good_net

-- Two writes, and a third six seconds later, with which the window of the first two is emitted.
abbrev pub writes : List Poll
writes = write_at 0 ∷ no_packet ∷ write_at 1_000_000 ∷ write_at 6_000_000_000 ∷ stopped ∷ []

-- A read of register 258.
abbrev pub read_at : ℕ → Poll
read_at t =
    arrived
      (record (packet_of 502 (0 ∷ 1 ∷ 0 ∷ 0 ∷ 0 ∷ 6 ∷ 1 ∷ 3 ∷ 1 ∷ 2 ∷ 0 ∷ 1 ∷ [])) {
        timestamp = t;
      })
      good_net

abbrev pub write_record : ℕ → ParsedRecord
write_record t = record {
  timestamp = t;
  protocol = "Modbus";
  is_request = true;
  is_write = true;
  function_code = 6;
  address = 258;
}

abbrev seen : Assessment
seen = record {
  shown = write_record 6_000_000_000;
  window = record {
    start_time = 0;
    end_time = 5_000_000_000;
    records = write_record 0 ∷ write_record 1_000_000 ∷ [];
  };
  net = good_net;
}

fallback-Agrees_example :
    Agrees Fixed in_order Pipeline.start
      (kept writes)
      (assessed Pipeline.start.manager (kept writes))
      (fallback {W = Fixed} in_order Pipeline.start writes)
fallback-Agrees_example = fallback-Agrees Fixed in_order writes Pipeline.start

seen-Mem : Memᴰ seen (assessed Pipeline.start.manager (kept writes))
unfolding assessed kept is_dropped parse_as classify_protocol Modbus.parse add_record Pipeline.start
    new arm emit drop_older
seen-Mem = Memᴰ.head refl

seen-IsLoud : IsLoud Fixed in_order seen
unfolding result_of compute features collect tally_record bump top of_int entropy_from deltas
    mean_gap deviation hst_score burst_score probability_of sigmoid fuse
seen-IsLoud = refl

attack-deliver_example :
    let plc = deliver false (all_taken (fallback {W = Fixed} in_order Pipeline.start writes).1) in
    (serve plc (received 0 later_write ∷ [])).0 ≡ true
unfolding command
attack-deliver_example =
    (attack-deliver Fixed Fixed-IsOrdered in_order writes false seen (received 0 later_write ∷ [])
      seen-Mem seen-IsLoud (refl, refl, refl) (omega arith) ((λ e. ground arith), tt)).2

-- One read, whose window the next read makes be emitted.
abbrev pub reads : List Poll
reads = read_at 0 ∷ read_at 6_000_000_000 ∷ []

accepted-Found_example :
    let rs = record_at 0 ∷ record_at 9 ∷ record_at 10 ∷ [] in
    Found (record_at 0) (feed (new 2 1) rs) (windows (new 2 1) rs)
unfolding accepted
accepted-Found_example =
    accepted-Found 2 1 (record_at 0 ∷ record_at 9 ∷ record_at 10 ∷ []) (record_at 0) (omega arith)
      (Memᴰ.head refl)

process-handle_example :
    process {W = Fixed} in_order Pipeline.start
      (record (packet_of 502 []) { payload = (handle true write_frame).1 })
      good_net
    ≡ (Pipeline.start, dropped)
unfolding classify_protocol is_write_fc decode_mbap_pdu is_safety_coil
process-handle_example =
    (process-handle {W = Fixed} in_order Pipeline.start (packet_of 502 []) good_net true write_frame
        (omega arith) refl).0
      (refl, (refl, refl))

-- A write among two reads.
abbrev mixed : Assessment
mixed = record {
  shown = record_at 9;
  window = record {
    start_time = 0;
    end_time = 5_000_000_000;
    records =
        record_at 0
        ∷ record (record_at 1) { is_write = false }
        ∷ record (record_at 2) { is_write = false }
        ∷ [];
  };
  net = good_net;
}

writes_alarm_example : (evaluate {W = Fixed} false (result_of in_order mixed)).0 ≡ true
writes_alarm_example =
    (writes_alarm Fixed Fixed-IsExact Fixed-IsOrdered Fixed-IsMonotone Fixed-IsWeighted in_order
      in_order-IsIteration mixed false (omega arith) (omega arith) (omega arith)).1

-- Three reads, of which the last comes three seconds after the second.
abbrev uneven : Assessment
uneven = record mixed {
  window = record {
    start_time = 0;
    end_time = 5_000_000_000;
    records =
        record (record_at 0) { is_write = false }
        ∷ record (record_at 100) { is_write = false }
        ∷ record (record_at 3100) { is_write = false }
        ∷ [];
  };
}

uneven_wide : fixed_double.lit 9 1 ≼ feature in_order uneven.window 6
unfolding compute features deltas mean_gap deviation
uneven_wide = refl

uneven_scored :
    hst_score {W = Fixed} (compute in_order uneven.window)
    ≼ hst_score (compute in_order uneven.window)
unfolding compute features hst_score collect tally_record bump top of_int entropy_from
uneven_scored = refl

spread_alarm_example : (evaluate {W = Fixed} false (result_of in_order uneven)).0 ≡ true
spread_alarm_example =
    (spread_alarm Fixed Fixed-IsOrdered Fixed-IsMonotone Fixed-IsSpread in_order uneven false
      uneven_wide uneven_scored).1

-- ===== src/Tests/Programs.antt =====
-- Examples for the parsers, the flow table, the windows, and the programs of the plant from their
-- command lines on.
use prism_dev.Common.{
  str_eq, if◌then◌else◌, ℕ, ◌≡◌, refl, arith, true, false, List, [], ◌∷◌, some, none, String,
}
use prism_dev.Common.Int.{pos}
use prism_dev.Packet.{RawPacket, Window}
use prism_dev.Parser.Modbus
use prism_dev.Parser.Reads.{parse_modbus, parse-reads}
use prism_dev.Features.Gaps.{mean, emitted_gaps}
use prism_dev.Tests.{packet_of, in_order, record_at}
use prism_dev.Double.Fixed.{Fixed, fixed_double}
use prism_dev.Features.Laws.{feature}
use prism_dev.Features.Gaps.{gaps, in_seconds}
use prism_dev.Windowing.{new, feed, add_record, arm, emit, drop_older}
use prism_dev.Socket.{sends}
use prism_dev.Simulator.Cli.{Stoi, run_cli}
use prism_dev.Simulator.Modbus.{decode_mbap_pdu}
use prism_dev.Simulator.Modbus.Server
use prism_dev.Simulator.Modbus.Server.{Connection, received, read_failed}
use prism_dev.Simulator.Modbus.Lock.{command}
use prism_dev.Simulator.Modbus.Client.{run_client}
use prism_dev.Simulator.Program as Newer
use prism_dev.Simulator.Program.Requests.{main-decode_mbap_pdu}
use prism_dev.Legacy as Older
use prism_dev.Legacy.{World}
use prism_dev.Legacy.Modbus as Unlocked
use prism_dev.Legacy.Same.{renewed, serve-unlocked}

-- A write to register 258.
abbrev write_packet : RawPacket
write_packet = packet_of 502 (0 ∷ 9 ∷ 0 ∷ 0 ∷ 0 ∷ 6 ∷ 1 ∷ 6 ∷ 1 ∷ 2 ∷ 3 ∷ 4 ∷ [])

parse-reads_example : parse_modbus write_packet ≡ some (Modbus.parse write_packet)
parse-reads_example = (parse-reads write_packet).0

-- Two records and the packet that makes their window be emitted.
abbrev pair_window : Window
pair_window = record {
  start_time = 0;
  end_time = 2_000_000;
  records = record_at 0 ∷ record_at 1 ∷ [];
}

emitted_gaps_example :
    feature {W = Fixed} in_order pair_window 5
    ≡ mean Fixed (in_seconds Fixed (gaps pair_window.records))
unfolding new feed add_record arm emit drop_older
emitted_gaps_example =
    (emitted_gaps Fixed in_order 2 1 (record_at 0 ∷ record_at 1 ∷ []) (record_at 3) 0 2_000_000
      (record_at 0) (record_at 1) [] (omega arith) refl).0

-- The numbers that the arguments below hold.
abbrev digits_of : Stoi
digits_of s = if str_eq s "502" then some (pos 502) else if str_eq s "6" then some (pos 6) else none

abbrev request : List String
request = "sim" ∷ "request" ∷ "modbus" ∷ "502" ∷ "6" ∷ "502" ∷ "6" ∷ []

abbrev local : World
local = record {
  client = record { made = true; connected = true; delivered = true };
  server = record { made = true; bound = true; listening = true };
  modbus_peers = [];
  dnp3_peers = [];
  iec104_peers = [];
}

main-decode_mbap_pdu_example :
    (v : List ℕ) × (sends (Newer.main digits_of (renewed local) request).effects ≡ v ∷ [])
    × (decode_mbap_pdu v ≡ record { function = 6; address = 502; value = 6 })
unfolding run_cli Newer.main Newer.execute run_client
main-decode_mbap_pdu_example =
    main-decode_mbap_pdu digits_of (renewed local) request (pos 502) 6 502 6 refl refl

abbrev peers : List Connection
peers = received 0 (9 ∷ 0 ∷ 0 ∷ 0 ∷ 6 ∷ 1 ∷ 6 ∷ 1 ∷ 2 ∷ 3 ∷ 4 ∷ []) ∷ read_failed ∷ []

serve-unlocked_example : Server.serve false peers ≡ (false, Unlocked.serve peers)
unfolding command
serve-unlocked_example = serve-unlocked peers (omega arith) (refl, (refl, tt))

-- ===== src/Tests/Captures.antt =====
-- Examples for the capture, the classifier and the loops.
use prism_dev.Common.{some, ℕ, ◌≡◌, refl, arith, true, List, [], ◌∷◌, none}
use prism_dev.Capture.{dlt_en10mb, other_link, Ntop, decode_frame, l2_size, PcapCapture}
use prism_dev.Capture.Reads.{Returns, Outcome, decode_frame_safe, decode_frame_overreads}
use prism_dev.Packet.{RawPacket}
use prism_dev.Parser.FlowTable.{classify, feed}
use prism_dev.Parser.FlowTable.Direction.{begun_by, classify-begun_by}
use prism_dev.Double.Fixed.{fixed_double}
use prism_dev.Pipeline.{Poll, stopped, no_packet, arrived}
use prism_dev.Tests.{packet_of, good_net}

abbrev some_host : Ntop
some_host a b c e = "host"

-- A UDP packet with a header of twenty bytes and a body of two.
abbrev datagram : List ℕ
datagram =
    0x45 ∷ 0 ∷ 0 ∷ 22 ∷ 0 ∷ 0 ∷ 0 ∷ 0 ∷ 64 ∷ 17 ∷ 0 ∷ 0 ∷ 10 ∷ 0 ∷ 0 ∷ 1 ∷ 10 ∷ 0 ∷ 0 ∷ 2 ∷ 1 ∷ 2
    ∷ []

abbrev blank : RawPacket
blank = packet_of 0 []

decode_frame_safe_example :
    Returns
      (Outcome datagram (omega arith) 22 (omega arith) 5 20 blank)
      (decode_frame some_host other_link 5 22 datagram blank)
unfolding l2_size
decode_frame_safe_example =
    decode_frame_safe datagram (omega arith) 22 (omega arith) some_host other_link 5 blank

decode_frame_overreads_example : decode_frame some_host other_link 5 60 datagram blank ≡ none
unfolding l2_size
decode_frame_overreads_example =
    decode_frame_overreads datagram 60 some_host other_link 5 blank (omega arith) (omega arith) refl
      (omega arith) (omega arith) (ground arith)

abbrev live : PcapCapture
live = record { handle = true; active = true; linktype = dlt_en10mb }

abbrev polls : List Poll
polls =
    arrived (packet_of 80 []) good_net
    ∷ no_packet
    ∷ arrived (packet_of 502 (1 ∷ [])) good_net
    ∷ stopped
    ∷ []

-- A request and its response.
abbrev asked : RawPacket
asked = packet_of 502 []

abbrev answered : RawPacket
answered = record {
  timestamp = 9;
  payload = [];
  src_ip = "10.0.0.2";
  dst_ip = "10.0.0.1";
  src_port = 502;
  dst_port = 40000;
}

classify-begun_by_example :
    begun_by answered (asked ∷ answered ∷ [])
    ≡ some (classify (feed [] (asked ∷ [])) answered).1.client_is_src
classify-begun_by_example = (classify-begun_by (asked ∷ []) answered).0

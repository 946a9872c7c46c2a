-- ===== src/Pipeline/Source.antt =====
-- Where PRISM/src/main.cpp has its packets from: each round calls nextPacket of
-- PRISM/src/capture/pcap.cpp with the packet that the round before has left.
use prism_dev.Common.{ℕ, Bool, true, false, List, [], ◌∷◌, Option, none, some, if◌then◌else◌}
use prism_dev.Common.Partial.{◌>>=◌}
use prism_dev.Packet.{RawPacket}
use prism_dev.Enforcement.{Net}
use prism_dev.Capture.{Ntop, Fetch, PcapCapture, next_packet}
use prism_dev.Pipeline.{Poll, no_packet, arrived}
pub mod Typed

-- A round: the time, what libpcap gives, and what the network does if the PLC is signalled.
pub record Round : Type 0 where
  pub now : ℕ
  pub fetch : Fetch
  pub net : Net

-- What the loop meets in the rounds; `none` is a read outside the captured bytes.
unfoldable pub met_in : Ntop → PcapCapture → RawPacket → List Round → Option (List Poll)
met_in ntop c packet [] = some []
met_in ntop c packet (r ∷ rs) = do
  got ← (next_packet ntop r.now r.fetch c packet).1
  rest ← met_in ntop c got.1 rs
  some ((if got.0 then arrived got.1 r.net else no_packet) ∷ rest)

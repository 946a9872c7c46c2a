-- ===== src/Tests.antt =====
-- The theorems at concrete inputs.
use prism_dev.Common.{ℕ, ◌*◌, Bool, true, false, List, [], ◌∷◌, String}
use prism_dev.Packet.{RawPacket, ParsedRecord, default_record}
use prism_dev.Features.{Iteration}
use mathlib.Core.List.Perm
use prism_dev.Features.Laws.{IsIteration}
use prism_dev.Enforcement.{Net}
use prism_dev.Common.{some}
pub mod Analysis
pub mod Alarms
pub mod Captures
pub mod Plant
pub mod Together
pub mod Endings
pub mod Programs
pub mod Whole
pub mod Attacks

-- A record at a time in milliseconds.
abbrev pub record_at : ℕ → ParsedRecord
record_at t = record default_record {
  timestamp = t * 1_000_000;
  protocol = "Modbus";
  is_write = true;
}

abbrev pub packet_of : ℕ → List ℕ → RawPacket
packet_of port bytes = record {
  timestamp = 7;
  payload = bytes;
  src_ip = "10.0.0.1";
  dst_ip = "10.0.0.2";
  src_port = 40000;
  dst_port = port;
}

-- Maps that are gone through in the order of their lists.
abbrev pub in_order : Iteration
in_order = record { codes = λ m. m; addresses = λ m. m; names = λ m. m }

pub in_order-IsIteration : IsIteration in_order
in_order-IsIteration = record {
  codes_once = λ m. Perm.refl m;
  addresses_once = λ m. Perm.refl m;
  names_once = λ m. Perm.refl m;
}

-- A network that carries the lock request.
abbrev pub good_net : Net
good_net = record { made = true; connected = true; written = some 12 }

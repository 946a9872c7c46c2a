-- ===== src/Packet.antt =====
-- PRISM/include/prism.hpp: the data that the stages of the monitor hand to one another.
-- A `Timestamp` (a time point of the steady clock) is its count of nanoseconds, and an unsigned
-- field of fixed width is a number; `IsPacket` states the ranges that the C++ types give.
use prism_dev.Common.{ℕ, String, Bool, true, false, List, All}
use prism_dev.Common.Bits.{IsByte, IsWord}

pub record RawPacket : Type 0 where
  pub timestamp : ℕ
  pub payload : List ℕ
  pub src_ip : String
  pub dst_ip : String
  pub src_port : ℕ
  pub dst_port : ℕ

pub record IsPacket (p : RawPacket) : Type 0 where
  pub bytes : All IsByte p.payload
  pub src_word : IsWord p.src_port
  pub dst_word : IsWord p.dst_port

pub record ParsedRecord : Type 0 where
  pub timestamp : ℕ
  pub protocol : String
  pub is_request : Bool
  pub is_write : Bool
  pub function_code : ℕ
  pub address : ℕ

-- The fields' default initialisers, `ParsedRecord{}`.
abbrev pub default_record : ParsedRecord
default_record = record {
  timestamp = 0;
  protocol = "";
  is_request = true;
  is_write = false;
  function_code = 0;
  address = 0;
}

pub record Window : Type 0 where
  pub start_time : ℕ
  pub end_time : ℕ
  pub records : List ParsedRecord

pub data RiskLevel : Type 0 where
  low medium high : RiskLevel

pub data Proto : Type 0 where
  unknown modbus dnp3 iec104 : Proto

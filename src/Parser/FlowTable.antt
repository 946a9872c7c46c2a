-- ===== src/Parser/FlowTable.antt =====
-- PRISM/src/parser/flow_table.cpp. The table is an association list, with the equality of the keys
-- that `operator==` gives; the hash only places an entry.
use prism_dev.Common.{
  ℕ, String, Bool, true, false, not, ◌&&◌, List, [], ◌∷◌, Option, none, some, ◌==◌, str_eq,
  if◌then◌else◌,
}
use prism_dev.Packet.{RawPacket}
pub mod Direction
pub mod Abstract
pub mod Hash

pub record FlowKey : Type 0 where
  pub src : String
  pub dst : String
  pub sport : ℕ
  pub dport : ℕ

-- `operator==`.
abbrev pub key_eq : FlowKey → FlowKey → Bool
key_eq k o = str_eq k.src o.src && str_eq k.dst o.dst && k.sport == o.sport && k.dport == o.dport

pub record FlowState : Type 0 where
  pub client_is_src : Bool
  pub last_seen : ℕ

abbrev pub Table : Type 0
Table = List (FlowKey × FlowState)

-- `table_.find`.
unfoldable pub find : FlowKey → Table → Option FlowState
find k [] = none
find k ((j, s) ∷ t) = let rest = find k t in if key_eq j k then some s else rest

-- The entry of a key is set; a missing one is added.
unfoldable pub put : FlowKey → FlowState → Table → Table
put k s [] = (k, s) ∷ []
put k s ((j, q) ∷ t) = let rest = put k s t in if key_eq j k then (j, s) ∷ t else (j, q) ∷ rest

-- The keys `k` and `r` of a packet.
abbrev pub forward : RawPacket → FlowKey
forward p = record { src = p.src_ip; dst = p.dst_ip; sport = p.src_port; dport = p.dst_port }

abbrev pub reverse : FlowKey → FlowKey
reverse k = record { src = k.dst; dst = k.src; sport = k.dport; dport = k.sport }

-- From what is found under `k` and, where that is nothing, under `r`.
unfoldable pub settle :
    FlowKey → ℕ → Table → Option FlowState → Option FlowState → Table × FlowState
settle k now t (some s) found =
    (put k (record s { last_seen = now }) t, record s { last_seen = now })
settle k now t none (some s) = (
  put (reverse k) (record s { last_seen = now }) t,
  record { client_is_src = not s.client_is_src; last_seen = now },
)
settle k now t none none =
    let fs : FlowState = record { client_is_src = true; last_seen = now } in (put k fs t, fs)

unfoldable pub classify : Table → RawPacket → Table × FlowState
classify t pkt = let k = forward pkt in settle k pkt.timestamp t (find k t) (find (reverse k) t)

-- The table after a sequence of packets.
unfoldable pub feed : Table → List RawPacket → Table
feed t [] = t
feed t (p ∷ ps) = feed (classify t p).0 ps

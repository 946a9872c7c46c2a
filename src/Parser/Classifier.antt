-- ===== src/Parser/Classifier.antt =====
-- PRISM/src/parser/proto_classifier.cpp.
use prism_dev.Common.{ℕ, ◌≡◌, ◌↔◌, ◌⊎◌, ◌||◌, arith, ◌==◌, if◌then◌else◌}
use prism_dev.Packet.{RawPacket, Proto, unknown, modbus, dnp3, iec104}

unfoldable pub classify_protocol : RawPacket → Proto
classify_protocol p =
    if p.src_port == 502 || p.dst_port == 502
    then modbus
    else if p.src_port == 20000 || p.dst_port == 20000
    then dnp3
    else if p.src_port == 2404 || p.dst_port == 2404
    then iec104
    else unknown

-- One of the packet's two ports is the given one.
abbrev pub Touches : RawPacket → ℕ → Type 0
Touches p port = (p.src_port ≡ port) ⊎ (p.dst_port ≡ port)

-- Either direction of a conversation gets the same protocol: a packet is Modbus exactly when one of
-- its ports is 502; DNP3 exactly when one is 20000 and none is 502; IEC 104 exactly when one is
-- 2404 and none is 502 or 20000; and unknown exactly when it has none of the three.
pub classify_protocol_iff :
    (p : RawPacket)
    → ((classify_protocol p ≡ modbus) ↔ Touches p 502)
      × ((classify_protocol p ≡ dnp3) ↔ (Touches p 20000 × (¬ (Touches p 502))))
      × ((classify_protocol p ≡ iec104)
          ↔ (Touches p 2404 × (¬ (Touches p 502)) × (¬ (Touches p 20000))))
      × ((classify_protocol p ≡ unknown)
          ↔ ((¬ (Touches p 502)) × (¬ (Touches p 20000)) × (¬ (Touches p 2404))))
unfolding classify_protocol
classify_protocol_iff p = ground arith

-- ===== src/Parser.antt =====
-- PRISM/src/parser: from a captured packet to a protocol record.
pub mod Classifier
pub mod Modbus
pub mod Dnp3
pub mod Iec104
pub mod Reads
pub mod FlowTable

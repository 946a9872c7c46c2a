-- ===== src/Simulator.antt =====
-- PRISM_simulator: the Modbus, DNP3 and IEC 104 servers and clients that the monitor watches, and
-- the command line that starts them.
pub mod Modbus
pub mod Dnp3
pub mod Iec104
pub mod Cli
pub mod Program

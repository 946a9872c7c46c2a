-- ===== src/System.antt =====
-- How the monitor (PRISM/src) and the programs of the plant (PRISM_simulator) fit together on the
-- frames that pass between them.
pub mod Wire
pub mod LockOut
pub mod Engaged
pub mod Attack
pub mod Flood
pub mod Replies

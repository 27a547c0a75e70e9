-- ===== src/WitnessCtl.antt =====
-- The command line tool witnessctl (cmd/witnessctl).
pub mod Client
pub mod Devices
pub mod Tool
pub mod Asked
mod Tests
pub mod Fused
pub mod Configured

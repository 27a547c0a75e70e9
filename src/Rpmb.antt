-- ===== src/Rpmb.antt =====
-- The package rpmb: authenticated transfers with the replay protected memory block of an eMMC
-- (rpmb/op.go and rpmb/rpmb.go).
pub mod Frame
pub mod Op
pub mod Device
pub mod Codec
pub mod Accept
pub mod Replay
pub mod Card
pub mod Sector
pub mod Tests

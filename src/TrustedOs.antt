-- ===== src/TrustedOs.antt =====
-- The trusted OS (the directory trusted_os).
pub mod Rollback
pub mod Firmware
pub mod Flash
pub mod FakeCard
pub mod Rpc
pub mod Ctl
pub mod Usb
pub mod Stdout
pub mod Net
pub mod FakeRpmb
pub mod Handler
pub mod Controllers
pub mod Boot
pub mod Debug
pub mod Load
pub mod Applet
pub mod Layout
pub mod Console
pub mod Lights
pub mod Main
pub mod Tests

-- ===== src/TrustedOs/Tests.antt =====
-- Runs of trusted_os on small inputs.
mod Storage
mod Versions
mod Calls
mod Devices
mod Start
mod Running
mod Tool
mod Crashing
mod MemoryCard
mod Cards
mod Setup
mod Starts
mod Packets
mod Installing
mod Interrupting
mod Exceptions
mod InterruptingOs

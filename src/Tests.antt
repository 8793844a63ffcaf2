-- ===== src/Tests.antt =====
-- Runs of the development at concrete inputs.
mod Linux
mod Stores
mod Probes
mod Dumps
mod Wrappers
mod Sessions
mod Loaded
mod Setup
mod Tracees
pub mod Readers
mod Simulations
mod Replays
mod Snapshots

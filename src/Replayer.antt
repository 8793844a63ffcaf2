-- ===== src/Replayer.antt =====
-- The replayer under replayer/: the reader of recordings and the access to the tracee.
pub mod Loader
pub mod Tracee
pub mod Tracing
pub mod Creplayer
pub mod PyRegisters
pub mod Simulation
pub mod ShouldSimulate

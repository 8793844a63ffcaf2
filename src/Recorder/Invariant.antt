-- ===== src/Recorder/Invariant.antt =====
-- What the state of the recorder stands for, and which of it owns each allocated block.
mod Frame
mod Rep
mod Erase
pub mod Blocks
pub mod Copies
pub mod Syscalls
pub use Frame.*
pub use Rep.*
unfoldable pub use Erase.*

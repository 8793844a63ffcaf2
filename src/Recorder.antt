-- ===== src/Recorder.antt =====
-- The kernel module under recorder/: it records the system calls of one process and hands the
-- records to a reader of /proc/syscall_dumper.
pub mod State
pub mod Kernel
pub mod Cmd
pub mod CopyToUser
pub mod SyscallRecorder
pub mod Image
pub mod SyscallDumper
pub mod SyscallWrapper
pub mod ReadProc
pub mod Session
pub mod ProcessesLoader
pub mod Main
pub mod Invariant

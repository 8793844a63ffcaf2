-- ===== src/Lib.antt =====
-- rr_python: a record-and-replay debugger for Python. A Linux kernel module (recorder/src and
-- recorder/include) records each system call of one process with the memory that the kernel
-- writes for it, and hands the records to a reader of /proc/syscall_dumper; the replayer
-- (replayer/src/replayer) parses them and plays them back to a traced process.
--
-- The parts:
--   Recorder.State           the structs of recorder/include, the global variables of the module
--   Recorder.Kernel          the Linux functions that it calls, a parameter; what they promise
--   Recorder.Cmd             commands on the state, in which misuse of memory is a fault
--   Recorder.CopyToUser      recorder/src/copy_to_user_wrapper.c: pre_put, post_put, pre_copy,
--                            post_copy, free_copy_record
--   Recorder.SyscallRecorder recorder/src/syscall_recorder.c: pre_syscall, post_syscall,
--                            free_syscall_record
--   Recorder.SyscallDumper   recorder/src/syscall_dumper.c: get_record_len, dump_syscall_record,
--                            dump_copy_records, dump_single_record, dump_records
--   Recorder.ReadProc        read_proc of the same file, with its wait loop
--   Recorder.SyscallWrapper  recorder/src/syscall_wrapper.c: get_*_record_mem, pre_wrap_syscall,
--                            post_wrap_syscall
--   Recorder.ProcessesLoader recorder/src/recorded_processes_loader.c: write_proc
--   Recorder.Main            recorder/src/main.c and the init_* and remove_* functions of the other
--                            files, over the set of what is registered with the kernel
--   Recorder.Session         a step relation: the handlers in the orders in which the kernel calls
--                            them, with reads and other tasks' work between them
--   Recorder.Image           the bytes of a dumped record, an independent description
--   Recorder.Invariant       IsRep: the state holds a copy under way, a system call under way and a
--                            queue of finished ones, each block is owned by exactly one of them
--   Replayer.Loader          replayer/src/replayer/loader: the parser of a recording
--   Replayer.ShouldSimulate  replayer/src/replayer/should_simulate: which calls are simulated
--   Replayer.PyRegisters, Replayer.Simulation
--                            replayer/src/replayer/replayer.py and syscall_handlers.py: the class
--                            Replayer, through the functions of Replayer.Creplayer
--   Replayer.Creplayer       replayer/src/creplayer/creplayer.c: the functions that Python calls,
--                            over ptrace and waitpid, the parameters of Replayer.Tracing
--   Replayer.Tracee          replayer/src/creplayer/creplayer.c: write_buffer_to_tracee and
--                            read_from_tracee over ptrace, a parameter
--   Python                   how the functions end that Python calls (creplayer/utils.h)
--   Pager                    pager/src/cpager: snapshots with criu, a parameter
--   Pyrecorder               pyrecorder/src/cpyrecorder: the trace function of a replay
--   Common                   lists, bytes in memory, Boolean tests, signed words
--   Tests                    a concrete kernel and concrete states, and runs on them
--
-- A function of the C code is a function of the same name into `Cmd`. A run ends with a result and a
-- state, or with a fault: a use of NULL or of a freed block, a block used as what it is not, a lock
-- taken twice. An `unsigned long` is a native number with its wrap-around written out. A list of the
-- kernel is the sequence of its elements' addresses. The handlers of one task's probes run one
-- after the other, and the recorded pid changes only between recorded calls; the other case is in
-- Recorder.Session.Retargeted. What other tasks do in each round of a reader, before and after
-- prepare_to_wait, is a parameter of read_proc; other interleavings are not modelled.
--
-- Fuel: the loop of dump_records takes eight bytes from the fifo in each round, so its fuel is the
-- number of bytes in the fifo plus one; the parser takes a byte or more for each system call, so
-- its fuel is the length of the buffer. read_proc has a round for each `WakeUp` that it is given, and
-- is asleep when there are none left or when no wake_up has come since prepare_to_wait.
--
-- Recorder.Session.Spec is the specification of the kernel module without addresses: a recording,
-- and how each event may move it; Recorder.Session.History adds the calls that were kept and taken
-- from the start on. A function of an extension in C, and the Python code over it, is a
-- function into `Py`: it changes a state and returns an object, raises an exception or faults.
--
-- Not modelled: logging, the tables of methods of the extensions and the installation. What the tracee
-- does between two stops is the kernel's and its own: a parameter, of which only the invalid system
-- call of a simulation (IsResuming) and the next stop after a call (IsStepping) are described.
pub mod Common
pub mod Python
pub mod Recorder
pub mod Replayer
pub mod Pager
pub mod Pyrecorder
pub mod Tests

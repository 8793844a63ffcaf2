-- ===== src/Tests/Wrappers.antt =====
-- The wrapped system calls and the reader at concrete states.
use rr_python.Tests.Dumps.{images_small}
use rr_python.Recorder.SyscallWrapper.Record.{Changed}
use rr_python.Recorder.ReadProc.Rounds.{Ended}
use rr_python.Recorder.ReadProc.Outcome.{read_proc-Ended}
use rr_python.Recorder.SyscallWrapper.Replay.{Replayed, post_wrap_syscall-Replayed}
use rr_python.Recorder.SyscallWrapper.Save.{pre_wrap_syscall-overflow}
use rr_python.Tests.Linux.{linux, linux-IsKernel}
use rr_python.Tests.Stores.{
  call_state, frame, recorded_task, under_way, finished_call, idle_state, call_heap,
  idle_state-IsRep,
}
use rr_python.Common.Bytes.{Memory, read_bytes}
use rr_python.Recorder.Cmd.{Returns, fault, is_recorded}
use rr_python.Recorder.Invariant.{IsRep, ghost}
use rr_python.Recorder.ReadProc.{WakeUp, read_proc}
use rr_python.Recorder.State.{PtRegs, State, SyscallRecordedMem, recorded_mem}
use rr_python.Recorder.SyscallWrapper.{
  get_record_mem_callback, pre_wrap_syscall, get_getdents64_record_mem, getdents64_wrapper,
  post_wrap_syscall,
}
use rr_python.Recorder.SyscallWrapper.Compare.{
  IsSaved, changed_since, post_wrap_syscall-Changed, limits,
}
use rr_python.Common.{
  [], ◌∷◌, true, false, none, some, arith, if◌then◌else◌, ◌≡◌, refl, ◌==◌, ◌^◌, ◌%◌, ◌-◌,
}

abbrev saved_mem : SyscallRecordedMem
saved_mem = record { ptr = 50; len = 3; mem = 50 ∷ 7 ∷ 52 ∷ [] }

-- A system call under way, with two bytes saved.
abbrev wrapped_state : State
wrapped_state = record call_state {
  heap = λ p. if p == 500 then some (recorded_mem saved_mem) else call_heap p;
}

wrapped_state-IsRep :
    IsRep wrapped_state (ghost none (some under_way) (finished_call ∷ [])) (500 ∷ [])
wrapped_state-IsRep = record {
  pending_at = refl;
  current_at = (refl, (omega arith, refl, (refl, (refl, omega arith), tt)));
  queue_at = ((omega arith, refl, tt), tt);
  fifo = refl;
  fifo_size = refl;
  fits = omega arith;
  low = λ p h. ground arith;
  exact = λ p. ground arith;
}

saved_mem-IsSaved : IsSaved saved_mem
saved_mem-IsSaved = record { whole = refl; small = omega arith; in_memory = omega arith }

post_wrap_syscall-Changed_example :
    Returns
      (λ r s.
        (r ≡ 0)
        × Changed linux
            (limits saved_mem under_way [])
            wrapped_state
            none
            under_way
            (finished_call ∷ [])
            []
            (changed_since wrapped_state saved_mem)
            s)
      (post_wrap_syscall linux 500 wrapped_state)
post_wrap_syscall-Changed_example =
    post_wrap_syscall-Changed linux-IsKernel saved_mem saved_mem-IsSaved wrapped_state-IsRep refl

abbrev before : Memory
before a = if a == 51 then 7 else a % 256

was_saved : read_bytes before 50 3 ≡ saved_mem.mem
unfolding read_bytes
was_saved = refl

post_wrap_syscall-Replayed_example :
    Returns
      (λ r s.
        Replayed linux before saved_mem wrapped_state none under_way (finished_call ∷ []) [] s)
      (post_wrap_syscall linux 500 wrapped_state)
post_wrap_syscall-Replayed_example =
    post_wrap_syscall-Replayed saved_mem-IsSaved before was_saved linux-IsKernel wrapped_state-IsRep
      refl

abbrev huge_frame : PtRegs
huge_frame = record frame { dx = 2 ^ 64 - 16 }

huge_length :
    get_record_mem_callback getdents64_wrapper recorded_task huge_frame call_state
    ≡ some (80, 2 ^ 64 - 16)
unfolding get_record_mem_callback get_getdents64_record_mem
huge_length = refl

is_recorded_here : is_recorded recorded_task call_state ≡ true
unfolding is_recorded
is_recorded_here = refl

pre_wrap_syscall-overflow_example :
    pre_wrap_syscall linux recorded_task getdents64_wrapper huge_frame 0 call_state ≡ fault
pre_wrap_syscall-overflow_example =
    pre_wrap_syscall-overflow linux recorded_task getdents64_wrapper huge_frame 0 call_state 80
      is_recorded_here refl huge_length

-- A reader that is woken once, without a signal, by another task that does nothing.
abbrev woken : WakeUp
woken = record { before = λ s. s; others = λ s. s; signal_pending = false }

read_proc-Ended_example :
    Returns
      (Ended linux false 5000 4096 idle_state (woken ∷ []))
      (read_proc linux false 5000 4096 (woken ∷ []) idle_state)
read_proc-Ended_example =
    read_proc-Ended linux-IsKernel 5000 4096 (omega arith) false (woken ∷ [])
      (((λ s sane unlocked. (sane, unlocked)), (λ s sane unlocked. (sane, unlocked))), tt) refl
      (record {
        g = ghost none none (finished_call ∷ under_way ∷ []);
        extra = [];
        rep = idle_state-IsRep;
        small = images_small;
      })

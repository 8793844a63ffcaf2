-- ===== src/Tests/Probes.antt =====
-- The probes at concrete states.
use rr_python.Recorder.SyscallRecorder.Enter.{EnteredSyscall, pre_syscall-EnteredSyscall}
use rr_python.Recorder.CopyToUser.Ownership.{
  put_copy, user_copy, pre_copy-Entered, pre_put-Entered, Entered,
}
use rr_python.Recorder.Invariant.{ghost}
use rr_python.Tests.Linux.{linux, linux-IsKernel}
use rr_python.Recorder.CopyToUser.{post_put, post_copy, pre_copy, pre_put}
use rr_python.Recorder.CopyToUser.Attach.{Left, filled, post_put-Left, post_copy-Left}
use rr_python.Recorder.SyscallRecorder.Leave.{Queued, post_syscall-lem}
use rr_python.Tests.Stores.{
  call_state, frame, copy_state, under_way, finished_call, pending_copy, put_pending, recorded_task,
  copy_state-IsRep, call_state-IsRep, idle_state, idle_state-IsRep,
}
use rr_python.Recorder.Cmd.{Returns}
use rr_python.Recorder.State.{PtRegs}
use rr_python.Recorder.SyscallRecorder.{post_syscall, pre_syscall}
use rr_python.Common.{[], ◌∷◌, true, false, none, some, arith, refl}

pre_put-Entered_example :
    Returns
      (Entered linux recorded_task call_state
        (ghost none (some under_way) (finished_call ∷ []))
        []
        (put_copy 4 frame))
      (pre_put linux recorded_task 4 frame call_state)
pre_put-Entered_example =
    pre_put-Entered linux-IsKernel recorded_task frame call_state-IsRep 4 (omega arith)

pre_copy-Entered_example :
    Returns
      (Entered linux recorded_task call_state
        (ghost none (some under_way) (finished_call ∷ []))
        []
        (user_copy frame))
      (pre_copy linux recorded_task frame call_state)
pre_copy-Entered_example =
    pre_copy-Entered linux-IsKernel recorded_task frame call_state-IsRep (omega arith)

post_put-Left_example :
    Returns
      (Left (copy_state put_pending) under_way (finished_call ∷ []) [] 400 false put_pending)
      (post_put frame (copy_state put_pending))
post_put-Left_example =
    post_put-Left (copy_state-IsRep put_pending (omega arith)) frame (refl, omega arith)

abbrev done_frame : PtRegs
done_frame = record frame { ax = 0 }

post_copy-Left_example :
    Returns
      (Left
        (copy_state pending_copy)
        under_way
        (finished_call ∷ [])
        []
        400
        true
        (filled (copy_state pending_copy) pending_copy))
      (post_copy done_frame (copy_state pending_copy))
post_copy-Left_example =
    post_copy-Left (copy_state-IsRep pending_copy (omega arith)) done_frame refl

pre_syscall-EnteredSyscall_example :
    Returns
      (EnteredSyscall linux recorded_task idle_state
        (ghost none none (finished_call ∷ under_way ∷ []))
        []
        frame)
      (pre_syscall linux recorded_task frame idle_state)
pre_syscall-EnteredSyscall_example =
    pre_syscall-EnteredSyscall linux-IsKernel recorded_task frame
      (ghost none none (finished_call ∷ under_way ∷ [])) idle_state-IsRep

post_syscall-lem_example :
    Returns
      (Queued call_state none under_way (finished_call ∷ []) [])
      (post_syscall linux frame call_state)
post_syscall-lem_example = post_syscall-lem linux-IsKernel call_state-IsRep refl frame

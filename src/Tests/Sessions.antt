-- ===== src/Tests/Sessions.antt =====
-- A session of two events.
use rr_python.Recorder.Session.Retargeted.{syscall_return-put_return}
use rr_python.Recorder.Session.Spec.{recording}
use rr_python.Recorder.Invariant.Syscalls.{fresh_item}
use rr_python.Recorder.Session.Reachable.{Refined, Represents, perform-Refined}
use rr_python.Recorder.Invariant.{block, ghost}
use rr_python.Recorder.SyscallRecorder.{
  pre_syscall, never_returns, post_syscall, save_ret, enqueue_current, push_current,
}
use rr_python.Tests.Linux.{linux, linux-IsKernel}
use rr_python.Tests.Stores.{
  call_state, recorded_task, frame, under_way, finished_call, call_state-IsRep, copy_state,
  put_pending, copy_state-IsRep,
}
use rr_python.Recorder.Cmd.{
  fault, out_of_fuel, Returns, is_recorded, kmalloc, ok, Run, load_syscall, store, mutex_lock,
  mutex_unlock,
}
use rr_python.Recorder.State.{State, write, null, syscall}
use rr_python.Common.{[], none, some, ◌^◌, refl, ◌≡◌, ◌∷◌, ℕ, arith}
use rr_python.Recorder.Session.{
  inside, syscall_entry, start, step, IsInitial, Reach, perform, syscall_return, outside,
  put_return, putting,
}

abbrev pub initial_state : State
initial_state = record call_state {
  heap = λ p. none;
  current_syscall_record = null;
  recorded_syscalls = record { size = 2 ^ 15; bytes = [] };
  calls = 0;
}

abbrev pub entered_state : State
entered_state = record initial_state {
  heap = write (λ p. none) 17 (some (syscall (block (fresh_item 17 frame 80))));
  current_syscall_record = 17;
  calls = 1;
}

pub initial_state-IsInitial : IsInitial initial_state
initial_state-IsInitial = record {
  heap = λ p. refl;
  record_ptr = refl;
  copy_ptr = refl;
  fifo = refl;
  fifo_size = refl;
  mutex = refl;
}

pub enter_call :
    perform linux (syscall_entry recorded_task frame) initial_state ≡ ok 0 entered_state
unfolding perform pre_syscall is_recorded never_returns kmalloc
enter_call = refl

abbrev pub entered_session : Reach linux inside entered_state
entered_session =
    step (syscall_entry recorded_task frame) 0 (start initial_state initial_state-IsInitial) tt
      enter_call

-- The state in which a run ends.
unfoldable pub end_of : Run ℕ → State
end_of (ok r s) = s
end_of fault = initial_state
end_of out_of_fuel = initial_state

abbrev pub returned_state : State
returned_state = end_of (perform linux (syscall_return frame) entered_state)

pub leave_call : perform linux (syscall_return frame) entered_state ≡ ok 0 returned_state
unfolding perform post_syscall end_of save_ret load_syscall write store mutex_lock enqueue_current
    push_current mutex_unlock
leave_call = refl

abbrev pub returned_session : Reach linux outside returned_state
returned_session = step (syscall_return frame) 0 entered_session refl leave_call

call_state-Represents :
    Represents inside call_state (recording (ghost none (some under_way) (finished_call ∷ [])))
call_state-Represents = record {
  safe = record {
    g = ghost none (some under_way) (finished_call ∷ []);
    extra = [];
    rep = call_state-IsRep;
    agrees = ((under_way, refl), refl);
    unlocked = refl;
  };
  agrees = refl;
}

perform-Refined_example :
    Returns
      (Refined linux inside call_state
        (recording (ghost none (some under_way) (finished_call ∷ [])))
        (syscall_return frame))
      (perform linux (syscall_return frame) call_state)
perform-Refined_example =
    perform-Refined linux-IsKernel (recording (ghost none (some under_way) (finished_call ∷ [])))
      (syscall_return frame) call_state-Represents refl

-- A put is under way for another task when the recorded call returns.
putting_state-Represents :
    Represents putting
      (copy_state put_pending)
      (recording (ghost (some (400, put_pending)) (some under_way) (finished_call ∷ [])))
putting_state-Represents = record {
  safe = record {
    g = ghost (some (400, put_pending)) (some under_way) (finished_call ∷ []);
    extra = [];
    rep = copy_state-IsRep put_pending (omega arith);
    agrees = ((under_way, refl), ((400, put_pending), (refl, (refl, omega arith))));
    unlocked = refl;
  };
  agrees = refl;
}

syscall_return-put_return_example :
    Returns
      (λ r s. perform linux (put_return (record frame { ax = 0 })) s ≡ fault)
      (perform linux (syscall_return frame) (copy_state put_pending))
syscall_return-put_return_example =
    syscall_return-put_return frame (record frame { ax = 0 }) linux-IsKernel
      putting_state-Represents refl

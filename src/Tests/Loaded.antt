-- ===== src/Tests/Loaded.antt =====
-- A session of one call, and what the replayer loads of it.
use rr_python.Recorder.State.{write}
use rr_python.Recorder.Invariant.Syscalls.{fresh_item}
use rr_python.Recorder.Cmd.{is_recorded, load_syscall, store, mutex_lock, mutex_unlock}
use rr_python.Recorder.Invariant.{Item, ghost, IsRep}
use rr_python.Recorder.SyscallRecorder.{post_syscall, save_ret, enqueue_current, push_current}
use rr_python.Recorder.SyscallRecorder.Enter.{NeverReturns}
use rr_python.Tests.Sessions.{
  returned_session, end_of, leave_call, enter_call, initial_state, initial_state-IsInitial,
  returned_state,
}
use rr_python.Tests.Stores.{frame, recorded_task}
use rr_python.Common.{[], ◌∷◌, none, true, false, ◌≡◌, arith, refl}
use rr_python.Recorder.Session.{syscall_entry, syscall_return, perform}
use rr_python.Recorder.Session.Spec.{Call, begun, begins, ends}
use rr_python.Recorder.Session.History.{started, went_on, Told}

abbrev first_item : Item
first_item = record (fresh_item 17 frame 80) { ret = frame.ax }

abbrev first_call : Call
first_call = record (begun frame 80) { ret = frame.ax }

recorded_first : is_recorded recorded_task initial_state ≡ true
unfolding is_recorded
recorded_first = refl

comes_back : ¬ NeverReturns frame.di
comes_back h = ground arith

returned_state-IsRep : IsRep returned_state (ghost none none (first_item ∷ [])) []
unfolding perform post_syscall end_of save_ret load_syscall write store mutex_lock enqueue_current
    push_current mutex_unlock
returned_state-IsRep = record {
  pending_at = refl;
  current_at = refl;
  queue_at = ((omega arith, refl, tt), tt);
  fifo = refl;
  fifo_size = refl;
  fits = omega arith;
  low = λ p h. ground arith;
  exact = λ p. ground arith;
}

returned_state-unlocked : returned_state.mutex_locked ≡ false
unfolding perform post_syscall end_of save_ret load_syscall write store mutex_lock enqueue_current
    push_current mutex_unlock
returned_state-unlocked = refl

abbrev returned_told : Told returned_session
returned_told = record {
  recorded = record { pending = none; current = none; queue = first_call ∷ [] };
  kept = first_call ∷ [];
  given = [];
  history =
      went_on (syscall_return frame) 0 refl leave_call
        (went_on (syscall_entry recorded_task frame) 0 tt enter_call
          (started initial_state initial_state-IsInitial)
          (begins recorded_task frame recorded_first comes_back refl))
        (ends frame (begun frame 80) refl);
  represents = record {
    safe = record {
      g = ghost none none (first_item ∷ []);
      extra = [];
      rep = returned_state-IsRep;
      agrees = (refl, refl);
      unlocked = returned_state-unlocked;
    };
    agrees = refl;
  };
}

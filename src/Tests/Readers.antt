-- ===== src/Tests/Readers.antt =====
-- Readers of the recorder at concrete inputs.
use rr_python.Recorder.ReadProc.Wakes.{read_proc-HasDumped}
use rr_python.Tests.Dumps.{images_small}
use rr_python.Tests.Linux.{linux, linux-IsKernel}
use rr_python.Recorder.SyscallDumper.{dump_records}
use rr_python.Recorder.SyscallDumper.Bounds.{Answer, dump_records-IsWithin}
use rr_python.Replayer.Loader.Fuel.{loop_round, load_system_calls-loop_round}
use rr_python.Common.Bytes.{IsWithin}
use rr_python.Recorder.Invariant.{ghost, IsRep-touch}
use rr_python.Tests.Stores.{call_state, idle_state, finished_call, under_way, idle_state-IsRep}
use rr_python.Recorder.Cmd.{Returns}
use rr_python.Recorder.Image.{images}
use rr_python.Recorder.ReadProc.{WakeUp, read_proc, slept}
use rr_python.Recorder.ReadProc.Rounds.{IsSane, IsUnlocked, HasDumped, free, woken, at_once}
use rr_python.Recorder.State.{State, null}
use rr_python.Replayer.Loader.{load_system_calls}
use rr_python.Common.{[], ◌∷◌, false, none, ◌≡◌, arith, ◌^◌, refl, ap, length, ◌+◌}

idle_state-IsSane : IsSane idle_state
idle_state-IsSane = record {
  g = ghost none none (finished_call ∷ under_way ∷ []);
  extra = [];
  rep = idle_state-IsRep;
  small = images_small;
}

-- While the reader sleeps, two records come.
abbrev two_records : WakeUp
two_records = record {
  before = λ s. s;
  others = λ s. record idle_state { wake_ups = s.wake_ups + 2 };
  signal_pending = false;
}

-- The fifo is empty at first.
abbrev empty_state : State
empty_state = record call_state {
  recorded_syscalls = record { size = 2 ^ 15; bytes = [] };
  heap = λ p. none;
  current_syscall_record = null;
}

empty_state-IsSane : IsSane empty_state
unfolding images
empty_state-IsSane = record {
  g = ghost none none [];
  extra = [];
  rep = record {
    pending_at = refl;
    current_at = refl;
    queue_at = tt;
    fifo = refl;
    fifo_size = refl;
    fits = omega arith;
    low = λ p h. refl;
    exact = λ p. omega arith;
  };
  small = omega arith;
}

two_records-IsSane : (s : State) → IsSane (record idle_state { wake_ups = s.wake_ups + 2 })
two_records-IsSane s = record {
  g = ghost none none (finished_call ∷ under_way ∷ []);
  extra = [];
  rep =
      IsRep-touch idle_state.memory idle_state.frames idle_state.recorded_process_pid false
        (s.wake_ups + 2) idle_state.calls idle_state-IsRep;
  small = images_small;
}

read_proc-HasDumped_example :
    Returns
      (λ r s'.
        IsUnlocked s'
        × IsSane s'
        × HasDumped linux 5000 4096 (slept two_records (free empty_state)) r s')
      (read_proc linux false 5000 4096 (two_records ∷ []) empty_state)
read_proc-HasDumped_example =
    read_proc-HasDumped linux-IsKernel 5000 4096 (omega arith) (two_records ∷ [])
      (
        ((λ s sane unlocked. (sane, unlocked)), (λ s sane unlocked. (two_records-IsSane s, refl))),
        tt,
      )
      refl empty_state-IsSane
      (
        [],
        woken two_records (two_records ∷ []) empty_state [] (at_once (two_records ∷ [])) refl refl
            (omega arith),
        λ e. absurd (omega (arith, ap length e)),
      )

dump_records-IsWithin_example :
    Returns
      (λ r s'. IsWithin 5000 300 idle_state.memory s'.memory × Answer 300 r)
      (dump_records linux 5000 300 idle_state)
dump_records-IsWithin_example =
    dump_records-IsWithin linux-IsKernel 5000 300 idle_state-IsRep (omega arith) images_small

load_system_calls-loop_round_example : load_system_calls (1 ∷ 2 ∷ []) ≡ loop_round (1 ∷ 2 ∷ [])
load_system_calls-loop_round_example = load_system_calls-loop_round (1 ∷ 2 ∷ [])

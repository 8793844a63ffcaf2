-- ===== src/Tests/Replays.antt =====
-- The choice of the calls to simulate and a replay, at concrete inputs.
use rr_python.Replayer.Simulation.Mismatch.{wrap_and_run_real_system_call_in_tracee-negative}
use rr_python.Python.{object}
use rr_python.Replayer.Creplayer.{passed}
use rr_python.Replayer.PyRegisters.{from_list}
use rr_python.Replayer.Simulation.Followed.{Followed}
use rr_python.Tests.Simulations.{open_tracing, read_call, world, python, user_regs}
use rr_python.Recorder.Invariant.{Located}
use rr_python.Replayer.ShouldSimulate.Maps.{IsBetween, has_mmap}
use rr_python.Replayer.Simulation.Through.{Through}
use rr_python.Replayer.ShouldSimulate.Agree.{should_simulate_system_call-agree}
use rr_python.Tests.Stores.{attached_copy}
use rr_python.Replayer.Tracing.{World, at_exit}
use rr_python.Replayer.Loader.{SystemCall}
use rr_python.Replayer.ShouldSimulate.{
  is_open_system_call_for_fd, should_simulate_system_call, is_close_system_call_for_fd,
}
use rr_python.Replayer.Simulation.{wrap_and_run_real_system_call_in_tracee}
use rr_python.Common.{[], ◌∷◌, some, List, ◌≡◌, not, refl, inr}
use rr_python.Common.Signed.{pos, negsuc}

-- A file is opened, mapped and closed.
abbrev open_call : SystemCall
open_call = record read_call {
  registers = record (read_call.registers) { orig_rax = 257 };
  return_value = pos 3;
}

abbrev mmap_call : SystemCall
mmap_call = record read_call { registers = record (read_call.registers) { orig_rax = 9; r8 = 3 } }

abbrev close_call : SystemCall
close_call = record read_call { registers = record (read_call.registers) { orig_rax = 3; rdi = 3 } }

mmap_call-IsBetween : IsBetween (pos 3) mmap_call
unfolding is_open_system_call_for_fd is_close_system_call_for_fd
mmap_call-IsBetween = record { no_open = refl; no_close = refl }

should_simulate_system_call-agree_example :
    (should_simulate_system_call (read_call ∷ open_call ∷ mmap_call ∷ close_call ∷ []) 1
      ≡ some (not (has_mmap (pos 3) (mmap_call ∷ []))))
    × (should_simulate_system_call (read_call ∷ open_call ∷ mmap_call ∷ close_call ∷ []) 3
        ≡ some (not (has_mmap (pos 3) (mmap_call ∷ []))))
should_simulate_system_call-agree_example =
    should_simulate_system_call-agree open_call (inr refl) close_call refl refl (mmap_call ∷ [])
      (mmap_call-IsBetween, tt) (read_call ∷ []) []

-- A recording of two reads, at the exit of the call before them.
abbrev reads : List (SystemCall × List Located)
reads = (read_call, (300, attached_copy) ∷ []) ∷ (read_call, (300, attached_copy) ∷ []) ∷ []

abbrev exit_world : World
exit_world = record world { tracee = record (world.tracee) { stop = at_exit } }

-- A call that is really made and whose recording failed with -EINVAL.
abbrev munmap_call : SystemCall
munmap_call = record read_call {
  registers = record (read_call.registers) { orig_rax = 11 };
  return_value = negsuc 21;
}

wrap_and_run_real_system_call_in_tracee-negative_example : ¬ (
    (w' : World) × (wrap_and_run_real_system_call_in_tracee open_tracing python
        (pos 5)
        munmap_call
        (from_list (passed user_regs))
        world
      ≡ (w', object tt)))
wrap_and_run_real_system_call_in_tracee-negative_example =
    wrap_and_run_real_system_call_in_tracee-negative open_tracing python (pos 5) munmap_call
      (from_list (passed user_regs)) 21 world refl refl

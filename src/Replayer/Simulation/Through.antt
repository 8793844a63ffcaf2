-- ===== src/Replayer/Simulation/Through.antt =====
-- One system call of a replay, in replayer/src/replayer/replayer.py.
use rr_python.Replayer.PyRegisters.{from_list}
use rr_python.Replayer.Simulation.Steps.{IsArguments, IsResuming}
use rr_python.Replayer.ShouldSimulate.{num}
use rr_python.Recorder.Invariant.{Located}
use rr_python.Replayer.Simulation.Simulated.{Simulated}
use rr_python.Replayer.Creplayer.Registers.{IsTracing, Fails, raise_with_errno-failed, getregs_call}
use rr_python.Replayer.Loader.{SystemCall}
use rr_python.Replayer.Simulation.{run_tracee_through_system_call, get_registers_from_tracee}
use rr_python.Replayer.Tracing.{World}
use rr_python.Replayer.Creplayer.{passed, py_get_registers_from_tracee}
use rr_python.Replayer.Tracing.{Tracing, Arguments}
use rr_python.Common.{none, List, ◌≡◌, refl, ◌≢◌, ℕ}
use rr_python.Python.{null, failed, Result, unexpected_sys_call, Exception, system_error, strerror}
use rr_python.Common.Signed.{ℤ, pos}

-- How one call of the recording ends that is to be simulated: the tracee made that call and it is
-- simulated with the registers that the tracee had; or the tracee made another one, and it stays
-- at its entry; or a call of ptrace fails.
pub data Through (t : Tracing) (pid : ℤ) (w : World) (call : SystemCall) (cs : List Located)
    (r : World × Result (Unit {0})) : Type 0 where
  through :
      num call ≡ w.tracee.regs.orig_rax
      → Simulated t pid w cs (from_list (passed (w.tracee.regs))) (call.return_value) r
      → Through t pid w call cs r
  other_call :
      num call ≢ w.tracee.regs.orig_rax
      → r ≡ (w, null (unexpected_sys_call (pos (num call)) (pos (w.tracee.regs.orig_rax))))
      → Through t pid w call cs r
  unread : (e : Exception) → Fails t pid → r ≡ (w, null e) → Through t pid w call cs r

module _ {t : Tracing} {a : Arguments} {pid : ℤ} (is : IsTracing t) (args : IsArguments a pid)
    (resuming : IsResuming t) where
  unread_registers :
      (w : World) (n : ℕ)
      → t.getregs pid (w.tracee) ≡ failed n
      → get_registers_from_tracee t a pid w ≡ (w, null (system_error (strerror (pos n))))
  unfolding get_registers_from_tracee py_get_registers_from_tracee
  unread_registers w n refused_get =
      rw (args.pid_only, raise_with_errno-failed (getregs_call t pid) w n refused_get) refl

  -- A tracee that is gone has no registers.
  pub gone_through :
      (calls : List SystemCall) (call : SystemCall) (index : ℕ) (w : World) (n : ℕ)
      → t.getregs pid (w.tracee) ≡ failed n
      → run_tracee_through_system_call t a pid none calls call index w
        ≡ (w, null (system_error (strerror (pos n))))
  unfolding run_tracee_through_system_call
  gone_through calls call index w n refused_get = rw (unread_registers w n refused_get) refl

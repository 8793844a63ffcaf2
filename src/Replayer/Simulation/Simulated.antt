-- ===== src/Replayer/Simulation/Simulated.antt =====
-- What the simulation of replayer/src/replayer/replayer.py leaves in the tracee.
use rr_python.Replayer.PyRegisters.{PyRegisters, register_args, with_orig_rax, with_rax}
use rr_python.Replayer.Creplayer.Registers.{set, refused, Fails}
use rr_python.Replayer.Simulation.Steps.{
  copied, not_copied, resumed, not_resumed, IsArguments, enosys, IsResuming, AreShort, words_of,
  IsInvalid, run-Resumed, write_memory_copies-Copied,
}
use rr_python.Replayer.Loader.{SystemCall}
use rr_python.Replayer.Loader.RoundTrip.{memory_copies}
use rr_python.Replayer.Creplayer.Transfer.{with_memory}
use rr_python.Replayer.Creplayer.Registers.{
  SameRest, IsTracing, py_set_registers_in_tracee-Set, with_regs,
}
use rr_python.Recorder.SyscallWrapper.Record.{contents}
use rr_python.Recorder.SyscallWrapper.Changes.{replay}
use rr_python.Replayer.Tracee.Words.{AreBytes}
use rr_python.Recorder.Invariant.{Located}
use rr_python.Replayer.Creplayer.{
  py_run_until_enter_or_exit_of_next_syscall, py_set_registers_in_tracee,
}
use rr_python.Replayer.Tracing.{World, UserRegs}
use rr_python.Replayer.Creplayer.{passed}
use rr_python.Replayer.Tracing.{Arguments, Tracing, Values, at_entry, at_exit}
use rr_python.Replayer.Simulation.{simulate_system_call_for_tracee, write_memory_copies}
use rr_python.Common.{[], ◌∷◌, List, ℕ, ◌^◌, ◌≡◌, ◌-◌, refl, ◌∙◌, sym, ap, arith}
use rr_python.Python.{int, object, null, Result, Exception, ◌>>◌, system_error, strerror}
use rr_python.Common.Signed.{ℤ, pos, negsuc}

-- How a simulation ends: the tracee is at the exit of the system call, its memory is what the copies
-- make of it, `rax` is the recorded value, each other register what it was at the entry; or an
-- exception is raised.
pub data Simulated (t : Tracing) (pid : ℤ) (w : World) (cs : List Located) (regs : PyRegisters)
    (ret : ℤ) (r : World × Result (Unit {0})) : Type 0 where
  simulated :
      (w' : World)
      → r ≡ (w', object tt)
      → w'.tracee.stop ≡ at_exit
      → w'.tracee.memory ≡ replay (w.tracee.memory) (contents cs)
      → passed (w'.tracee.regs) ≡ words_of (with_rax ret regs)
      → SameRest (w.tracee.regs) (w'.tracee.regs)
      → w'.buffers ≡ w.buffers
      → Simulated t pid w cs regs ret r
  raised :
      (w' : World) (e : Exception)
      → Fails t pid
      → r ≡ (w', null e)
      → Simulated t pid w cs regs ret r

SameRest-trans : {x y z : UserRegs} → SameRest x y → SameRest y z → SameRest x z
SameRest-trans p q = record {
  fs_base = q.fs_base ∙ p.fs_base;
  gs_base = q.gs_base ∙ p.gs_base;
  ds = q.ds ∙ p.ds;
  es = q.es ∙ p.es;
  fs = q.fs ∙ p.fs;
  gs = q.gs ∙ p.gs;
}

-- The number of the system call among the 21 values.
abbrev sys_call_of : Values ℕ → ℕ
sys_call_of
      (
        r15, r14, r13, r12, rbp, rbx, r11, r10, r9, r8, rax, rcx, rdx, rsi, rdi, orig_rax, rip, cs,
        eflags, rsp, ss,
      ) =
    orig_rax

sys_call_of-passed : (regs : UserRegs) → sys_call_of (passed regs) ≡ regs.orig_rax
unfolding passed
sys_call_of-passed regs = refl

invalid :
    (regs : PyRegisters) (regs₁ : UserRegs)
    → passed regs₁ ≡ words_of (with_orig_rax (negsuc 4) regs)
    → IsInvalid (regs₁.orig_rax)
invalid regs regs₁ e =
    let number : regs₁.orig_rax ≡ 2 ^ 64 - 5 = sym (sys_call_of-passed regs₁) ∙ ap sys_call_of e in
    omega (arith, number)

abbrev exited : World → UserRegs → World
exited w regs = record w {
  tracee = record (w.tracee) { stop = at_exit; regs = record regs { rax = 2 ^ 64 - enosys } };
}

module _ {t : Tracing} {a : Arguments} {pid : ℤ} (is : IsTracing t) (args : IsArguments a pid)
    (resuming : IsResuming t) where
  -- The last registers.
  last-Simulated :
      (call : SystemCall) (cs : List Located) (regs : PyRegisters) (w w' : World)
      → w'.tracee.stop ≡ at_exit
      → w'.tracee.memory ≡ replay (w.tracee.memory) (contents cs)
      → SameRest (w.tracee.regs) (w'.tracee.regs)
      → w'.buffers ≡ w.buffers
      → Simulated t pid w cs regs (call.return_value) (
          py_set_registers_in_tracee t a (register_args pid (with_rax (call.return_value) regs)) w')
  last-Simulated call cs regs w w' stop memory rest buffers =
      elim (py_set_registers_in_tracee-Set is a
        (register_args pid (with_rax (call.return_value) regs)) pid
        (words_of (with_rax (call.return_value) regs)) w' (args.registers _)) [
          | refused n why e ↦ rw e (raised w' (system_error (strerror (pos n))) why refl)
          | set regs₃ e values rest' ↦ rw e (
              simulated (with_regs w' regs₃) refl stop memory values (SameRest-trans rest rest')
                buffers)
        ]

  -- From the entry with the invalid number on.
  resumed-Simulated :
      (call : SystemCall) (cs : List Located) (regs : PyRegisters) (w : World) (regs₁ : UserRegs)
      → call.memory_copies ≡ memory_copies cs
      → w.tracee.stop ≡ at_entry
      → AreBytes (w.tracee.memory)
      → AreShort cs
      → passed regs₁ ≡ words_of (with_orig_rax (negsuc 4) regs)
      → SameRest (w.tracee.regs) regs₁
      → Simulated t pid w cs regs (call.return_value) (
          (py_run_until_enter_or_exit_of_next_syscall t a (int pid ∷ [])
              >> (write_memory_copies t a pid (call.memory_copies)
                  >> py_set_registers_in_tracee t a
                      (register_args pid (with_rax (call.return_value) regs))))
            (with_regs w regs₁))
  resumed-Simulated call cs regs w regs₁ same entry byte short values rest =
      elim (run-Resumed args resuming (with_regs w regs₁) entry (invalid regs regs₁ values)) [
        | not_resumed w' e why ran ↦ rw ran (raised w' e why refl)
        | resumed ran ↦
            rw (ran, same)
              (elim (write_memory_copies-Copied is args cs (exited w regs₁) byte short) [
                | not_copied w' e why wrote ↦ rw wrote (raised w' e why refl)
                | copied wrote ↦ rw wrote (
                    last-Simulated call cs regs w
                      (with_memory (exited w regs₁) (replay (w.tracee.memory) (contents cs))) refl
                      refl
                      (SameRest-trans rest (record {
                        fs_base = refl;
                        gs_base = refl;
                        ds = refl;
                        es = refl;
                        fs = refl;
                        gs = refl;
                      }))
                      refl)
              ])
      ]

  -- For a tracee that has stopped at the entry of a system call, with bytes for its memory and
  -- copies of less than 2^31 bytes, the simulation of a recorded call ends in one of two ways. The
  -- tracee is at the exit of the call, its memory is what the recorded copies make of it, rax holds
  -- the recorded return value, each of the other registers passed to Python the value that it had
  -- there, and the registers that are not passed are unchanged; or a call of ptrace fails and an
  -- exception is raised.
  pub simulate_system_call_for_tracee-Simulated :
      (call : SystemCall) (cs : List Located) (regs : PyRegisters) (w : World)
      → call.memory_copies ≡ memory_copies cs
      → w.tracee.stop ≡ at_entry
      → AreBytes (w.tracee.memory)
      → AreShort cs
      → Simulated t pid w cs regs
          (call.return_value)
          (simulate_system_call_for_tracee t a pid call regs w)
  unfolding simulate_system_call_for_tracee
  simulate_system_call_for_tracee-Simulated call cs regs w same entry byte short =
      elim (py_set_registers_in_tracee-Set is a (register_args pid (with_orig_rax (negsuc 4) regs))
        pid (words_of (with_orig_rax (negsuc 4) regs)) w (args.registers _)) [
          | refused n why e ↦ rw e (raised w (system_error (strerror (pos n))) why refl)
          | set regs₁ e values rest ↦
              rw e (resumed-Simulated call cs regs w regs₁ same entry byte short values rest)
        ]

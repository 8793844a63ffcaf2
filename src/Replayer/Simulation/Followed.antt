-- ===== src/Replayer/Simulation/Followed.antt =====
-- How the loop of start_replaying in replayer/src/replayer/replayer.py can go.

use rr_python.Replayer.Creplayer.Registers.{Fails}
use rr_python.Replayer.Creplayer.{wifstopped, passed}
use rr_python.Replayer.PyRegisters.{from_list}
use rr_python.Recorder.SyscallWrapper.Record.{contents}
use rr_python.Replayer.Loader.RoundTrip.{memory_copies}
use rr_python.Python.{
  Result, object, done, failed, null, unexpected_sys_call, system_error, stopped_by_signal,
  Exception,
}
use rr_python.Replayer.ShouldSimulate.{should_simulate_system_call, num}
use rr_python.Replayer.Simulation.Steps.{AreShort, stopped_by_trap}
use rr_python.Replayer.Tracee.Words.{AreBytes, write_bytes-AreBytes}
use rr_python.Common.Bytes.{Memory, write_bytes}
use rr_python.Common.Signed.{ℤ, pos}
use rr_python.Replayer.Loader.{SystemCall}
use rr_python.Recorder.SyscallWrapper.Changes.{replay}
use rr_python.Replayer.Tracing.{Tracing, Tracee, World, at_entry, at_exit}
use rr_python.Common.{[], ◌∷◌, true, false, some, List, map, ℕ, Option, ◌≡◌, ◌+◌, ◌≢◌, ◌%◌, ◌/◌}
use rr_python.Replayer.Simulation.Simulated.{Simulated}
use rr_python.Recorder.Invariant.{Located}

-- A status of `waitpid` that tells of a stop by a signal other than SIGTRAP (5).
abbrev pub IsStoppedBySignal : ℕ → Type 0
IsStoppedBySignal status = (status % 256 ≡ 127) × (status / 256 % 256 ≢ 5)

-- Where the tracee goes from the exit of a system call: to the entry of another one, to its end, or
-- it is stopped by a signal. What it writes to its memory meanwhile is bytes.
pub data Next (t : Tracing) (pid : ℤ) (r : Tracee × Option ℕ) : Type 0 where
  enters :
      (tracee : Tracee)
      → tracee.stop ≡ at_entry
      → AreBytes (tracee.memory)
      → r ≡ (tracee, some stopped_by_trap)
      → Next t pid r
  ends :
      (tracee : Tracee) (status n : ℕ)
      → wifstopped status ≡ false
      → t.getregs pid tracee ≡ failed n
      → r ≡ (tracee, some status)
      → Next t pid r
  signalled :
      (tracee : Tracee) (status : ℕ)
      → IsStoppedBySignal status
      → r ≡ (tracee, some status)
      → Next t pid r

-- PTRACE_SYSCALL at the exit of a system call, and waitpid.
pub record IsStepping (t : Tracing) : Type 0 where
  pub next_stop :
      (pid : ℤ) (tracee : Tracee)
      → tracee.stop ≡ at_exit
      → AreBytes (tracee.memory)
      → (t.syscall pid tracee).1 ≡ done tt
      → Next t pid (t.waitpid pid ((t.syscall pid tracee).0))

-- Recorded calls with their copies, all of which are to be simulated: the i-th of the recording, the
-- next one and so on.
abbrev pub IsScript : List SystemCall → List (SystemCall × List Located) → ℕ → Type 0
IsScript system_calls [] i = Unit {0}
IsScript system_calls ((call, cs) ∷ script) i =
    (should_simulate_system_call system_calls i ≡ some true)
    × (call.memory_copies ≡ memory_copies cs)
    × AreShort cs
    × IsScript system_calls script (i + 1)

abbrev pub calls_of : List (SystemCall × List Located) → List SystemCall
calls_of script = map (λ (c : SystemCall × List Located). c.0) script

-- The tracee after it has run to its next stop.
abbrev pub gone_on : Tracing → ℤ → World → World
gone_on t pid w = record w { tracee = (t.waitpid pid ((t.syscall pid (w.tracee)).0)).0 }

-- How a replay goes from the world `w`, at the exit of a system call.
pub data Followed (t : Tracing) (pid : ℤ)
    : World → List (SystemCall × List Located) → World × Result (Unit {0}) → Type 0 where
  -- The recording is at its end,
  finished : (w : World) → Followed t pid w [] (w, object tt)
  -- or the tracee makes the recorded call, it is simulated, and the replay goes on,
  followed :
      (w w' : World) (call : SystemCall) (cs : List Located)
      (script : List (SystemCall × List Located)) (r : World × Result (Unit {0}))
      → (gone_on t pid w).tracee.stop ≡ at_entry
      → num call ≡ (gone_on t pid w).tracee.regs.orig_rax
      → Simulated t pid
          (gone_on t pid w)
          cs
          (from_list (passed ((gone_on t pid w).tracee.regs)))
          (call.return_value)
          (w', object tt)
      → Followed t pid w' script r
      → Followed t pid w ((call, cs) ∷ script) r
  -- or it makes another call, and stays at its entry,
  strays :
      (w : World) (call : SystemCall) (cs : List Located)
      (script : List (SystemCall × List Located))
      → (gone_on t pid w).tracee.stop ≡ at_entry
      → num call ≢ (gone_on t pid w).tracee.regs.orig_rax
      → Followed t pid w ((call, cs) ∷ script) (
        gone_on t pid w,
        null (unexpected_sys_call (pos (num call)) (pos ((gone_on t pid w).tracee.regs.orig_rax))),
      )
  -- or a signal stops it,
  stopped :
      (w : World) (status : ℕ) (call : SystemCall) (cs : List Located)
      (script : List (SystemCall × List Located))
      → (t.waitpid pid ((t.syscall pid (w.tracee)).0)).1 ≡ some status
      → IsStoppedBySignal status
      → Followed t pid w
          ((call, cs) ∷ script)
          (gone_on t pid w, null (system_error stopped_by_signal))
  -- or a call of ptrace fails.
  broken :
      (w w' : World) (e : Exception) (call : SystemCall) (cs : List Located)
      (script : List (SystemCall × List Located))
      → Fails t pid
      → Followed t pid w ((call, cs) ∷ script) (w', null e)

pub replay-AreBytes :
    (m : Memory) (cs : List Located) → AreBytes m → AreShort cs → AreBytes (replay m (contents cs))
unfolding replay
replay-AreBytes m [] byte short = byte
replay-AreBytes m ((p, c) ∷ cs) byte short =
    replay-AreBytes (write_bytes m (c.to) (c.bytes)) cs
      (write_bytes-AreBytes m (c.to) (c.bytes) byte short.2) short.3

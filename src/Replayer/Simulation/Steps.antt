-- ===== src/Replayer/Simulation/Steps.antt =====
-- The steps of a simulation in replayer/src/replayer/replayer.py: the invalid system call and the
-- copies.
use rr_python.Replayer.Tracee.Words.{AreBytes, IsByte, write_bytes-AreBytes}
use rr_python.Common.Bytes.{write_bytes}
use rr_python.Replayer.Loader.RoundTrip.{memory_copies, memory_copy}
use rr_python.Recorder.SyscallWrapper.Record.{contents}
use rr_python.Replayer.Simulation.{write_memory_copies}
use rr_python.Recorder.Invariant.{Located}
use rr_python.Recorder.State.{Ptr, CopyRecord}
use rr_python.Recorder.SyscallWrapper.Changes.{replay}
use rr_python.Replayer.PyRegisters.{PyRegisters, register_args}
use rr_python.Common.{
  [], ◌∷◌, some, List, ℕ, ◌%◌, ◌*◌, ◌^◌, ◌≡◌, ◌+◌, ◌-◌, ◌<◌, ◌≤◌, length, All, inr, inl, refl,
}
use rr_python.Python.{int, bytes, object, null, already_set, done, Result, Exception, Reply-cases}
use rr_python.Common.Signed.{ℤ, pos, negsuc}
use rr_python.Replayer.Creplayer.{py_run_until_enter_or_exit_of_next_syscall}
use rr_python.Replayer.Tracing.{World, Arguments, Tracing, Tracee, Values, at_entry, at_exit}
use rr_python.Replayer.Creplayer.Transfer.{written, partly, with_memory, py_write_to_tracee-Written}
use rr_python.Replayer.Creplayer.Registers.{
  syscall_fails, IsTracing, Fails, raise_with_errno-failed, raise_with_errno-done, wait-status,
}

-- `K` of `PyArg_ParseTuple`: the low 64 bits.
abbrev pub word_of : ℤ → ℕ
word_of (pos n) = n % 2 ^ 64
word_of (negsuc n) = 2 ^ 64 - 1 - n % 2 ^ 64

abbrev pub words_of : PyRegisters → Values ℕ
words_of
      (
        r15, r14, r13, r12, rbp, rbx, r11, r10, r9, r8, rax, rcx, rdx, rsi, rdi, orig_rax, rip, cs,
        eflags, rsp, ss,
      ) =
    (
      word_of r15,
      word_of r14,
      word_of r13,
      word_of r12,
      word_of rbp,
      word_of rbx,
      word_of r11,
      word_of r10,
      word_of r9,
      word_of r8,
      word_of rax,
      word_of rcx,
      word_of rdx,
      word_of rsi,
      word_of rdi,
      word_of orig_rax,
      word_of rip,
      word_of cs,
      word_of eflags,
      word_of rsp,
      word_of ss,
    )

-- What the formats of `PyArg_ParseTuple` make of Python's numbers and bytes, for this pid.
pub record IsArguments (a : Arguments) (pid : ℤ) : Type 0 where
  pub pid_only : a.parse_pid (int pid ∷ []) ≡ some pid
  pub registers :
      (v : PyRegisters) → a.parse_registers (register_args pid v) ≡ some (pid, words_of v)
  pub write_args :
      (addr : ℕ) (bs : List ℕ)
      → addr < 2 ^ 64
      → a.parse_write (int pid ∷ int (pos addr) ∷ bytes bs ∷ []) ≡ some (pid, addr, bs)

-- A number that no system call of Linux has.
abbrev pub IsInvalid : ℕ → Type 0
IsInvalid n = 2 ^ 63 ≤ n

-- ENOSYS, and SIGTRAP as `waitpid` reports it.
abbrev pub enosys : ℕ
enosys = 38

abbrev pub stopped_by_trap : ℕ
stopped_by_trap = 5 * 256 + 127

-- From the entry of a system call that does not exist the tracee goes to its exit: the kernel
-- answers -ENOSYS and does nothing else.
pub record IsResuming (t : Tracing) : Type 0 where
  pub syscall_invalid :
      (pid : ℤ) (tracee : Tracee)
      → tracee.stop ≡ at_entry
      → IsInvalid (tracee.regs.orig_rax)
      → (t.syscall pid tracee).1 ≡ done tt
      → t.waitpid pid ((t.syscall pid tracee).0) ≡ (
        record tracee { stop = at_exit; regs = record (tracee.regs) { rax = 2 ^ 64 - enosys } },
        some stopped_by_trap,
      )

-- Copies that fit: addresses are words, bytes are bytes, and there are less than 2^31 of them.
abbrev pub AreShort : List Located → Type 0
AreShort [] = Unit {0}
AreShort ((p, c) ∷ cs) =
    (c.to < 2 ^ 64) × (length (c.bytes) < 2 ^ 31) × All IsByte (c.bytes) × AreShort cs

-- The copies are written, or an exception is raised.
pub data Copied (t : Tracing) (pid : ℤ) (w : World) (cs : List Located)
    (r : World × Result (Unit {0})) : Type 0 where
  copied :
      r ≡ (with_memory w (replay (w.tracee.memory) (contents cs)), object tt) → Copied t pid w cs r
  not_copied : (w' : World) (e : Exception) → Fails t pid → r ≡ (w', null e) → Copied t pid w cs r

-- The tracee has run to the exit of the invalid system call, or an exception is raised.
pub data Resumed (t : Tracing) (pid : ℤ) (w : World) (r : World × Result (Unit {0})) : Type 0 where
  resumed :
      r ≡ (
        record w {
          tracee = record (w.tracee) {
            stop = at_exit;
            regs = record (w.tracee.regs) { rax = 2 ^ 64 - enosys };
          };
        },
        object tt,
      )
      → Resumed t pid w r
  not_resumed : (w' : World) (e : Exception) → Fails t pid → r ≡ (w', null e) → Resumed t pid w r

Copied-cons :
    {t : Tracing} {pid : ℤ} (p : Ptr) (c : CopyRecord) (cs : List Located) (w : World)
    {r : World × Result (Unit {0})}
    → Copied t pid (with_memory w (write_bytes (w.tracee.memory) (c.to) (c.bytes))) cs r
    → Copied t pid w ((p, c) ∷ cs) r
unfolding replay
Copied-cons p c cs w (copied e) = copied e
Copied-cons p c cs w (not_copied w' x why e) = not_copied w' x why e

module _ {t : Tracing} {a : Arguments} {pid : ℤ} (is : IsTracing t) (args : IsArguments a pid) where
  pub write_memory_copies-Copied :
      (cs : List Located) (w : World)
      → AreBytes (w.tracee.memory)
      → AreShort cs
      → Copied t pid w cs (write_memory_copies t a pid (memory_copies cs) w)
  unfolding write_memory_copies memory_copies memory_copy replay
  write_memory_copies-Copied [] w byte short = copied refl
  write_memory_copies-Copied ((p, c) ∷ cs) w byte short =
      elim (py_write_to_tracee-Written is a (int pid ∷ int (pos (c.to)) ∷ bytes (c.bytes) ∷ []) pid
        (c.to) (c.bytes) w (args.write_args (c.to) (c.bytes) short.0) short.1 byte short.2) [
          | partly n few why e ↦ rw e (not_copied _ already_set why refl)
          | written e ↦ rw e (
              Copied-cons p c cs w (
                write_memory_copies-Copied cs
                  (with_memory w (write_bytes (w.tracee.memory) (c.to) (c.bytes)))
                  (write_bytes-AreBytes (w.tracee.memory) (c.to) (c.bytes) byte short.2) short.3))
        ]

module _ {t : Tracing} {a : Arguments} {pid : ℤ} (args : IsArguments a pid)
    (resuming : IsResuming t) where
  pub run-Resumed :
      (w : World)
      → w.tracee.stop ≡ at_entry
      → IsInvalid (w.tracee.regs.orig_rax)
      → Resumed t pid w (py_run_until_enter_or_exit_of_next_syscall t a (int pid ∷ []) w)
  unfolding py_run_until_enter_or_exit_of_next_syscall
  run-Resumed w entry invalid = elim (Reply-cases ((t.syscall pid (w.tracee)).1)) [
    | inr (n, no_run) ↦
        rw (args.pid_only, raise_with_errno-failed (t.syscall pid) w n no_run)
          (not_resumed _ _ (syscall_fails (w.tracee) n no_run) refl)
    | inl (u, ok) ↦
        rw
          (
            args.pid_only,
            raise_with_errno-done (t.syscall pid) w u ok,
            wait-status t pid (record w { tracee = (t.syscall pid (w.tracee)).0 }) _ _
                (resuming.syscall_invalid pid (w.tracee) entry invalid ok),
          )
          (resumed refl)
  ]

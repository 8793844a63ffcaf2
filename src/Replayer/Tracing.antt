-- ===== src/Replayer/Tracing.antt =====
-- What replayer/src/creplayer/creplayer.c calls of Linux and Python, parameters, and the state that it
-- reaches through them.

use rr_python.Common.Bytes.{Memory}
use rr_python.Common.Signed.{ℤ}
use rr_python.Replayer.Tracee.{Ptrace}
use rr_python.Common.{Bool, List, ℕ, Option}
use rr_python.Python.{Object, Reply}

-- `struct user_regs_struct` of x86-64.
pub record UserRegs : Type 0 where
  pub r15 : ℕ
  pub r14 : ℕ
  pub r13 : ℕ
  pub r12 : ℕ
  pub rbp : ℕ
  pub rbx : ℕ
  pub r11 : ℕ
  pub r10 : ℕ
  pub r9 : ℕ
  pub r8 : ℕ
  pub rax : ℕ
  pub rcx : ℕ
  pub rdx : ℕ
  pub rsi : ℕ
  pub rdi : ℕ
  pub orig_rax : ℕ
  pub rip : ℕ
  pub cs : ℕ
  pub eflags : ℕ
  pub rsp : ℕ
  pub ss : ℕ
  pub fs_base : ℕ
  pub gs_base : ℕ
  pub ds : ℕ
  pub es : ℕ
  pub fs : ℕ
  pub gs : ℕ

-- 21 things in their order: the registers that are passed to Python and back.
abbrev pub Values : Type 0 → Type 0
Values A = A × A × A × A × A × A × A × A × A × A × A × A × A × A × A × A × A × A × A × A × A

-- Where the traced process is, seen by its tracer.
pub data Stop : Type 0 where
  running : Stop
  at_entry : Stop
  at_exit : Stop
  elsewhere : Stop

pub record Tracee : Type 0 where
  pub stop : Stop
  pub regs : UserRegs
  pub memory : Memory

-- The tracee, and how many buffers the extension has allocated and not freed.
pub record World : Type 0 where
  pub tracee : Tracee
  pub buffers : ℕ

-- The calls of ptrace and waitpid. `waitpid` is the tracee at its next stop and the status, or
-- `none` when it fails; a status that was never stored is `uninitialised`.
pub record Tracing : Type 0 where
  pub attach : ℤ → Tracee → Tracee × Reply (Unit {0})
  pub cont : ℤ → Tracee → Tracee × Reply (Unit {0})
  pub syscall : ℤ → Tracee → Tracee × Reply (Unit {0})
  pub getregs : ℤ → Tracee → Reply UserRegs
  pub setregs : ℤ → UserRegs → Tracee → Tracee × Reply (Unit {0})
  pub memory : ℤ → Ptrace
  pub waitpid : ℤ → Tracee → Tracee × Option ℕ
  pub uninitialised : ℕ
  -- `malloc(n)` succeeds; `n` is converted to an unsigned word.
  pub malloc : ℤ → Bool

-- `PyArg_ParseTuple` with each of the formats of the file.
pub record Arguments : Type 0 where
  pub parse_pid : List Object → Option ℤ
  pub parse_registers : List Object → Option (ℤ × Values ℕ)
  pub parse_write : List Object → Option (ℤ × ℕ × List ℕ)
  pub parse_read : List Object → Option (ℤ × ℕ × ℤ)

-- ===== src/Tests/Simulations.antt =====
-- The extension creplayer and the simulation at concrete inputs.

use rr_python.Replayer.PyRegisters.{PyRegisters, from_list}
use rr_python.Replayer.Simulation.Steps.{
  IsArguments, IsResuming, enosys, word_of, words_of, stopped_by_trap,
}
use rr_python.Tests.Tracees.{memory, open_ptrace, open_ptrace-IsPtrace}
use rr_python.Replayer.Loader.RoundTrip.{memory_copies}
use rr_python.Tests.Stores.{attached_copy}
use rr_python.Replayer.Tracing.{World, at_exit, running, elsewhere, Stop, Tracee}
use rr_python.Replayer.Creplayer.{py_write_to_tracee, passed}
use rr_python.Replayer.Tracing.{Arguments, Tracing, UserRegs, at_entry, Values}
use rr_python.Replayer.Creplayer.Registers.{IsTracing}
use rr_python.Replayer.Creplayer.Transfer.{py_write_to_tracee-lost}
use rr_python.Replayer.Loader.{SystemCall}
use rr_python.Common.{
  zero, suc, [], ◌∷◌, true, none, some, List, ap, ◌≡◌, Option, arith, refl, ℕ, ◌^◌, ◌-◌, length,
  suc,
}
use rr_python.Common.Signed.{pos, ℤ}
use rr_python.Python.{int, bytes, object, done, Object}

-- A tracee at the entry of a read, whose kernel refuses nothing.
abbrev pub user_regs : UserRegs
user_regs = record {
  r15 = 1;
  r14 = 2;
  r13 = 3;
  r12 = 4;
  rbp = 5;
  rbx = 6;
  r11 = 7;
  r10 = 8;
  r9 = 9;
  r8 = 10;
  rax = 11;
  rcx = 12;
  rdx = 13;
  rsi = 14;
  rdi = 15;
  orig_rax = 0;
  rip = 17;
  cs = 18;
  eflags = 19;
  rsp = 20;
  ss = 21;
  fs_base = 22;
  gs_base = 23;
  ds = 24;
  es = 25;
  fs = 26;
  gs = 27;
}

abbrev pub world : World
world = record {
  tracee = record { stop = at_entry; regs = user_regs; memory = memory };
  buffers = 0;
}

-- A call that is resumed from its entry does nothing and answers -ENOSYS. From its exit the tracee
-- goes to the entry of a read.
abbrev next_tracee : Stop → Tracee → Tracee
next_tracee at_exit tracee = record tracee {
  stop = at_entry;
  regs = record (tracee.regs) { orig_rax = 0 };
}
next_tracee running tracee = tracee
next_tracee elsewhere tracee = tracee
next_tracee at_entry tracee = record tracee {
  stop = at_exit;
  regs = record (tracee.regs) { rax = 2 ^ 64 - enosys };
}

abbrev pub open_tracing : Tracing
open_tracing = record {
  attach = λ pid tracee. (tracee, done tt);
  cont = λ pid tracee. (tracee, done tt);
  syscall = λ pid tracee. (tracee, done tt);
  getregs = λ pid tracee. done (tracee.regs);
  setregs = λ pid regs tracee. (record tracee { regs = regs }, done tt);
  memory = λ pid. open_ptrace;
  waitpid = λ pid tracee. (next_tracee (tracee.stop) tracee, some stopped_by_trap);
  uninitialised = 0;
  malloc = λ n. true;
}

pub open_tracing-IsTracing : IsTracing open_tracing
open_tracing-IsTracing = record {
  getregs_all = λ pid tracee regs e. cc e;
  setregs_all = λ pid regs tracee e. refl;
  setregs_failed = λ pid regs tracee n e. absurd (cc e);
  memory_words = λ pid. open_ptrace-IsPtrace;
}

pub open_tracing-IsResuming : IsResuming open_tracing
open_tracing-IsResuming = record { syscall_invalid = λ pid tracee entry invalid e. rw entry refl }

-- Python's parser for these formats.
abbrev parse_pid : List Object → Option ℤ
parse_pid (int pid ∷ []) = some pid
parse_pid _ = none

abbrev parse_registers : List Object → Option (ℤ × Values ℕ)
parse_registers
      (int pid
        ∷ int r15
        ∷ int r14
        ∷ int r13
        ∷ int r12
        ∷ int rbp
        ∷ int rbx
        ∷ int r11
        ∷ int r10
        ∷ int r9
        ∷ int r8
        ∷ int rax
        ∷ int rcx
        ∷ int rdx
        ∷ int rsi
        ∷ int rdi
        ∷ int orig_rax
        ∷ int rip
        ∷ int cs
        ∷ int eflags
        ∷ int rsp
        ∷ int ss
        ∷ []) =
    some (
      pid,
      words_of (
        r15, r14, r13, r12, rbp, rbx, r11, r10, r9, r8, rax, rcx, rdx, rsi, rdi, orig_rax, rip, cs,
        eflags, rsp, ss,
      ),
    )
parse_registers _ = none

abbrev parse_write : List Object → Option (ℤ × ℕ × List ℕ)
parse_write (int pid ∷ int addr ∷ bytes bs ∷ []) = some (pid, word_of addr, bs)
parse_write _ = none

abbrev parse_read : List Object → Option (ℤ × ℕ × ℤ)
parse_read (int pid ∷ int addr ∷ int n ∷ []) = some (pid, word_of addr, n)
parse_read _ = none

abbrev pub python : Arguments
python = record {
  parse_pid = parse_pid;
  parse_registers = parse_registers;
  parse_write = parse_write;
  parse_read = parse_read;
}

pub python-IsArguments : IsArguments python (pos 5)
python-IsArguments = record {
  pid_only = refl;
  registers = λ v. refl;
  write_args = λ addr bs small. ap (λ n. some (pos 5, n, bs)) (omega arith);
}

-- A read that has stored two bytes.
abbrev pub read_call : SystemCall
read_call = record {
  registers = record {
    r15 = 1;
    r14 = 2;
    r13 = 3;
    r12 = 4;
    rbp = 5;
    rbx = 6;
    r11 = 7;
    r10 = 8;
    r9 = 9;
    r8 = 10;
    rax = 11;
    rcx = 12;
    rdx = 13;
    rsi = 14;
    rdi = 15;
    orig_rax = 0;
    rip = 17;
    cs = 18;
    eflags = 19;
    rsp = 20;
    ss = 21;
  };
  return_value = pos 2;
  memory_copies = memory_copies ((300, attached_copy) ∷ []);
}

abbrev entry_registers : PyRegisters
entry_registers = from_list (passed user_regs)

-- A buffer of 2 GiB.
zeros : ℕ → List ℕ
zeros zero = []
zeros (suc n) = 0 ∷ zeros n

length-zeros : (n : ℕ) → length (zeros n) ≡ n
unfolding zeros
length-zeros zero = refl
length-zeros (suc n) = ap suc (length-zeros n)

py_write_to_tracee-lost_example :
    py_write_to_tracee open_tracing python
      (int (pos 5) ∷ int (pos 1000) ∷ bytes (zeros (2 ^ 31)) ∷ [])
      world
    ≡ (world, object tt)
py_write_to_tracee-lost_example =
    py_write_to_tracee-lost open_tracing python
      (int (pos 5) ∷ int (pos 1000) ∷ bytes (zeros (2 ^ 31)) ∷ []) (pos 5) 1000 (zeros (2 ^ 31))
      world refl (omega (arith, length-zeros (2 ^ 31)))

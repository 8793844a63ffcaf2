-- ===== src/Replayer/PyRegisters.antt =====
-- replayer/src/replayer/loader/registers.py and syscall_handlers.py: the registers of the tracee as
-- Python has them.
use rr_python.Replayer.Tracing.{Values}
use rr_python.Replayer.Loader.{SystemCall}
use rr_python.Common.{[], ◌∷◌, List, if◌then◌else◌, ℕ, ◌/◌, ◌%◌, ◌==◌, ◌+◌, ◌-◌}
use rr_python.Python.{Object, int}
use rr_python.Common.Signed.{ℤ, pos, negsuc}

-- The class `Registers` as `to_list` gives it: Python's numbers.
abbrev pub PyRegisters : Type 0
PyRegisters = Values ℤ

-- `Registers(*registers_list)`
abbrev pub from_list : Values ℕ → PyRegisters
from_list
      (
        r15, r14, r13, r12, rbp, rbx, r11, r10, r9, r8, rax, rcx, rdx, rsi, rdi, orig_rax, rip, cs,
        eflags, rsp, ss,
      ) =
    (
      pos r15,
      pos r14,
      pos r13,
      pos r12,
      pos rbp,
      pos rbx,
      pos r11,
      pos r10,
      pos r9,
      pos r8,
      pos rax,
      pos rcx,
      pos rdx,
      pos rsi,
      pos rdi,
      pos orig_rax,
      pos rip,
      pos cs,
      pos eflags,
      pos rsp,
      pos ss,
    )

-- A copy whose `orig_rax`, or `rax`, is another number.
abbrev pub with_orig_rax : ℤ → PyRegisters → PyRegisters
with_orig_rax n
      (
        r15, r14, r13, r12, rbp, rbx, r11, r10, r9, r8, rax, rcx, rdx, rsi, rdi, orig_rax, rip, cs,
        eflags, rsp, ss,
      ) =
    (
      r15, r14, r13, r12, rbp, rbx, r11, r10, r9, r8, rax, rcx, rdx, rsi, rdi, n, rip, cs, eflags,
      rsp, ss,
    )

abbrev pub with_rax : ℤ → PyRegisters → PyRegisters
with_rax n
      (
        r15, r14, r13, r12, rbp, rbx, r11, r10, r9, r8, rax, rcx, rdx, rsi, rdi, orig_rax, rip, cs,
        eflags, rsp, ss,
      ) =
    (
      r15, r14, r13, r12, rbp, rbx, r11, r10, r9, r8, n, rcx, rdx, rsi, rdi, orig_rax, rip, cs,
      eflags, rsp, ss,
    )

-- `self.pid, *registers.to_list()`
abbrev pub register_args : ℤ → PyRegisters → List Object
register_args pid
      (
        r15, r14, r13, r12, rbp, rbx, r11, r10, r9, r8, rax, rcx, rdx, rsi, rdi, orig_rax, rip, cs,
        eflags, rsp, ss,
      ) =
    int pid
    ∷ int r15
    ∷ int r14
    ∷ int r13
    ∷ int r12
    ∷ int rbp
    ∷ int rbx
    ∷ int r11
    ∷ int r10
    ∷ int r9
    ∷ int r8
    ∷ int rax
    ∷ int rcx
    ∷ int rdx
    ∷ int rsi
    ∷ int rdi
    ∷ int orig_rax
    ∷ int rip
    ∷ int cs
    ∷ int eflags
    ∷ int rsp
    ∷ int ss
    ∷ []

-- `get_mmap_registers` of replayer/src/replayer/syscall_handlers.py, the one entry of its HANDLERS:
-- the recorded address as the hint, and MAP_FIXED.
abbrev pub or_map_fixed : ℤ → ℤ
or_map_fixed (pos n) = pos (if n / 16 % 2 == 1 then n else n + 16)
or_map_fixed (negsuc n) = negsuc (if n / 16 % 2 == 1 then n - 16 else n)

unfoldable pub get_mmap_registers : SystemCall → PyRegisters → PyRegisters
get_mmap_registers recorded_system_call
      (
        r15, r14, r13, r12, rbp, rbx, r11, r10, r9, r8, rax, rcx, rdx, rsi, rdi, orig_rax, rip, cs,
        eflags, rsp, ss,
      ) =
    (
      r15,
      r14,
      r13,
      r12,
      rbp,
      rbx,
      r11,
      or_map_fixed r10,
      r9,
      r8,
      rax,
      rcx,
      rdx,
      rsi,
      recorded_system_call.return_value,
      orig_rax,
      rip,
      cs,
      eflags,
      rsp,
      ss,
    )

-- `registers.sys_call` and `registers.rax`
abbrev pub sys_call : PyRegisters → ℤ
sys_call
      (
        r15, r14, r13, r12, rbp, rbx, r11, r10, r9, r8, rax, rcx, rdx, rsi, rdi, orig_rax, rip, cs,
        eflags, rsp, ss,
      ) =
    orig_rax

abbrev pub rax_of : PyRegisters → ℤ
rax_of
      (
        r15, r14, r13, r12, rbp, rbx, r11, r10, r9, r8, rax, rcx, rdx, rsi, rdi, orig_rax, rip, cs,
        eflags, rsp, ss,
      ) =
    rax

-- `rdi` of the registers at the entry of exit_group, which is what the tracee exits with.
abbrev pub rdi_of : PyRegisters → ℤ
rdi_of
      (
        r15, r14, r13, r12, rbp, rbx, r11, r10, r9, r8, rax, rcx, rdx, rsi, rdi, orig_rax, rip, cs,
        eflags, rsp, ss,
      ) =
    rdi

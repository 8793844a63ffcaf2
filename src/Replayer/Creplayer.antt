-- ===== src/Replayer/Creplayer.antt =====
-- replayer/src/creplayer/creplayer.c: the functions that Python calls, over ptrace and waitpid.
pub mod Registers
pub mod Transfer
use rr_python.Replayer.Tracing.{Tracee, Tracing, UserRegs, Values, World, Arguments}
use rr_python.Recorder.State.{Ptr}
use rr_python.Common.Bytes.{Memory}
use rr_python.Common.Signed.{pos, ℤ, negsuc}
use rr_python.Replayer.Tracee.{Poked, Ptrace, write_buffer_to_tracee, read_from_tracee}
use rr_python.Common.{
  [], ◌∷◌, ◌++◌, zero, suc, true, false, none, some, Bool, List, ℕ, Option, if◌then◌else◌, length,
  take, ◌%◌, ◌&&◌, ◌-◌, ◌/◌, ltb, not, ◌+◌, ◌==◌, ◌^◌,
}
use rr_python.Python.{
  Object, Result, object, null, fault, Exception, system_error, stopped_by_signal, strerror, Py,
  Reply, done, failed, ◌>>=◌, ◌>>◌, pure, raise, parsed, py_none, already_set,
}

-- The macro RAISE_EXCEPTION_WITH_ERRNO_ON_TRUE around a system call that changes the tracee.
unfoldable pub raise_with_errno : {A : Type 0} → (Tracee → Tracee × Reply A) → Py World A
raise_with_errno call w =
    let r = call w.tracee in
    let w' = record w { tracee = r.0 } in
    elim (r.1) [ done a ↦ (w', object a) | failed n ↦ (w', null (system_error (strerror (pos n)))) ]

-- The macro RAISE_EXCEPTION_ON_TRUE.
abbrev pub raise_on_true : Bool → Exception → Py World (Unit {0})
raise_on_true arg e = if arg then raise e else pure tt

-- `waitpid(pid, &status, 0)`, whose result nobody looks at.
unfoldable pub wait : Tracing → ℤ → Py World ℕ
wait t pid w =
    let r = t.waitpid pid w.tracee in
    let w' = record w { tracee = r.0 } in
    elim (r.1) [ none ↦ (w', object (t.uninitialised)) | some status ↦ (w', object status) ]

unfoldable pub attach_to_tracee_and_begin : Tracing → ℤ → Py World (Unit {0})
attach_to_tracee_and_begin t pid = do
  raise_with_errno (t.attach pid)
  wait t pid
  raise_with_errno (t.cont pid)
  wait t pid
  py_none

unfoldable pub py_attach_to_tracee_and_begin :
    Tracing → Arguments → List Object → Py World (Unit {0})
py_attach_to_tracee_and_begin t a args = do
  pid ← parsed (a.parse_pid args)
  attach_to_tracee_and_begin t pid
  py_none

-- WIFSTOPPED and WSTOPSIG
abbrev pub wifstopped : ℕ → Bool
wifstopped status = status % 256 == 127

abbrev pub wstopsig : ℕ → ℕ
wstopsig status = status / 256 % 256

abbrev pub breakpoint_signal_number : ℕ
breakpoint_signal_number = 5

unfoldable pub py_run_until_enter_or_exit_of_next_syscall :
    Tracing → Arguments → List Object → Py World (Unit {0})
py_run_until_enter_or_exit_of_next_syscall t a args = do
  pid ← parsed (a.parse_pid args)
  raise_with_errno (t.syscall pid)
  status ← wait t pid
  raise_on_true (wifstopped status && not (wstopsig status == breakpoint_signal_number))
      (system_error stopped_by_signal)
  py_none

-- The registers that Python gets, in the order of the code.
unfoldable pub passed : UserRegs → Values ℕ
passed regs = (
  regs.r15, regs.r14, regs.r13, regs.r12, regs.rbp, regs.rbx, regs.r11, regs.r10, regs.r9, regs.r8,
  regs.rax, regs.rcx, regs.rdx, regs.rsi, regs.rdi, regs.orig_rax, regs.rip, regs.cs, regs.eflags,
  regs.rsp, regs.ss,
)

unfoldable pub py_get_registers_from_tracee :
    Tracing → Arguments → List Object → Py World (Values ℕ)
py_get_registers_from_tracee t a args = do
  pid ← parsed (a.parse_pid args)
  regs ← raise_with_errno (λ tracee. (tracee, t.getregs pid tracee))
  pure (passed regs)

-- What `PyArg_ParseTuple` stores through the addresses that it is given, in the order of the code.
unfoldable pub stored : Values ℕ → UserRegs → UserRegs
stored
      (
        r15, r14, r13, r12, rbp, rbx, r11, r10, r9, r8, rax, rcx, rdx, rsi, rdi, orig_rax, rip, cs,
        eflags, rsp, ss,
      )
      regs =
    record regs {
      r15 = r15;
      r14 = r14;
      r13 = r13;
      r12 = r12;
      rbp = rbp;
      rbx = rbx;
      r11 = r11;
      r10 = r10;
      r9 = r9;
      r8 = r8;
      rax = rax;
      rcx = rcx;
      rdx = rdx;
      rsi = rsi;
      rdi = rdi;
      orig_rax = orig_rax;
      rip = rip;
      cs = cs;
      eflags = eflags;
      rsp = rsp;
      ss = ss;
    }

-- The first parse stores in `regs`, and PTRACE_GETREGS overwrites all of it; the second parse stores
-- the values again.
unfoldable pub py_set_registers_in_tracee : Tracing → Arguments → List Object → Py World (Unit {0})
py_set_registers_in_tracee t a args = do
  first ← parsed (a.parse_registers args)
  let pid = first.0
  regs ← raise_with_errno (λ tracee. (tracee, t.getregs pid tracee))
  again ← parsed (a.parse_registers args)
  raise_with_errno (t.setregs (again.0) (stored (again.1) regs))
  py_none

-- The conversion of a `long` to an `int`.
abbrev pub to_int : ℕ → ℤ
to_int n = if ltb (n % 2 ^ 32) (2 ^ 31) then pos (n % 2 ^ 32) else negsuc (2 ^ 32 - 1 - n % 2 ^ 32)

-- The bytes that a loop with an `int` length goes through.
abbrev pub first_bytes : ℤ → List ℕ → List ℕ
first_bytes (pos n) buffer = take n buffer
first_bytes (negsuc n) buffer = []

-- An exception leaves what was written, and is already set.
abbrev pub write_or_raise : Poked → World → World × Result (Unit {0})
write_or_raise (m, true) w = (record w { tracee = record (w.tracee) { memory = m } }, object tt)
write_or_raise (m, false) w =
    (record w { tracee = record (w.tracee) { memory = m } }, null already_set)

-- The length is a `long`, and the parameter of `write_buffer_to_tracee` an `int`.
unfoldable pub py_write_to_tracee : Tracing → Arguments → List Object → Py World (Unit {0})
py_write_to_tracee t a args = do
  v ← parsed (a.parse_write args)
  let buffer = first_bytes (to_int (length (v.2))) (v.2)
  λ w. write_or_raise (write_buffer_to_tracee (t.memory (v.0)) (v.1) buffer (w.tracee.memory)) w
  py_none

-- `malloc(length)` and `free(buffer)`, by the number of buffers; `b` says whether `buffer` is not
-- NULL.
abbrev allocate_buffer : Bool → Py World (Unit {0})
allocate_buffer b w = (record w { buffers = (if b then 1 else 0) + w.buffers }, object tt)

abbrev free_buffer : Bool → Py World (Unit {0})
free_buffer b w = (record w { buffers = w.buffers - (if b then 1 else 0) }, object tt)

-- `read_from_tracee` into `buffer`. A negative length is nothing to read. With a NULL the first word
-- that is read is stored through it, a fault. The exception of a read that fails is already set.
unfoldable pub fill_buffer : Tracing → Bool → ℤ → Ptr → ℤ → Py World (List ℕ)
fill_buffer t b pid address (negsuc n) w = (w, object [])
fill_buffer t b pid address (pos n) w =
    if not b && ltb 0 n
    then elim ((t.memory pid).peek (w.tracee.memory) address) [
      | none ↦ (w, null already_set)
      | some word ↦ (w, fault)
    ]
    else elim (read_from_tracee (t.memory pid) address n (w.tracee.memory)) [
      | none ↦ (w, null already_set)
      | some bs ↦ (w, object bs)
    ]

-- `Py_BuildValue("y#", buffer, length)`: None for NULL; with a negative length it looks for a 0 in a
-- buffer that nothing was stored in.
abbrev build_bytes : Bool → ℤ → List ℕ → Py World (Option (List ℕ))
build_bytes false length bs w = (w, object none)
build_bytes true (pos n) bs w = (w, object (some bs))
build_bytes true (negsuc n) bs w = (w, fault)

unfoldable pub py_read_from_tracee : Tracing → Arguments → List Object → Py World (Option (List ℕ))
py_read_from_tracee t a args = do
  v ← parsed (a.parse_read args)
  let b = t.malloc (v.2)
  allocate_buffer b
  bs ← fill_buffer t b (v.0) (v.1) (v.2)
  res ← build_bytes b (v.2) bs
  free_buffer b
  pure res

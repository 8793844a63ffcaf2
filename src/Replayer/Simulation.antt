-- ===== src/Replayer/Simulation.antt =====
-- replayer/src/replayer/replayer.py: a recorded system call is simulated in the tracee, through the
-- functions of the extension creplayer.
pub mod Steps
pub mod Simulated
pub mod Through
pub mod Followed
pub mod Replay
pub mod Mismatch
use rr_python.Replayer.PyRegisters.{
  PyRegisters, sys_call, from_list, get_mmap_registers, rax_of, rdi_of, register_args,
  with_orig_rax, with_rax,
}
use rr_python.Replayer.ShouldSimulate.{
  num, should_simulate_system_call, mmap_sys_call, close_sys_call, mprotect_sys_call,
  openat_sys_call,
}
use rr_python.Replayer.Creplayer.{
  py_get_registers_from_tracee, py_attach_to_tracee_and_begin, py_read_from_tracee,
}
use rr_python.Replayer.Tracing.{World}
use rr_python.Replayer.Loader.{MemoryCopy, SystemCall, Registers}
use rr_python.Replayer.Creplayer.{
  py_set_registers_in_tracee, py_write_to_tracee, py_run_until_enter_or_exit_of_next_syscall,
}
use rr_python.Replayer.Tracing.{Tracing, Values, Arguments}
use rr_python.Common.{
  [], ◌∷◌, ◌++◌, zero, suc, true, false, none, some, map, List, ℕ, Bool, Option, if◌then◌else◌, not,
  ◌+◌, ◌/◌, ◌==◌, ◌%◌, ◌&&◌, ◌||◌, ◌-◌,
}
use rr_python.Python.{
  Object, int, bytes, other, Py, object, null, fault, ◌>>=◌, ◌>>◌, pure, raise, index_error,
  unexpected_sys_call, unexpected_return_value,
}
use rr_python.Common.Signed.{ℤ, pos, negsuc, ◌==ℤ◌}

-- More numbers of replayer/src/replayer/system_consts.py.
abbrev pub read_sys_call : ℕ
read_sys_call = 0

abbrev pub write_sys_call : ℕ
write_sys_call = 1

abbrev pub fstat_sys_call : ℕ
fstat_sys_call = 5

abbrev pub exit_group_sys_call : ℕ
exit_group_sys_call = 231

unfoldable pub get_new_register_values_for_system_call : SystemCall → PyRegisters → PyRegisters
get_new_register_values_for_system_call recorded_system_call registers =
    if num recorded_system_call == mmap_sys_call
    then get_mmap_registers recorded_system_call registers
    else registers

unfoldable pub raise_on_unexpected_state : SystemCall → PyRegisters → Py World (Unit {0})
raise_on_unexpected_state recorded_system_call registers =
    if pos (num recorded_system_call) ==ℤ sys_call registers
    then pure tt
    else raise (unexpected_sys_call (pos (num recorded_system_call)) (sys_call registers))

-- SYS_CALLS_TO_IGNORE_IN_VALIDATION
abbrev pub is_ignored_in_validation : ℕ → Bool
is_ignored_in_validation n =
    n == read_sys_call
    || n == close_sys_call
    || n == fstat_sys_call
    || n == mmap_sys_call
    || n == mprotect_sys_call
    || n == openat_sys_call

unfoldable pub raise_on_unexpected_return_value : SystemCall → PyRegisters → Py World (Unit {0})
raise_on_unexpected_return_value recorded_system_call registers =
    if not (recorded_system_call.return_value ==ℤ rax_of registers)
      && not (is_ignored_in_validation (num recorded_system_call))
    then raise (unexpected_return_value (recorded_system_call.return_value) (rax_of registers))
    else pure tt

-- `should_simulate_system_call`, where a missing index is an exception.
abbrev or_index_error : Option Bool → Py World Bool
or_index_error none = raise index_error
or_index_error (some b) = pure b

module _ (t : Tracing) (a : Arguments) (pid : ℤ) where
  -- `copy_memory_copies_to_tracee`, through the extension.
  unfoldable pub write_memory_copies : List MemoryCopy → Py World (Unit {0})
  write_memory_copies [] = pure tt
  write_memory_copies (c ∷ cs) = do
    py_write_to_tracee t a (int pid ∷ int (pos (c.to_address)) ∷ bytes (c.buffer) ∷ [])
    write_memory_copies cs

  -- The number of no system call.
  abbrev pub invalid_sys_call : ℤ
  invalid_sys_call = negsuc 4

  unfoldable pub simulate_system_call_for_tracee : SystemCall → PyRegisters → Py World (Unit {0})
  simulate_system_call_for_tracee recorded_system_call tracee_registers = do
    py_set_registers_in_tracee t a
        (register_args pid (with_orig_rax invalid_sys_call tracee_registers))
    py_run_until_enter_or_exit_of_next_syscall t a (int pid ∷ [])
    write_memory_copies (recorded_system_call.memory_copies)
    py_set_registers_in_tracee t a
        (register_args pid (with_rax (recorded_system_call.return_value) tracee_registers))

  unfoldable pub get_registers_from_tracee : Py World PyRegisters
  get_registers_from_tracee = do
    registers_list ← py_get_registers_from_tracee t a (int pid ∷ [])
    pure (from_list registers_list)

  unfoldable pub wrap_and_run_real_system_call_in_tracee :
      SystemCall → PyRegisters → Py World (Unit {0})
  wrap_and_run_real_system_call_in_tracee recorded_system_call tracee_registers = do
    py_set_registers_in_tracee t a (
        register_args pid
          (get_new_register_values_for_system_call recorded_system_call tracee_registers))
    py_run_until_enter_or_exit_of_next_syscall t a (int pid ∷ [])
    registers ← get_registers_from_tracee
    raise_on_unexpected_return_value recorded_system_call registers

  -- `stdout_callback` is Python code of the caller, or None. It is given what a write to stdout
  -- writes.
  unfoldable pub call_stdout_callback_if_relevant :
      Option (Option (List ℕ) → Py World (Unit {0})) → SystemCall → Py World (Unit {0})
  call_stdout_callback_if_relevant none recorded_system_call = pure tt
  call_stdout_callback_if_relevant (some stdout_callback) recorded_system_call =
      let regs = recorded_system_call.registers in
      if num recorded_system_call == write_sys_call && regs.rdi == 1
      then (py_read_from_tracee t a (int pid ∷ int (pos (regs.rsi)) ∷ int (pos (regs.rdx)) ∷ [])
          >>= stdout_callback)
      else pure tt

  unfoldable pub run_tracee_through_system_call :
      Option (Option (List ℕ) → Py World (Unit {0}))
      → List SystemCall
      → SystemCall
      → ℕ
      → Py World (Unit {0})
  run_tracee_through_system_call stdout_callback system_calls recorded_system_call index = do
    registers ← get_registers_from_tracee
    raise_on_unexpected_state recorded_system_call registers
    call_stdout_callback_if_relevant stdout_callback recorded_system_call
    simulate ← or_index_error (should_simulate_system_call system_calls index)
    if simulate
        then simulate_system_call_for_tracee recorded_system_call registers
        else wrap_and_run_real_system_call_in_tracee recorded_system_call registers

  unfoldable pub get_exit_status : Py World ℤ
  get_exit_status = do
    py_run_until_enter_or_exit_of_next_syscall t a (int pid ∷ [])
    registers ← get_registers_from_tracee
    if sys_call registers ==ℤ pos exit_group_sys_call
        then (do
          py_run_until_enter_or_exit_of_next_syscall t a (int pid ∷ [])
          pure (rdi_of registers))
        else raise (unexpected_sys_call (pos exit_group_sys_call) (sys_call registers))

  -- The loop of `start_replaying`, from the call at `index` on.
  unfoldable pub replay_calls :
      Option (Option (List ℕ) → Py World (Unit {0}))
      → List SystemCall
      → List SystemCall
      → ℕ
      → Py World (Unit {0})
  replay_calls stdout_callback system_calls [] index = pure tt
  replay_calls stdout_callback system_calls (c ∷ cs) index = do
    py_run_until_enter_or_exit_of_next_syscall t a (int pid ∷ [])
    run_tracee_through_system_call stdout_callback system_calls c index
    replay_calls stdout_callback system_calls cs (index + 1)

  unfoldable pub start_replaying :
      Option (Option (List ℕ) → Py World (Unit {0})) → List SystemCall → Py World ℤ
  start_replaying stdout_callback system_calls = do
    py_attach_to_tracee_and_begin t a (int pid ∷ [])
    replay_calls stdout_callback system_calls system_calls 0
    get_exit_status

-- ===== src/Replayer/Simulation/Mismatch.antt =====
-- The check of the return value of a call that is really made, in replayer/src/replayer/replayer.py.
use rr_python.Replayer.Creplayer.{
  py_get_registers_from_tracee, py_run_until_enter_or_exit_of_next_syscall,
  py_set_registers_in_tracee,
}
use rr_python.Replayer.PyRegisters.{PyRegisters, from_list, rax_of, register_args}
use rr_python.Replayer.ShouldSimulate.{num}
use rr_python.Common.Signed.{negsuc, ℤ}
use rr_python.Replayer.Loader.{SystemCall}
use rr_python.Replayer.Simulation.{
  raise_on_unexpected_return_value, wrap_and_run_real_system_call_in_tracee,
  get_registers_from_tracee, is_ignored_in_validation, get_new_register_values_for_system_call,
}
use rr_python.Replayer.Tracing.{Tracing, Arguments, Values, World}
use rr_python.Common.{[], ◌∷◌, false, ℕ, ◌≡◌, refl, subst, sym}
use rr_python.Python.{
  object, null, fault, and_then, Result, Py, unexpected_return_value, int, pure, ◌>>◌, ◌>>=◌,
}

module _ {W A B : Type 0} where
  -- What returns an object has gone through each of its steps.
  through_step :
      (r : W × Result A) (k : A → Py W B) {w' : W} {b : B}
      → and_then r k ≡ (w', object b)
      → (w₁ : W) × (x : A) × (r ≡ (w₁, object x)) × (k x w₁ ≡ (w', object b))
  through_step (w, object x) k e = (w, x, refl, e)
  through_step (w, null x) k e = absurd (cc e)
  through_step (w, fault) k e = absurd (cc e)

negative-raises :
    (call : SystemCall) (n : ℕ) (regs : Values ℕ) (w : World)
    → call.return_value ≡ negsuc n
    → is_ignored_in_validation (num call) ≡ false
    → raise_on_unexpected_return_value call (from_list regs) w
      ≡ (w, null (unexpected_return_value (call.return_value) (rax_of (from_list regs))))
unfolding raise_on_unexpected_return_value
negative-raises call n regs w e checked = rw (checked, e) refl

module _ (t : Tracing) (a : Arguments) (pid : ℤ) where
  -- What is read from the tracee are 21 numbers that are not negative.
  read_as_words :
      (w w₁ : World) (regs : PyRegisters)
      → get_registers_from_tracee t a pid w ≡ (w₁, object regs)
      → (v : Values ℕ) × (from_list v ≡ regs)
  unfolding get_registers_from_tracee
  read_as_words w w₁ regs e =
      let step =
        through_step (py_get_registers_from_tracee t a (int pid ∷ []) w) (λ l. pure (from_list l))
          e in
      (step.1, cc (step.3))

  -- A call that is really made, whose recorded return value is negative and whose number is not one
  -- of those ignored in the validation, is never replayed: wrap_and_run_real_system_call_in_tracee
  -- does not return, whatever the tracee and Linux do, also when the call fails with the same error
  -- again.
  pub wrap_and_run_real_system_call_in_tracee-negative :
      (call : SystemCall) (regs : PyRegisters) (n : ℕ) (w : World)
      → call.return_value ≡ negsuc n
      → is_ignored_in_validation (num call) ≡ false
      → ¬ (
          (w' : World) × (wrap_and_run_real_system_call_in_tracee t a pid call regs w
            ≡ (w', object tt)))
  unfolding wrap_and_run_real_system_call_in_tracee
  wrap_and_run_real_system_call_in_tracee-negative call regs n w e checked (w', returned) =
      let check = raise_on_unexpected_return_value call in
      let go_on = py_run_until_enter_or_exit_of_next_syscall t a (int pid ∷ []) in
      let set =
        through_step
          (py_set_registers_in_tracee t a
            (register_args pid (get_new_register_values_for_system_call call regs)) w)
          (λ _. go_on >> (get_registers_from_tracee t a pid >>= check)) returned in
      let run =
        through_step (go_on (set.0)) (λ _. get_registers_from_tracee t a pid >>= check) (set.3) in
      let read = through_step (get_registers_from_tracee t a pid (run.0)) check (run.3) in
      let words = read_as_words (run.0) (read.0) (read.1) (read.2) in
      let raised = negative-raises call n (words.0) (read.0) e checked in
      let ended =
        subst (λ r. raise_on_unexpected_return_value call r (read.0) ≡ (w', object tt))
          (sym (words.1)) (read.3) in
      cc (raised, ended)

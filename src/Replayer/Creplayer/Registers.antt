-- ===== src/Replayer/Creplayer/Registers.antt =====
-- The registers of the tracee in replayer/src/creplayer/creplayer.c.
use rr_python.Replayer.Tracee.Outcomes.{Refuses}
use rr_python.Recorder.State.{Ptr}
use rr_python.Replayer.Tracee.{IsPtrace}
use rr_python.Common.Signed.{ℤ, pos}
use rr_python.Replayer.Creplayer.{
  passed, stored, py_set_registers_in_tracee, raise_with_errno, wait,
}
use rr_python.Replayer.Tracing.{Tracing, UserRegs, Values, World, Arguments, Tracee}
use rr_python.Common.{some, ℕ, ◌≡◌, List, refl, inl, inr, subst, ap, Option}
use rr_python.Python.{
  object, null, done, failed, system_error, strerror, Reply, Result, Object, Reply-cases,
}

-- What ptrace promises: it reads all registers, and writes all or none.
pub record IsTracing (t : Tracing) : Type 0 where
  pub getregs_all :
      (pid : ℤ) (tracee : Tracee) (regs : UserRegs)
      → t.getregs pid tracee ≡ done regs
      → regs ≡ tracee.regs
  pub setregs_all :
      (pid : ℤ) (regs : UserRegs) (tracee : Tracee)
      → (t.setregs pid regs tracee).1 ≡ done tt
      → (t.setregs pid regs tracee).0 ≡ record tracee { regs = regs }
  pub setregs_failed :
      (pid : ℤ) (regs : UserRegs) (tracee : Tracee) (n : ℕ)
      → (t.setregs pid regs tracee).1 ≡ failed n
      → (t.setregs pid regs tracee).0 ≡ tracee
  pub memory_words : (pid : ℤ) → IsPtrace (t.memory pid)

-- A call of ptrace that succeeds, and one that fails.
pub raise_with_errno-done :
    {A : Type 0} (call : Tracee → Tracee × Reply A) (w : World) (a : A)
    → (call (w.tracee)).1 ≡ done a
    → raise_with_errno call w ≡ (record w { tracee = (call (w.tracee)).0 }, object a)
unfolding raise_with_errno
raise_with_errno-done call w a e = rw (e, raise_with_errno) refl

pub raise_with_errno-failed :
    {A : Type 0} (call : Tracee → Tracee × Reply A) (w : World) (n : ℕ)
    → (call (w.tracee)).1 ≡ failed n
    → raise_with_errno call w
      ≡ (record w { tracee = (call (w.tracee)).0 }, null (system_error (strerror (pos n))))
unfolding raise_with_errno
raise_with_errno-failed call w n e = rw (e, raise_with_errno) refl

-- A wait that reports a status.
pub wait-status :
    (t : Tracing) (pid : ℤ) (w : World) (tracee : Tracee) (status : ℕ)
    → t.waitpid pid (w.tracee) ≡ (tracee, some status)
    → wait t pid w ≡ (record w { tracee = tracee }, object status)
unfolding wait
wait-status t pid w tracee status e =
    let at : (t.waitpid pid (w.tracee)).0 ≡ tracee = ap (λ (r : Tracee × Option ℕ). r.0) e in
    let held : (t.waitpid pid (w.tracee)).1 ≡ some status = ap (λ (r : Tracee × Option ℕ). r.1) e in
    rw (held, wait, at) refl

abbrev pub getregs_call : Tracing → ℤ → Tracee → Tracee × Reply UserRegs
getregs_call t pid tracee = (tracee, t.getregs pid tracee)

-- The registers that are not passed to Python.
pub record SameRest (regs regs' : UserRegs) : Type 0 where
  pub fs_base : regs'.fs_base ≡ regs.fs_base
  pub gs_base : regs'.gs_base ≡ regs.gs_base
  pub ds : regs'.ds ≡ regs.ds
  pub es : regs'.es ≡ regs.es
  pub fs : regs'.fs ≡ regs.fs
  pub gs : regs'.gs ≡ regs.gs

pub passed-stored : (v : Values ℕ) (regs : UserRegs) → passed (stored v regs) ≡ v
unfolding passed stored
passed-stored v regs = refl

pub stored-SameRest : (v : Values ℕ) (regs : UserRegs) → SameRest regs (stored v regs)
unfolding stored
stored-SameRest v regs = record {
  fs_base = refl;
  gs_base = refl;
  ds = refl;
  es = refl;
  fs = refl;
  gs = refl;
}

-- The world with other registers.
abbrev pub with_regs : World → UserRegs → World
with_regs w regs = record w { tracee = record (w.tracee) { regs = regs } }

-- A call of ptrace on this process fails.
pub data Fails (t : Tracing) (pid : ℤ) : Type 0 where
  getregs_fails : (tracee : Tracee) (n : ℕ) → t.getregs pid tracee ≡ failed n → Fails t pid
  setregs_fails :
      (tracee : Tracee) (regs : UserRegs) (n : ℕ)
      → (t.setregs pid regs tracee).1 ≡ failed n
      → Fails t pid
  syscall_fails : (tracee : Tracee) (n : ℕ) → (t.syscall pid tracee).1 ≡ failed n → Fails t pid
  memory_fails : (from to : Ptr) → Refuses (t.memory pid) from to → Fails t pid

-- How a function ends that sets the registers: they are the values, or nothing has changed.
pub data Set (t : Tracing) (pid : ℤ) (v : Values ℕ) (w : World) (r : World × Result (Unit {0}))
    : Type 0 where
  set :
      (regs : UserRegs)
      → r ≡ (with_regs w regs, object tt)
      → passed regs ≡ v
      → SameRest (w.tracee.regs) regs
      → Set t pid v w r
  refused :
      (n : ℕ) → Fails t pid → r ≡ (w, null (system_error (strerror (pos n)))) → Set t pid v w r

-- A function returns these values, or the errno of ptrace is raised.
pub data Got (t : Tracing) (pid : ℤ) (v : Values ℕ) (r : World × Result (Values ℕ)) : Type 0 where
  values : r.1 ≡ object v → Got t pid v r
  no_values : (n : ℕ) → Fails t pid → r.1 ≡ null (system_error (strerror (pos n))) → Got t pid v r

module _ {t : Tracing} (is : IsTracing t) (a : Arguments) where
  pub py_set_registers_in_tracee-Set :
      (args : List Object) (pid : ℤ) (v : Values ℕ) (w : World)
      → a.parse_registers args ≡ some (pid, v)
      → Set t pid v w (py_set_registers_in_tracee t a args w)
  unfolding py_set_registers_in_tracee
  py_set_registers_in_tracee-Set args pid v w e = elim (Reply-cases (t.getregs pid (w.tracee))) [
    | inr (n, refused_get) ↦
        rw (e, raise_with_errno-failed (getregs_call t pid) w n refused_get)
          (refused n (getregs_fails (w.tracee) n refused_get) refl)
    | inl (regs, got) ↦ elim (Reply-cases ((t.setregs pid (stored v regs) (w.tracee)).1)) [
      | inr (n, refused_set) ↦
          rw
            (
              e,
              raise_with_errno-done (getregs_call t pid) w regs got,
              raise_with_errno-failed (t.setregs pid (stored v regs)) w n refused_set,
              is.setregs_failed pid (stored v regs) (w.tracee) n refused_set,
            )
            (refused n (setregs_fails (w.tracee) (stored v regs) n refused_set) refl)
      | inl (u, ok) ↦
          rw
            (
              e,
              raise_with_errno-done (getregs_call t pid) w regs got,
              raise_with_errno-done (t.setregs pid (stored v regs)) w u ok,
              is.setregs_all pid (stored v regs) (w.tracee) ok,
            )
            (set (stored v regs) refl (passed-stored v regs) (
              subst (λ old. SameRest old (stored v regs)) (is.getregs_all pid (w.tracee) regs got)
                (stored-SameRest v regs)))
    ]
  ]

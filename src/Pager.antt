-- ===== src/Pager.antt =====
-- pager/src/cpager/cpager.c: snapshots of a process with criu, which is a parameter.
pub mod Outcome
use rr_python.Common.Signed.{ℤ, pos, negsuc}
use rr_python.Common.{[], ◌∷◌, true, false, none, some, List, if◌then◌else◌, Bool, ℕ, Option, ◌+◌}
use rr_python.Python.{
  Object, Result, object, null, system_error, value_error, strerror, Py, done, failed, ◌>>=◌, ◌>>◌,
  parsed, py_none, Reply, pure, raise,
}

-- What libcriu, `open` and `PyArg_ParseTuple` do. `Opts` is what criu keeps between its calls, `W`
-- all else.
pub record Criu (Opts W : Type 0) : Type 0 where
  -- `open(path, O_DIRECTORY)`: the file descriptor, or an errno.
  pub open_directory : List ℕ → W → W × Reply ℕ
  pub init_opts : Opts → Opts
  pub set_tcp_established : Bool → Opts → Opts
  pub set_log_file : List ℕ → Opts → Opts
  pub set_shell_job : Bool → Opts → Opts
  pub set_work_dir_fd : ℕ → Opts → Opts
  pub set_images_dir_fd : ℕ → Opts → Opts
  pub set_pid : ℤ → Opts → Opts
  pub set_leave_running : Bool → Opts → Opts
  pub dump : Opts → W → W × ℤ
  pub restore : Opts → W → W × ℤ
  pub errno : W → ℕ
  pub parse_pid_path : List Object → Option (ℤ × List ℕ)
  pub parse_path : List Object → Option (List ℕ)

pub record CriuWorld (Opts W : Type 0) : Type 0 where
  pub opts : Opts
  pub outside : W

-- LOG_FILE, "log.txt".
abbrev pub log_file : List ℕ
log_file = 108 ∷ 111 ∷ 103 ∷ 46 ∷ 116 ∷ 120 ∷ 116 ∷ []

abbrev pub is_negative : ℤ → Bool
is_negative (pos n) = false
is_negative (negsuc n) = true

module _ {Opts W : Type 0} (c : Criu Opts W) where
  -- The macro RAISE_EXCEPTION_WITH_ERRNO_ON_TRUE, at an errno.
  abbrev pub raise_exception_with_errno_on_true : Bool → ℕ → Py (CriuWorld Opts W) (Unit {0})
  raise_exception_with_errno_on_true arg errno =
      if arg then raise (system_error (strerror (pos errno))) else pure tt

  -- `open`, and the macro on its result.
  unfoldable pub open_or_raise : List ℕ → Py (CriuWorld Opts W) ℕ
  open_or_raise path w =
      let r = c.open_directory path (w.outside) in
      let w' = record w { outside = r.0 } in
      elim (r.1) [
        | done fd ↦ (w', object fd)
        | failed n ↦ (raise_exception_with_errno_on_true true n >> pure 0) w'
      ]

  -- A function of criu that sets an option.
  abbrev pub set_option : (Opts → Opts) → Py (CriuWorld Opts W) (Unit {0})
  set_option f w = (record w { opts = f (w.opts) }, object tt)

  unfoldable pub setup_criu : List ℕ → Py (CriuWorld Opts W) (Unit {0})
  setup_criu directory_path = do
    dir_fd ← open_or_raise directory_path
    set_option (c.init_opts)
    set_option (c.set_tcp_established true)
    set_option (c.set_log_file log_file)
    set_option (c.set_shell_job true)
    set_option (c.set_work_dir_fd dir_fd)
    set_option (c.set_images_dir_fd dir_fd)
    py_none

  -- `criu_dump()`, and the macro on its result.
  unfoldable pub dump_or_raise : Py (CriuWorld Opts W) (Unit {0})
  dump_or_raise w =
      let r = c.dump (w.opts) (w.outside) in
      raise_exception_with_errno_on_true (is_negative (r.1)) (c.errno (r.0))
        (record w { outside = r.0 })

  unfoldable pub take_snapshot : List Object → Py (CriuWorld Opts W) (Unit {0})
  take_snapshot args = do
    v ← parsed (c.parse_pid_path args)
    setup_criu (v.1)
    set_option (c.set_pid (v.0))
    set_option (c.set_leave_running true)
    dump_or_raise
    py_none

  -- `criu_restore()`, and what its result is turned into: the errno is the result negated.
  unfoldable pub restore_or_raise : Py (CriuWorld Opts W) (Unit {0})
  restore_or_raise w =
      let r = c.restore (w.opts) (w.outside) in
      let w' = record w { outside = r.0 } in
      elim (r.1) [
        | pos n ↦ (w', object tt)
        | negsuc n ↦ (w', null (value_error (strerror (pos (n + 1)))))
      ]

  unfoldable pub restore_from_snapshot : List Object → Py (CriuWorld Opts W) (Unit {0})
  restore_from_snapshot args = do
    directory_path ← parsed (c.parse_path args)
    setup_criu directory_path
    restore_or_raise
    py_none

-- ===== src/Pager/Outcome.antt =====
-- How snapshots and restores of pager/src/cpager/cpager.c end.
use rr_python.Common.Signed.{ℤ, pos, negsuc}
use rr_python.Pager.{
  Criu, restore_from_snapshot, setup_criu, take_snapshot, CriuWorld, dump_or_raise, log_file,
  restore_or_raise, open_or_raise, is_negative,
}
use rr_python.Common.{
  true, none, some, Bool, List, ℕ, ◌≡◌, ◌∙◌, Option-cases, ap, ◌⊎◌, if◌then◌else◌, inl, inr, ◌+◌,
  refl, Bool-cases,
}
use rr_python.Python.{
  object, null, already_set, system_error, value_error, strerror, done, failed, Object, Result,
  Reply-cases,
}

-- The options of criu.
pub record Options : Type 0 where
  pub tcp_established : Bool
  pub log : List ℕ
  pub shell_job : Bool
  pub work_dir_fd : ℕ
  pub images_dir_fd : ℕ
  pub pid : ℤ
  pub leave_running : Bool

-- Each setter of libcriu sets one option; `criu_init_opts` gives all their default.
pub record IsCriu {Opts W : Type 0} (c : Criu Opts W) : Type 0 where
  pub options : Opts → Options
  pub default : Options
  pub init : (o : Opts) → options (c.init_opts o) ≡ default
  pub tcp :
      (b : Bool) (o : Opts)
      → options (c.set_tcp_established b o) ≡ record (options o) { tcp_established = b }
  pub log_file_set :
      (f : List ℕ) (o : Opts) → options (c.set_log_file f o) ≡ record (options o) { log = f }
  pub shell :
      (b : Bool) (o : Opts) → options (c.set_shell_job b o) ≡ record (options o) { shell_job = b }
  pub work :
      (fd : ℕ) (o : Opts)
      → options (c.set_work_dir_fd fd o) ≡ record (options o) { work_dir_fd = fd }
  pub images :
      (fd : ℕ) (o : Opts)
      → options (c.set_images_dir_fd fd o) ≡ record (options o) { images_dir_fd = fd }
  pub pid_set : (p : ℤ) (o : Opts) → options (c.set_pid p o) ≡ record (options o) { pid = p }
  pub running :
      (b : Bool) (o : Opts)
      → options (c.set_leave_running b o) ≡ record (options o) { leave_running = b }

module _ {Opts W : Type 0} {c : Criu Opts W} (is : IsCriu c) where
  -- What `setup_criu` leaves in criu for the directory `fd`.
  abbrev pub prepared : ℕ → Options
  prepared fd = record (is.default) {
    tcp_established = true;
    log = log_file;
    shell_job = true;
    work_dir_fd = fd;
    images_dir_fd = fd;
  }

  -- How a snapshot ends. A directory that is open is never closed.
  pub data Snapshot (args : List Object) (w : CriuWorld Opts W)
      (r : CriuWorld Opts W × Result (Unit {0})) : Type 0 where
    bad_arguments : c.parse_pid_path args ≡ none → r ≡ (w, null already_set) → Snapshot args w r
    no_directory :
        (pid : ℤ) (path : List ℕ) (n : ℕ)
        → c.parse_pid_path args ≡ some (pid, path)
        → (c.open_directory path (w.outside)).1 ≡ failed n
        → r.0.opts ≡ w.opts
        → r.1 ≡ null (system_error (strerror (pos n)))
        → Snapshot args w r
    dumps :
        (pid : ℤ) (path : List ℕ) (fd : ℕ) (o : Opts) (x : W × ℤ)
        → c.parse_pid_path args ≡ some (pid, path)
        → (c.open_directory path (w.outside)).1 ≡ done fd
        → is.options o ≡ record (prepared fd) { pid = pid; leave_running = true }
        → x ≡ c.dump o ((c.open_directory path (w.outside)).0)
        → r.0 ≡ record { opts = o; outside = x.0 }
        → r.1 ≡ (
            if is_negative (x.1)
            then null (system_error (strerror (pos (c.errno (x.0)))))
            else object tt)
        → Snapshot args w r

  -- How a restore ends.
  pub data Restored (args : List Object) (w : CriuWorld Opts W)
      (r : CriuWorld Opts W × Result (Unit {0})) : Type 0 where
    bad_arguments : c.parse_path args ≡ none → r ≡ (w, null already_set) → Restored args w r
    no_directory :
        (path : List ℕ) (n : ℕ)
        → c.parse_path args ≡ some path
        → (c.open_directory path (w.outside)).1 ≡ failed n
        → r.0.opts ≡ w.opts
        → r.1 ≡ null (system_error (strerror (pos n)))
        → Restored args w r
    restores :
        (path : List ℕ) (fd n : ℕ) (o : Opts) (x : W × ℤ)
        → c.parse_path args ≡ some path
        → (c.open_directory path (w.outside)).1 ≡ done fd
        → is.options o ≡ prepared fd
        → x ≡ c.restore o ((c.open_directory path (w.outside)).0)
        → r.0 ≡ record { opts = o; outside = x.0 }
        → ((x.1 ≡ pos n) × (r.1 ≡ object tt))
          ⊎ ((x.1 ≡ negsuc n) × (r.1 ≡ null (value_error (strerror (pos (n + 1))))))
        → Restored args w r

  abbrev ready : ℕ → Opts → Opts
  ready fd o = c.set_images_dir_fd fd (
      c.set_work_dir_fd fd (
        c.set_shell_job true
          (c.set_log_file log_file (c.set_tcp_established true (c.init_opts o)))))

  ready-prepared : (fd : ℕ) (o : Opts) → is.options (ready fd o) ≡ prepared fd
  ready-prepared fd o =
      is.images fd _
      ∙ ap (λ (s : Options). record s { images_dir_fd = fd })
          (is.work fd _
            ∙ ap (λ (s : Options). record s { work_dir_fd = fd })
                (is.shell true _
                  ∙ ap (λ (s : Options). record s { shell_job = true })
                      (is.log_file_set log_file _
                        ∙ ap (λ (s : Options). record s { log = log_file })
                            (is.tcp true _
                              ∙ ap (λ (s : Options). record s { tcp_established = true })
                                  (is.init o)))))

  abbrev opened : List ℕ → CriuWorld Opts W → W
  opened path w = (c.open_directory path (w.outside)).0

  setup_criu-done :
      (path : List ℕ) (fd : ℕ) (w : CriuWorld Opts W)
      → (c.open_directory path (w.outside)).1 ≡ done fd
      → setup_criu c path w
        ≡ (record { opts = ready fd (w.opts); outside = opened path w }, object tt)
  unfolding setup_criu open_or_raise
  setup_criu-done path fd w e = rw (e, open_or_raise) refl

  setup_criu-failed :
      (path : List ℕ) (n : ℕ) (w : CriuWorld Opts W)
      → (c.open_directory path (w.outside)).1 ≡ failed n
      → setup_criu c path w
        ≡ (record w { outside = opened path w }, null (system_error (strerror (pos n))))
  unfolding setup_criu open_or_raise
  setup_criu-failed path n w e = rw (e, open_or_raise) refl

  -- take_snapshot ends in one of three ways. Arguments that do not parse leave all as it was; a
  -- directory that cannot be opened raises its errno and leaves criu's options; otherwise criu
  -- dumps with exactly the pid of the arguments, to the directory of the arguments, with the
  -- process left running, whatever options were set before, and a dump that fails raises its errno.
  pub take_snapshot-Snapshot :
      (args : List Object) (w : CriuWorld Opts W) → Snapshot args w (take_snapshot c args w)
  unfolding take_snapshot dump_or_raise
  take_snapshot-Snapshot args w = elim (Option-cases (c.parse_pid_path args)) [
    | inl e ↦ rw e (bad_arguments e refl)
    | inr ((pid, path), e) ↦ elim (Reply-cases ((c.open_directory path (w.outside)).1)) [
      | inr (n, e') ↦ rw (e, setup_criu-failed path n w e') (no_directory pid path n e e' refl refl)
      | inl (fd, e') ↦
          let o = c.set_leave_running true (c.set_pid pid (ready fd (w.opts))) in
          let seen : is.options o ≡ record (prepared fd) { pid = pid; leave_running = true } =
            is.running true _
            ∙ ap (λ (s : Options). record s { leave_running = true })
                (is.pid_set pid _
                  ∙ ap (λ (s : Options). record s { pid = pid }) (ready-prepared fd (w.opts))) in
          let x = c.dump o (opened path w) in
          elim (Bool-cases (is_negative (x.1))) [
            | inl bad ↦
                rw (e, setup_criu-done path fd w e', bad)
                  (dumps pid path fd o x e e' seen refl refl (rw bad refl))
            | inr good ↦
                rw (e, setup_criu-done path fd w e', good)
                  (dumps pid path fd o x e e' seen refl refl (rw good refl))
          ]
    ]
  ]

  ℤ-cases : (z : ℤ) → ((n : ℕ) × (z ≡ pos n)) ⊎ ((n : ℕ) × (z ≡ negsuc n))
  ℤ-cases (pos n) = inl (n, refl)
  ℤ-cases (negsuc n) = inr (n, refl)

  -- restore_from_snapshot ends in one of three ways. Arguments that do not parse leave all as it
  -- was; a directory that cannot be opened raises its errno and leaves criu's options; otherwise
  -- criu restores from the directory of the arguments with the default pid, whatever options were
  -- set before, and a result that is negative is raised as the errno that it is the negation of.
  pub restore_from_snapshot-Restored :
      (args : List Object) (w : CriuWorld Opts W) → Restored args w (restore_from_snapshot c args w)
  unfolding restore_from_snapshot restore_or_raise
  restore_from_snapshot-Restored args w = elim (Option-cases (c.parse_path args)) [
    | inl e ↦ rw e (bad_arguments e refl)
    | inr (path, e) ↦ elim (Reply-cases ((c.open_directory path (w.outside)).1)) [
      | inr (n, e') ↦ rw (e, setup_criu-failed path n w e') (no_directory path n e e' refl refl)
      | inl (fd, e') ↦
          let o = ready fd (w.opts) in
          let x = c.restore o (opened path w) in
          elim (ℤ-cases (x.1)) [
            | inl (n, good) ↦
                rw (e, setup_criu-done path fd w e', good, restore_or_raise)
                  (restores path fd n o x e e' (ready-prepared fd (w.opts)) refl refl
                    (inl (good, refl)))
            | inr (n, bad) ↦
                rw (e, setup_criu-done path fd w e', bad, restore_or_raise)
                  (restores path fd n o x e e' (ready-prepared fd (w.opts)) refl refl
                    (inr (bad, refl)))
          ]
    ]
  ]

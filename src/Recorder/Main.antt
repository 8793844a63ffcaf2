-- ===== src/Recorder/Main.antt =====
-- recorder/src/main.c and the init and remove functions of the other files: what the module has
-- registered with the kernel.
pub mod Unwind
use rr_python.Common.{
  [], ◌∷◌, ◌++◌, zero, suc, true, false, none, some, Bool, if◌then◌else◌, ℕ, ◌+◌, ◌==◌,
}

-- What the module can hold.
pub data Resource : Type 0 where
  fifo : Resource
  syscall_probe : Resource
  copy_probes : Resource
  put_probes : Resource
  wrapper_probes : Resource
  dumper_entry : Resource
  processes_entry : Resource

-- What it holds, and how often it has given back something that it did not hold.
pub record Held : Type 0 where
  pub has : Resource → Bool
  pub stray : ℕ

abbrev code : Resource → ℕ
code fifo = 0
code syscall_probe = 1
code copy_probes = 2
code put_probes = 3
code wrapper_probes = 4
code dumper_entry = 5
code processes_entry = 6

infix 50 ◌==ᵣ◌
abbrev pub ◌==ᵣ◌ : Resource → Resource → Bool
a ==ᵣ b = code a == code b

-- kfifo_alloc, register_kretprobe(s), proc_create: `fails` says which calls fail. A call that fails
-- registers nothing.
unfoldable pub acquire : (Resource → Bool) → Resource → Held → Bool × Held
acquire fails r h =
    if fails r
    then (true, h)
    else (false, record h { has = λ q. if q ==ᵣ r then true else h.has q })

-- kfifo_free, unregister_kretprobe(s), remove_proc_entry.
unfoldable pub release : Resource → Held → Held
release r h = record {
  has = λ q. if q ==ᵣ r then false else h.has q;
  stray = if h.has r then h.stray else h.stray + 1;
}

-- IF_TRUE_GOTO on a call that may fail: the label, or the statements behind it.
abbrev pub checked : Bool × Held → (Held → Bool × Held) → (Held → Bool × Held) → Bool × Held
checked (true, h) label next = label h
checked (false, h) label next = next h

abbrev pub failure : Held → Bool × Held
failure h = (true, h)

abbrev pub success : Held → Bool × Held
success h = (false, h)

-- Each init function answers whether it fails (-1) or not (0).
unfoldable pub init_syscall_hook : (Resource → Bool) → Held → Bool × Held
init_syscall_hook fails h =
    checked (acquire fails fifo h) (λ t. failure (release syscall_probe t))
      λ t. checked (acquire fails syscall_probe t) failure success

unfoldable pub remove_syscall_hook : Held → Held
remove_syscall_hook h = release fifo (release syscall_probe h)

unfoldable pub init_copy_hook : (Resource → Bool) → Held → Bool × Held
init_copy_hook fails h =
    checked (acquire fails copy_probes h) failure
      λ t. checked (acquire fails put_probes t) failure success

unfoldable pub remove_copy_hook : Held → Held
remove_copy_hook h = release put_probes (release copy_probes h)

unfoldable pub init_syscall_wrappers : (Resource → Bool) → Held → Bool × Held
init_syscall_wrappers fails h = acquire fails wrapper_probes h

unfoldable pub remove_syscall_wrappers : Held → Held
remove_syscall_wrappers h = release wrapper_probes h

unfoldable pub init_syscall_dumper : (Resource → Bool) → Held → Bool × Held
init_syscall_dumper fails h = acquire fails dumper_entry h

unfoldable pub remove_syscall_dumper : Held → Held
remove_syscall_dumper h = release dumper_entry h

unfoldable pub init_recorded_processes_loader : (Resource → Bool) → Held → Bool × Held
init_recorded_processes_loader fails h = acquire fails processes_entry h

unfoldable pub remove_recorded_processes_loader : Held → Held
remove_recorded_processes_loader h = release processes_entry h

-- The labels of `recorder_init`, each of which falls through to the next.
unfoldable pub cleanup_syscall_hook : Held → Bool × Held
cleanup_syscall_hook h = (true, remove_syscall_hook h)

unfoldable pub cleanup_copy_hook : Held → Bool × Held
cleanup_copy_hook h = cleanup_syscall_hook (remove_copy_hook h)

unfoldable pub cleanup_syscall_wrapper : Held → Bool × Held
cleanup_syscall_wrapper h = cleanup_copy_hook (remove_syscall_wrappers h)

unfoldable pub cleanup_syscall_dumper : Held → Bool × Held
cleanup_syscall_dumper h = cleanup_syscall_wrapper (remove_syscall_dumper h)

unfoldable pub recorder_init : (Resource → Bool) → Held → Bool × Held
recorder_init fails h = checked (init_syscall_hook fails h) failure λ a.
    checked (init_copy_hook fails a) cleanup_syscall_hook λ b.
      checked (init_syscall_wrappers fails b) cleanup_copy_hook λ c.
        checked (init_syscall_dumper fails c) cleanup_syscall_wrapper
          λ d. checked (init_recorded_processes_loader fails d) cleanup_syscall_dumper success

unfoldable pub recorder_exit : Held → Held
recorder_exit h = remove_syscall_hook (
    remove_copy_hook
      (remove_recorded_processes_loader (remove_syscall_wrappers (remove_syscall_dumper h))))

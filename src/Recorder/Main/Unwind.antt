-- ===== src/Recorder/Main/Unwind.antt =====
-- What recorder_init and recorder_exit of recorder/src/main.c leave registered.
use rr_python.Common.{
  true, false, Bool, if◌then◌else◌, ◌||◌, ◌≡◌, Bool-cases, inl, inr, refl, arith,
}
use rr_python.Recorder.Main.{
  fifo, syscall_probe, copy_probes, put_probes, wrapper_probes, dumper_entry, processes_entry, Held,
  Resource, recorder_init, init_syscall_hook, init_copy_hook, init_syscall_wrappers, ◌==ᵣ◌,
  init_syscall_dumper, init_recorded_processes_loader, cleanup_syscall_hook, cleanup_copy_hook,
  cleanup_syscall_wrapper, cleanup_syscall_dumper, remove_syscall_hook, remove_copy_hook,
  remove_syscall_wrappers, remove_syscall_dumper, acquire, release, recorder_exit,
  remove_recorded_processes_loader,
}

abbrev pub nothing_held : Held
nothing_held = record { has = λ r. false; stray = 0 }

abbrev pub is_failing : (Resource → Bool) → Bool
is_failing fails =
    fails fifo
    || fails syscall_probe
    || fails copy_probes
    || fails put_probes
    || fails wrapper_probes
    || fails dumper_entry
    || fails processes_entry

-- What stays behind when `recorder_init` fails: the fifo, when it is the probe of the system calls
-- that fails; the first probes of copies, when the others fail.
abbrev pub left_behind : (Resource → Bool) → Resource → Bool
left_behind fails r =
    if fails fifo
    then false
    else if fails syscall_probe
    then r ==ᵣ fifo
    else if fails copy_probes
    then false
    else if fails put_probes
    then r ==ᵣ copy_probes
    else false

-- The same answer for each resource.
abbrev pub Agree : (Resource → Bool) → (Resource → Bool) → Type 0
Agree f g =
    (f fifo ≡ g fifo)
    × (f syscall_probe ≡ g syscall_probe)
    × (f copy_probes ≡ g copy_probes)
    × (f put_probes ≡ g put_probes)
    × (f wrapper_probes ≡ g wrapper_probes)
    × (f dumper_entry ≡ g dumper_entry)
    × (f processes_entry ≡ g processes_entry)

-- The answer, what has been given back though it was not held, and what is held.
abbrev pub Leaves : (Resource → Bool) → Bool × Held → Type 0
Leaves fails r =
    (r.0 ≡ is_failing fails)
    × (r.1.stray ≡ (if fails fifo then 1 else 0))
    × Agree r.1.has (λ q. if is_failing fails then left_behind fails q else true)

-- `recorder_init` on a kernel that refuses some calls fails if it refuses any. It then holds
-- nothing any more, but for the fifo when the probe of the system calls is refused, and for the
-- probes of _copy_to_user and copyout when those of `put_user` are; and when the fifo is refused
-- it unregisters a probe that was never registered. If no call is refused it holds everything.
pub recorder_init-Leaves :
    (fails : Resource → Bool) → Leaves fails (recorder_init fails nothing_held)
unfolding recorder_init init_syscall_hook init_copy_hook init_syscall_wrappers init_syscall_dumper
    init_recorded_processes_loader cleanup_syscall_hook cleanup_copy_hook cleanup_syscall_wrapper
    cleanup_syscall_dumper remove_syscall_hook remove_copy_hook remove_syscall_wrappers
    remove_syscall_dumper acquire release
recorder_init-Leaves fails = elim (Bool-cases (fails fifo)) [
  | inl e0 ↦ rw e0 (refl, refl, (refl, refl, refl, refl, refl, refl, refl))
  | inr e0 ↦ elim (Bool-cases (fails syscall_probe)) [
    | inl e1 ↦ rw (e0, e1) (refl, refl, (refl, refl, refl, refl, refl, refl, refl))
    | inr e1 ↦ elim (Bool-cases (fails copy_probes)) [
      | inl e2 ↦ rw (e0, e1, e2) (refl, refl, (refl, refl, refl, refl, refl, refl, refl))
      | inr e2 ↦ elim (Bool-cases (fails put_probes)) [
        | inl e3 ↦ rw (e0, e1, e2, e3) (refl, refl, (refl, refl, refl, refl, refl, refl, refl))
        | inr e3 ↦ elim (Bool-cases (fails wrapper_probes)) [
          | inl e4 ↦
              rw (e0, e1, e2, e3, e4) (refl, refl, (refl, refl, refl, refl, refl, refl, refl))
          | inr e4 ↦ elim (Bool-cases (fails dumper_entry)) [
            | inl e5 ↦
                rw (e0, e1, e2, e3, e4, e5) (refl, refl, (refl, refl, refl, refl, refl, refl, refl))
            | inr e5 ↦ elim (Bool-cases (fails processes_entry)) [
              | inl e6 ↦
                  rw (e0, e1, e2, e3, e4, e5, e6)
                    (refl, refl, (refl, refl, refl, refl, refl, refl, refl))
              | inr e6 ↦
                  rw (e0, e1, e2, e3, e4, e5, e6)
                    (refl, refl, (refl, refl, refl, refl, refl, refl, refl))
            ]
          ]
        ]
      ]
    ]
  ]
]

split_or : (a b : Bool) → (a || b) ≡ false → (a ≡ false) × (b ≡ false)
split_or true b e = absurd (ground (arith, e))
split_or false b e = (refl, e)

-- What `recorder_init` holds when it succeeds, `recorder_exit` gives back, each thing once.
pub recorder_exit-releases :
    (fails : Resource → Bool)
    → is_failing fails ≡ false
    → ((recorder_exit (recorder_init fails nothing_held).1).stray ≡ 0)
      × Agree (recorder_exit (recorder_init fails nothing_held).1).has (λ q. false)
unfolding recorder_exit remove_recorded_processes_loader recorder_init init_syscall_hook
    init_copy_hook init_syscall_wrappers init_syscall_dumper init_recorded_processes_loader
    cleanup_syscall_hook cleanup_copy_hook cleanup_syscall_wrapper cleanup_syscall_dumper
    remove_syscall_hook remove_copy_hook remove_syscall_wrappers remove_syscall_dumper acquire
    release
recorder_exit-releases fails none_fails =
    let a = split_or _ (fails processes_entry) none_fails in
    let b = split_or _ (fails dumper_entry) a.0 in
    let c = split_or _ (fails wrapper_probes) b.0 in
    let d = split_or _ (fails put_probes) c.0 in
    let e = split_or _ (fails copy_probes) d.0 in
    let f = split_or (fails fifo) (fails syscall_probe) e.0 in
    rw (f.0, f.1, e.1, d.1, c.1, b.1, a.1) (refl, (refl, refl, refl, refl, refl, refl, refl))

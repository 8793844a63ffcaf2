-- ===== src/Recorder/ProcessesLoader.antt =====
-- recorder/src/recorded_processes_loader.c: the file through which the recorded pid is set.
use rr_python.Recorder.SyscallDumper.{efault}
use rr_python.Recorder.Invariant.{Ghost, IsRep, IsRep-touch}
use rr_python.Recorder.State.{Ptr, Task, State}
use rr_python.Recorder.Cmd.{is_recorded, Cmd, ok, Returns, pure}
use rr_python.Recorder.Kernel.{Kernel}
use rr_python.Common.{
  zero, suc, true, false, none, some, ℕ, Bool, if◌then◌else◌, ◌≡◌, List, ◌+◌, ◌||◌, ltb, ◌&&◌, not,
  ◌⊎◌, Bool-cases, ◌<◌, inl, ◌≤◌, inr, arith, refl, Option-cases, ◌∙◌, ap, sym,
}
use rr_python.Recorder.Cmd.{◌>>=◌}
use rr_python.Common.Signed.{pos, negsuc, ℤ, ◌==ℤ◌}

abbrev pub buffer_size : ℕ
buffer_size = 100

abbrev is_positive : ℤ → Bool
is_positive (pos zero) = false
is_positive (pos (suc n)) = true
is_positive (negsuc n) = false

-- `kstrtoint_from_user(ubuf, count, 10, &recorded_process_pid)`: whether it failed.
unfoldable pub read_pid : Kernel → Ptr → ℕ → Cmd Bool
read_pid k ubuf count s = elim (k.kstrtoint_from_user s.calls s.memory ubuf count) [
  | none ↦ ok true (record s { calls = s.calls + 1 })
  | some pid ↦ ok false (record s { recorded_process_pid = pid; calls = s.calls + 1 })
]

-- The result, and `*ppos` afterwards.
unfoldable pub write_proc : Kernel → Ptr → ℕ → ℤ → Cmd (ℤ × ℤ)
write_proc k ubuf count ppos =
    if is_positive ppos || ltb buffer_size count then pure (efault, ppos) else (do
      failed ← read_pid k ubuf count
      if failed then pure (efault, ppos) else pure (pos count, pos count))

-- A write that does not start at the beginning of the file.
abbrev pub IsAfterStart : ℤ → Type 0
IsAfterStart ppos = (n : ℕ) × (ppos ≡ pos (suc n))

is_positive-IsAfterStart : (ppos : ℤ) → is_positive ppos ≡ true → IsAfterStart ppos
is_positive-IsAfterStart (pos zero) e = absurd (cc e)
is_positive-IsAfterStart (pos (suc n)) e = (n, refl)
is_positive-IsAfterStart (negsuc n) e = absurd (cc e)

not_positive : (ppos : ℤ) → is_positive ppos ≡ false → ¬ IsAfterStart ppos
not_positive (pos zero) e (n, e') = absurd (cc e')
not_positive (pos (suc n)) e (m, e') = absurd (cc e)
not_positive (negsuc n) e (m, e') = absurd (cc e')

-- How a write ends, and which tasks are recorded afterwards.
pub data Written (k : Kernel) (ubuf : Ptr) (count : ℕ) (ppos : ℤ) (s : State) (r : ℤ × ℤ)
    (s' : State) : Type 0 where
  rejected :
      r ≡ (efault, ppos)
      → IsAfterStart ppos
        ⊎ (buffer_size < count)
        ⊎ (k.kstrtoint_from_user s.calls s.memory ubuf count ≡ none)
      → ((task : Task) → is_recorded task s' ≡ is_recorded task s)
      → Written k ubuf count ppos s r s'
  accepted :
      (pid : ℤ)
      → r ≡ (pos count, pos count)
      → ¬ IsAfterStart ppos
      → count ≤ buffer_size
      → k.kstrtoint_from_user s.calls s.memory ubuf count ≡ some pid
      → ((task : Task) → is_recorded task s' ≡ ((task.pid ==ℤ pid) && not (pid ==ℤ pos 0)))
      → Written k ubuf count ppos s r s'

recorded_by :
    (task : Task) (s : State)
    → is_recorded task s
      ≡ ((task.pid ==ℤ s.recorded_process_pid) && not (s.recorded_process_pid ==ℤ pos 0))
unfolding is_recorded
recorded_by task s = elim (Bool-cases (task.pid ==ℤ s.recorded_process_pid)) [
  | inl e ↦ rw e refl
  | inr e ↦ rw e refl
]

same_tasks :
    (task : Task) (s t : State)
    → s.recorded_process_pid ≡ t.recorded_process_pid
    → is_recorded task s ≡ is_recorded task t
same_tasks task s t e =
    recorded_by task s
    ∙ ap (λ pid. (task.pid ==ℤ pid) && not (pid ==ℤ pos 0)) e
    ∙ sym (recorded_by task t)

-- write_proc refuses a write that does not start at 0, one of more than BUFFER_SIZE bytes and one
-- that is no number, with -EFAULT, and then the same tasks are recorded as before. It accepts no
-- other write than one that starts at 0, has at most BUFFER_SIZE bytes and is a number: it takes
-- the whole write, and exactly the tasks with the number's pid are recorded: none at 0. What the
-- recorder holds stays.
pub write_proc-Written :
    (k : Kernel) (ubuf : Ptr) (count : ℕ) (ppos : ℤ) {s : State} {g : Ghost} {extra : List Ptr}
    → IsRep s g extra
    → Returns
        (λ r s'. IsRep s' g extra × Written k ubuf count ppos s r s')
        (write_proc k ubuf count ppos s)
unfolding write_proc read_pid
write_proc-Written k ubuf count ppos {s} {g} {extra} rep =
    let touch =
      λ (pid : ℤ). IsRep-touch s.memory s.frames pid s.mutex_locked s.wake_ups (s.calls + 1) rep in
    elim (Bool-cases (is_positive ppos)) [
      | inl late ↦
          rw late (rep, rejected refl (inl (is_positive-IsAfterStart ppos late)) (λ task. refl))
      | inr at_start ↦ elim (Bool-cases (ltb buffer_size count)) [
        | inl long ↦
            rw (at_start, long) (rep, rejected refl (inr (inl (ground arith))) (λ task. refl))
        | inr short ↦ elim (Option-cases (k.kstrtoint_from_user s.calls s.memory ubuf count)) [
          | inl e ↦
              rw (at_start, short, e, read_pid)
                (
                  touch s.recorded_process_pid,
                  rejected refl (inr (inr e)) (λ task. same_tasks task _ s refl),
                )
          | inr (pid, e) ↦
              rw (at_start, short, e, read_pid)
                (
                  touch pid,
                  accepted pid refl (not_positive ppos at_start) (ground arith) e
                      (λ task. recorded_by task _),
                )
        ]
      ]
    ]

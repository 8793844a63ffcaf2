-- ===== src/Recorder/SyscallRecorder/Enter.antt =====
-- pre_syscall of recorder/src/syscall_recorder.c.
use rr_python.Recorder.Cmd.Alloc.{refused, Alloc, kmalloc-Alloc}
use rr_python.Recorder.Invariant.Syscalls.{fresh_item, IsRep-start_syscall}
use rr_python.Recorder.Cmd.{is_recorded, Returns, Returns-bind}
use rr_python.Recorder.SyscallRecorder.{never_returns, pre_syscall, sizeof_syscall_record}
use rr_python.Common.{
  ◌≡◌, List, ℕ, true, Option, arith, ◌⊎◌, false, inl, none, Bool-cases, inr, some, refl, ◌==◌,
}
use rr_python.Recorder.Invariant.{
  Ghost, IsRep, Located, Item, ghost, current-ne_null, current-eq_null,
}
use rr_python.Recorder.Kernel.{Kernel, IsKernel}
use rr_python.Recorder.State.{State, Task, Ptr, PtRegs, null}

-- What the probes of a system call leave alone.
pub record SameInput (s s' : State) : Type 0 where
  pub memory : s'.memory ≡ s.memory
  pub frames : s'.frames ≡ s.frames
  pub pid : s'.recorded_process_pid ≡ s.recorded_process_pid
  pub copy_ptr : s'.current_copy ≡ s.current_copy
  pub mutex : s'.mutex_locked ≡ s.mutex_locked

-- execve, exit and exit_group do not return to their caller.
abbrev pub NeverReturns : ℕ → Type 0
NeverReturns nr = (nr ≡ 59) ⊎ (nr ≡ 60) ⊎ (nr ≡ 231)

never_returns-NeverReturns : (nr : ℕ) → never_returns nr ≡ true → NeverReturns nr
unfolding never_returns
never_returns-NeverReturns nr e = ground arith

returns : (nr : ℕ) → never_returns nr ≡ false → ¬ NeverReturns nr
unfolding never_returns
returns nr e h = ground arith

-- Why `pre_syscall` answers 1.
pub data Skipped (k : Kernel) (task : Task) (s : State) (g : Ghost) (nr : ℕ) : Type 0 where
  never_ends : NeverReturns nr → Skipped k task s g nr
  other_task : is_recorded task s ≡ false → Skipped k task s g nr
  syscall_under_way : (it : Item) → g.current ≡ some it → Skipped k task s g nr
  no_block : k.kmalloc s.calls s.heap sizeof_syscall_record ≡ null → Skipped k task s g nr

pub record Passed (k : Kernel) (task : Task) (s : State) (g : Ghost) (extra : List Ptr) (nr r : ℕ)
    (s' : State) : Type 0 where
  pub answer : r ≡ 1
  pub reason : Skipped k task s g nr
  pub rep : IsRep s' g extra

pub record Begun (task : Task) (s : State) (g : Ghost) (extra : List Ptr) (regs : PtRegs) (r : ℕ)
    (s' : State) : Type 0 where
  pub answer : r ≡ 0
  pub comes_back : ¬ NeverReturns regs.di
  pub recorded : is_recorded task s ≡ true
  pub idle : g.current ≡ none
  pub ptr : Ptr
  pub rep :
      IsRep s' (ghost g.pending (some (fresh_item ptr (s.frames regs.si) regs.si)) g.queue) extra

abbrev pub EnteredSyscall : Kernel → Task → State → Ghost → List Ptr → PtRegs → ℕ → State → Type 0
EnteredSyscall k task s g extra regs r s' =
    SameInput s s'
    × (s'.wake_ups ≡ s.wake_ups)
    × (Passed k task s g extra regs.di r s' ⊎ Begun task s g extra regs r s')

module _ {k : Kernel} (is : IsKernel k) (task : Task) {s : State} {extra : List Ptr}
    (regs : PtRegs) where
  passed :
      (g : Ghost)
      → IsRep s g extra
      → Skipped k task s g regs.di
      → EnteredSyscall k task s g extra regs 1 s
  passed g rep why = (ground arith, refl, inl (record { answer = refl; reason = why; rep = rep }))

  failed :
      {pending : Option Located} {queue : List Item}
      → IsRep s (ghost pending none queue) extra
      → k.kmalloc s.calls s.heap sizeof_syscall_record ≡ null
      → EnteredSyscall k task s
          (ghost pending none queue)
          extra
          regs
          1
          (record (refused s) { current_syscall_record = null })
  failed rep no_room = (
    ground arith,
    refl,
    inl (record {
      answer = refl;
      reason = no_block no_room;
      rep = record {
        pending_at = rep.pending_at;
        current_at = refl;
        queue_at = rep.queue_at;
        fifo = rep.fifo;
        fifo_size = rep.fifo_size;
        fits = rep.fits;
        low = rep.low;
        exact = rep.exact;
      };
    }),
  )

  recorded-EnteredSyscall :
      (pending : Option Located) (current : Option Item) (queue : List Item)
      → IsRep s (ghost pending current queue) extra
      → never_returns regs.di ≡ false
      → is_recorded task s ≡ true
      → Returns
          (EnteredSyscall k task s (ghost pending current queue) extra regs)
          (pre_syscall k task regs s)
  unfolding pre_syscall
  recorded-EnteredSyscall pending (some it) queue rep ends mine =
      rw (ends, mine, current-ne_null rep) (passed _ rep (syscall_under_way it refl))
  recorded-EnteredSyscall pending none queue rep ends mine =
      rw (ends, mine, current-eq_null rep)
        (Returns-bind (Alloc k s _ _) _ _ _ (kmalloc-Alloc k _ _ _ s is (omega arith) (omega arith))
          λ p s' a. elim a [
            | inl (e, no_room, e') ↦ rw (e, e') (failed rep no_room)
            | inr (new, e') ↦
                let some_block : (p == null) ≡ false = ground (arith, new.above) in
                rw (e', some_block)
                  (
                    ground arith,
                    refl,
                    inr (record {
                      answer = refl;
                      comes_back = returns regs.di ends;
                      recorded = mine;
                      idle = refl;
                      ptr = p;
                      rep = IsRep-start_syscall (s.frames regs.si) regs.si rep new;
                    }),
                  )
          ])

  -- pre_syscall never faults. It answers 1 and leaves what the recorder holds, for one of four
  -- reasons: a call that never returns (execve, exit or exit_group), another task, a record under
  -- way, no memory. Otherwise it answers 0, the task is the recorded one and the call is none of
  -- those three, and the record under way holds the task's registers and no copy.
  pub pre_syscall-EnteredSyscall :
      (g : Ghost)
      → IsRep s g extra
      → Returns (EnteredSyscall k task s g extra regs) (pre_syscall k task regs s)
  unfolding pre_syscall
  pre_syscall-EnteredSyscall g rep = elim (Bool-cases (never_returns regs.di)) [
    | inl ends ↦ rw ends (passed g rep (never_ends (never_returns-NeverReturns regs.di ends)))
    | inr ends ↦ elim (Bool-cases (is_recorded task s)) [
      | inl mine ↦ recorded-EnteredSyscall g.pending g.current g.queue rep ends mine
      | inr other ↦ rw (ends, other) (passed g rep (other_task other))
    ]
  ]

-- ===== src/Recorder/SyscallRecorder/Leave.antt =====
-- post_syscall of recorder/src/syscall_recorder.c.
use rr_python.Recorder.SyscallRecorder.Free.{free_syscall_record-erase}
use rr_python.Recorder.SyscallRecorder.Enter.{SameInput}
use rr_python.Recorder.Kernel.Fifo.{kfifo_in-full, kfifo_in-whole}
use rr_python.Recorder.Cmd.Alloc.{load_syscall-ok, store-ok, mutex_lock-ok}
use rr_python.Common.Bytes.{le}
use rr_python.Recorder.Cmd.{mutex_unlock, ok, Returns}
use rr_python.Recorder.SyscallRecorder.{
  push_current, save_ret, post_syscall, free_syscall_record, enqueue_current,
}
use rr_python.Common.{
  Option, List, some, ◌*◌, ◌++◌, ◌^◌, ◌≡◌, length, ◌<◌, ◌+◌, ◌≤◌, ◌∙◌, ap, ℕ, ◌-◌, arith, false,
  none, true, ◌∷◌, [], refl, if◌then◌else◌, leb, Bool-cases, inl, inr,
}
use rr_python.Recorder.Invariant.Syscalls.{
  returned, IsRep-set_ret, IsRep-enqueue, IsRep-release, IsRep-detach,
}
use rr_python.Recorder.Invariant.{
  Item, Located, IsRep, ghost, block, length-pointer_bytes, IsRep-touch, current-ne_null,
  named_once, erase_item,
}
use rr_python.Recorder.Kernel.{Kernel, IsKernel}
use rr_python.Recorder.State.{State, Ptr, Kfifo, write, syscall, PtRegs}

-- The record as it is queued: its return value is the `ax` of the frame that it points at.
abbrev pub finished : State → Item → Item
finished s it = returned it (s.frames it.regs_ptr).ax

-- What `kfifo_in` answers for a pointer, and what is then in the fifo.
module _ {k : Kernel} (is : IsKernel k) {s : State} {pending : Option Located} {it : Item}
    {queue : List Item} {extra : List Ptr}
    (rep : IsRep s (ghost pending (some it) queue) extra) where
  abbrev queued : Kfifo
  queued = record s.recorded_syscalls {
    bytes = s.recorded_syscalls.bytes ++ le 8 s.current_syscall_record;
  }

  push_current-whole :
      8 * length queue + 8 ≤ 2 ^ 15
      → push_current k s ≡ ok 8 (record s { recorded_syscalls = queued })
  unfolding push_current
  push_current-whole room =
      ap (λ (r : Kfifo × ℕ). ok r.1 (record s { recorded_syscalls = r.0 }))
        (kfifo_in-whole is s.recorded_syscalls (le 8 s.current_syscall_record)
          (omega (arith, space)))
    where
      space :
          s.recorded_syscalls.size - length s.recorded_syscalls.bytes + 8 * length queue ≡ 2 ^ 15
      space = omega (arith, rep.fifo_size, rep.fits, ap length rep.fifo, length-pointer_bytes queue)

  push_current-full : 2 ^ 15 < 8 * length queue + 8 → push_current k s ≡ ok 0 s
  unfolding push_current
  push_current-full full =
      ap (λ (r : Kfifo × ℕ). ok r.1 (record s { recorded_syscalls = r.0 }))
        (kfifo_in-full is s.recorded_syscalls (le 8 s.current_syscall_record)
          (omega (arith, rep.fifo_size, rep.fits, ap length rep.fifo, length-pointer_bytes queue)))

  save_ret-returned :
      save_ret s
      ≡ ok tt (record s { heap = write s.heap it.ptr (some (syscall (block (finished s it)))) })
  unfolding save_ret
  save_ret-returned =
      let held = rw (← rep.current_at.0) at rep.current_at.1.1 in
      rw (load_syscall-ok s.current_syscall_record s held) (
        store-ok s.current_syscall_record s _ held
        ∙ ap
            (λ q.
              ok tt (record s { heap = write s.heap q (some (syscall (block (finished s it)))) }))
            rep.current_at.0)

-- `post_syscall` has queued the record and woken a reader.
abbrev pub Queued : State → Option Located → Item → List Item → List Ptr → ℕ → State → Type 0
Queued s pending it queue extra r s' =
    (r ≡ 0)
    × SameInput s s'
    × (s'.wake_ups ≡ s.wake_ups + 1)
    × IsRep s' (ghost pending none (queue ++ (finished s it ∷ []))) extra

-- `post_syscall` has freed the record, and woken nobody.
abbrev pub Dropped : State → Option Located → List Item → List Ptr → ℕ → State → Type 0
Dropped s pending queue extra r s' =
    (r ≡ 0)
    × SameInput s s'
    × (s'.wake_ups ≡ s.wake_ups)
    × IsRep s' (ghost pending none queue) extra

module _ {k : Kernel} (is : IsKernel k) {s : State} {pending : Option Located} {it : Item}
    {queue : List Item} {extra : List Ptr} (rep : IsRep s (ghost pending (some it) queue) extra)
    (unlocked : s.mutex_locked ≡ false) where
  abbrev saved : State
  saved = record s { heap = write s.heap it.ptr (some (syscall (block (finished s it)))) }

  abbrev locked : State
  locked = record saved { mutex_locked = true }

  saved-IsRep : IsRep saved (ghost pending (some (finished s it)) queue) extra
  saved-IsRep = IsRep-set_ret (s.frames it.regs_ptr).ax rep

  locked-IsRep : IsRep locked (ghost pending (some (finished s it)) queue) extra
  locked-IsRep =
      IsRep-touch s.memory s.frames s.recorded_process_pid true s.wake_ups s.calls saved-IsRep

  enqueue_current-queued :
      8 * length queue + 8 ≤ 2 ^ 15
      → enqueue_current k locked
        ≡ ok tt (record locked {
          recorded_syscalls = queued is locked-IsRep;
          wake_ups = s.wake_ups + 1;
        })
  unfolding enqueue_current
  enqueue_current-queued room = rw (push_current-whole is locked-IsRep room)

  enqueue_current-dropped :
      2 ^ 15 < 8 * length queue + 8
      → enqueue_current k locked
        ≡ ok tt (record locked { heap = erase_item saved.heap (finished s it) })
  unfolding enqueue_current
  enqueue_current-dropped full = rw (push_current-full is locked-IsRep full) (
      ap (λ p. free_syscall_record p locked) rep.current_at.0
      ∙ free_syscall_record-erase locked (finished s it) saved-IsRep.current_at.1 saved-IsRep.low
          (λ q. omega (arith, named_once saved-IsRep q)))

  post_syscall-Queued :
      (regs : PtRegs)
      → 8 * length queue + 8 ≤ 2 ^ 15
      → Returns (Queued s pending it queue extra) (post_syscall k regs s)
  unfolding post_syscall mutex_unlock
  post_syscall-Queued regs room =
      rw
        (
          current-ne_null rep,
          save_ret-returned is rep,
          mutex_lock-ok saved unlocked,
          enqueue_current-queued room,
        )
        (
          refl,
          ground arith,
          refl,
          IsRep-touch s.memory s.frames s.recorded_process_pid false (s.wake_ups + 1) s.calls (
              IsRep-enqueue _ saved-IsRep
                (ap (λ p. s.recorded_syscalls.bytes ++ le 8 p) rep.current_at.0) refl room),
        )

  post_syscall-Dropped :
      (regs : PtRegs)
      → 2 ^ 15 < 8 * length queue + 8
      → Returns (Dropped s pending queue extra) (post_syscall k regs s)
  unfolding post_syscall mutex_unlock
  post_syscall-Dropped regs full =
      rw
        (
          current-ne_null rep,
          save_ret-returned is rep,
          mutex_lock-ok saved unlocked,
          enqueue_current-dropped full,
        )
        (
          refl,
          ground arith,
          refl,
          IsRep-touch s.memory s.frames s.recorded_process_pid false s.wake_ups s.calls
              (IsRep-release (finished s it) extra (IsRep-detach saved-IsRep)),
        )

  -- With a system call under way and the mutex free, `post_syscall` never faults and leaves the
  -- mutex free. While the fifo has room for a pointer the record goes to its end, with the return
  -- value that the task's frame then holds, and a reader is woken; when it is full the record and
  -- its copies are freed, and nobody is woken. Every block still has one owner.
  pub post_syscall-lem :
      (regs : PtRegs)
      → Returns
          (if leb (8 * length queue + 8) (2 ^ 15)
            then Queued s pending it queue extra
            else Dropped s pending queue extra)
          (post_syscall k regs s)
  post_syscall-lem regs = elim (Bool-cases (leb (8 * length queue + 8) (2 ^ 15))) [
    | inl room ↦ rw room (post_syscall-Queued regs (ground arith))
    | inr full ↦ rw full (post_syscall-Dropped regs (ground arith))
  ]

-- ===== src/Recorder/CopyToUser/Ownership.antt =====
-- The entry handlers of recorder/src/copy_to_user_wrapper.c: pre_put and pre_copy.
use rr_python.Common.Bytes.{le}
use rr_python.Recorder.Invariant.Copies.{IsRep-no_copy, IsRep-start_copy}
use rr_python.Recorder.Cmd.Alloc.{IsNew, allocated, Alloc, kmalloc-Alloc}
use rr_python.Recorder.CopyToUser.{
  sizeof_copy_record_element, null, new_current_copy, copy, PtRegs, pre_copy, pre_put, put_bytes,
}
use rr_python.Recorder.Cmd.{is_recorded, Returns, Returns-bind, Cmd, ok}
use rr_python.Common.{
  ◌≡◌, List, refl, ℕ, false, true, none, some, ◌+◌, ◌<◌, ◌%◌, ◌^◌, inl, ◌⊎◌, ◌≤◌, inr, arith, ◌==◌,
  Option, if◌then◌else◌, not, Bool-cases, [],
}
use rr_python.Recorder.Invariant.{
  Ghost, Item, IsRep, ghost, Located, current-eq_null, current-ne_null, pending-ne_null,
  pending-eq_null,
}
use rr_python.Recorder.Kernel.{Kernel, IsKernel}
use rr_python.Recorder.State.{State, Task, Ptr, CopyRecord}

-- What the probes of a copy leave alone.
pub record SameElse (s s' : State) : Type 0 where
  pub memory : s'.memory ≡ s.memory
  pub frames : s'.frames ≡ s.frames
  pub pid : s'.recorded_process_pid ≡ s.recorded_process_pid
  pub record_ptr : s'.current_syscall_record ≡ s.current_syscall_record
  pub fifo : s'.recorded_syscalls ≡ s.recorded_syscalls
  pub mutex : s'.mutex_locked ≡ s.mutex_locked
  pub wake_ups : s'.wake_ups ≡ s.wake_ups

-- Why an entry handler answers 1.
pub data Refused (k : Kernel) (task : Task) (s : State) (g : Ghost) (n : ℕ) : Type 0 where
  other_task : is_recorded task s ≡ false → Refused k task s g n
  no_syscall : g.current ≡ none → Refused k task s g n
  copy_under_way : (c : Located) → g.pending ≡ some c → Refused k task s g n
  no_block : k.kmalloc s.calls s.heap n ≡ null → Refused k task s g n

-- An entry handler answers 1 for one of these reasons, and the recorder holds what it held; or it
-- answers 0, and the copy is under way.
pub record Ignored (k : Kernel) (task : Task) (s : State) (g : Ghost) (extra : List Ptr) (n r : ℕ)
    (s' : State) : Type 0 where
  pub answer : r ≡ 1
  pub reason : Refused k task s g n
  pub rep : IsRep s' g extra

pub record Started (task : Task) (s : State) (g : Ghost) (extra : List Ptr) (c : CopyRecord) (r : ℕ)
    (s' : State) : Type 0 where
  pub answer : r ≡ 0
  pub recorded : is_recorded task s ≡ true
  pub item : Item
  pub syscall : g.current ≡ some item
  pub idle : g.pending ≡ none
  pub ptr : Ptr
  pub rep : IsRep s' (ghost (some (ptr, c)) g.current g.queue) extra

abbrev pub Entered : Kernel → Task → State → Ghost → List Ptr → CopyRecord → ℕ → State → Type 0
Entered k task s g extra c r s' =
    SameElse s s'
    × (Ignored k task s g extra ((sizeof_copy_record_element + c.len) % 2 ^ 64) r s'
        ⊎ Started task s g extra c r s')

module _ {k : Kernel} (is : IsKernel k) (task : Task) {s : State} {it : Item} {queue : List Item}
    {extra : List Ptr} (recorded : is_recorded task s ≡ true)
    (rep : IsRep s (ghost none (some it) queue) extra) (c : CopyRecord)
    (small : c.len < 2 ^ 63) where
  refused-Entered :
      (calls : ℕ)
      → k.kmalloc s.calls s.heap ((sizeof_copy_record_element + c.len) % 2 ^ 64) ≡ null
      → Entered k task s
          (ghost none (some it) queue)
          extra
          c
          1
          (record s { current_copy = null; calls = calls })
  refused-Entered calls failed = (
    ground arith,
    inl (record { answer = refl; reason = no_block failed; rep = IsRep-no_copy calls rep }),
  )

  started-Entered :
      {n : ℕ} {p : Ptr}
      → IsNew s n p
      → c.len ≤ n
      → Entered k task s
          (ghost none (some it) queue)
          extra
          c
          0
          (record (allocated s p (copy c)) { current_copy = p })
  started-Entered {p} new fits = (
    ground arith,
    inr (record {
      answer = refl;
      recorded = recorded;
      item = it;
      syscall = refl;
      idle = refl;
      ptr = p;
      rep = IsRep-start_copy c rep new (omega (arith, new.small));
    }),
  )

  new_current_copy-Entered :
      Returns (Entered k task s (ghost none (some it) queue) extra c) (new_current_copy k c.len c s)
  unfolding new_current_copy
  new_current_copy-Entered =
      Returns-bind (Alloc k s _ (copy c)) _ _ _
        (kmalloc-Alloc k _ _ (copy c) s is (omega arith) (omega arith))
        λ p s' a. elim a [
          | inl (e, failed, e') ↦ rw (e, e') (refused-Entered (s.calls + 1) failed)
          | inr (new, e') ↦
              let some_block : (p == null) ≡ false = ground (arith, new.above) in
              rw (e', some_block) (started-Entered new (omega arith))
        ]

-- The entry handlers, as one function of the copy that they record.
abbrev entry : Kernel → Task → CopyRecord → Cmd ℕ
entry k task c s =
    if not (is_recorded task s)
    then ok 1 s
    else if s.current_syscall_record == null
    then ok 1 s
    else if not (s.current_copy == null)
    then ok 1 s
    else new_current_copy k c.len c s

module _ {k : Kernel} (is : IsKernel k) (task : Task) {s : State} {extra : List Ptr}
    (c : CopyRecord) (small : c.len < 2 ^ 63) where
  ignored :
      (g : Ghost)
      → IsRep s g extra
      → Refused k task s g ((sizeof_copy_record_element + c.len) % 2 ^ 64)
      → Entered k task s g extra c 1 s
  ignored g rep why = (ground arith, inl (record { answer = refl; reason = why; rep = rep }))

  recorded-Entered :
      (pending : Option Located) (current : Option Item) (queue : List Item)
      → IsRep s (ghost pending current queue) extra
      → is_recorded task s ≡ true
      → Returns (Entered k task s (ghost pending current queue) extra c) (entry k task c s)
  recorded-Entered pending none queue rep mine =
      rw (mine, current-eq_null rep) (ignored _ rep (no_syscall refl))
  recorded-Entered (some (p, l)) (some it) queue rep mine =
      rw (mine, current-ne_null rep, pending-ne_null rep)
        (ignored _ rep (copy_under_way (p, l) refl))
  recorded-Entered none (some it) queue rep mine =
      rw (mine, current-ne_null rep, pending-eq_null rep)
        (new_current_copy-Entered is task mine rep c small)

  entry-Entered :
      (g : Ghost) → IsRep s g extra → Returns (Entered k task s g extra c) (entry k task c s)
  entry-Entered g rep = elim (Bool-cases (is_recorded task s)) [
    | inl mine ↦ recorded-Entered g.pending g.current g.queue rep mine
    | inr other ↦ rw other (ignored g rep (other_task other))
  ]

-- The sizes of the functions `__put_user_n` that are hooked.
abbrev pub IsPutSize : ℕ → Type 0
IsPutSize n = (n ≡ 1) ⊎ (n ≡ 2) ⊎ (n ≡ 4) ⊎ (n ≡ 8)

-- The bytes of a put are the low bytes of ax, the lowest first.
put_bytes-le : (n ax : ℕ) → IsPutSize n → put_bytes n ax ≡ le n ax
unfolding put_bytes
put_bytes-le n ax h = ground arith

-- The copy that `__put_user_n` makes, and the one that `_copy_to_user` and `copyout` make.
abbrev pub put_copy : ℕ → PtRegs → CopyRecord
put_copy n regs = record { from = null; to = regs.cx; len = n; bytes = le n regs.ax }

abbrev pub user_copy : PtRegs → CopyRecord
user_copy regs = record { from = regs.si; to = regs.di; len = regs.dx; bytes = [] }

module _ {k : Kernel} (is : IsKernel k) (task : Task) {s : State} {g : Ghost} {extra : List Ptr}
    (regs : PtRegs) (rep : IsRep s g extra) where
  -- pre_put of 1, 2, 4 or 8 bytes never faults. It answers 1 and leaves what the recorder holds,
  -- for one of four reasons: another task, no system call under way, another copy under way, no
  -- memory. Otherwise it answers 0, and the copy under way holds the low bytes of ax, the lowest
  -- first.
  pub pre_put-Entered :
      (n : ℕ)
      → IsPutSize n
      → Returns (Entered k task s g extra (put_copy n regs)) (pre_put k task n regs s)
  unfolding pre_put
  pre_put-Entered n size =
      rw (put_bytes-le n regs.ax size)
        (entry-Entered is task (put_copy n regs) (ground arith) g rep)

  -- `pre_copy` never faults at a length below 2^63. It answers 1 and leaves what the recorder
  -- holds, for one of four reasons: another task, no system call under way, another copy under
  -- way, no memory. Otherwise it answers 0 and the copy under way has the call's addresses and
  -- length.
  pub pre_copy-Entered :
      regs.dx < 2 ^ 63
      → Returns (Entered k task s g extra (user_copy regs)) (pre_copy k task regs s)
  unfolding pre_copy
  pre_copy-Entered small = entry-Entered is task (user_copy regs) small g rep

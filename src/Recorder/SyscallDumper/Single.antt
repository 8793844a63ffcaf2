-- ===== src/Recorder/SyscallDumper/Single.antt =====
-- dump_single_record of recorder/src/syscall_dumper.c.
use rr_python.Recorder.Kernel.Fifo.{kfifo_out-append}
use rr_python.Recorder.Invariant.Syscalls.{IsRep-take, IsRep-release}
use rr_python.Recorder.SyscallDumper.Send.{
  Wrote, dump_syscall_record-Wrote, failed, whole, dump_copy_records-Wrote, Unwritable,
  Unwritable-mono,
}
use rr_python.Recorder.SyscallDumper.Length.{length-image, get_record_len-length}
use rr_python.Recorder.SyscallRecorder.Free.{free_syscall_record-erase}
use rr_python.Recorder.Cmd.{ok, Returns, Returns-bind, Returns-mono}
use rr_python.Recorder.SyscallRecorder.{free_syscall_record}
use rr_python.Recorder.SyscallDumper.{
  general_dump_error, dump_fitting, give_up, dump_single_record, kfifo_out, short_write_error,
}
use rr_python.Recorder.Image.{image, dump_bytes, length-dump_bytes, copies_bytes}
use rr_python.Common.Bytes.{
  Memory, write_bytes, write_bytes-append, le, of_le-le8, IsWithin, IsWithin-mono, IsWithin-trans,
  write_bytes-IsWithin,
}
use rr_python.Common.Signed.{ℤ, to_signed}
use rr_python.Recorder.Invariant.{
  Item, RecordAt, erase_item, pointers, block, Located, IsRep, ghost, pointer_bytes, named_once,
  IsRep-touch,
}
use rr_python.Recorder.Kernel.{Kernel, IsKernel, zero_size_ptr}
use rr_python.Recorder.State.{State, Ptr, Kfifo}
use rr_python.Common.{
  ◌∷◌, ◌++◌, ◌≡◌, ℕ, ◌≤◌, length, none, count, ◌+◌, ◌<◌, ◌^◌, ◌%◌, arith, refl, Option, ap, sym,
  List, Bool-cases, ltb, inl, inr,
}

-- What the reader's functions leave alone.
pub record SameRecording (s s' : State) : Type 0 where
  pub frames : s'.frames ≡ s.frames
  pub pid : s'.recorded_process_pid ≡ s.recorded_process_pid
  pub record_ptr : s'.current_syscall_record ≡ s.current_syscall_record
  pub copy_ptr : s'.current_copy ≡ s.current_copy
  pub mutex : s'.mutex_locked ≡ s.mutex_locked
  pub wake_ups : s'.wake_ups ≡ s.wake_ups
  pub calls : s.calls ≤ s'.calls

-- The state after a record was freed and something written.
abbrev spent : State → Item → Memory → ℕ → State
spent s it m c = record s { heap = erase_item s.heap it; memory = m; calls = c }

data Dumped (k : Kernel) (s : State) (buf : Ptr) (it : Item) (r : ℤ) (s' : State) : Type 0 where
  dumped :
      (c : ℕ)
      → s.calls ≤ c
      → r ≡ to_signed (length (image it))
      → s' ≡ spent s it (write_bytes s.memory buf (image it)) c
      → Dumped k s buf it r s'
  lost :
      (m : Memory) (c : ℕ)
      → r ≡ general_dump_error
      → Unwritable k buf (length (image it)) s s'
      → IsWithin buf (length (image it)) s.memory m
      → s' ≡ spent s it m c
      → Dumped k s buf it r s'

module _ {k : Kernel} (is : IsKernel k) (it : Item) (s : State) (whole_record : RecordAt s.heap it)
    (low : (q : ℕ) → q ≤ zero_size_ptr → s.heap q ≡ none)
    (once : (q : ℕ) → count q (pointers it) ≤ 1) where
  free_after :
      (m : Memory) (c : ℕ)
      → free_syscall_record it.ptr (record s { memory = m; calls = c }) ≡ ok tt (spent s it m c)
  free_after m c =
      free_syscall_record-erase (record s { memory = m; calls = c }) it whole_record low once

  give_up-lost :
      (m : Memory) (c : ℕ)
      → give_up it.ptr (record s { memory = m; calls = c }) ≡ ok general_dump_error (spent s it m c)
  unfolding give_up
  give_up-lost m c = rw (free_after m c)

  abbrev both : Ptr → Memory
  both buf =
      write_bytes (write_bytes s.memory buf (dump_bytes (block it)))
        (buf + length (dump_bytes (block it))) (copies_bytes it.copies)

  both-image : (buf : Ptr) → write_bytes s.memory buf (image it) ≡ both buf
  unfolding image
  both-image buf = write_bytes-append s.memory buf (dump_bytes (block it)) (copies_bytes it.copies)

  -- The copies follow the registers in the buffer.
  dump_fitting-Dumped :
      (buf : Ptr)
      → buf + length (image it) < 2 ^ 64
      → Returns (Dumped k s buf it) (dump_fitting k it.ptr buf (length (image it)) s)
  unfolding dump_fitting
  dump_fitting-Dumped buf small =
      Returns-bind (Wrote k s buf (dump_bytes (block it))) _ _ _
        (dump_syscall_record-Wrote is it buf s whole_record)
        λ r s' w. elim w [
          | failed m c e why within e' ↦
              rw (e, e', give_up-lost m c)
                (lost m c refl
                  (Unwritable-mono (omega arith) (omega (arith, total)) (omega arith)
                    (omega (arith, ap (λ (u : State). u.calls) e')) why)
                  (IsWithin-mono buf (length (dump_bytes (block it))) buf (length (image it))
                    s.memory m (omega arith) (omega (arith, total)) within)
                  refl)
          | whole c e later e' ↦
              rw (e, e', next)
                (Returns-bind
                  (Wrote k _ (buf + length (dump_bytes (block it))) (copies_bytes it.copies)) _ _ _
                  (dump_copy_records-Wrote is it (buf + length (dump_bytes (block it))) _
                    whole_record (omega (arith, length-image it, length-dump_bytes (block it))))
                  λ r' s'' w'. elim w' [
                    | failed m c' f why within f' ↦
                        rw (f, f', give_up-lost m c')
                          (lost m c' refl
                            (Unwritable-mono (omega arith) (omega (arith, total))
                              (omega (arith, later, ap (λ (u : State). u.calls) e'))
                              (omega (arith, ap (λ (u : State). u.calls) f')) why)
                            (IsWithin-trans buf (length (dump_bytes (block it)))
                              (buf + length (dump_bytes (block it)))
                              (length (copies_bytes it.copies)) buf (length (image it)) s.memory
                              (write_bytes s.memory buf (dump_bytes (block it))) m (omega arith)
                              (omega (arith, total)) (omega arith) (omega (arith, total))
                              (write_bytes-IsWithin s.memory buf (dump_bytes (block it))) within)
                            refl)
                    | whole c' f later' f' ↦
                        rw (f, f', free_after (both buf) c')
                          (dumped c'
                            (omega (
                              arith,
                              later,
                              later',
                              ap (λ (u : State). u.calls) e',
                              ap (λ (u : State). u.calls) f',
                            ))
                            refl (ap (λ m. spent s it m c') (sym (both-image buf))))
                  ])
        ]
    where
      total : length (image it) ≡ length (dump_bytes (block it)) + length (copies_bytes it.copies)
      total = omega (arith, length-image it, length-dump_bytes (block it))

      next : (buf + 184) % 2 ^ 64 ≡ buf + length (dump_bytes (block it))
      next = omega (arith, length-image it, length-dump_bytes (block it))

-- The first record of the fifo is written whole, freed and counted; or, when the reader's memory
-- fails, it is freed and lost; or, when the buffer is too short for it, it stays allocated though
-- the fifo no longer holds it and nothing else does.
pub data Single (k : Kernel) (s : State) (buf : Ptr) (size : ℕ) (pending : Option Located)
    (current : Option Item) (it : Item) (queue : List Item) (extra : List Ptr) (r : ℤ) (s' : State)
    : Type 0 where
  written :
      r ≡ to_signed (length (image it))
      → length (image it) ≤ size
      → s'.memory ≡ write_bytes s.memory buf (image it)
      → SameRecording s s'
      → IsRep s' (ghost pending current queue) extra
      → Single k s buf size pending current it queue extra r s'
  unwritten :
      r ≡ general_dump_error
      → length (image it) ≤ size
      → Unwritable k buf size s s'
      → IsWithin buf size s.memory s'.memory
      → SameRecording s s'
      → IsRep s' (ghost pending current queue) extra
      → Single k s buf size pending current it queue extra r s'
  too_short :
      r ≡ short_write_error
      → size < length (image it)
      → s'.memory ≡ s.memory
      → SameRecording s s'
      → IsRep s' (ghost pending current queue) (pointers it ++ extra)
      → Single k s buf size pending current it queue extra r s'

module _ {k : Kernel} (is : IsKernel k) {s : State} {pending : Option Located}
    {current : Option Item} {it : Item} {queue : List Item} {extra : List Ptr}
    (rep : IsRep s (ghost pending current (it ∷ queue)) extra) where
  abbrev popped : State
  popped = record s {
    recorded_syscalls = record s.recorded_syscalls { bytes = pointer_bytes queue };
  }

  kfifo_out-pointer : kfifo_out k 8 s ≡ ok (le 8 it.ptr) popped
  unfolding kfifo_out
  kfifo_out-pointer =
      ap (λ (r : Kfifo × List ℕ). ok r.1 (record s { recorded_syscalls = r.0 }))
        (kfifo_out-append is s.recorded_syscalls 8 (le 8 it.ptr) (pointer_bytes queue) rep.fifo
          refl)

  popped-IsRep : IsRep popped (ghost pending current queue) (pointers it ++ extra)
  popped-IsRep = IsRep-take _ rep refl refl

  spent-IsRep :
      (m : Memory) (c : ℕ) → IsRep (spent popped it m c) (ghost pending current queue) extra
  spent-IsRep m c =
      IsRep-touch m s.frames s.recorded_process_pid s.mutex_locked s.wake_ups c
        (IsRep-release it extra popped-IsRep)

  Dumped-Single :
      (buf : Ptr) (size : ℕ) (r : ℤ) (s' : State)
      → length (image it) ≤ size
      → Dumped k popped buf it r s'
      → Single k s buf size pending current it queue extra r s'
  Dumped-Single buf size r s' fits (dumped c later e e') = rw e' (
      written e fits refl
        (record {
          frames = refl;
          pid = refl;
          record_ptr = refl;
          copy_ptr = refl;
          mutex = refl;
          wake_ups = refl;
          calls = later;
        })
        (spent-IsRep _ c))
  Dumped-Single buf size r s' fits (lost m c e why within e') = rw e' (
      unwritten e fits
        (Unwritable-mono (omega arith) (omega (arith, fits)) (omega arith)
          (omega (arith, ap (λ (u : State). u.calls) e')) why)
        (IsWithin-mono buf (length (image it)) buf size s.memory m (omega arith)
          (omega (arith, fits)) within)
        (record {
          frames = refl;
          pid = refl;
          record_ptr = refl;
          copy_ptr = refl;
          mutex = refl;
          wake_ups = refl;
          calls = omega (arith, why.from_call, why.to_call, ap (λ (u : State). u.calls) e');
        })
        (spent-IsRep m c))

  -- On a fifo with records in it, dump_single_record takes the first one. It writes the record's
  -- whole dump, frees it and returns the dump's length; or a copy_to_user into the reader's buffer
  -- fails, and it frees the record and returns -GENERAL_DUMP_ERROR; or the buffer is too short: it
  -- writes nothing, returns -SHORT_WRITE_ERROR, and the record stays allocated though the fifo no
  -- longer holds it.
  pub dump_single_record-Single :
      (buf : Ptr) (size : ℕ)
      → buf + size < 2 ^ 64
      → length (image it) < 2 ^ 63
      → Returns
          (Single k s buf size pending current it queue extra)
          (dump_single_record k buf size s)
  unfolding dump_single_record
  dump_single_record-Single buf size room small =
      rw
        (
          kfifo_out-pointer,
          of_le-le8 it.ptr rep.queue_at.0.0,
          get_record_len-length popped it rep.queue_at.0 (omega arith),
        )
        (elim (Bool-cases (ltb size (length (image it)))) [
          | inl short ↦ rw short (too_short refl (ground arith) refl (ground arith) popped-IsRep)
          | inr fits ↦ rw fits (
              Returns-mono (Dumped k popped buf it) _ _
                (dump_fitting-Dumped is it popped rep.queue_at.0 rep.low
                  (λ q. omega (arith, named_once rep q)) buf (ground arith))
                (λ r s'. Dumped-Single buf size r s' (ground arith)))
        ])

-- ===== src/Recorder/Invariant/Syscalls.antt =====
-- How the relation moves when a system call starts, ends, is queued, taken and released.
use rr_python.Common.Bytes.{le}
use rr_python.Recorder.Invariant.Erase.{
  pointers, erase_item, erase, PendingAt-erase, CurrentAt-erase, QueueAt-erase, erase_item-none,
  live-erase_item,
}
use rr_python.Recorder.Cmd.Alloc.{IsNew, allocated}
use rr_python.Recorder.Invariant.Rep.{IsRep, named_once, unnamed, named_above}
use rr_python.Common.{
  Option, ℕ, List, none, some, [], arith, ◌∙◌, refl, ◌++◌, ◌∷◌, ◌≡◌, count, count-append, ◌*◌,
  length, ◌+◌, if◌then◌else◌, ◌≤◌, ◌==◌, ◌^◌, All-append, ap, sym, length-append,
}
use rr_python.Recorder.Invariant.Frame.{
  Item, Located, ghost, block, PendingAt-write, write_self, CopiesAt-write, QueueAt-write, write_ne,
  live-write, pointer_bytes, addresses, CurrentAt-write, count_ghost, RecordAt,
  pointer_bytes-append, count_queue-append,
}
use rr_python.Recorder.State.{State, Ptr, PtRegs, write, syscall, Kfifo, null}

abbrev pub returned : Item → ℕ → Item
returned it v = record it { ret = v }

-- The record of a system call that has just begun.
abbrev pub fresh_item : Ptr → PtRegs → Ptr → Item
fresh_item p regs regs_ptr = record {
  ptr = p;
  regs = regs;
  ret = 0;
  regs_ptr = regs_ptr;
  copies = [];
}

module _ {s : State} {pending : Option Located} {queue : List Item} {extra : List Ptr} where
  pub IsRep-start_syscall :
      {n : ℕ} {p : Ptr} (regs : PtRegs) (regs_ptr : Ptr)
      → IsRep s (ghost pending none queue) extra
      → IsNew s n p
      → IsRep
          (record (allocated s p (syscall (block (fresh_item p regs regs_ptr)))) {
            current_syscall_record = p;
          })
          (ghost pending (some (fresh_item p regs regs_ptr)) queue)
          extra
  IsRep-start_syscall {n} {p} regs regs_ptr rep new = record {
    pending_at =
        PendingAt-write s.heap p _ s.current_copy pending rep.pending_at
          (omega (arith, unnamed rep p new.unused));
    current_at = (refl, (new.word, write_self s.heap p _, tt));
    queue_at =
        QueueAt-write s.heap p _ queue rep.queue_at (omega (arith, unnamed rep p new.unused));
    fifo = rep.fifo;
    fifo_size = rep.fifo_size;
    fits = rep.fits;
    low = λ q h. write_ne s.heap p _ q (ground (arith, new.above)) ∙ rep.low q h;
    exact = λ q.
        let it : Item = fresh_item p regs regs_ptr in
        ground (
          arith,
          live-write s.heap p (some (syscall (block it))) q,
          rep.exact q,
          unnamed rep p new.unused,
        );
  }

  pub IsRep-set_ret :
      {it : Item} (v : ℕ)
      → IsRep s (ghost pending (some it) queue) extra
      → IsRep
          (record s { heap = write s.heap it.ptr (some (syscall (block (returned it v)))) })
          (ghost pending (some (returned it v)) queue)
          extra
  IsRep-set_ret {it} v rep = record {
    pending_at =
        PendingAt-write s.heap it.ptr _ s.current_copy pending rep.pending_at
          (ground (arith, named_once rep it.ptr));
    current_at = (
      rep.current_at.0,
      (
        rep.current_at.1.0,
        write_self s.heap it.ptr _,
        CopiesAt-write s.heap it.ptr _ it.copies rep.current_at.1.2
            (ground (arith, named_once rep it.ptr)),
      ),
    );
    queue_at =
        QueueAt-write s.heap it.ptr _ queue rep.queue_at (ground (arith, named_once rep it.ptr));
    fifo = rep.fifo;
    fifo_size = rep.fifo_size;
    fits = rep.fits;
    low = λ q h. write_ne s.heap it.ptr _ q (ground (arith, named_above rep it.ptr)) ∙ rep.low q h;
    exact = λ q. ground (
      arith,
      live-write s.heap it.ptr (some (syscall (block (returned it v)))) q,
      rep.exact q,
      named_once rep it.ptr,
    );
  }

module _ {s : State} {pending : Option Located} {queue : List Item} {extra : List Ptr}
    {it : Item} where
  -- The record of the current system call goes into the fifo.
  pub IsRep-enqueue :
      (f : Kfifo)
      → IsRep s (ghost pending (some it) queue) extra
      → f.bytes ≡ s.recorded_syscalls.bytes ++ le 8 it.ptr
      → f.size ≡ s.recorded_syscalls.size
      → 8 * length queue + 8 ≤ 2 ^ 15
      → IsRep
          (record s { recorded_syscalls = f; current_syscall_record = null })
          (ghost pending none (queue ++ (it ∷ [])))
          extra
  IsRep-enqueue f rep e e' room = record {
    pending_at = rep.pending_at;
    current_at = refl;
    queue_at = All-append (RecordAt s.heap) queue (it ∷ []) rep.queue_at (rep.current_at.1, tt);
    fifo = e ∙ ap (λ b. b ++ le 8 it.ptr) rep.fifo ∙ sym (pointer_bytes-append queue it);
    fifo_size = e' ∙ rep.fifo_size;
    fits = omega (arith, length-append {0} queue (it ∷ []));
    low = rep.low;
    exact = λ q. omega (arith, rep.exact q, count_queue-append q queue (it ∷ []));
  }

  -- The record of the current system call is no longer held.
  pub IsRep-detach :
      IsRep s (ghost pending (some it) queue) extra
      → IsRep
          (record s { current_syscall_record = null })
          (ghost pending none queue)
          (pointers it ++ extra)
  IsRep-detach rep = record {
    pending_at = rep.pending_at;
    current_at = refl;
    queue_at = rep.queue_at;
    fifo = rep.fifo;
    fifo_size = rep.fifo_size;
    fits = rep.fits;
    low = rep.low;
    exact = λ q. omega (arith, rep.exact q, count-append q (pointers it) extra);
  }

module _ {s : State} {pending : Option Located} {current : Option Item} {queue : List Item}
    {extra : List Ptr} {it : Item} where
  -- The first record leaves the fifo.
  pub IsRep-take :
      (f : Kfifo)
      → IsRep s (ghost pending current (it ∷ queue)) extra
      → f.bytes ≡ pointer_bytes queue
      → f.size ≡ s.recorded_syscalls.size
      → IsRep
          (record s { recorded_syscalls = f })
          (ghost pending current queue)
          (pointers it ++ extra)
  IsRep-take f rep e e' = record {
    pending_at = rep.pending_at;
    current_at = rep.current_at;
    queue_at = rep.queue_at.1;
    fifo = e;
    fifo_size = e' ∙ rep.fifo_size;
    fits = omega (arith, rep.fits);
    low = rep.low;
    exact = λ q. omega (arith, rep.exact q, count-append q (pointers it) extra);
  }

module _ {s : State} {pending : Option Located} {current : Option Item} {queue : List Item}
    (it : Item) (extra : List Ptr) where
  apart :
      IsRep s (ghost pending current queue) (pointers it ++ extra)
      → (q : Ptr)
      → count q (addresses it.copies)
          + (if q == it.ptr then 1 else 0)
          + count_ghost q (ghost pending current queue)
          + count q extra
        ≤ 1
  apart rep q = omega (arith, named_once rep q, count-append q (pointers it) extra)

  -- A record that nothing else holds is freed.
  pub IsRep-release :
      IsRep s (ghost pending current queue) (pointers it ++ extra)
      → IsRep (record s { heap = erase_item s.heap it }) (ghost pending current queue) extra
  IsRep-release rep = record {
    pending_at =
        PendingAt-write (erase s.heap (addresses it.copies)) it.ptr none s.current_copy pending
          (PendingAt-erase s.heap (addresses it.copies) s.current_copy pending rep.pending_at
            (λ q. omega (arith, apart rep q)))
          (ground (arith, apart rep it.ptr));
    current_at =
        CurrentAt-write (erase s.heap (addresses it.copies)) it.ptr none s.current_syscall_record
          current
          (CurrentAt-erase s.heap (addresses it.copies) s.current_syscall_record current
            rep.current_at (λ q. omega (arith, apart rep q)))
          (ground (arith, apart rep it.ptr));
    queue_at =
        QueueAt-write (erase s.heap (addresses it.copies)) it.ptr none queue
          (QueueAt-erase s.heap (addresses it.copies) queue rep.queue_at
            (λ q. omega (arith, apart rep q)))
          (ground (arith, apart rep it.ptr));
    fifo = rep.fifo;
    fifo_size = rep.fifo_size;
    fits = rep.fits;
    low = λ q h. erase_item-none s.heap it q (rep.low q h);
    exact = λ q. ground (
      arith,
      live-erase_item s.heap it q,
      rep.exact q,
      apart rep q,
      count-append q (pointers it) extra,
    );
  }

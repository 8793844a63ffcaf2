-- ===== src/Recorder/Invariant/Copies.antt =====
-- How the relation moves when a copy starts, is dropped, and joins the current record.
use rr_python.Recorder.Kernel.{kmalloc_max}
use rr_python.Recorder.Cmd.Alloc.{IsNew, freed, allocated}
use rr_python.Common.{Option, List, ℕ, none, refl, some, ◌≤◌, arith, ◌∙◌, ◌==◌, ◌≡◌, false, ◌∷◌, []}
use rr_python.Recorder.State.{State, Ptr, CopyRecord, null, copy, write, Heap, syscall}
use rr_python.Recorder.Invariant.Frame.{
  ghost, Item, CurrentAt-write, QueueAt-write, write_self, write_ne, live-write, IsFilled, RecordAt,
  attached, block, CopiesAt-append, count-attached, CopiesAt-write,
}
use rr_python.Recorder.Invariant.Rep.{IsRep, named_once, unnamed, named_above}

module _ {s : State} {current : Option Item} {queue : List Item} {extra : List ℕ} where
  -- No copy is under way, and `current_copy` is NULL.
  pub IsRep-no_copy :
      (n : ℕ)
      → IsRep s (ghost none current queue) extra
      → IsRep (record s { current_copy = null; calls = n }) (ghost none current queue) extra
  IsRep-no_copy n rep = record {
    pending_at = refl;
    current_at = rep.current_at;
    queue_at = rep.queue_at;
    fifo = rep.fifo;
    fifo_size = rep.fifo_size;
    fits = rep.fits;
    low = rep.low;
    exact = rep.exact;
  }

  pub IsRep-start_copy :
      {n : ℕ} {p : Ptr} (c : CopyRecord)
      → IsRep s (ghost none current queue) extra
      → IsNew s n p
      → c.len ≤ kmalloc_max
      → IsRep
          (record (allocated s p (copy c)) { current_copy = p })
          (ghost (some (p, c)) current queue)
          extra
  IsRep-start_copy {n} {p} c rep new small = record {
    pending_at = (refl, write_self s.heap p (some (copy c)), small);
    current_at =
        CurrentAt-write s.heap p _ s.current_syscall_record current rep.current_at
          (omega (arith, unnamed rep p new.unused));
    queue_at =
        QueueAt-write s.heap p _ queue rep.queue_at (omega (arith, unnamed rep p new.unused));
    fifo = rep.fifo;
    fifo_size = rep.fifo_size;
    fits = rep.fits;
    low = λ q h. write_ne s.heap p _ q (ground arith) ∙ rep.low q h;
    exact = λ q.
        ground
          (arith, live-write s.heap p (some (copy c)) q, rep.exact q, unnamed rep p new.unused);
  }

  pub IsRep-drop_copy :
      {p : Ptr} {c : CopyRecord}
      → IsRep s (ghost (some (p, c)) current queue) extra
      → IsRep (record (freed s p) { current_copy = null }) (ghost none current queue) extra
  IsRep-drop_copy {p} {c} rep = record {
    pending_at = refl;
    current_at =
        CurrentAt-write s.heap p _ s.current_syscall_record current rep.current_at
          (ground (arith, named_once rep p));
    queue_at = QueueAt-write s.heap p _ queue rep.queue_at (ground (arith, named_once rep p));
    fifo = rep.fifo;
    fifo_size = rep.fifo_size;
    fits = rep.fits;
    low = λ q h. write_ne s.heap p _ q (ground (arith, named_above rep p)) ∙ rep.low q h;
    exact = λ q. ground (arith, live-write s.heap p none q, rep.exact q, named_once rep p);
  }

  -- The block of the copy under way is written again.
  pub IsRep-fill_copy :
      {p : Ptr} {c : CopyRecord} (c' : CopyRecord)
      → IsRep s (ghost (some (p, c)) current queue) extra
      → c'.len ≤ kmalloc_max
      → IsRep
          (record s { heap = write s.heap p (some (copy c')) })
          (ghost (some (p, c')) current queue)
          extra
  IsRep-fill_copy {p} {c} c' rep small = record {
    pending_at = (rep.pending_at.0, write_self s.heap p (some (copy c')), small);
    current_at =
        CurrentAt-write s.heap p _ s.current_syscall_record current rep.current_at
          (ground (arith, named_once rep p));
    queue_at = QueueAt-write s.heap p _ queue rep.queue_at (ground (arith, named_once rep p));
    fifo = rep.fifo;
    fifo_size = rep.fifo_size;
    fits = rep.fits;
    low = λ q h. write_ne s.heap p _ q (ground (arith, named_above rep p)) ∙ rep.low q h;
    exact =
        λ q. ground (arith, live-write s.heap p (some (copy c')) q, rep.exact q, named_once rep p);
  }

module _ {s : State} {it : Item} {queue : List Item} {extra : List ℕ} {p : Ptr} {c : CopyRecord}
    (rep : IsRep s (ghost (some (p, c)) (some it) queue) extra) (filled : IsFilled c) where
  apart : (p == it.ptr) ≡ false
  apart = ground (arith, named_once rep p)

  attached_heap : Heap
  attached_heap = write s.heap it.ptr (some (syscall (block (attached it (p, c)))))

  RecordAt-attached : RecordAt attached_heap (attached it (p, c))
  unfolding attached_heap
  RecordAt-attached = (
    rep.current_at.1.0,
    write_self s.heap it.ptr _,
    CopiesAt-append _ it.copies ((p, c) ∷ [])
        (CopiesAt-write s.heap it.ptr _ it.copies rep.current_at.1.2
          (ground (arith, named_once rep it.ptr)))
        (write_ne s.heap it.ptr _ p apart ∙ rep.pending_at.1, filled, tt),
  )

  -- The copy joins the current record, and none is under way.
  pub IsRep-attach_copy :
      IsRep
        (record s {
          heap = write s.heap it.ptr (some (syscall (block (attached it (p, c)))));
          current_copy = null;
        })
        (ghost none (some (attached it (p, c))) queue)
        extra
  unfolding attached_heap
  IsRep-attach_copy = record {
    pending_at = refl;
    current_at = (rep.current_at.0, RecordAt-attached);
    queue_at =
        QueueAt-write s.heap it.ptr _ queue rep.queue_at (ground (arith, named_once rep it.ptr));
    fifo = rep.fifo;
    fifo_size = rep.fifo_size;
    fits = rep.fits;
    low = λ q h. write_ne s.heap it.ptr _ q (ground (arith, named_above rep it.ptr)) ∙ rep.low q h;
    exact = λ q. ground (
      arith,
      live-write s.heap it.ptr (some (syscall (block (attached it (p, c))))) q,
      rep.exact q,
      named_once rep it.ptr,
      count-attached q it p c,
    );
  }

-- ===== src/Recorder/Invariant/Blocks.antt =====
-- How the relation moves when a block that is not part of the ghost is taken, written, freed, or
-- joins the current record.
use rr_python.Recorder.Invariant.Erase.{write-none}
use rr_python.Recorder.Kernel.{zero_size_ptr}
use rr_python.Recorder.Cmd.Alloc.{IsNew, freed, allocated}
use rr_python.Recorder.Invariant.Rep.{IsRep, named_once, unnamed, named_above}
use rr_python.Recorder.Invariant.Frame.{
  Ghost, Located, Item, ghost, PendingAt-write, IsFilled, CurrentAt-write, RecordAt, QueueAt-write,
  attached, block, write_ne, write_self, CopiesAt-append, CopiesAt-write, live-write,
  count-attached,
}
use rr_python.Recorder.State.{State, Ptr, CopyRecord, Object, copy, write, Heap, syscall}
use rr_python.Common.{
  [], ◌∷◌, none, some, Option, List, ℕ, ◌<◌, count, ◌≡◌, arith, Bool-cases, leb, inl, inr, ◌∙◌,
}

module _ {s : State} {g : Ghost} {extra : List Ptr} where
  -- A block that other code owns is no NULL.
  pub owned_above : (p : Ptr) → IsRep s g extra → 0 < count p extra → zero_size_ptr < p
  owned_above p rep h = elim (Bool-cases (leb p zero_size_ptr)) [
    | inl low ↦ absurd (omega (arith, unnamed rep p (rep.low p (ground arith))))
    | inr high ↦ ground arith
  ]

  pub IsRep-take_block :
      {n : ℕ} {p : Ptr} (o : Object)
      → IsRep s g extra
      → IsNew s n p
      → IsRep (allocated s p o) g (p ∷ extra)
  IsRep-take_block {n} {p} o rep new = record {
    pending_at =
        PendingAt-write s.heap p _ s.current_copy g.pending rep.pending_at
          (omega (arith, unnamed rep p new.unused));
    current_at =
        CurrentAt-write s.heap p _ s.current_syscall_record g.current rep.current_at
          (omega (arith, unnamed rep p new.unused));
    queue_at =
        QueueAt-write s.heap p _ g.queue rep.queue_at (omega (arith, unnamed rep p new.unused));
    fifo = rep.fifo;
    fifo_size = rep.fifo_size;
    fits = rep.fits;
    low = λ q h. write_ne s.heap p _ q (ground (arith, new.above)) ∙ rep.low q h;
    exact =
        λ q. ground (arith, live-write s.heap p (some o) q, rep.exact q, unnamed rep p new.unused);
  }

  pub IsRep-write_block :
      (p : Ptr) (o : Object)
      → IsRep s g extra
      → 0 < count p extra
      → IsRep (record s { heap = write s.heap p (some o) }) g extra
  IsRep-write_block p o rep owned = record {
    pending_at =
        PendingAt-write s.heap p _ s.current_copy g.pending rep.pending_at
          (omega (arith, named_once rep p));
    current_at =
        CurrentAt-write s.heap p _ s.current_syscall_record g.current rep.current_at
          (omega (arith, named_once rep p));
    queue_at = QueueAt-write s.heap p _ g.queue rep.queue_at (omega (arith, named_once rep p));
    fifo = rep.fifo;
    fifo_size = rep.fifo_size;
    fits = rep.fits;
    low = λ q h. write_ne s.heap p _ q (ground (arith, owned_above p rep owned)) ∙ rep.low q h;
    exact = λ q. ground (arith, live-write s.heap p (some o) q, rep.exact q, named_once rep p);
  }

  pub IsRep-free_block : {p : Ptr} → IsRep s g (p ∷ extra) → IsRep (freed s p) g extra
  IsRep-free_block {p} rep = record {
    pending_at =
        PendingAt-write s.heap p _ s.current_copy g.pending rep.pending_at
          (ground (arith, named_once rep p));
    current_at =
        CurrentAt-write s.heap p _ s.current_syscall_record g.current rep.current_at
          (ground (arith, named_once rep p));
    queue_at = QueueAt-write s.heap p _ g.queue rep.queue_at (ground (arith, named_once rep p));
    fifo = rep.fifo;
    fifo_size = rep.fifo_size;
    fits = rep.fits;
    low = λ q h. write-none s.heap p q (rep.low q h);
    exact = λ q. ground (arith, live-write s.heap p none q, rep.exact q, named_once rep p);
  }

module _ {s : State} {pending : Option Located} {it : Item} {queue : List Item} {extra : List Ptr}
    {p : Ptr} {c : CopyRecord} (rep : IsRep s (ghost pending (some it) queue) (p ∷ extra))
    (held : s.heap p ≡ some (copy c)) (filled : IsFilled c) where
  joined_heap : Heap
  joined_heap = write s.heap it.ptr (some (syscall (block (attached it (p, c)))))

  RecordAt-joined : RecordAt joined_heap (attached it (p, c))
  unfolding joined_heap
  RecordAt-joined = (
    rep.current_at.1.0,
    write_self s.heap it.ptr _,
    CopiesAt-append _ it.copies ((p, c) ∷ [])
        (CopiesAt-write s.heap it.ptr _ it.copies rep.current_at.1.2
          (ground (arith, named_once rep it.ptr)))
        (write_ne s.heap it.ptr _ p (ground (arith, named_once rep p)) ∙ held, filled, tt),
  )

  pub IsRep-attach_block :
      IsRep
        (record s { heap = write s.heap it.ptr (some (syscall (block (attached it (p, c))))) })
        (ghost pending (some (attached it (p, c))) queue)
        extra
  unfolding joined_heap
  IsRep-attach_block = record {
    pending_at =
        PendingAt-write s.heap it.ptr _ s.current_copy pending rep.pending_at
          (ground (arith, named_once rep it.ptr));
    current_at = (rep.current_at.0, RecordAt-joined);
    queue_at =
        QueueAt-write s.heap it.ptr _ queue rep.queue_at (ground (arith, named_once rep it.ptr));
    fifo = rep.fifo;
    fifo_size = rep.fifo_size;
    fits = rep.fits;
    low = λ q h. write_ne s.heap it.ptr _ q (ground (arith, named_above rep it.ptr)) ∙ rep.low q h;
    exact = λ q. ground (
      arith,
      live-write s.heap it.ptr (some (syscall (block (attached it (p, c))))) q,
      rep.exact q,
      named_once rep it.ptr,
      count-attached q it p c,
    );
  }

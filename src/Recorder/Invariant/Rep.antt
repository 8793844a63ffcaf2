-- ===== src/Recorder/Invariant/Rep.antt =====
-- The relation between the state and what it stands for.
use rr_python.Common.Signed.{ℤ}
use rr_python.Common.Bytes.{Memory}
use rr_python.Recorder.Invariant.Frame.{
  Ghost, PendingAt, count_ghost, CurrentAt, RecordAt, pointer_bytes, Item, Located, ghost,
}
use rr_python.Common.{
  ℕ, ◌+◌, ◌^◌, ◌≤◌, ◌<◌, ◌≡◌, Option, none, some, List, length, count, All, Bool-cases,
  Option-cases, arith, inl, leb, inr, ◌==◌, false, true, ◌*◌, Bool,
}
use rr_python.Recorder.State.{State, live, Ptr, CopyRecord, null, PtRegs}
use rr_python.Recorder.Kernel.{zero_size_ptr}

-- The state holds the ghost's data in the blocks that it names, and the allocated blocks are those
-- and the `extra` ones, which other code owns (or nobody, if they leaked).
pub record IsRep (s : State) (g : Ghost) (extra : List ℕ) : Type 0 where
  pub pending_at : PendingAt s.heap s.current_copy g.pending
  pub current_at : CurrentAt s.heap s.current_syscall_record g.current
  pub queue_at : All (RecordAt s.heap) g.queue
  pub fifo : s.recorded_syscalls.bytes ≡ pointer_bytes g.queue
  pub fifo_size : s.recorded_syscalls.size ≡ 2 ^ 15
  pub fits : 8 * length g.queue ≤ 2 ^ 15
  pub low : (p : ℕ) → p ≤ zero_size_ptr → s.heap p ≡ none
  pub exact : (p : ℕ) → live (s.heap p) ≡ count_ghost p g + count p extra

module _ {s : State} {g : Ghost} {extra : List ℕ} (rep : IsRep s g extra) where
  -- An address that holds no block is named nowhere.
  pub unnamed : (p : ℕ) → s.heap p ≡ none → count_ghost p g + count p extra ≡ 0
  unnamed p e = let z : live (s.heap p) ≡ 0 = rw e in omega (arith, rep.exact p)

  -- A block that is named is no NULL.
  pub named_above : (p : ℕ) → 0 < count_ghost p g → zero_size_ptr < p
  named_above p h = elim (Bool-cases (leb p zero_size_ptr)) [
    | inl low ↦ absurd (omega (arith, unnamed p (rep.low p (ground arith))))
    | inr high ↦ ground arith
  ]

  -- An address is named at most once.
  pub named_once : (p : ℕ) → count_ghost p g + count p extra ≤ 1
  named_once p = elim (Option-cases (s.heap p)) [
    | inl e ↦ omega (arith, unnamed p e)
    | inr (o, e) ↦ let z : live (s.heap p) ≡ 1 = rw e in omega (arith, rep.exact p)
  ]

module _ {s : State} {extra : List ℕ} where
  pub current-ne_null :
      {pending : Option Located} {it : Item} {queue : List Item}
      → IsRep s (ghost pending (some it) queue) extra
      → (s.current_syscall_record == null) ≡ false
  current-ne_null {it} rep =
      let above : zero_size_ptr < it.ptr = named_above rep it.ptr (ground arith) in
      rw (rep.current_at.0) (ground (arith, above))

  pub current-eq_null :
      {pending : Option Located} {queue : List Item}
      → IsRep s (ghost pending none queue) extra
      → (s.current_syscall_record == null) ≡ true
  current-eq_null rep = rw rep.current_at

  pub pending-ne_null :
      {p : Ptr} {c : CopyRecord} {current : Option Item} {queue : List Item}
      → IsRep s (ghost (some (p, c)) current queue) extra
      → (s.current_copy == null) ≡ false
  pending-ne_null {p} rep =
      let above : zero_size_ptr < p = named_above rep p (ground arith) in
      rw (rep.pending_at.0) (ground (arith, above))

  pub pending-eq_null :
      {current : Option Item} {queue : List Item}
      → IsRep s (ghost none current queue) extra
      → (s.current_copy == null) ≡ true
  pending-eq_null rep = rw rep.pending_at

-- The relation reads neither the mutex nor the counters, memory, frames and the recorded pid.
pub IsRep-touch :
    {s : State} {g : Ghost} {extra : List ℕ} (m : Memory) (f : Ptr → PtRegs) (pid : ℤ) (b : Bool)
    (w c : ℕ)
    → IsRep s g extra
    → IsRep
        (record s {
          memory = m;
          frames = f;
          recorded_process_pid = pid;
          mutex_locked = b;
          wake_ups = w;
          calls = c;
        })
        g
        extra
IsRep-touch m f pid b w c rep = record {
  pending_at = rep.pending_at;
  current_at = rep.current_at;
  queue_at = rep.queue_at;
  fifo = rep.fifo;
  fifo_size = rep.fifo_size;
  fits = rep.fits;
  low = rep.low;
  exact = rep.exact;
}

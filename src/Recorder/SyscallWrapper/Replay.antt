-- ===== src/Recorder/SyscallWrapper/Replay.antt =====
-- Playing back what post_wrap_syscall of recorder/src/syscall_wrapper.c has recorded.
use rr_python.Recorder.SyscallWrapper.{post_wrap_syscall}
use rr_python.Recorder.Cmd.{Returns, Returns-mono}
use rr_python.Recorder.SyscallWrapper.Changes.{replay, replay-changes}
use rr_python.Recorder.SyscallWrapper.Record.{Changed, contents, extended, Failed}
use rr_python.Recorder.Invariant.{Located, Item, IsRep, ghost}
use rr_python.Recorder.SyscallWrapper.Compare.{
  IsSaved, changed_since, post_wrap_syscall-Changed, limits,
}
use rr_python.Common.Bytes.{Memory, read_bytes, write_bytes, length-read_bytes}
use rr_python.Recorder.State.{SyscallRecordedMem, State, Ptr, recorded_mem}
use rr_python.Recorder.Kernel.{Kernel, IsKernel}
use rr_python.Common.{◌∷◌, ◌++◌, some, Option, ◌≡◌, List, inl, sym, append-nil, ◌∙◌, ap, inr}

-- The copies that have joined the record turn the memory before the call, where it was saved, into
-- that after it, unless a call of the kernel failed.
pub data Replayed (k : Kernel) (before : Memory) (m : SyscallRecordedMem) (s : State)
    (pending : Option Located) (it : Item) (queue : List Item) (extra : List Ptr) (s' : State)
    : Type 0 where
  replayed :
      (added : List Located)
      → replay before (contents added) ≡ write_bytes before m.ptr (read_bytes s.memory m.ptr m.len)
      → IsRep s' (ghost pending (some (extended it added)) queue) extra
      → Replayed k before m s pending it queue extra s'
  failed :
      Failed k (limits m it extra) pending it queue s s'
      → Replayed k before m s pending it queue extra s'

replay-changed_since :
    {m : SyscallRecordedMem} (before : Memory) (s : State)
    → IsSaved m
    → read_bytes before m.ptr m.len ≡ m.mem
    → replay before (changed_since s m) ≡ write_bytes before m.ptr (read_bytes s.memory m.ptr m.len)
replay-changed_since {m} before s saved was =
    replay-changes before m.ptr m.mem (read_bytes s.memory m.ptr m.len)
      (saved.whole ∙ sym (length-read_bytes s.memory m.ptr m.len))
      (ap (read_bytes before m.ptr) saved.whole ∙ was)

module _ {k : Kernel} {m : SyscallRecordedMem} (saved : IsSaved m) (before : Memory)
    (was : read_bytes before m.ptr m.len ≡ m.mem) {s : State} {pending : Option Located} {it : Item}
    {queue : List Item} {extra : List Ptr} where
  Changed-Replayed :
      (s' : State)
      → Changed k (limits m it extra) s pending it queue extra (changed_since s m) s'
      → Replayed k before m s pending it queue extra s'
  Changed-Replayed s' ch = elim ch.reason [
    | inl e ↦
        let all : contents ch.added ≡ changed_since s m =
          sym (append-nil (contents ch.added))
          ∙ ap (λ l. contents ch.added ++ l) (sym e)
          ∙ ch.all in
        replayed ch.added (ap (replay before) all ∙ replay-changed_since before s saved was) ch.rep
    | inr f ↦ failed f
  ]

  -- With a system call under way, if the bytes in the block of the probe's slot are those of the
  -- memory before the system call, then the one-byte copies that post_wrap_syscall adds to the
  -- record, played back on that memory, make the saved range what it is after the call and change
  -- nothing else; or the range could not be read, or there was no memory for a block in a heap that
  -- holds what the recorder holds, with at most two buffers and a copy for each byte more.
  -- post_wrap_syscall never faults.
  pub post_wrap_syscall-Replayed :
      {slot : Ptr}
      → IsKernel k
      → IsRep s (ghost pending (some it) queue) (slot ∷ extra)
      → s.heap slot ≡ some (recorded_mem m)
      → Returns
          (λ r s'. Replayed k before m s pending it queue extra s')
          (post_wrap_syscall k slot s)
  post_wrap_syscall-Replayed is rep held =
      Returns-mono _ _ _ (post_wrap_syscall-Changed is m saved rep held)
        (λ r s' h. Changed-Replayed s' h.1)

-- ===== src/Recorder/SyscallRecorder/Free.antt =====
-- free_syscall_record of recorder/src/syscall_recorder.c.
use rr_python.Recorder.Invariant.{write-none}
use rr_python.Recorder.Cmd.Alloc.{load_syscall-ok, kfree-freed, freed}
use rr_python.Recorder.Cmd.{ok}
use rr_python.Recorder.Kernel.{zero_size_ptr}
use rr_python.Recorder.Invariant.{
  Item, erase, RecordAt, pointers, erase_item, addresses, erase_out, Located, CopiesAt,
  CopiesAt-write,
}
use rr_python.Recorder.CopyToUser.{free_copy_record}
use rr_python.Common.{
  ◌∷◌, [], List, count, ◌≤◌, ◌≡◌, none, some, ◌<◌, Bool-cases, leb, arith, inl, inr, ◌∙◌, refl,
}
use rr_python.Recorder.State.{Heap, Ptr, State, Object}
use rr_python.Recorder.SyscallRecorder.{free_copies, free_syscall_record}

-- No address is named twice among these.
abbrev pub IsOnce : List Ptr → Type 0
IsOnce ps = (q : Ptr) → count q ps ≤ 1

-- No block lies at a low address.
abbrev pub IsLow : Heap → Type 0
IsLow h = (q : Ptr) → q ≤ zero_size_ptr → h q ≡ none

above_low : (h : Heap) (p : Ptr) {o : Object} → IsLow h → h p ≡ some o → zero_size_ptr < p
above_low h p low e = elim (Bool-cases (leb p zero_size_ptr)) [
  | inl below ↦ cc (e, low p (ground arith))
  | inr above ↦ ground arith
]

free_copies-erase :
    (s : State) (cs : List Located)
    → CopiesAt s.heap cs
    → IsLow s.heap
    → IsOnce (addresses cs)
    → free_copies (addresses cs) s ≡ ok tt (record s { heap = erase s.heap (addresses cs) })
unfolding free_copies free_copy_record erase
free_copies-erase s [] at low once = refl
free_copies-erase s ((p, c) ∷ cs) at low once =
    rw (kfree-freed p s (above_low s.heap p low at.0) at.0) (
      free_copies-erase (freed s p) cs
        (CopiesAt-write s.heap p none cs at.2 (ground (arith, once p)))
        (λ q h. write-none s.heap p q (low q h)) (λ q. omega (arith, once q)))

-- On a record that is whole, `free_syscall_record` frees exactly its blocks, each once.
pub free_syscall_record-erase :
    (s : State) (it : Item)
    → RecordAt s.heap it
    → IsLow s.heap
    → IsOnce (pointers it)
    → free_syscall_record it.ptr s ≡ ok tt (record s { heap = erase_item s.heap it })
unfolding free_syscall_record
free_syscall_record-erase s it at low once =
    rw
      (
        load_syscall-ok it.ptr s at.1,
        free_copies-erase s it.copies at.2 low (λ q. omega (arith, once q)),
      )
      (kfree-freed it.ptr (record s { heap = erase s.heap (addresses it.copies) })
        (above_low s.heap it.ptr low at.1)
        (erase_out s.heap (addresses it.copies) it.ptr (ground (arith, once it.ptr)) ∙ at.1))

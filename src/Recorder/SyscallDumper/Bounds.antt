-- ===== src/Recorder/SyscallDumper/Bounds.antt =====
-- What dump_records of recorder/src/syscall_dumper.c may write, and what it may answer.
use rr_python.Recorder.Cmd.{Returns, Returns-mono}
use rr_python.Common.Bytes.{IsWithin, IsWithin-mono, write_bytes-IsWithin}
use rr_python.Recorder.Image.{images, length-images-front}
use rr_python.Recorder.SyscallDumper.{einval, efault, dump_records}
use rr_python.Common.Signed.{ℤ, pos, to_signed-pos, to_signed}
use rr_python.Recorder.Invariant.{Item, Located, IsRep, ghost}
use rr_python.Recorder.Kernel.{Kernel, IsKernel}
use rr_python.Recorder.State.{State, Ptr}
use rr_python.Common.{
  ◌∷◌, ◌++◌, false, List, ℕ, Bool, Option, ◌≡◌, ◌≤◌, length, ◌+◌, ◌<◌, subst, ◌^◌, sym, ◌∙◌,
  Bool-cases, arith, ◌||◌, not, inl, inr, ap,
}
use rr_python.Recorder.SyscallDumper.Loop.{dump_records-Dumps}
use rr_python.Recorder.SyscallDumper.Dumps.{drained, stopped, faulted, Dumps, is_nil}

-- An answer that the reader can trust to be about its buffer: at most `size` bytes, or an error.
pub data Answer (size : ℕ) (r : ℤ) : Type 0 where
  written : (n : ℕ) → n ≤ size → r ≡ pos n → Answer size r
  invalid : r ≡ einval → Answer size r
  bad_address : r ≡ efault → Answer size r

images-split :
    (queue done : List Item) (it : Item) (rest : List Item)
    → queue ≡ done ++ (it ∷ rest)
    → length (images done) ≤ length (images queue)
images-split queue done it rest e =
    subst (λ q. length (images done) ≤ length (images q)) (sym e)
      (length-images-front done (it ∷ rest))

module _ {k : Kernel} {s s' : State} {buf size : ℕ} {did : Bool} {pending : Option Located}
    {current : Option Item} {queue : List Item} {extra : List Ptr} {r : ℤ} where
  Dumps-IsWithin :
      Dumps k s buf size 0 did pending current queue extra r s'
      → IsWithin buf size s.memory s'.memory
  Dumps-IsWithin (drained e f m same rep) = subst (IsWithin buf size s.memory) (sym m) (
      IsWithin-mono buf (length (images queue)) buf size s.memory _ (omega arith) (omega (arith, f))
        (write_bytes-IsWithin s.memory buf (images queue)))
  Dumps-IsWithin (stopped done it rest q e f g m same rep) =
      subst (IsWithin buf size s.memory) (sym m) (
        IsWithin-mono buf (length (images done)) buf size s.memory _ (omega arith)
          (omega (arith, f)) (write_bytes-IsWithin s.memory buf (images done)))
  Dumps-IsWithin (faulted done it rest q e f why within same rep) = within

  Dumps-Answer :
      Dumps k s buf size 0 did pending current queue extra r s'
      → length (images queue) < 2 ^ 63
      → Answer size r
  Dumps-Answer (drained e f m same rep) small =
      written (length (images queue)) f
        (e ∙ ap to_signed (omega arith) ∙ to_signed-pos (length (images queue)) small)
  Dumps-Answer (stopped done it rest q e f g m same rep) small =
      elim (Bool-cases (did || not (is_nil done))) [
        | inl some_done ↦ written (length (images done)) f (
            rw some_done at e
            ∙ ap to_signed (omega arith)
            ∙ to_signed-pos (length (images done))
                (omega (arith, images-split queue done it rest q)))
        | inr none_done ↦ invalid (rw none_done at e)
      ]
  Dumps-Answer (faulted done it rest q e f why within same rep) small = bad_address e

-- On a fifo with records in it, whose dumps have less than 2^63 bytes, and a buffer that does not
-- wrap around, dump_records changes no byte of memory outside the reader's buffer, on the error
-- paths too, and it answers a number of bytes that is at most the buffer's size, -EINVAL or
-- -EFAULT.
pub dump_records-IsWithin :
    {k : Kernel} (is : IsKernel k) {pending : Option Located} {current : Option Item}
    {extra : List Ptr} {s : State} {it : Item} {queue : List Item} (buf size : ℕ)
    → IsRep s (ghost pending current (it ∷ queue)) extra
    → buf + size < 2 ^ 64
    → length (images (it ∷ queue)) < 2 ^ 63
    → Returns
        (λ r s'. IsWithin buf size s.memory s'.memory × Answer size r)
        (dump_records k buf size s)
dump_records-IsWithin {k} is {pending} {current} {extra} {s} {it} {queue} buf size rep room small =
    Returns-mono (Dumps k s buf size 0 false pending current (it ∷ queue) extra) _ _
      (dump_records-Dumps is buf size rep room small)
      (λ r s' ds. (Dumps-IsWithin ds, Dumps-Answer ds small))

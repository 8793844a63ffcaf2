-- ===== src/Recorder/SyscallDumper/Loop.antt =====
-- dump_records of recorder/src/syscall_dumper.c.
use rr_python.Recorder.SyscallDumper.Dumps.{
  Dumps, is_nil, length-images, Dumps-stopped, Dumps-faulted, Dumps-last, Dumps-cons,
}
use rr_python.Recorder.Cmd.{ok, Returns, Returns-bind, Returns-mono}
use rr_python.Recorder.Kernel.{Kernel, IsKernel}
use rr_python.Recorder.SyscallDumper.{dump_loop, kfifo_is_empty, dump_records}
use rr_python.Recorder.SyscallDumper.Single.{
  Single, dump_single_record-Single, too_short, unwritten, written,
}
use rr_python.Common.Signed.{to_signed, pos, to_signed-pos}
use rr_python.Recorder.Image.{images, image}
use rr_python.Recorder.Invariant.{Item, Located, IsRep, ghost, length-pointer_bytes, pointer_bytes}
use rr_python.Recorder.State.{State, Ptr}
use rr_python.Common.{
  [], ◌∷◌, zero, suc, true, false, List, Bool, ℕ, Option, length, ◌≡◌, ◌+◌, ◌-◌, ◌<◌, ◌∙◌, ap,
  arith, ◌^◌, ne→==_false, ◌%◌, ◌==◌,
}

module _ {k : Kernel} (is : IsKernel k) {pending : Option Located} {current : Option Item}
    {extra : List Ptr} where
  pub kfifo_is_empty-is_nil :
      (s : State) (queue : List Item)
      → IsRep s (ghost pending current queue) extra
      → kfifo_is_empty k s ≡ ok (is_nil queue) s
  unfolding kfifo_is_empty
  kfifo_is_empty-is_nil s [] rep =
      ap (λ b. ok b s)
        (is.kfifo_is_empty_lem s.recorded_syscalls ∙ ap (λ l. length l == 0) rep.fifo)
  kfifo_is_empty-is_nil s (it ∷ queue) rep =
      ap (λ b. ok b s)
        (is.kfifo_is_empty_lem s.recorded_syscalls
          ∙ ap (λ l. length l == 0) rep.fifo
          ∙ ne→==_false (length (pointer_bytes (it ∷ queue))) 0 (omega arith))

  dump_loop-Dumps :
      (fuel : ℕ) (it : Item) (queue : List Item) {s : State} (buf size size_written : ℕ)
      (did : Bool)
      → IsRep s (ghost pending current (it ∷ queue)) extra
      → length queue < fuel
      → buf + size < 2 ^ 64
      → size_written + length (images (it ∷ queue)) < 2 ^ 63
      → Returns
          (Dumps k s buf size size_written did pending current (it ∷ queue) extra)
          (dump_loop fuel k buf size size_written did s)
  unfolding dump_loop
  dump_loop-Dumps zero it queue buf size size_written did rep enough room small =
      absurd (omega arith)
  dump_loop-Dumps (suc fuel) it [] {s} buf size size_written did rep enough room small =
      Returns-bind (Single k s buf size pending current it [] extra) _ _ _
        (dump_single_record-Single is rep buf size room (omega (arith, length-images it [])))
        λ r s₁ one. elim one [
          | too_short e f m same rep' ↦ rw e (Dumps-stopped same did f m rep')
          | unwritten e f why within same rep' ↦ rw e (Dumps-faulted same did f why within rep')
          | written e f m same rep' ↦
              let n = length (image it) in
              let word : to_signed n ≡ pos n =
                to_signed-pos n (omega (arith, length-images it [])) in
              let sum : (size_written + n) % 2 ^ 64 ≡ size_written + n =
                omega (arith, length-images it []) in
              rw (e, word, kfifo_is_empty-is_nil s₁ [] rep', sum) (Dumps-last same did f m rep')
        ]
  dump_loop-Dumps (suc fuel) it (it' ∷ queue) {s} buf size size_written did rep enough room small =
      Returns-bind (Single k s buf size pending current it (it' ∷ queue) extra) _ _ _
        (dump_single_record-Single is rep buf size room
          (omega (arith, length-images it (it' ∷ queue))))
        λ r s₁ one. elim one [
          | too_short e f m same rep' ↦ rw e (Dumps-stopped same did f m rep')
          | unwritten e f why within same rep' ↦ rw e (Dumps-faulted same did f why within rep')
          | written e f m same rep' ↦
              let n = length (image it) in
              let total = length-images it (it' ∷ queue) in
              let word : to_signed n ≡ pos n = to_signed-pos n (omega (arith, total)) in
              let sum : (size_written + n) % 2 ^ 64 ≡ size_written + n = omega (arith, total) in
              let next : (buf + n) % 2 ^ 64 ≡ buf + n = omega arith in
              let left : (size + 2 ^ 64 - n) % 2 ^ 64 ≡ size - n = omega arith in
              rw (e, word, kfifo_is_empty-is_nil s₁ (it' ∷ queue) rep', next, left, sum)
                (Returns-mono _ _ _
                  (dump_loop-Dumps fuel it' queue (buf + n) (size - n) (size_written + n) true rep'
                    (omega arith) (omega arith) (omega (arith, total)))
                  (λ r s₂. Dumps-cons did r s₂ f m same))
        ]

  -- On a fifo with records in it, whose dumps have less than 2^63 bytes, and a buffer that does not
  -- wrap around, dump_records ends without a fault in one of three ways: every record's dump is
  -- written in order, freed and counted; or the dumps before the first that does not fit are
  -- written and that one stays allocated outside the fifo (EINVAL when it is the first); or a
  -- copy_to_user into the reader's buffer fails, EFAULT is returned and the records up to the one
  -- that was being written are freed. The rest of the queue stays, and every block still has one
  -- owner.
  pub dump_records-Dumps :
      {s : State} {it : Item} {queue : List Item} (buf size : ℕ)
      → IsRep s (ghost pending current (it ∷ queue)) extra
      → buf + size < 2 ^ 64
      → length (images (it ∷ queue)) < 2 ^ 63
      → Returns
          (Dumps k s buf size 0 false pending current (it ∷ queue) extra)
          (dump_records k buf size s)
  unfolding dump_records
  dump_records-Dumps {s} {it} {queue} buf size rep room small =
      dump_loop-Dumps (length s.recorded_syscalls.bytes + 1) it queue buf size 0 false rep
        (omega (arith, ap length rep.fifo, length-pointer_bytes (it ∷ queue))) room (omega arith)

-- ===== src/Recorder/SyscallDumper/Dumps.antt =====
-- The ways the loop of dump_records of recorder/src/syscall_dumper.c ends.

use rr_python.Recorder.SyscallDumper.Send.{Unwritable, Unwritable-mono}
use rr_python.Recorder.Kernel.{Kernel}
use rr_python.Recorder.SyscallDumper.{einval, efault}
use rr_python.Recorder.SyscallDumper.Single.{SameRecording}
use rr_python.Common.Bytes.{
  write_bytes, Memory, write_bytes-append, IsWithin, IsWithin-trans, write_bytes-IsWithin,
}
use rr_python.Common.Signed.{ℤ, to_signed}
use rr_python.Recorder.Image.{images, image}
use rr_python.Recorder.Invariant.{Item, Located, IsRep, ghost, pointers}
use rr_python.Recorder.State.{State, Ptr}
use rr_python.Common.{
  [], ◌∷◌, ◌++◌, true, false, List, Bool, ℕ, Option, length, ◌≡◌, ◌+◌, ◌≤◌, ◌-◌, if◌then◌else◌,
  ◌||◌, not, ◌<◌, length-append, ◌∙◌, ap, arith, sym, refl, append-nil, subst,
}

abbrev pub is_nil : List Item → Bool
is_nil [] = true
is_nil (it ∷ q) = false

-- The three ways the loop ends on a fifo that holds the records `queue`.
pub data Dumps (k : Kernel) (s : State) (buf : Ptr) (size size_written : ℕ) (did : Bool)
    (pending : Option Located) (current : Option Item) (queue : List Item) (extra : List Ptr)
    (r : ℤ) (s' : State) : Type 0 where
  -- every record is written,
  drained :
      r ≡ to_signed (size_written + length (images queue))
      → length (images queue) ≤ size
      → s'.memory ≡ write_bytes s.memory buf (images queue)
      → SameRecording s s'
      → IsRep s' (ghost pending current []) extra
      → Dumps k s buf size size_written did pending current queue extra r s'
  -- or those before the first that does not fit; that one has left the fifo and stays allocated,
  stopped :
      (done : List Item) (it : Item) (rest : List Item)
      → queue ≡ done ++ (it ∷ rest)
      → r ≡ (
          if did || not (is_nil done)
          then to_signed (size_written + length (images done))
          else einval)
      → length (images done) ≤ size
      → size < length (images done) + length (image it)
      → s'.memory ≡ write_bytes s.memory buf (images done)
      → SameRecording s s'
      → IsRep s' (ghost pending current rest) (pointers it ++ extra)
      → Dumps k s buf size size_written did pending current queue extra r s'
  -- or a write to the reader's memory fails; that record and those before it are freed.
  faulted :
      (done : List Item) (it : Item) (rest : List Item)
      → queue ≡ done ++ (it ∷ rest)
      → r ≡ efault
      → length (images done) + length (image it) ≤ size
      → Unwritable k buf size s s'
      → IsWithin buf size s.memory s'.memory
      → SameRecording s s'
      → IsRep s' (ghost pending current rest) extra
      → Dumps k s buf size size_written did pending current queue extra r s'

pub SameRecording-trans :
    {s t u : State} → SameRecording s t → SameRecording t u → SameRecording s u
SameRecording-trans p q = record {
  frames = q.frames ∙ p.frames;
  pid = q.pid ∙ p.pid;
  record_ptr = q.record_ptr ∙ p.record_ptr;
  copy_ptr = q.copy_ptr ∙ p.copy_ptr;
  mutex = q.mutex ∙ p.mutex;
  wake_ups = q.wake_ups ∙ p.wake_ups;
  calls = omega (arith, p.calls, q.calls);
}

pub or_true : (b : Bool) → (b || true) ≡ true
or_true true = refl
or_true false = refl

pub length-images :
    (it : Item) (q : List Item) → length (images (it ∷ q)) ≡ length (image it) + length (images q)
unfolding images
length-images it q = length-append (image it) (images q)

-- One record, and others behind it.
pub write-images :
    (m : Memory) {m₁ m₂ : Memory} (buf : Ptr) (it : Item) (q : List Item)
    → m₁ ≡ write_bytes m buf (image it)
    → m₂ ≡ write_bytes m₁ (buf + length (image it)) (images q)
    → m₂ ≡ write_bytes m buf (images (it ∷ q))
unfolding images
write-images m buf it q e e' =
    e'
    ∙ ap (λ t. write_bytes t (buf + length (image it)) (images q)) e
    ∙ sym (write_bytes-append m buf (image it) (images q))

module _ {k : Kernel} {s s₁ : State} {buf : Ptr} {size size_written : ℕ} {pending : Option Located}
    {current : Option Item} {it : Item} {queue : List Item} {extra : List Ptr} where
  pub Dumps-cons :
      (did : Bool) (r : ℤ) (s' : State)
      → length (image it) ≤ size
      → s₁.memory ≡ write_bytes s.memory buf (image it)
      → SameRecording s s₁
      → Dumps k s₁
          (buf + length (image it))
          (size - length (image it))
          (size_written + length (image it))
          true
          pending
          current
          queue
          extra
          r
          s'
      → Dumps k s buf size size_written did pending current (it ∷ queue) extra r s'
  Dumps-cons did r s' fits m same (drained e f m' same' rep) =
      drained (e ∙ ap to_signed (omega (arith, length-images it queue)))
        (omega (arith, length-images it queue)) (write-images s.memory buf it queue m m')
        (SameRecording-trans same same') rep
  Dumps-cons did r s' fits m same (stopped done x rest q e f g m' same' rep) =
      stopped (it ∷ done) x rest (ap (λ t. it ∷ t) q)
        (e ∙ rw (or_true did) (ap to_signed (omega (arith, length-images it done))))
        (omega (arith, length-images it done)) (omega (arith, length-images it done))
        (write-images s.memory buf it done m m') (SameRecording-trans same same') rep
  Dumps-cons did r s' fits m same (faulted done x rest q e f why within same' rep) =
      faulted (it ∷ done) x rest (ap (λ t. it ∷ t) q) e (omega (arith, length-images it done))
        (Unwritable-mono (omega arith) (omega (arith, fits)) same.calls (omega arith) why)
        (IsWithin-trans buf (length (image it)) (buf + length (image it)) (size - length (image it))
          buf size s.memory s₁.memory s'.memory (omega arith) (omega (arith, fits)) (omega arith)
          (omega (arith, fits))
          (subst (IsWithin buf (length (image it)) s.memory) (sym m)
            (write_bytes-IsWithin s.memory buf (image it)))
          within)
        (SameRecording-trans same same') rep

-- The endings in the first round.
module _ {k : Kernel} {s s' : State} {buf : Ptr} {size size_written : ℕ} {pending : Option Located}
    {current : Option Item} {it : Item} {queue : List Item} {extra : List Ptr}
    (same : SameRecording s s') where
  pub Dumps-stopped :
      (did : Bool)
      → size < length (image it)
      → s'.memory ≡ s.memory
      → IsRep s' (ghost pending current queue) (pointers it ++ extra)
      → Dumps k s buf size size_written did pending current
          (it ∷ queue)
          extra
          (if did then to_signed size_written else einval)
          s'
  unfolding images write_bytes
  Dumps-stopped true f m rep =
      stopped [] it queue refl (ap to_signed (omega arith)) (omega arith) (omega arith) m same rep
  Dumps-stopped false f m rep = stopped [] it queue refl refl (omega arith) (omega arith) m same rep

  pub Dumps-faulted :
      (did : Bool)
      → length (image it) ≤ size
      → Unwritable k buf size s s'
      → IsWithin buf size s.memory s'.memory
      → IsRep s' (ghost pending current queue) extra
      → Dumps k s buf size size_written did pending current (it ∷ queue) extra efault s'
  unfolding images
  Dumps-faulted did f why within rep =
      faulted [] it queue refl refl (omega arith) why within same rep

module _ {k : Kernel} {s s' : State} {buf : Ptr} {size size_written : ℕ} {pending : Option Located}
    {current : Option Item} {it : Item} {extra : List Ptr} (same : SameRecording s s') where
  pub Dumps-last :
      (did : Bool)
      → length (image it) ≤ size
      → s'.memory ≡ write_bytes s.memory buf (image it)
      → IsRep s' (ghost pending current []) extra
      → Dumps k s buf size size_written did pending current
          (it ∷ [])
          extra
          (to_signed (size_written + length (image it)))
          s'
  unfolding images
  Dumps-last did f m rep =
      rw (← append-nil (image it))
        (drained refl (rw (append-nil (image it)) f) (rw (append-nil (image it)) m) same rep)

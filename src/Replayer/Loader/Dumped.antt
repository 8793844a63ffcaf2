-- ===== src/Replayer/Loader/Dumped.antt =====
-- One read of the device, from the kernel module's queue to the parser's system calls.
use rr_python.Recorder.SyscallDumper.{dump_records}
use rr_python.Recorder.Cmd.{Returns, Returns-mono}
use rr_python.Replayer.Loader.{load_system_calls}
use rr_python.Replayer.Loader.RoundTrip.{AreOfWords, system_calls, load_system_calls-images}
use rr_python.Recorder.Invariant.{Item, Located, IsRep, ghost}
use rr_python.Common.Bytes.{Memory, write_bytes, read_bytes, read_bytes-write_bytes}
use rr_python.Recorder.Image.{images, length-images-front}
use rr_python.Recorder.Kernel.{Kernel, IsKernel}
use rr_python.Recorder.State.{State, Ptr}
use rr_python.Common.{
  [], ◌∷◌, ◌++◌, false, some, List, Option, length, ℕ, ◌≡◌, arith, ◌<◌, ◌^◌, sym, ◌+◌, append-nil,
  ◌∙◌, ap, subst,
}
use rr_python.Recorder.SyscallDumper.Loop.{dump_records-Dumps}
use rr_python.Recorder.SyscallDumper.Dumps.{Dumps, drained, stopped, faulted}
use rr_python.Common.Signed.{pos, negsuc, ℤ, to_signed-pos, to_signed}

-- What the reader gets: the bytes of the first records of the queue, or an error number.
pub data Loaded (s : State) (buf : Ptr) (queue : List Item) (r : ℤ) : Type 0 where
  loaded :
      (n : ℕ) (done rest : List Item)
      → queue ≡ done ++ rest
      → r ≡ pos n
      → load_system_calls (read_bytes s.memory buf n) ≡ some (system_calls done)
      → Loaded s buf queue r
  failed : (n : ℕ) → r ≡ negsuc n → Loaded s buf queue r

AreOfWords-front : (q p : List Item) → AreOfWords (q ++ p) → AreOfWords q
AreOfWords-front [] p h = tt
AreOfWords-front (it ∷ q) p h = (h.0, AreOfWords-front q p h.1)

load_written :
    (m m' : Memory) (buf : Ptr) (q : List Item)
    → AreOfWords q
    → m' ≡ write_bytes m buf (images q)
    → load_system_calls (read_bytes m' buf (length (images q))) ≡ some (system_calls q)
load_written m m' buf q h e =
    rw (e, read_bytes-write_bytes m buf (images q)) (load_system_calls-images q h)

module _ {k : Kernel} (is : IsKernel k) {s : State} {pending : Option Located}
    {current : Option Item} {it : Item} {queue : List Item} {extra : List Ptr} where
  Dumps-Loaded :
      (buf size : ℕ) (r : ℤ) (s' : State)
      → length (images (it ∷ queue)) < 2 ^ 63
      → AreOfWords (it ∷ queue)
      → Dumps k s buf size 0 false pending current (it ∷ queue) extra r s'
      → Loaded s' buf (it ∷ queue) r
  Dumps-Loaded buf size r s' small h (drained e f m same rep) =
      loaded (length (images (it ∷ queue))) (it ∷ queue) [] (sym (append-nil (it ∷ queue)))
        (e ∙ ap to_signed (omega arith) ∙ to_signed-pos (length (images (it ∷ queue))) small)
        (load_written s.memory s'.memory buf (it ∷ queue) h m)
  Dumps-Loaded buf size r s' small h (stopped [] x rest q e f g m same rep) = failed 21 e
  Dumps-Loaded buf size r s' small h (stopped (y ∷ done) x rest q e f g m same rep) =
      let few : length (images (y ∷ done)) < 2 ^ 63 =
        omega (arith, length-images-front (y ∷ done) (x ∷ rest), ap (λ l. length (images l)) q) in
      loaded (length (images (y ∷ done))) (y ∷ done) (x ∷ rest) q
        (e ∙ ap to_signed (omega arith) ∙ to_signed-pos (length (images (y ∷ done))) few)
        (load_written s.memory s'.memory buf (y ∷ done)
          (AreOfWords-front (y ∷ done) (x ∷ rest) (subst AreOfWords q h)) m)
  Dumps-Loaded buf size r s' small h (faulted done x rest q e f why within same rep) = failed 13 e

  -- For records whose numbers fit in their fields, what `dump_records` writes to the reader's
  -- buffer, cut to the length that it returns, is parsed by `load_system_calls` into the first
  -- records of the fifo in their order, with their registers, signed return values and copies; or
  -- `dump_records` returns a negative number.
  pub dump_records-Loaded :
      (buf size : ℕ)
      → IsRep s (ghost pending current (it ∷ queue)) extra
      → buf + size < 2 ^ 64
      → length (images (it ∷ queue)) < 2 ^ 63
      → AreOfWords (it ∷ queue)
      → Returns (λ r s'. Loaded s' buf (it ∷ queue) r) (dump_records k buf size s)
  dump_records-Loaded buf size rep room small h =
      Returns-mono _ _ _ (dump_records-Dumps is buf size rep room small)
        (λ r s'. Dumps-Loaded buf size r s' small h)

-- ===== src/Recorder/Session/Readers.antt =====
-- Reads of /proc/syscall_dumper between the probes.
use rr_python.Recorder.SyscallDumper.Send.{Unwritable-mono}
use rr_python.Recorder.Session.Recordings.{images-call_images, image-call_image}
use rr_python.Common.Bytes.{write_bytes}
use rr_python.Recorder.Session.Spec.{call_images, drains, Taken, call_of, loses, fails, Call}
use rr_python.Recorder.ReadProc.Rounds.{free, held}
use rr_python.Recorder.ReadProc.Sane.{Dumps-SameRecording}
use rr_python.Recorder.Cmd.Alloc.{mutex_lock-ok, mutex_unlock-ok}
use rr_python.Recorder.Cmd.{Returns, Returns-bind}
use rr_python.Recorder.Image.{images}
use rr_python.Common.Signed.{ℤ}
use rr_python.Recorder.ReadProc.{read_proc, wait_for_records, read_records}
use rr_python.Recorder.Kernel.{Kernel, IsKernel}
use rr_python.Recorder.State.{State, Ptr}
use rr_python.Recorder.Invariant.{Located, Item, IsRep, ghost, pointers, IsRep-touch}
use rr_python.Common.{
  [], ◌∷◌, ◌++◌, true, false, Option, List, ℕ, Bool, ◌≡◌, refl, ◌+◌, ◌<◌, ◌^◌, length, ◌∙◌, map, ap,
  arith, map-append,
}
use rr_python.Recorder.SyscallDumper.Loop.{kfifo_is_empty-is_nil, dump_records-Dumps}
use rr_python.Recorder.SyscallDumper.Dumps.{Dumps, drained, stopped, faulted}

-- What is under way is still the same, the first records have left the queue as a read takes them,
-- each block has one owner, and the mutex is free.
pub record IsKept (k : Kernel) (buf size : ℕ) (s : State) (pending : Option Located)
    (current : Option Item) (old : List Item) (s' : State) : Type 0 where
  pub queue : List Item
  pub taken : Taken k buf size s s' (map call_of old) (map call_of queue)
  pub extra : List Ptr
  pub rep : IsRep s' (ghost pending current queue) extra
  pub unlocked : s'.mutex_locked ≡ false

-- The reader's lock changes nothing that a read is about.
Taken-held :
    {k : Kernel} {buf size : ℕ} {s s' : State} {queue rest : List Call}
    → Taken k buf size (held s) s' queue rest
    → Taken k buf size s s' queue rest
Taken-held (drains e f m) = drains e f m
Taken-held (loses given call e f g m) = loses given call e f g m
Taken-held (fails given call e f why within) =
    fails given call e f
      (Unwritable-mono (omega arith) (omega arith) (omega arith) (omega arith) why) within

split-calls :
    {queue : List Item} (done : List Item) (it : Item) (rest : List Item)
    → queue ≡ done ++ (it ∷ rest)
    → map call_of queue ≡ map call_of done ++ (call_of it ∷ map call_of rest)
split-calls done it rest q = ap (map call_of) q ∙ map-append call_of done (it ∷ rest)

module _ {k : Kernel} {pending : Option Located} {current : Option Item} where
  unlocked-IsKept :
      (buf size : ℕ) (s₀ s : State) (old queue : List Item) (extra : List Ptr)
      → Taken k buf size s₀ (free s) (map call_of old) (map call_of queue)
      → IsRep s (ghost pending current queue) extra
      → IsKept k buf size s₀ pending current old (free s)
  unlocked-IsKept buf size s₀ s old queue extra taken rep = record {
    queue = queue;
    taken = taken;
    extra = extra;
    rep = IsRep-touch s.memory s.frames s.recorded_process_pid false s.wake_ups s.calls rep;
    unlocked = refl;
  }

  empty-IsKept :
      (buf size : ℕ) (s₀ s : State) {extra : List Ptr}
      → s.memory ≡ s₀.memory
      → IsRep s (ghost pending current []) extra
      → IsKept k buf size s₀ pending current [] (free s)
  unfolding call_images write_bytes
  empty-IsKept buf size s₀ s {extra} e rep =
      unlocked-IsKept buf size s₀ s [] [] extra (drains refl (omega arith) e) rep

  Dumps-IsKept :
      {s s' : State} {buf size n : ℕ} {did : Bool} {queue : List Item} {extra : List Ptr} {r : ℤ}
      → Dumps k s buf size n did pending current queue extra r s'
      → IsKept k buf size s pending current queue (free s')
  Dumps-IsKept {s} {s'} {buf} {size} {queue = queue} {extra = extra} (drained e f m same rep) =
      unlocked-IsKept buf size s s' queue [] extra
        (drains refl (rw (images-call_images queue) at f) (rw (images-call_images queue) at m)) rep
  Dumps-IsKept {s} {s'} {buf} {size} {queue = queue} {extra = extra}
        (stopped done it rest q e f g m same rep) =
      unlocked-IsKept buf size s s' queue rest (pointers it ++ extra)
        (loses (map call_of done) (call_of it) (split-calls done it rest q)
          (rw (images-call_images done) at f)
          (rw (images-call_images done, image-call_image it) at g)
          (rw (images-call_images done) at m))
        rep
  Dumps-IsKept {s} {s'} {buf} {size} {queue = queue} {extra = extra}
        (faulted done it rest q e f why within same rep) =
      unlocked-IsKept buf size s s' queue rest extra
        (fails (map call_of done) (call_of it) (split-calls done it rest q)
          (rw (images-call_images done, image-call_image it) at f)
          (Unwritable-mono (omega arith) (omega arith) (omega arith) (omega arith) why) within)
        rep

  IsKept-held :
      {buf size : ℕ} {s : State} {old : List Item} (s' : State)
      → IsKept k buf size (held s) pending current old s'
      → IsKept k buf size s pending current old s'
  IsKept-held s' kept = record {
    queue = kept.queue;
    taken = Taken-held kept.taken;
    extra = kept.extra;
    rep = kept.rep;
    unlocked = kept.unlocked;
  }

  module _ (is : IsKernel k) where
    pub read_proc-IsKept :
        (nonblock : Bool) (buf size : ℕ) {s : State} (queue : List Item) {extra : List Ptr}
        → IsRep s (ghost pending current queue) extra
        → s.mutex_locked ≡ false
        → buf + size < 2 ^ 64
        → length (images queue) < 2 ^ 63
        → Returns
            (λ r s'. IsKept k buf size s pending current queue s')
            (read_proc k nonblock buf size [] s)
    unfolding read_proc wait_for_records read_records
    read_proc-IsKept true buf size {s} [] {extra} rep unlocked room small =
        let rep' =
          IsRep-touch s.memory s.frames s.recorded_process_pid true s.wake_ups s.calls rep in
        let t = record s { mutex_locked = true } in
        rw (mutex_lock-ok s unlocked, kfifo_is_empty-is_nil is t [] rep', mutex_unlock-ok t refl)
          (empty-IsKept buf size s t refl rep')
    read_proc-IsKept false buf size {s} [] {extra} rep unlocked room small =
        let rep' =
          IsRep-touch s.memory s.frames s.recorded_process_pid true s.wake_ups s.calls rep in
        let t = record s { mutex_locked = true } in
        rw (mutex_lock-ok s unlocked, kfifo_is_empty-is_nil is t [] rep', mutex_unlock-ok t refl)
          (empty-IsKept buf size s t refl rep')
    read_proc-IsKept nonblock buf size {s} (it ∷ queue) {extra} rep unlocked room small =
        let rep' =
          IsRep-touch s.memory s.frames s.recorded_process_pid true s.wake_ups s.calls rep in
        let t = record s { mutex_locked = true } in
        rw (mutex_lock-ok s unlocked, kfifo_is_empty-is_nil is t (it ∷ queue) rep')
          (Returns-bind (Dumps k t buf size 0 false pending current (it ∷ queue) extra) _ _ _
            (dump_records-Dumps is buf size rep' room small)
            λ ret u ds.
              rw (mutex_unlock-ok u (Dumps-SameRecording ds).mutex)
                (IsKept-held (free u) (Dumps-IsKept ds)))

-- ===== src/Recorder/ReadProc/Sane.antt =====
-- The states between the rounds of read_proc of recorder/src/syscall_dumper.c.
use rr_python.Recorder.ReadProc.Rounds.{IsSane, IsUnlocked, Keeps, held, free}
use rr_python.Recorder.Kernel.{Kernel}
use rr_python.Recorder.SyscallDumper.Single.{SameRecording}
use rr_python.Recorder.SyscallDumper.Dumps.{Dumps, drained, stopped, faulted}
use rr_python.Recorder.Image.{images, image}
use rr_python.Common.Signed.{ℤ}
use rr_python.Recorder.Invariant.{IsRep-touch, IsRep, Located, Item, ghost}
use rr_python.Recorder.ReadProc.{WakeUp, slept}
use rr_python.Recorder.State.{State, Ptr}
use rr_python.Common.{
  [], ◌∷◌, true, false, Bool, ℕ, ◌≡◌, List, length, Option, ◌<◌, ◌^◌, refl, arith, ◌++◌, ap,
  length-append,
}

pub Dumps-SameRecording :
    {k : Kernel} {s s' : State} {buf size n : ℕ} {did : Bool} {pending : Option Located}
    {current : Option Item} {queue : List Item} {extra : List Ptr} {r : ℤ}
    → Dumps k s buf size n did pending current queue extra r s'
    → SameRecording s s'
Dumps-SameRecording (drained e f m same rep) = same
Dumps-SameRecording (stopped done it rest q e f g m same rep) = same
Dumps-SameRecording (faulted done it rest q e f why within same rep) = same

-- The state in which a reader leaves an empty fifo.
pub free-IsSane :
    (s : State) {pending : Option Located} {current : Option Item} {extra : List Ptr}
    → IsRep (held s) (ghost pending current []) extra
    → IsSane (free s)
unfolding images
free-IsSane s {pending} {current} {extra} rep = record {
  g = ghost pending current [];
  extra = extra;
  rep = IsRep-touch s.memory s.frames s.recorded_process_pid false s.wake_ups s.calls rep;
  small = omega arith;
}

-- The state that a round leaves is sane, and the mutex is free.
pub slept-IsSane :
    (w : WakeUp) (t : State)
    → Keeps w
    → IsSane (free t)
    → IsSane (slept w (free t)) × IsUnlocked (slept w (free t))
slept-IsSane w t keep sane = let b = keep.0 (free t) sane refl in keep.1 (w.before (free t)) b.0 b.1

pub held-IsRep :
    {s : State} (sane : IsSane s)
    → IsRep (held s) (ghost sane.g.pending sane.g.current sane.g.queue) sane.extra
held-IsRep {s} sane =
    IsRep-touch s.memory s.frames s.recorded_process_pid true s.wake_ups s.calls sane.rep

-- What a dump leaves is sane.
images-rest :
    (queue done : List Item) (it : Item) (rest : List Item)
    → queue ≡ done ++ (it ∷ rest)
    → length (images queue) < 2 ^ 63
    → length (images rest) < 2 ^ 63
unfolding images
images-rest queue [] it rest e small =
    omega (arith, ap (λ q. length (images q)) e, length-append (image it) (images rest))
images-rest queue (x ∷ done) it rest e small = images-rest (done ++ (it ∷ rest)) done it rest refl (
    omega (
      arith,
      ap (λ q. length (images q)) e,
      length-append (image x) (images (done ++ (it ∷ rest))),
    ))

pub Dumps-IsSane :
    {k : Kernel} {s s' : State} {buf size n : ℕ} {did : Bool} {pending : Option Located}
    {current : Option Item} {queue : List Item} {extra : List Ptr} {r : ℤ}
    → length (images queue) < 2 ^ 63
    → Dumps k s buf size n did pending current queue extra r s'
    → IsSane (free s')
unfolding images
Dumps-IsSane {s' = s'} small (drained e f m same rep) = record {
  g = _;
  extra = _;
  rep = IsRep-touch s'.memory s'.frames s'.recorded_process_pid false s'.wake_ups s'.calls rep;
  small = omega arith;
}
Dumps-IsSane {s' = s'} small (stopped done it rest q e f g m same rep) = record {
  g = _;
  extra = _;
  rep = IsRep-touch s'.memory s'.frames s'.recorded_process_pid false s'.wake_ups s'.calls rep;
  small = images-rest _ done it rest q small;
}
Dumps-IsSane {s' = s'} small (faulted done it rest q e f why within same rep) = record {
  g = _;
  extra = _;
  rep = IsRep-touch s'.memory s'.frames s'.recorded_process_pid false s'.wake_ups s'.calls rep;
  small = images-rest _ done it rest q small;
}

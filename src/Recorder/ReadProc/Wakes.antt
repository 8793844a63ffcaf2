-- ===== src/Recorder/ReadProc/Wakes.antt =====
-- A reader of recorder/src/syscall_dumper.c that sleeps until a record comes.
use rr_python.Recorder.SyscallDumper.Loop.{kfifo_is_empty-is_nil}
use rr_python.Recorder.Cmd.Alloc.{mutex_lock-ok, mutex_unlock-ok}
use rr_python.Recorder.Cmd.{Returns}
use rr_python.Recorder.Image.{images}
use rr_python.Recorder.Invariant.{Located, Item, IsRep, ghost}
use rr_python.Recorder.ReadProc.{WakeUp, read_proc, wait_for_records, slept, is_woken}
use rr_python.Recorder.Kernel.{Kernel, IsKernel}
use rr_python.Recorder.State.{State, Ptr}
use rr_python.Recorder.ReadProc.Rounds.{
  IsSane, IsUnlocked, Keeps, HasDumped, Looks, at_once, held, free, woken,
}
use rr_python.Recorder.ReadProc.Sane.{held-IsRep, slept-IsSane, free-IsSane}
use rr_python.Recorder.ReadProc.Outcome.{read_records-HasDumped}
use rr_python.Common.{
  [], ◌∷◌, true, false, List, Option, ℕ, ◌+◌, ◌≢◌, ◌<◌, ◌≡◌, ◌^◌, All, length, refl, arith, ap, sym,
  ◌∙◌,
}

-- A record is there when the reader looks: at once, or after it was woken.
abbrev pub Arrives : State → List WakeUp → State → Type 0
Arrives s wakes t = (rest : List WakeUp) × Looks s wakes t rest × (t.recorded_syscalls.bytes ≢ [])

nothing_queued :
    (t : State) {pending : Option Located} {current : Option Item} (queue : List Item)
    {extra : List Ptr}
    → IsRep (held t) (ghost pending current queue) extra
    → t.recorded_syscalls.bytes ≡ []
    → IsRep (held t) (ghost pending current []) extra
nothing_queued t [] rep e = rep
nothing_queued t (it ∷ queue) rep e = absurd (omega (arith, ap length (sym rep.fifo ∙ e)))

-- How the reader comes to look in the state `t`.
record Comes (k : Kernel) (buf size : ℕ) (s : State) (wakes : List WakeUp) (t : State)
    (rest : List WakeUp) : Type 0 where
  sane : IsSane t
  keep : All Keeps rest
  runs :
      wait_for_records k false buf size wakes (held s)
      ≡ wait_for_records k false buf size rest (held t)

module _ {k : Kernel} (is : IsKernel k) (buf size : ℕ) (room : buf + size < 2 ^ 64) where
  round-runs :
      (w : WakeUp) (rest : List WakeUp) (t : State) {pending : Option Located}
      {current : Option Item} {extra : List Ptr}
      → IsRep (held t) (ghost pending current []) extra
      → w.signal_pending ≡ false
      → (w.before (free t)).wake_ups < (slept w (free t)).wake_ups
      → IsUnlocked (slept w (free t))
      → wait_for_records k false buf size (w ∷ rest) (held t)
        ≡ wait_for_records k false buf size rest (held (slept w (free t)))
  unfolding wait_for_records
  round-runs w rest t rep no_signal wakes unlocked =
      let is_up : is_woken w (free t) ≡ true = ground arith in
      rw
        (
          kfifo_is_empty-is_nil is (held t) [] rep,
          mutex_unlock-ok (held t) refl,
          no_signal,
          is_up,
          mutex_lock-ok (slept w (free t)) unlocked,
        )
        refl

  Looks-Comes :
      {s : State} {wakes : List WakeUp} {t : State} {rest : List WakeUp}
      → IsSane s
      → All Keeps wakes
      → Looks s wakes t rest
      → Comes k buf size s wakes t rest
  Looks-Comes sane keep (at_once wakes) = record { sane = sane; keep = keep; runs = refl }
  Looks-Comes sane keep (woken w wakes t rest looks empty no_signal up) =
      let comes = Looks-Comes sane keep looks in
      let rep = nothing_queued t comes.sane.g.queue (held-IsRep comes.sane) empty in
      let after = slept-IsSane w t comes.keep.0 (free-IsSane t rep) in
      record {
        sane = after.0;
        keep = comes.keep.1;
        runs = comes.runs ∙ round-runs w rest t rep no_signal up after.1;
      }

  dumps_at :
      (t : State) (rest : List WakeUp) (pending : Option Located) (current : Option Item)
      (queue : List Item) {extra : List Ptr}
      → IsRep (held t) (ghost pending current queue) extra
      → length (images queue) < 2 ^ 63
      → t.recorded_syscalls.bytes ≢ []
      → Returns
          (λ r s'. IsUnlocked s' × IsSane s' × HasDumped k buf size t r s')
          (wait_for_records k false buf size rest (held t))
  unfolding wait_for_records
  dumps_at t rest pending current [] rep small some_bytes = absurd (some_bytes rep.fifo)
  dumps_at t [] pending current (it ∷ queue) rep small some_bytes =
      rw (kfifo_is_empty-is_nil is (held t) (it ∷ queue) rep)
        (read_records-HasDumped is buf size room t rep small)
  dumps_at t (w ∷ ws) pending current (it ∷ queue) rep small some_bytes =
      rw (kfifo_is_empty-is_nil is (held t) (it ∷ queue) rep)
        (read_records-HasDumped is buf size room t rep small)

  -- A blocking read returns once it looks at a fifo that holds a record. It looks at the start, and
  -- after each round in which it found none and a wake_up came after prepare_to_wait, with no
  -- signal pending. If other tasks leave the state sane and the mutex unlocked in those rounds,
  -- then read_proc ends, has dumped the fifo as it was when it looked, and has given the mutex
  -- back.
  pub read_proc-HasDumped :
      (wakes : List WakeUp) {s t : State}
      → All Keeps wakes
      → IsUnlocked s
      → IsSane s
      → Arrives s wakes t
      → Returns
          (λ r s'. IsUnlocked s' × IsSane s' × HasDumped k buf size t r s')
          (read_proc k false buf size wakes s)
  unfolding read_proc
  read_proc-HasDumped wakes {s} {t} keep unlocked sane (rest, looks, some_bytes) =
      let comes = Looks-Comes sane keep looks in
      rw (mutex_lock-ok s unlocked, comes.runs)
        (dumps_at t rest comes.sane.g.pending comes.sane.g.current comes.sane.g.queue
          (held-IsRep comes.sane) comes.sane.small some_bytes)

-- ===== src/Recorder/ReadProc/Outcome.antt =====
-- The ways read_proc of recorder/src/syscall_dumper.c ends.
use rr_python.Recorder.ReadProc.Rounds.{
  IsSane, IsUnlocked, Keeps, held, free, Looks, at_once, woken, HasDumped, sleeps, sleeps_on,
  nothing, interrupted, dumped, Ended,
}
use rr_python.Recorder.ReadProc.Sane.{
  Dumps-SameRecording, free-IsSane, slept-IsSane, held-IsRep, Dumps-IsSane,
}
use rr_python.Recorder.Cmd.Alloc.{mutex_unlock-ok, mutex_lock-ok}
use rr_python.Recorder.Cmd.{Returns, Returns-bind, Returns-mono}
use rr_python.Recorder.Kernel.{Kernel, IsKernel}
use rr_python.Recorder.SyscallDumper.Loop.{dump_records-Dumps, kfifo_is_empty-is_nil}
use rr_python.Recorder.SyscallDumper.Dumps.{Dumps}
use rr_python.Recorder.Image.{images}
use rr_python.Recorder.Invariant.{IsRep, Located, Item, ghost}
use rr_python.Recorder.ReadProc.{WakeUp, read_records, wait_for_records, read_proc, is_woken, slept}
use rr_python.Recorder.State.{State, Ptr}
use rr_python.Common.{
  [], ◌∷◌, true, false, Bool, ℕ, List, length, Option, ◌<◌, ◌^◌, ◌+◌, All, refl, arith, Bool-cases,
  inl, inr,
}

module _ {k : Kernel} (is : IsKernel k) (buf size : ℕ) (room : buf + size < 2 ^ 64) where
  pub read_records-HasDumped :
      (t : State) {pending : Option Located} {current : Option Item} {it : Item} {queue : List Item}
      {extra : List Ptr}
      → IsRep (held t) (ghost pending current (it ∷ queue)) extra
      → length (images (it ∷ queue)) < 2 ^ 63
      → Returns
          (λ r s'. IsUnlocked s' × IsSane s' × HasDumped k buf size t r s')
          (read_records k buf size (held t))
  unfolding read_records
  read_records-HasDumped t {pending} {current} {it} {queue} {extra} rep small =
      Returns-bind (Dumps k (held t) buf size 0 false pending current (it ∷ queue) extra) _ _ _
        (dump_records-Dumps is buf size rep room small)
        λ ret u ds. rw (mutex_unlock-ok u (Dumps-SameRecording ds).mutex) (
          refl,
          Dumps-IsSane small ds,
          record {
            u = u;
            pending = pending;
            current = current;
            it = it;
            queue = queue;
            extra = extra;
            ret = ret;
            rep = rep;
            answer = refl;
            dumps = ds;
            unlocks = refl;
          },
        )

  read_records-Ended :
      (nonblock : Bool) {s : State} {wakes rest : List WakeUp} {t : State}
      {pending : Option Located} {current : Option Item} {it : Item} {queue : List Item}
      {extra : List Ptr}
      → Looks s wakes t rest
      → IsRep (held t) (ghost pending current (it ∷ queue)) extra
      → length (images (it ∷ queue)) < 2 ^ 63
      → Returns (Ended k nonblock buf size s wakes) (read_records k buf size (held t))
  read_records-Ended nonblock {s} {wakes} {rest} {t} looks rep small =
      Returns-mono (λ r s'. IsUnlocked s' × IsSane s' × HasDumped k buf size t r s')
        (Ended k nonblock buf size s wakes) _ (read_records-HasDumped t rep small)
        (λ r s' h. (h.0, h.1, dumped t rest looks h.2))

  -- A reader that does not want to wait.
  nonblock-Ended :
      (wakes : List WakeUp) (s : State) (pending : Option Located) (current : Option Item)
      (queue : List Item) {extra : List Ptr}
      → IsRep (held s) (ghost pending current queue) extra
      → length (images queue) < 2 ^ 63
      → Returns (Ended k true buf size s wakes) (wait_for_records k true buf size wakes (held s))
  unfolding wait_for_records
  nonblock-Ended [] s pending current (it ∷ queue) rep small =
      rw (kfifo_is_empty-is_nil is (held s) (it ∷ queue) rep)
        (read_records-Ended true (at_once []) rep small)
  nonblock-Ended (w ∷ ws) s pending current (it ∷ queue) rep small =
      rw (kfifo_is_empty-is_nil is (held s) (it ∷ queue) rep)
        (read_records-Ended true (at_once (w ∷ ws)) rep small)
  nonblock-Ended [] s pending current [] rep small =
      rw (kfifo_is_empty-is_nil is (held s) [] rep, mutex_unlock-ok (held s) refl)
        (refl, free-IsSane s rep, nothing rep.fifo refl refl refl)
  nonblock-Ended (w ∷ ws) s pending current [] rep small =
      rw (kfifo_is_empty-is_nil is (held s) [] rep, mutex_unlock-ok (held s) refl)
        (refl, free-IsSane s rep, nothing rep.fifo refl refl refl)

  wait_for_records-Ended :
      (rest : List WakeUp) {s : State} {wakes : List WakeUp} (t : State) (pending : Option Located)
      (current : Option Item) (queue : List Item) {extra : List Ptr}
      → Looks s wakes t rest
      → All Keeps rest
      → IsRep (held t) (ghost pending current queue) extra
      → length (images queue) < 2 ^ 63
      → Returns (Ended k false buf size s wakes) (wait_for_records k false buf size rest (held t))
  unfolding wait_for_records
  wait_for_records-Ended [] t pending current (it ∷ queue) looks keep rep small =
      rw (kfifo_is_empty-is_nil is (held t) (it ∷ queue) rep)
        (read_records-Ended false looks rep small)
  wait_for_records-Ended (w ∷ ws) t pending current (it ∷ queue) looks keep rep small =
      rw (kfifo_is_empty-is_nil is (held t) (it ∷ queue) rep)
        (read_records-Ended false looks rep small)
  wait_for_records-Ended [] t pending current [] looks keep rep small =
      rw (kfifo_is_empty-is_nil is (held t) [] rep, mutex_unlock-ok (held t) refl)
        (refl, free-IsSane t rep, sleeps t looks rep.fifo refl refl refl)
  wait_for_records-Ended (w ∷ ws) t pending current [] looks keep rep small =
      let after = slept-IsSane w t keep.0 (free-IsSane t rep) in
      elim (Bool-cases w.signal_pending) [
        | inl signal ↦
            rw (kfifo_is_empty-is_nil is (held t) [] rep, mutex_unlock-ok (held t) refl, signal)
              (after.1, after.0, interrupted t w ws looks rep.fifo refl signal refl refl)
        | inr no_signal ↦ elim (Bool-cases (is_woken w (free t))) [
          | inr lost ↦
              rw
                (
                  kfifo_is_empty-is_nil is (held t) [] rep,
                  mutex_unlock-ok (held t) refl,
                  no_signal,
                  lost,
                )
                (
                  after.1,
                  after.0,
                  sleeps_on t w ws looks rep.fifo refl no_signal (ground arith) refl refl,
                )
          | inl wakes ↦
              let sane = after.0 in
              rw
                (
                  kfifo_is_empty-is_nil is (held t) [] rep,
                  mutex_unlock-ok (held t) refl,
                  no_signal,
                  wakes,
                  mutex_lock-ok (slept w (free t)) after.1,
                )
                (wait_for_records-Ended ws (slept w (free t)) sane.g.pending sane.g.current
                  sane.g.queue (woken w _ t ws looks rep.fifo no_signal (ground arith)) keep.1
                  (held-IsRep sane) sane.small)
        ]
      ]

  -- read_proc never faults when other tasks leave the state sane and the mutex unlocked in each
  -- round in which it finds no record. Whatever way it ends, the mutex is free and the state sane.
  -- It returns 0 only when it must not wait and the fifo was empty, -ERESTARTSYS only when it found
  -- no record and a signal was pending then; otherwise it has dumped the fifo as it was when it
  -- looked, or it is asleep after it found no record, and no wake_up has come since
  -- prepare_to_wait, though one may have come between the look and prepare_to_wait.
  pub read_proc-Ended :
      (nonblock : Bool) (wakes : List WakeUp) {s : State}
      → All Keeps wakes
      → IsUnlocked s
      → IsSane s
      → Returns (Ended k nonblock buf size s wakes) (read_proc k nonblock buf size wakes s)
  unfolding read_proc
  read_proc-Ended true wakes {s} keep unlocked sane = rw (mutex_lock-ok s unlocked) (
      nonblock-Ended wakes s sane.g.pending sane.g.current sane.g.queue (held-IsRep sane)
        sane.small)
  read_proc-Ended false wakes {s} keep unlocked sane = rw (mutex_lock-ok s unlocked) (
      wait_for_records-Ended wakes s sane.g.pending sane.g.current sane.g.queue (at_once wakes) keep
        (held-IsRep sane) sane.small)

-- ===== src/Recorder/Session/Reachable.antt =====
-- The states that the kernel module can come to.
use rr_python.Recorder.Session.Moves.{
  syscall_entry-Moved, syscall_return-Moved, put_entry-Moved, put_return-Moved, copy_entry-Moved,
  copy_return-Moved,
}
use rr_python.Recorder.CopyToUser.{post_put, post_copy}
use rr_python.Recorder.SyscallRecorder.{post_syscall}
use rr_python.Recorder.Session.Readers.{IsKept, read_proc-IsKept}
use rr_python.Recorder.Cmd.{Run, Returns, ok, Returns-bind, Returns-mono}
use rr_python.Recorder.Session.Safe.{IsSafe, Agrees, Moved}
use rr_python.Recorder.Invariant.{Ghost, Item, ghost, IsRep-touch, length-pointer_bytes}
use rr_python.Recorder.Kernel.{Kernel, IsKernel}
use rr_python.Recorder.State.{State}
use rr_python.Recorder.Session.Spec.{takes, stays, Recording, recording, Move, queue_max, call_of}
use rr_python.Common.{
  [], none, List, ◌≡◌, arith, refl, subst, length, ℕ, ◌≤◌, sym, ◌*◌, length-map, map, ap, ◌∙◌,
}
use rr_python.Recorder.Session.{
  outside, inside, putting, copying, syscall_entry, syscall_return, put_entry, put_return,
  copy_entry, copy_return, read, others, Phase, IsInitial, Event, perform, Enabled, after,
}

-- A phase that agrees with what is under way agrees with it whatever the queue is.
Agrees-queue :
    (ph : Phase) (g : Ghost) (queue : List Item)
    → Agrees ph g
    → Agrees ph (ghost g.pending g.current queue)
Agrees-queue outside g queue a = a
Agrees-queue inside g queue a = a
Agrees-queue putting g queue a = a
Agrees-queue copying g queue a = a

pub Returns-ok :
    {A : Type 0} (P : A → State → Type 0) {r : Run A} {a : A} {s : State}
    → r ≡ ok a s
    → Returns P r
    → P a s
Returns-ok P e h = subst (Returns P) e h

-- A state stands for a recording: each allocated block is owned once, by what the recording holds or
-- by nobody, what is under way fits the phase, and the mutex is free.
pub record Represents (ph : Phase) (s : State) (a : Recording) : Type 0 where
  pub safe : IsSafe ph s
  pub agrees : recording safe.g ≡ a

pub IsInitial-Represents :
    (s : State)
    → IsInitial s
    → Represents outside s (record { pending = none; current = none; queue = [] })
IsInitial-Represents s init = record {
  safe = record {
    g = ghost none none [];
    extra = [];
    rep = record {
      pending_at = init.copy_ptr;
      current_at = init.record_ptr;
      queue_at = tt;
      fifo = init.fifo;
      fifo_size = init.fifo_size;
      fits = omega arith;
      low = λ p h. init.heap p;
      exact = λ p. rw (init.heap p) (omega arith);
    };
    agrees = (refl, refl);
    unlocked = init.mutex;
  };
  agrees = refl;
}

-- A queue of at most 4096 calls, and eight bytes of the fifo for each.
pub Represents-bounds :
    {ph : Phase} {s : State} {a : Recording}
    → Represents ph s a
    → (length a.queue ≤ queue_max) × (length s.recorded_syscalls.bytes ≡ 8 * length a.queue)
Represents-bounds {s = s} stands =
    let safe = stands.safe in
    subst
      (λ (b : Recording).
        (length b.queue ≤ queue_max) × (length s.recorded_syscalls.bytes ≡ 8 * length b.queue))
      stands.agrees
      (
        omega (arith, safe.rep.fits, length-map call_of safe.g.queue),
        ap length safe.rep.fifo
            ∙ omega (arith, length-pointer_bytes safe.g.queue, length-map call_of safe.g.queue),
      )

pub record Refined (k : Kernel) (ph : Phase) (s : State) (a : Recording) (e : Event) (r : ℕ)
    (s' : State) : Type 0 where
  pub next : Recording
  pub move : Move k s s' a e r next
  pub represents : Represents (after ph e r) s' next

module _ {k : Kernel} (is : IsKernel k) where
  -- In a state that is safe no event that can happen faults, and the state after it is safe.
  perform-Moved :
      (ph : Phase) {s : State} (e : Event) (safe : IsSafe ph s)
      → Enabled ph s e
      → Returns (λ r s'. Moved k (after ph e r) (recording safe.g) s e r s') (perform k e s)
  unfolding perform
  perform-Moved ph (syscall_entry task regs) safe on = syscall_entry-Moved is ph task regs safe
  perform-Moved ph {s} (syscall_return regs) safe on =
      subst
        (λ p.
          (safe' : IsSafe p s)
          → Returns (Moved k outside (recording safe'.g) s (syscall_return regs))
              (post_syscall k regs s))
        (sym on) (syscall_return-Moved is regs) safe
  perform-Moved ph (put_entry task n regs) safe on = put_entry-Moved is ph task n regs on safe
  perform-Moved ph {s} (put_return regs) safe on =
      subst
        (λ p.
          (safe' : IsSafe p s)
          → Returns (Moved k inside (recording safe'.g) s (put_return regs)) (post_put regs s))
        (sym on) (put_return-Moved is regs) safe
  perform-Moved ph (copy_entry task regs) safe on = copy_entry-Moved is ph task regs on safe
  perform-Moved ph {s} (copy_return regs) safe on =
      subst
        (λ p.
          (safe' : IsSafe p s)
          → Returns (Moved k inside (recording safe'.g) s (copy_return regs)) (post_copy regs s))
        (sym on) (copy_return-Moved is regs) safe
  perform-Moved ph {s} (read nonblock buf size) safe on =
      Returns-bind (λ r s'. IsKept k buf size s safe.g.pending safe.g.current safe.g.queue s') _ _ _
        (read_proc-IsKept is nonblock buf size safe.g.queue safe.rep safe.unlocked on.0
          (on.1 safe.g safe.extra safe.rep))
        λ r s' kept. record {
          safe = record {
            g = ghost safe.g.pending safe.g.current kept.queue;
            extra = kept.extra;
            rep = kept.rep;
            agrees = Agrees-queue ph safe.g kept.queue safe.agrees;
            unlocked = kept.unlocked;
          };
          move = takes nonblock buf size 0 (map call_of kept.queue) kept.taken;
        }
  perform-Moved ph {s} (others m f pid) safe on = record {
    safe = record {
      g = safe.g;
      extra = safe.extra;
      rep = IsRep-touch m f pid s.mutex_locked s.wake_ups s.calls safe.rep;
      agrees = safe.agrees;
      unlocked = safe.unlocked;
    };
    move = stays m f pid 0;
  }

  -- In a state that stands for a recording (the call and the copy under way and the queue of
  -- finished calls, all without addresses), every event that Enabled allows runs without a fault,
  -- and the state after it stands for a recording that the specification Move allows: an entry by
  -- the recorded task begins a call that will return, or a copy in one, when none is under way, and
  -- is ignored otherwise or when there is no memory; a return puts the finished call, with the
  -- frame's ax, at the end of a queue of at most 4096 or drops it, or attaches the copy to the call
  -- if the copy succeeded; a read dumps the whole queue to the reader's buffer, or the calls that
  -- fit there, in which case it takes one call more that it does not dump, or takes calls until a
  -- copy_to_user into that buffer fails; other tasks change nothing.
  pub perform-Refined :
      {ph : Phase} {s : State} (a : Recording) (e : Event)
      → Represents ph s a
      → Enabled ph s e
      → Returns (Refined k ph s a e) (perform k e s)
  perform-Refined {ph} {s} a e stands on =
      Returns-mono (λ r s'. Moved k (after ph e r) (recording stands.safe.g) s e r s')
        (Refined k ph s a e) _ (perform-Moved ph e stands.safe on)
        λ r s' moved. record {
          next = recording moved.safe.g;
          move = subst (λ b. Move k s s' b e r (recording moved.safe.g)) stands.agrees moved.move;
          represents = record { safe = moved.safe; agrees = refl };
        }

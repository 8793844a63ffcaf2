-- ===== src/Recorder/Session/Moves.antt =====
-- Each handler of a probe, from a safe state: the state after it is safe and has moved as the
-- specification allows.
use rr_python.Common.Bytes.{length-le}
use rr_python.Recorder.Session.Spec
use rr_python.Recorder.SyscallRecorder.Enter
use rr_python.Recorder.CopyToUser.Ownership
use rr_python.Recorder.Session.Safe.{
  IsSafe, IsUnderWay, Moved, Agrees, IsRep-as, idle_phase, put_fits,
}
use mathlib.Core.Option.{IsSome}
use rr_python.Recorder.Session.Recordings.{
  concluded-recording, queued-recording, copy_of, dropped-recording,
}
use rr_python.Recorder.CopyToUser.{post_copy, post_put, pre_copy, pre_put}
use rr_python.Recorder.Session.{
  outside, inside, putting, copying, syscall_entry, syscall_return, put_entry, put_return,
  copy_entry, copy_return, Event,
}
use rr_python.Recorder.Session.Spec.{
  Move, Call, recording, call_of, concluded, begins, ignores_call, ends, puts, ignores_put, has_put,
  copies, ignores_copy, has_copied, NoCopy, NoCall, block_size,
}
use mathlib.Core.Option
use rr_python.Recorder.SyscallRecorder.Leave.{post_syscall-lem, finished, Queued, Dropped}
use rr_python.Recorder.CopyToUser.Attach.{Left, filled, post_put-Left, post_copy-Left}
use rr_python.Recorder.CopyToUser.Ownership.{
  Entered, put_copy, user_copy, pre_copy-Entered, pre_put-Entered, IsPutSize, Refused,
}
use rr_python.Recorder.Invariant.Syscalls.{fresh_item}
use rr_python.Recorder.SyscallRecorder.Enter.{pre_syscall-EnteredSyscall, EnteredSyscall, Skipped}
use rr_python.Recorder.SyscallRecorder.{pre_syscall, post_syscall}
use rr_python.Recorder.Cmd.{Returns, Returns-mono, is_recorded}
use rr_python.Recorder.Invariant.{Ghost, Item, ghost, attached}
use rr_python.Recorder.State.{State, Task, PtRegs, Ptr, CopyRecord}
use rr_python.Recorder.Kernel.{Kernel, IsKernel}
use rr_python.Recorder.Session.{Phase, inside, outside}
use rr_python.Common.{
  [], ◌∷◌, ◌++◌, none, some, ◌≡◌, if◌then◌else◌, ◌==◌, inl, inr, ◌∙◌, ℕ, Bool-cases, subst, leb,
  ◌*◌, length, ◌+◌, ◌^◌, refl, ◌<◌, arith, ap, true,
}

module _ {k : Kernel} {task : Task} {s : State} {g : Ghost} where
  Skipped-NoCall : {nr : ℕ} → Skipped k task s g nr → NoCall k task s (recording g) nr
  Skipped-NoCall (Enter.never_ends h) = Spec.never_ends h
  Skipped-NoCall (Enter.other_task e) = Spec.other_task e
  Skipped-NoCall (Enter.syscall_under_way it e) =
      Spec.syscall_under_way (call_of it) (ap (Option.map call_of) e)
  Skipped-NoCall (Enter.no_block e) = Spec.no_block e

  Refused-NoCopy : {n : ℕ} → Refused k task s g n → NoCopy k task s (recording g) n
  Refused-NoCopy (Ownership.other_task e) = Spec.other_task e
  Refused-NoCopy (Ownership.no_syscall e) = Spec.no_syscall (ap (Option.map call_of) e)
  Refused-NoCopy (Ownership.copy_under_way l e) = Spec.copy_under_way (l.1) (ap copy_of e)
  Refused-NoCopy (Ownership.no_block e) = Spec.no_block e

module _ {k : Kernel} (is : IsKernel k) {s : State} where
  pub syscall_entry-Moved :
      (ph : Phase) (task : Task) (regs : PtRegs) (safe : IsSafe ph s)
      → Returns
          (λ r.
            Moved k
              (if r == 0 then inside else ph)
              (recording safe.g)
              s
              (syscall_entry task regs)
              r)
          (pre_syscall k task regs s)
  syscall_entry-Moved ph task regs safe =
      Returns-mono (EnteredSyscall k task s safe.g safe.extra regs) _ _
        (pre_syscall-EnteredSyscall is task regs safe.g safe.rep)
        λ r s' h. elim h.2 [
          | inl passed ↦ rw passed.answer (record {
            safe = record {
              g = safe.g;
              extra = safe.extra;
              rep = passed.rep;
              agrees = safe.agrees;
              unlocked = h.0.mutex ∙ safe.unlocked;
            };
            move = ignores_call task regs (Skipped-NoCall passed.reason);
          })
          | inr begun ↦ rw begun.answer (record {
            safe = record {
              g =
                  ghost safe.g.pending (some (fresh_item begun.ptr (s.frames regs.si) regs.si))
                    safe.g.queue;
              extra = safe.extra;
              rep = begun.rep;
              agrees = (
                (fresh_item begun.ptr (s.frames regs.si) regs.si, refl),
                idle_phase ph safe.g safe.agrees begun.idle,
              );
              unlocked = h.0.mutex ∙ safe.unlocked;
            };
            move =
                begins task regs begun.recorded begun.comes_back
                  (ap (Option.map call_of) begun.idle);
          })
        ]

  pub syscall_return-Moved :
      (regs : PtRegs) (safe : IsSafe inside s)
      → Returns (Moved k outside (recording safe.g) s (syscall_return regs)) (post_syscall k regs s)
  syscall_return-Moved regs safe =
      let it = safe.agrees.0.0 in
      let rep = IsRep-as safe.agrees.1 safe.agrees.0.1 safe.rep in
      elim (Bool-cases (leb (8 * length safe.g.queue + 8) (2 ^ 15))) [
        | inl room ↦
            Returns-mono (Queued s none it safe.g.queue safe.extra) _ _
              (rw room at (post_syscall-lem is rep safe.unlocked regs))
              λ r s' h. rw (h.0) (record {
                safe = record {
                  g = ghost none none (safe.g.queue ++ (finished s it ∷ []));
                  extra = safe.extra;
                  rep = h.3;
                  agrees = (refl, refl);
                  unlocked = h.1.mutex ∙ safe.unlocked;
                };
                move =
                    subst (Move k s s' (recording safe.g) (syscall_return regs) 0)
                      (queued-recording safe.g (finished s it) none safe.agrees.1 (ground arith))
                      (ends regs (call_of it) (ap (Option.map call_of) safe.agrees.0.1));
              })
        | inr full ↦
            Returns-mono (Dropped s none safe.g.queue safe.extra) _ _
              (rw full at (post_syscall-lem is rep safe.unlocked regs))
              λ r s' h. rw (h.0) (record {
                safe = record {
                  g = ghost none none safe.g.queue;
                  extra = safe.extra;
                  rep = h.3;
                  agrees = (refl, refl);
                  unlocked = h.1.mutex ∙ safe.unlocked;
                };
                move =
                    subst (Move k s s' (recording safe.g) (syscall_return regs) 0)
                      (dropped-recording safe.g (finished s it) none safe.agrees.1 (ground arith))
                      (ends regs (call_of it) (ap (Option.map call_of) safe.agrees.0.1));
              })
      ]

  -- An entry of a copy, by what its start brings.
  entry-Moved :
      (ph next : Phase) (task : Task) (e : Event) (c : CopyRecord) (safe : IsSafe ph s) (r : ℕ)
      (s' : State)
      → ((g : Ghost) (p : Ptr) → IsUnderWay g → g.pending ≡ some (p, c) → Agrees next g)
      → (NoCopy k task s (recording safe.g) (block_size c.len)
          → Move k s s' (recording safe.g) e 1 (recording safe.g))
      → ((call : Call)
          → is_recorded task s ≡ true
          → (recording safe.g).current ≡ some call
          → (recording safe.g).pending ≡ none
          → Move k s s' (recording safe.g) e 0 (record (recording safe.g) { pending = some c }))
      → Entered k task s safe.g safe.extra c r s'
      → Moved k (if r == 0 then next else ph) (recording safe.g) s e r s'
  entry-Moved ph next task e c safe r s' starts ignoring starting h = elim h.1 [
    | inl ignored ↦ rw ignored.answer (record {
      safe = record {
        g = safe.g;
        extra = safe.extra;
        rep = ignored.rep;
        agrees = safe.agrees;
        unlocked = h.0.mutex ∙ safe.unlocked;
      };
      move = ignoring (Refused-NoCopy ignored.reason);
    })
    | inr started ↦ rw started.answer (record {
      safe = record {
        g = ghost (some (started.ptr, c)) safe.g.current safe.g.queue;
        extra = safe.extra;
        rep = started.rep;
        agrees =
            starts (ghost (some (started.ptr, c)) safe.g.current safe.g.queue) started.ptr
              (started.item, started.syscall) refl;
        unlocked = h.0.mutex ∙ safe.unlocked;
      };
      move =
          starting (call_of started.item) started.recorded (ap (Option.map call_of) started.syscall)
            (ap copy_of started.idle);
    })
  ]

  -- A return of a copy leaves the system call under way.
  return-Moved :
      {ph : Phase} (safe : IsSafe ph s) (e : Event) (it : Item) (p : Ptr) (regs : PtRegs)
      (c : CopyRecord) (r : ℕ) (s' : State)
      → Move k s s' (recording safe.g) e 0 (concluded (recording safe.g) (call_of it) c regs)
      → Left s it safe.g.queue safe.extra p (regs.ax == 0) c r s'
      → Moved k inside (recording safe.g) s e r s'
  return-Moved safe e it p regs c r s' done h = rw (h.0) (record {
    safe = record {
      g = ghost none (some (if regs.ax == 0 then attached it (p, c) else it)) safe.g.queue;
      extra = safe.extra;
      rep = h.2;
      agrees = ((if regs.ax == 0 then attached it (p, c) else it, refl), refl);
      unlocked = h.1.mutex ∙ safe.unlocked;
    };
    move = subst (Move k s s' (recording safe.g) e 0) (concluded-recording safe.g it p c regs) done;
  })

  pub put_return-Moved :
      (regs : PtRegs) (safe : IsSafe putting s)
      → Returns (Moved k inside (recording safe.g) s (put_return regs)) (post_put regs s)
  put_return-Moved regs safe =
      let it = safe.agrees.0.0 in
      let l = safe.agrees.1.0 in
      let rep = IsRep-as safe.agrees.1.1.0 safe.agrees.0.1 safe.rep in
      Returns-mono (Left s it safe.g.queue safe.extra l.0 (regs.ax == 0) l.1) _ _
        (post_put-Left rep regs safe.agrees.1.1.1)
        λ r s'. return-Moved safe (put_return regs) it l.0 regs l.1 r s' (
          has_put regs (call_of it) l.1 (ap (Option.map call_of) safe.agrees.0.1)
            (ap copy_of safe.agrees.1.1.0))

  pub copy_return-Moved :
      (regs : PtRegs) (safe : IsSafe copying s)
      → Returns (Moved k inside (recording safe.g) s (copy_return regs)) (post_copy regs s)
  copy_return-Moved regs safe =
      let it = safe.agrees.0.0 in
      let l = safe.agrees.1.0 in
      let rep = IsRep-as safe.agrees.1.1.0 safe.agrees.0.1 safe.rep in
      Returns-mono (Left s it safe.g.queue safe.extra l.0 (regs.ax == 0) (filled s l.1)) _ _
        (post_copy-Left rep regs safe.agrees.1.1.1)
        λ r s'. return-Moved safe (copy_return regs) it l.0 regs (filled s l.1) r s' (
          has_copied regs (call_of it) l.1 (ap (Option.map call_of) safe.agrees.0.1)
            (ap copy_of safe.agrees.1.1.0))

  pub put_entry-Moved :
      (ph : Phase) (task : Task) (n : ℕ) (regs : PtRegs)
      → IsPutSize n
      → (safe : IsSafe ph s)
      → Returns
          (λ r.
            Moved k (if r == 0 then putting else ph) (recording safe.g) s (put_entry task n regs) r)
          (pre_put k task n regs s)
  put_entry-Moved ph task n regs size safe =
      Returns-mono (Entered k task s safe.g safe.extra (put_copy n regs)) _ _
        (pre_put-Entered is task regs safe.rep n size)
        λ r s'.
          entry-Moved ph putting task (put_entry task n regs) (put_copy n regs) safe r s'
            (λ g p busy e.
              (busy, ((p, put_copy n regs), (e, (length-le n regs.ax, put_fits n size)))))
            (ignores_put task n regs) (puts task n regs)

  pub copy_entry-Moved :
      (ph : Phase) (task : Task) (regs : PtRegs)
      → regs.dx < 2 ^ 63
      → (safe : IsSafe ph s)
      → Returns
          (λ r.
            Moved k (if r == 0 then copying else ph) (recording safe.g) s (copy_entry task regs) r)
          (pre_copy k task regs s)
  copy_entry-Moved ph task regs small safe =
      Returns-mono (Entered k task s safe.g safe.extra (user_copy regs)) _ _
        (pre_copy-Entered is task regs safe.rep small)
        λ r s'.
          entry-Moved ph copying task (copy_entry task regs) (user_copy regs) safe r s'
            (λ g p busy e. (busy, ((p, user_copy regs), (e, refl)))) (ignores_copy task regs)
            (copies task regs)

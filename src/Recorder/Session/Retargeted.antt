-- ===== src/Recorder/Session/Retargeted.antt =====
-- What happens when write_proc of recorder/src/recorded_processes_loader.c changes the recorded pid
-- while a recorded call is under way: a second task's put is under way when the first task's call
-- returns.
use rr_python.Recorder.Cmd.Alloc.{load_copy-ok}
use rr_python.Recorder.SyscallRecorder.Leave.{Queued, post_syscall-lem, Dropped}
use rr_python.Recorder.Session.Safe.{IsRep-as}
use rr_python.Recorder.Session.Reachable.{Represents}
use rr_python.Recorder.Invariant.{Located, Item, IsRep, ghost}
use rr_python.Recorder.Session.Spec.{Recording}
use rr_python.Recorder.State.{null, State, PtRegs, Ptr}
use rr_python.Recorder.CopyToUser.{add_to_current, post_put}
use rr_python.Recorder.Kernel.{Kernel, IsKernel}
use rr_python.Common.{
  none, some, true, inl, inr, Option, List, ◌≡◌, Bool-cases, ◌==◌, arith, leb, ◌*◌, length, ◌+◌,
  ◌^◌, refl,
}
use rr_python.Recorder.Session.{putting, perform, syscall_return, put_return}
use rr_python.Recorder.Cmd.{fault, load_syscall, Returns, Returns-mono}

-- With no system call under way a copy has nothing to join.
add_to_current-fault :
    {s : State} {pending : Option Located} {queue : List Item} {extra : List Ptr} (c : Ptr)
    → IsRep s (ghost pending none queue) extra
    → add_to_current c s ≡ fault
unfolding add_to_current load_syscall
add_to_current-fault {s} c rep = rw (rep.current_at, rep.low null (omega arith)) refl

post_put-fault :
    {s : State} {l : Located} {queue : List Item} {extra : List Ptr} (regs : PtRegs)
    → IsRep s (ghost (some l) none queue) extra
    → regs.ax ≡ 0
    → post_put regs s ≡ fault
unfolding post_put
post_put-fault {s} regs rep done =
    let zero_ax : (regs.ax == 0) ≡ true = ground arith in
    let stored = rw (← rep.pending_at.0) at rep.pending_at.1 in
    rw (zero_ax, load_copy-ok s.current_copy s stored, add_to_current-fault s.current_copy rep) refl

-- If a put is under way when the recorded call returns, as it is when the recorded pid was changed
-- during the call and a task with the new pid has begun a put, then the call's return runs without
-- a fault, and the return of the put, if it succeeded, then faults: it adds its copy to a record
-- through a NULL pointer.
pub syscall_return-put_return :
    {k : Kernel} {s : State} {a : Recording} (regs regs' : PtRegs)
    → IsKernel k
    → Represents putting s a
    → regs'.ax ≡ 0
    → Returns (λ r s'. perform k (put_return regs') s' ≡ fault) (perform k (syscall_return regs) s)
unfolding perform
syscall_return-put_return {k} {s} regs regs' is stands done =
    let safe = stands.safe in
    let it = safe.agrees.0.0 in
    let rep = IsRep-as safe.agrees.1.1.0 safe.agrees.0.1 safe.rep in
    elim (Bool-cases (leb (8 * length safe.g.queue + 8) (2 ^ 15))) [
      | inl room ↦
          Returns-mono (Queued s (some safe.agrees.1.0) it safe.g.queue safe.extra) _ _
            (rw room at (post_syscall-lem is rep safe.unlocked regs))
            (λ r s' h. post_put-fault regs' h.3 done)
      | inr full ↦
          Returns-mono (Dropped s (some safe.agrees.1.0) safe.g.queue safe.extra) _ _
            (rw full at (post_syscall-lem is rep safe.unlocked regs))
            (λ r s' h. post_put-fault regs' h.3 done)
    ]

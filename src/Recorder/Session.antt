-- ===== src/Recorder/Session.antt =====
-- The kernel module at work: its handlers in the orders in which the kernel calls them.
pub mod Spec
pub mod Recordings
pub mod Safe
pub mod Moves
pub mod Readers
pub mod Reachable
pub mod History
pub mod Retargeted
use rr_python.Recorder.CopyToUser.Ownership.{IsPutSize}
use rr_python.Recorder.ReadProc.{read_proc}
use rr_python.Recorder.Image.{images}
use rr_python.Common.Signed.{ℤ}
use rr_python.Recorder.CopyToUser.{pre_put, post_put, pre_copy, post_copy}
use rr_python.Common.Bytes.{Memory}
use rr_python.Recorder.SyscallRecorder.{pre_syscall, post_syscall}
use rr_python.Recorder.Invariant.{Ghost, IsRep}
use rr_python.Recorder.Kernel.{Kernel}
use rr_python.Recorder.State.{State, Task, PtRegs, Ptr, null}
use rr_python.Common.{
  [], ◌∷◌, ◌++◌, zero, suc, true, false, none, some, ℕ, if◌then◌else◌, ◌≡◌, Bool, List, ◌==◌, ◌<◌,
  ◌^◌, length, ◌+◌, ◌⊎◌,
}
use rr_python.Recorder.Cmd.{◌>>=◌, ◌>>◌, Cmd, ok, pure}

-- Where the recorded task is: outside a system call, in one, or in a put_user or a copy_to_user of one.
pub data Phase : Type 0 where
  outside : Phase
  inside : Phase
  putting : Phase
  copying : Phase

-- What calls the module: a probe hit by some task, a reader that does not sleep, or anything else
-- that runs and changes the memory and the tasks' registers, or the recorded pid.
pub data Event : Type 0 where
  syscall_entry : Task → PtRegs → Event
  syscall_return : PtRegs → Event
  put_entry : Task → ℕ → PtRegs → Event
  put_return : PtRegs → Event
  copy_entry : Task → PtRegs → Event
  copy_return : PtRegs → Event
  read : Bool → Ptr → ℕ → Event
  others : Memory → (Ptr → PtRegs) → ℤ → Event

-- The code that an event runs.
unfoldable pub perform : Kernel → Event → Cmd ℕ
perform k (syscall_entry task regs) = pre_syscall k task regs
perform k (syscall_return regs) = post_syscall k regs
perform k (put_entry task n regs) = pre_put k task n regs
perform k (put_return regs) = post_put regs
perform k (copy_entry task regs) = pre_copy k task regs
perform k (copy_return regs) = post_copy regs
perform k (read nonblock buf size) = do read_proc k nonblock buf size []; pure 0
perform k (others m f pid) =
    λ s. ok 0 (record s { memory = m; frames = f; recorded_process_pid = pid })

-- A return handler runs when the entry handler of its probe has answered 0.
abbrev pub after : Phase → Event → ℕ → Phase
after ph (syscall_entry task regs) r = if r == 0 then inside else ph
after ph (syscall_return regs) r = outside
after ph (put_entry task n regs) r = if r == 0 then putting else ph
after ph (put_return regs) r = inside
after ph (copy_entry task regs) r = if r == 0 then copying else ph
after ph (copy_return regs) r = inside
after ph (read nonblock buf size) r = ph
after ph (others m f pid) r = ph

-- The records of the fifo have dumps whose length a `ssize_t` can hold.
abbrev pub IsSmall : State → Type 0
IsSmall s = (g : Ghost) (extra : List Ptr) → IsRep s g extra → length (images g.queue) < 2 ^ 63

-- When an event can happen: the probes of one task nest, a put has one of its four sizes, a copy has
-- a length that is no negative number, a buffer does not wrap around, and the recorded pid is not
-- changed while a recorded call is under way.
abbrev pub Enabled : Phase → State → Event → Type 0
Enabled ph s (syscall_entry task regs) = Unit {0}
Enabled ph s (syscall_return regs) = ph ≡ inside
Enabled ph s (put_entry task n regs) = IsPutSize n
Enabled ph s (put_return regs) = ph ≡ putting
Enabled ph s (copy_entry task regs) = regs.dx < 2 ^ 63
Enabled ph s (copy_return regs) = ph ≡ copying
Enabled ph s (read nonblock buf size) = (buf + size < 2 ^ 64) × IsSmall s
Enabled ph s (others m f pid) = (ph ≡ outside) ⊎ (pid ≡ s.recorded_process_pid)

-- The module after `recorder_init`: nothing allocated, nothing under way, an empty fifo.
pub record IsInitial (s : State) : Type 0 where
  pub heap : (p : Ptr) → s.heap p ≡ none
  pub record_ptr : s.current_syscall_record ≡ null
  pub copy_ptr : s.current_copy ≡ null
  pub fifo : s.recorded_syscalls.bytes ≡ []
  pub fifo_size : s.recorded_syscalls.size ≡ 2 ^ 15
  pub mutex : s.mutex_locked ≡ false

-- The states that the module can come to.
pub data Reach (k : Kernel) : Phase → State → Type 0 where
  start : (s : State) → IsInitial s → Reach k outside s
  step :
      {ph : Phase} {s s' : State} (e : Event) (r : ℕ)
      → Reach k ph s
      → Enabled ph s e
      → perform k e s ≡ ok r s'
      → Reach k (after ph e r) s'

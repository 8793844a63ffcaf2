-- ===== src/Recorder/SyscallWrapper/Save.antt =====
-- pre_wrap_syscall of recorder/src/syscall_wrapper.c.
use rr_python.Recorder.Cmd.Alloc.{Alloc}
use rr_python.Common.Bytes.{read_bytes}
use rr_python.Recorder.SyscallWrapper.Record.{SameProbe}
use rr_python.Recorder.Cmd.{is_recorded, kmalloc, fault}
use rr_python.Recorder.Invariant.{Ghost, IsRep}
use rr_python.Recorder.SyscallWrapper.{
  copy_from_user, Wrapper, pre_wrap_syscall, save_mem, get_record_mem_callback,
}
use rr_python.Recorder.State.{Task, PtRegs, Ptr, State, recorded_mem, null}
use rr_python.Recorder.Kernel.{Kernel, kmalloc_max}
use rr_python.Common.{
  ◌∷◌, true, false, none, some, List, ℕ, ◌≡◌, ◌^◌, ◌≤◌, refl, ◌+◌, ◌==◌, ◌-◌, ◌≢◌,
}

-- Why `pre_wrap_syscall` answers 1.
pub data NotSaved (k : Kernel) (task : Task) (wrapper : Wrapper) (regs : PtRegs) (s : State)
    (g : Ghost) : Type 0 where
  other_task : is_recorded task s ≡ false → NotSaved k task wrapper regs s g
  no_syscall : g.current ≡ none → NotSaved k task wrapper regs s g
  no_registers :
      get_record_mem_callback wrapper task regs s ≡ none → NotSaved k task wrapper regs s g
  no_memory :
      (a : Ptr) (len : ℕ)
      → get_record_mem_callback wrapper task regs s ≡ some (a, len)
      → k.kmalloc s.calls s.heap (16 + len) ≡ null
      → NotSaved k task wrapper regs s g
  unreadable :
      (a : Ptr) (len : ℕ)
      → get_record_mem_callback wrapper task regs s ≡ some (a, len)
      → (k.copy_from_user (s.calls + 1) s.memory a len).1 ≢ 0
      → NotSaved k task wrapper regs s g

-- `pre_wrap_syscall` answers 1 and leaves what the recorder holds and the probe's slot; or 0, and the
-- slot points at a block of its own that holds the memory's address, length and bytes.
pub data Saved (k : Kernel) (task : Task) (wrapper : Wrapper) (regs : PtRegs) (slot : Ptr)
    (s : State) (g : Ghost) (extra : List Ptr) (r : ℕ × Ptr) (s' : State) : Type 0 where
  not_saved :
      r ≡ (1, slot)
      → NotSaved k task wrapper regs s g
      → IsRep s' g extra
      → SameProbe s s'
      → Saved k task wrapper regs slot s g extra r s'
  saved :
      (p a : Ptr) (len : ℕ)
      → r ≡ (0, p)
      → is_recorded task s ≡ true
      → get_record_mem_callback wrapper task regs s ≡ some (a, len)
      → s'.heap p
        ≡ some (recorded_mem (record { ptr = a; len = len; mem = read_bytes s.memory a len }))
      → len ≤ kmalloc_max
      → IsRep s' g (p ∷ extra)
      → SameProbe s s'
      → Saved k task wrapper regs slot s g extra r s'

-- For a recorded task with a system call under way, at the length 2^64 - 16 the size of the block
-- wraps to 0, and `pre_wrap_syscall` then writes through the address that `kmalloc(0)` returns: a
-- fault, whatever the kernel's functions do.
pub pre_wrap_syscall-overflow :
    (k : Kernel) (task : Task) (wrapper : Wrapper) (regs : PtRegs) (slot : Ptr) (s : State)
    (a : Ptr)
    → is_recorded task s ≡ true
    → (s.current_syscall_record == null) ≡ false
    → get_record_mem_callback wrapper task regs s ≡ some (a, 2 ^ 64 - 16)
    → pre_wrap_syscall k task wrapper regs slot s ≡ fault
unfolding pre_wrap_syscall save_mem kmalloc
pre_wrap_syscall-overflow k task wrapper regs slot s a mine under_way e =
    rw (mine, under_way, e) refl

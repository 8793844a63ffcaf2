-- ===== src/Recorder/State.antt =====
-- The data of the kernel module: recorder/include/*.h, the structs of syscall_wrapper.c, and the
-- global variables of all its files as one state.
use rr_python.Common.{ℕ, Bool, Option, none, some, List, ◌==◌, if◌then◌else◌}
use rr_python.Common.Bytes.{Memory}
use rr_python.Common.Signed.{ℤ}

abbrev pub Ptr : Type 0
Ptr = ℕ

abbrev pub null : Ptr
null = 0

-- `struct pt_regs` of x86-64, in memory order; each field is an `unsigned long`.
pub record PtRegs : Type 0 where
  pub r15 : ℕ
  pub r14 : ℕ
  pub r13 : ℕ
  pub r12 : ℕ
  pub bp : ℕ
  pub bx : ℕ
  pub r11 : ℕ
  pub r10 : ℕ
  pub r9 : ℕ
  pub r8 : ℕ
  pub ax : ℕ
  pub cx : ℕ
  pub dx : ℕ
  pub si : ℕ
  pub di : ℕ
  pub orig_ax : ℕ
  pub ip : ℕ
  pub cs : ℕ
  pub flags : ℕ
  pub sp : ℕ
  pub ss : ℕ

-- `struct copy_record`. `bytes` holds what has been stored in the flexible array so far: it is
-- empty until the array is filled.
pub record CopyRecord : Type 0 where
  pub from : Ptr
  pub to : Ptr
  pub len : ℕ
  pub bytes : List ℕ

-- `struct syscall_record`. The list head is the sequence of the elements' addresses.
pub record SyscallRecord : Type 0 where
  pub userspace_regs : PtRegs
  pub ret : ℕ
  pub userspace_regs_ptr : Ptr
  pub amount_of_copies : ℕ
  pub copies_to_user : List Ptr

-- `struct syscall_recorded_mem`.
pub record SyscallRecordedMem : Type 0 where
  pub ptr : Ptr
  pub len : ℕ
  pub mem : List ℕ

-- What an allocated block holds. `copy` is a `struct copy_record_element`: its list node is the
-- element's place in a `copies_to_user`.
pub data Object : Type 0 where
  syscall : SyscallRecord → Object
  copy : CopyRecord → Object
  recorded_mem : SyscallRecordedMem → Object
  buffer : List ℕ → Object

-- The blocks that `kmalloc` has handed out and `kfree` has not taken back.
abbrev pub Heap : Type 0
Heap = Ptr → Option Object

unfoldable pub write : Heap → Ptr → Option Object → Heap
write h p c q = if q == p then c else h q

abbrev pub live : Option Object → ℕ
live none = 0
live (some o) = 1

-- `struct kfifo`: its size in bytes and the bytes in it, the oldest first.
pub record Kfifo : Type 0 where
  pub size : ℕ
  pub bytes : List ℕ

-- The global variables, and what they reach. `memory` is every byte outside the blocks of this
-- module (user memory, the kernel's own buffers), `frames` the saved registers of the tasks.
-- `calls` numbers the calls of kernel functions that may fail, and `wake_ups` counts those of
-- `wake_up(&recorded_syscalls_wait)`.
pub record State : Type 0 where
  pub heap : Heap
  pub memory : Memory
  pub frames : Ptr → PtRegs
  pub recorded_process_pid : ℤ
  pub current_syscall_record : Ptr
  pub current_copy : Ptr
  pub recorded_syscalls : Kfifo
  pub mutex_locked : Bool
  pub wake_ups : ℕ
  pub calls : ℕ

-- What a handler reads of `current`: its pid and `task_pt_regs(current)`.
pub record Task : Type 0 where
  pub pid : ℤ
  pub pt_regs : Ptr

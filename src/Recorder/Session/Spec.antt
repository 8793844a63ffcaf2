-- ===== src/Recorder/Session/Spec.antt =====
-- What the kernel module promises, without addresses: a recording as a queue of system calls, one
-- call and one copy that may be under way, and how each event may change it.
use rr_python.Recorder.SyscallRecorder.{sizeof_syscall_record}
use rr_python.Recorder.Cmd.{is_recorded}
use rr_python.Recorder.SyscallDumper.Send.{Unwritable}
use rr_python.Recorder.SyscallRecorder.Enter.{NeverReturns}
use rr_python.Recorder.CopyToUser.{sizeof_copy_record_element}
use rr_python.Recorder.Kernel.{Kernel}
use rr_python.Common.Signed.{ℤ}
use rr_python.Recorder.Image.{words, word_bytes, copy_bytes}
use rr_python.Common.Bytes.{Memory, le, write_bytes, IsWithin}
use rr_python.Recorder.CopyToUser.Attach.{filled}
use rr_python.Recorder.CopyToUser.Ownership.{put_copy, user_copy}
use rr_python.Recorder.Session.{
  Event, syscall_entry, syscall_return, put_entry, put_return, copy_entry, copy_return, read,
  others,
}
use rr_python.Recorder.Invariant.{Ghost, Item, Located}
use rr_python.Recorder.State.{null, PtRegs, Ptr, CopyRecord, State, Task}
use mathlib.Core.Option
use rr_python.Common.{
  [], ◌∷◌, ◌++◌, none, some, ℕ, List, Option, map, ◌≡◌, if◌then◌else◌, ◌==◌, leb, length, ◌+◌, Bool,
  ◌≤◌, ◌<◌, ◌%◌, ◌^◌, false, true,
}

-- A recorded system call: the registers it began with, where its frame is, its return value and the
-- copies in their order.
pub record Call : Type 0 where
  pub regs : PtRegs
  pub frame : Ptr
  pub ret : ℕ
  pub copies : List CopyRecord

pub record Recording : Type 0 where
  pub pending : Option CopyRecord
  pub current : Option Call
  pub queue : List Call

-- The most records that wait for a reader.
abbrev pub queue_max : ℕ
queue_max = 4096

abbrev pub begun : PtRegs → Ptr → Call
begun regs frame = record { regs = regs; frame = frame; ret = 0; copies = [] }

abbrev pub with_copy : Call → CopyRecord → Call
with_copy call c = record call { copies = call.copies ++ (c ∷ []) }

-- A return handler's copy joins the call when the function that copied answered 0.
abbrev pub concluded : Recording → Call → CopyRecord → PtRegs → Recording
concluded a call c regs = record a {
  pending = none;
  current = some (if regs.ax == 0 then with_copy call c else call);
}

-- A call that returns waits in the queue, unless that is full.
abbrev pub enqueued : Recording → Call → Recording
enqueued a call = record a {
  current = none;
  queue = if leb (length a.queue + 1) queue_max then a.queue ++ (call ∷ []) else a.queue;
}

-- The dump of a call: struct syscall_dump and its copies.
unfoldable pub call_bytes : List CopyRecord → List ℕ
call_bytes [] = []
call_bytes (c ∷ cs) = copy_bytes c ++ call_bytes cs

unfoldable pub call_image : Call → List ℕ
call_image call =
    (word_bytes (words call.regs) ++ (le 8 call.ret ++ le 8 (length call.copies % 2 ^ 64)))
    ++ call_bytes call.copies

unfoldable pub call_images : List Call → List ℕ
call_images [] = []
call_images (call ∷ calls) = call_image call ++ call_images calls

-- What a read into `size` bytes at `buf` does to the reader's memory and to the queue, of which
-- `rest` is left: it dumps all of it, or what fits and takes one call more, or a write fails.
pub data Taken (k : Kernel) (buf : Ptr) (size : ℕ) (s s' : State) (queue rest : List Call)
    : Type 0 where
  drains :
      rest ≡ []
      → length (call_images queue) ≤ size
      → s'.memory ≡ write_bytes s.memory buf (call_images queue)
      → Taken k buf size s s' queue rest
  loses :
      (given : List Call) (call : Call)
      → queue ≡ given ++ (call ∷ rest)
      → length (call_images given) ≤ size
      → size < length (call_images given) + length (call_image call)
      → s'.memory ≡ write_bytes s.memory buf (call_images given)
      → Taken k buf size s s' queue rest
  fails :
      (given : List Call) (call : Call)
      → queue ≡ given ++ (call ∷ rest)
      → length (call_images given) + length (call_image call) ≤ size
      → Unwritable k buf size s s'
      → IsWithin buf size s.memory s'.memory
      → Taken k buf size s s' queue rest

-- Why the entry of a system call, and that of a copy with a block of `n` bytes, begin nothing.
pub data NoCall (k : Kernel) (task : Task) (s : State) (a : Recording) (nr : ℕ) : Type 0 where
  never_ends : NeverReturns nr → NoCall k task s a nr
  other_task : is_recorded task s ≡ false → NoCall k task s a nr
  syscall_under_way : (call : Call) → a.current ≡ some call → NoCall k task s a nr
  no_block : k.kmalloc s.calls s.heap sizeof_syscall_record ≡ null → NoCall k task s a nr

pub data NoCopy (k : Kernel) (task : Task) (s : State) (a : Recording) (n : ℕ) : Type 0 where
  other_task : is_recorded task s ≡ false → NoCopy k task s a n
  no_syscall : a.current ≡ none → NoCopy k task s a n
  copy_under_way : (c : CopyRecord) → a.pending ≡ some c → NoCopy k task s a n
  no_block : k.kmalloc s.calls s.heap n ≡ null → NoCopy k task s a n

abbrev pub block_size : ℕ → ℕ
block_size len = (sizeof_copy_record_element + len) % 2 ^ 64

-- How an event that answers `r` and takes the state `s` to `s'` may change a recording.
pub data Move (k : Kernel) (s s' : State) (a : Recording) : Event → ℕ → Recording → Type 0 where
  begins :
      (task : Task) (regs : PtRegs)
      → is_recorded task s ≡ true
      → ¬ NeverReturns regs.di
      → a.current ≡ none
      → Move k s s' a
          (syscall_entry task regs)
          0
          (record a { current = some (begun (s.frames regs.si) regs.si) })
  ignores_call :
      (task : Task) (regs : PtRegs)
      → NoCall k task s a regs.di
      → Move k s s' a (syscall_entry task regs) 1 a
  ends :
      (regs : PtRegs) (call : Call)
      → a.current ≡ some call
      → Move k s s' a
          (syscall_return regs)
          0
          (enqueued a (record call { ret = (s.frames call.frame).ax }))
  puts :
      (task : Task) (n : ℕ) (regs : PtRegs) (call : Call)
      → is_recorded task s ≡ true
      → a.current ≡ some call
      → a.pending ≡ none
      → Move k s s' a (put_entry task n regs) 0 (record a { pending = some (put_copy n regs) })
  ignores_put :
      (task : Task) (n : ℕ) (regs : PtRegs)
      → NoCopy k task s a (block_size n)
      → Move k s s' a (put_entry task n regs) 1 a
  has_put :
      (regs : PtRegs) (call : Call) (c : CopyRecord)
      → a.current ≡ some call
      → a.pending ≡ some c
      → Move k s s' a (put_return regs) 0 (concluded a call c regs)
  copies :
      (task : Task) (regs : PtRegs) (call : Call)
      → is_recorded task s ≡ true
      → a.current ≡ some call
      → a.pending ≡ none
      → Move k s s' a (copy_entry task regs) 0 (record a { pending = some (user_copy regs) })
  ignores_copy :
      (task : Task) (regs : PtRegs)
      → NoCopy k task s a (block_size regs.dx)
      → Move k s s' a (copy_entry task regs) 1 a
  has_copied :
      (regs : PtRegs) (call : Call) (c : CopyRecord)
      → a.current ≡ some call
      → a.pending ≡ some c
      → Move k s s' a (copy_return regs) 0 (concluded a call (filled s c) regs)
  takes :
      (nonblock : Bool) (buf : Ptr) (size r : ℕ) (rest : List Call)
      → Taken k buf size s s' a.queue rest
      → Move k s s' a (read nonblock buf size) r (record a { queue = rest })
  stays : (m : Memory) (f : Ptr → PtRegs) (pid : ℤ) (r : ℕ) → Move k s s' a (others m f pid) r a

-- The recording that the recorder's data stand for.
abbrev pub call_of : Item → Call
call_of it = record {
  regs = it.regs;
  frame = it.regs_ptr;
  ret = it.ret;
  copies = map (λ (l : Located). l.1) it.copies;
}

abbrev pub recording : Ghost → Recording
recording g = record {
  pending = Option.map (λ (l : Located). l.1) g.pending;
  current = Option.map call_of g.current;
  queue = map call_of g.queue;
}

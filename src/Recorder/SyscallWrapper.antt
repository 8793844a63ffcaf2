-- ===== src/Recorder/SyscallWrapper.antt =====
-- recorder/src/syscall_wrapper.c: system calls that write to user memory past put_user and
-- copy_to_user. The memory is saved before, and what has changed is recorded after.
use rr_python.Recorder.CopyToUser.{sizeof_copy_record_element, add_to_current}
pub mod Changes
pub mod Record
pub mod Compare
pub mod Save
pub mod Replay
use rr_python.Recorder.Kernel.{Kernel, zero_size_ptr}
use rr_python.Recorder.State.{
  PtRegs, Ptr, Task, State, SyscallRecordedMem, buffer, copy, null, recorded_mem,
}
use rr_python.Common.{
  [], ◌∷◌, ◌++◌, zero, suc, true, false, none, some, ℕ, List, Option, Bool, if◌then◌else◌, ◌*◌, not,
  ◌%◌, ◌+◌, ◌==◌, ◌^◌, length,
}
use rr_python.Recorder.Cmd.{
  ◌>>=◌, ◌>>◌, Cmd, kmalloc, load_recorded_mem, ok, pure, fault, kfree, is_recorded, store,
}

-- The elements of `syscall_wrappers`.
pub data Wrapper : Type 0 where
  poll_wrapper : Wrapper
  getdents_wrapper : Wrapper
  getdents64_wrapper : Wrapper

abbrev pub sizeof_pollfd : ℕ
sizeof_pollfd = 8

-- The callbacks: `addr` and `len`, or `none` for -1.
unfoldable pub get_poll_record_mem : PtRegs → Option (Ptr × ℕ)
get_poll_record_mem regs = some (regs.di, (regs.si * sizeof_pollfd) % 2 ^ 64)

unfoldable pub get_getdents_record_mem : Task → State → Option (Ptr × ℕ)
get_getdents_record_mem current s =
    if current.pt_regs == null
    then none
    else some ((s.frames current.pt_regs).si, (s.frames current.pt_regs).dx)

unfoldable pub get_getdents64_record_mem : PtRegs → Option (Ptr × ℕ)
get_getdents64_record_mem regs = some (regs.si, regs.dx)

unfoldable pub get_record_mem_callback : Wrapper → Task → PtRegs → State → Option (Ptr × ℕ)
unfolding get_poll_record_mem get_getdents_record_mem get_getdents64_record_mem
get_record_mem_callback poll_wrapper current regs s = get_poll_record_mem regs
get_record_mem_callback getdents_wrapper current regs s = get_getdents_record_mem current s
get_record_mem_callback getdents64_wrapper current regs s = get_getdents64_record_mem regs

-- `copy_from_user(to, from, n)`: the bytes for `to`, and how many could not be copied.
unfoldable pub copy_from_user : Kernel → Ptr → ℕ → Cmd (List ℕ × ℕ)
copy_from_user k from n s =
    ok (k.copy_from_user s.calls s.memory from n) (record s { calls = s.calls + 1 })

-- sizeof(struct syscall_recorded_mem)
abbrev pub sizeof_syscall_recorded_mem : ℕ
sizeof_syscall_recorded_mem = 16

-- What `pre_wrap_syscall` does once the address and the length are known. It answers with the new
-- contents of `probe->data`, which are `slot` as long as nothing is stored there.
unfoldable pub save_mem : Kernel → Ptr → ℕ → Ptr → Cmd (ℕ × Ptr)
save_mem k record_mem len slot = do
  p ←
      kmalloc k ((sizeof_syscall_recorded_mem + len) % 2 ^ 64) sizeof_syscall_recorded_mem
        (recorded_mem (record { ptr = record_mem; len = len; mem = [] }))
  if p == null then pure (1, slot) else do
    r ← copy_from_user k record_mem len
    store p (recorded_mem (record { ptr = record_mem; len = len; mem = r.0 }))
    if r.1 == 0 then pure (0, p) else do kfree p; pure (1, slot)

unfoldable pub pre_wrap_syscall : Kernel → Task → Wrapper → PtRegs → Ptr → Cmd (ℕ × Ptr)
pre_wrap_syscall k current wrapper regs slot s =
    if not (is_recorded current s)
    then ok (1, slot) s
    else if s.current_syscall_record == null
    then ok (1, slot) s
    else elim (get_record_mem_callback wrapper current regs s) [
      | none ↦ ok (1, slot) s
      | some (record_mem, len) ↦ save_mem k record_mem len slot s
    ]

-- One byte that changed: a copy of length 1 joins the current record. The result is whether there
-- was memory for it.
unfoldable pub record_byte : Kernel → Ptr → ℕ → Cmd Bool
record_byte k to byte = do
  c ←
      kmalloc k (sizeof_copy_record_element + 1) sizeof_copy_record_element
        (copy (record { from = null; to = to; len = 1; bytes = byte ∷ [] }))
  if c == null then pure false else do add_to_current c; pure true

-- The loop over the saved and the new bytes, from the one at `to` on; it ends early when there is no
-- memory.
unfoldable pub record_changes : Kernel → Ptr → List ℕ → List ℕ → Cmd (Unit {0})
record_changes k to [] new = pure tt
record_changes k to (x ∷ old) [] = λ s. fault
record_changes k to (x ∷ old) (y ∷ new) =
    let rest = record_changes k ((to + 1) % 2 ^ 64) old new in
    if x == y then rest else do went_on ← record_byte k to y; if went_on then rest else pure tt

-- The block at `new_mem` gets its bytes. The block of size 0 has none.
unfoldable pub fill_new_mem : Ptr → List ℕ → Cmd (Unit {0})
fill_new_mem p bytes = if p == zero_size_ptr then pure tt else store p (buffer bytes)

-- What `post_wrap_syscall` does with a block for the new bytes. Reading a byte that was not saved is
-- a fault.
unfoldable pub compare_new_mem : Kernel → SyscallRecordedMem → Ptr → Cmd (Unit {0})
compare_new_mem k m new_mem = do
  r ← copy_from_user k m.ptr m.len
  fill_new_mem new_mem r.0
  if not (r.1 == 0) then kfree new_mem else do
    if length m.mem == m.len then record_changes k m.ptr m.mem r.0 else (λ s. fault)
    kfree new_mem

-- The same with the saved memory at hand.
unfoldable pub compare_mem : Kernel → SyscallRecordedMem → Cmd (Unit {0})
compare_mem k m = do
  new_mem ← kmalloc k m.len 0 (buffer [])
  if new_mem == null then pure tt else compare_new_mem k m new_mem

unfoldable pub post_wrap_syscall : Kernel → Ptr → Cmd ℕ
post_wrap_syscall k slot = do m ← load_recorded_mem slot; compare_mem k m; kfree slot; pure 0

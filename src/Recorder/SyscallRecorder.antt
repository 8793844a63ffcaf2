-- ===== src/Recorder/SyscallRecorder.antt =====
-- recorder/src/syscall_recorder.c: the probe of do_syscall_64 and the fifo of finished records.
pub mod Free
pub mod Enter
pub mod Leave
use rr_python.Common.{
  ℕ, ◌+◌, ◌%◌, ◌^◌, Bool, true, false, List, [], ◌∷◌, ◌||◌, not, ◌==◌, if◌then◌else◌,
}
use rr_python.Common.Bytes.{le}
use rr_python.Recorder.State.{Ptr, null, PtRegs, SyscallRecord, syscall, State, Task}
use rr_python.Recorder.Kernel.{Kernel}
use rr_python.Recorder.Cmd.{
  ok, Cmd, pure, ◌>>=◌, ◌>>◌, get, put, kmalloc, kfree, load_syscall, store, mutex_lock,
  mutex_unlock, is_recorded,
}
use rr_python.Recorder.CopyToUser.{free_copy_record}

abbrev pub syscall_fifo_size : ℕ
syscall_fifo_size = 2 ^ 15

-- The `pt_regs`, the return value, the pointer, the count and the list head.
abbrev pub sizeof_syscall_record : ℕ
sizeof_syscall_record = 208

-- The loop of `free_syscall_record`.
unfoldable pub free_copies : List Ptr → Cmd (Unit {0})
free_copies [] = pure tt
free_copies (c ∷ cs) = do free_copy_record c; free_copies cs

unfoldable pub free_syscall_record : Ptr → Cmd (Unit {0})
unfolding free_copies
free_syscall_record p = do r ← load_syscall p; free_copies r.copies_to_user; kfree p

-- The numbers of execve, exit and exit_group.
unfoldable pub never_returns : ℕ → Bool
never_returns nr = (59 == nr) || (60 == nr) || (231 == nr)

-- The new record's `ret` is not initialised before `post_syscall` sets it; it is 0 here.
unfoldable pub pre_syscall : Kernel → Task → PtRegs → Cmd ℕ
unfolding never_returns
pre_syscall k current regs s =
    if never_returns regs.di
    then ok 1 s
    else if not (is_recorded current s)
    then ok 1 s
    else if not (s.current_syscall_record == null)
    then ok 1 s
    else (do
      p ← kmalloc k sizeof_syscall_record sizeof_syscall_record (
          syscall (record {
            userspace_regs = s.frames regs.si;
            ret = 0;
            userspace_regs_ptr = regs.si;
            amount_of_copies = 0;
            copies_to_user = [];
          }))
      s' ← get
      put (record s' { current_syscall_record = p })
      pure (if p == null then 1 else 0))
        s

-- `kfifo_in(&recorded_syscalls, &current_syscall_record, sizeof(void *))`
unfoldable pub push_current : Kernel → Cmd ℕ
push_current k s =
    let r = k.kfifo_in s.recorded_syscalls (le 8 s.current_syscall_record) in
    ok r.1 (record s { recorded_syscalls = r.0 })

abbrev pub wake_up : Cmd (Unit {0})
wake_up s = ok tt (record s { wake_ups = s.wake_ups + 1 })

abbrev pub clear_current_syscall_record : Cmd (Unit {0})
clear_current_syscall_record s = ok tt (record s { current_syscall_record = null })

-- `current_syscall_record->ret = current_syscall_record->userspace_regs_ptr->ax`
unfoldable pub save_ret : Cmd (Unit {0})
save_ret = do
  s ← get
  r ← load_syscall s.current_syscall_record
  store s.current_syscall_record (syscall (record r { ret = (s.frames r.userspace_regs_ptr).ax }))

-- What `post_syscall` does under the mutex.
unfoldable pub enqueue_current : Kernel → Cmd (Unit {0})
enqueue_current k = do
  s ← get
  n ← push_current k
  if 8 == n then wake_up else free_syscall_record s.current_syscall_record

unfoldable pub post_syscall : Kernel → PtRegs → Cmd ℕ
post_syscall k regs s =
    if s.current_syscall_record == null
    then ok 0 (record s { current_syscall_record = null })
    else (do
      save_ret
      mutex_lock
      enqueue_current k
      mutex_unlock
      clear_current_syscall_record
      pure 0)
        s

-- ===== src/Recorder/ReadProc.antt =====
-- `read_proc` of recorder/src/syscall_dumper.c: a reader waits for records and dumps them.
pub mod Rounds
pub mod Sane
pub mod Outcome
pub mod Wakes
use rr_python.Recorder.SyscallDumper.{dump_records, kfifo_is_empty}
use rr_python.Common.Signed.{ℤ, negsuc, pos}
use rr_python.Recorder.Kernel.{Kernel}
use rr_python.Recorder.State.{State, Ptr}
use rr_python.Common.{
  [], ◌∷◌, ◌++◌, zero, suc, true, false, none, some, Bool, ℕ, List, if◌then◌else◌, not, ltb,
}
use rr_python.Recorder.Cmd.{◌>>=◌, ◌>>◌, Cmd, pure, mutex_lock, mutex_unlock, get, put}

-- One round of a reader that finds no record: what the other tasks do to the state after
-- `mutex_unlock` and before `prepare_to_wait`, what they do from there until the reader would run
-- again, and whether a signal is pending for it then.
pub record WakeUp : Type 0 where
  pub before : State → State
  pub others : State → State
  pub signal_pending : Bool

-- The state when the reader would run again.
abbrev pub slept : WakeUp → State → State
slept w s = w.others (w.before s)

-- `schedule()` returns after a `wake_up` since `prepare_to_wait`. One that came before that found the
-- reader running, and is lost.
abbrev pub is_woken : WakeUp → State → Bool
is_woken w s = ltb (w.before s).wake_ups (slept w s).wake_ups

-- How a read ends: with a result, or not yet. `queued` says whether `wait` is in
-- `recorded_syscalls_wait`.
pub data Read : Type 0 where
  returned : (queued : Bool) → ℤ → Read
  asleep : (queued : Bool) → Read

-- -ERESTARTSYS
abbrev pub erestartsys : ℤ
erestartsys = negsuc 511

-- The label `cleanup`.
abbrev finish_wait : ℤ → Cmd Read
finish_wait ret = pure (returned false ret)

-- The rest of `read_proc` once there is a record: the fifo is read under the mutex.
unfoldable pub read_records : Kernel → Ptr → ℕ → Cmd Read
read_records k buf size = do ret ← dump_records k buf size; mutex_unlock; finish_wait ret

-- The `while` loop, with one `WakeUp` for each round that sleeps; with none left, or when nothing wakes
-- it, the reader is asleep.
unfoldable pub wait_for_records : Kernel → Bool → Ptr → ℕ → List WakeUp → Cmd Read
wait_for_records k nonblock buf size [] = do
  empty ← kfifo_is_empty k
  if not empty
      then read_records k buf size
      else do mutex_unlock; if nonblock then finish_wait (pos 0) else pure (asleep true)
wait_for_records k nonblock buf size (w ∷ ws) =
    let rest = wait_for_records k nonblock buf size ws in
    kfifo_is_empty k >>= λ empty. if not empty then read_records k buf size else do
      mutex_unlock
      if nonblock then finish_wait (pos 0) else do
        s ← get
        put (slept w s)
        if w.signal_pending
            then finish_wait erestartsys
            else if is_woken w s
            then (do mutex_lock; rest)
            else pure (asleep true)

-- `nonblock` is `file->f_flags & O_NONBLOCK`.
unfoldable pub read_proc : Kernel → Bool → Ptr → ℕ → List WakeUp → Cmd Read
read_proc k nonblock buf size wakes = do mutex_lock; wait_for_records k nonblock buf size wakes

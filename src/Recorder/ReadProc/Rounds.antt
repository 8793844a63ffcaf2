-- ===== src/Recorder/ReadProc/Rounds.antt =====
-- The rounds of a reader in read_proc of recorder/src/syscall_dumper.c, and how a read can end.

use rr_python.Recorder.Kernel.{Kernel}
use rr_python.Recorder.SyscallDumper.Dumps.{Dumps}
use rr_python.Recorder.Image.{images}
use rr_python.Common.Signed.{pos, ℤ}
use rr_python.Recorder.Invariant.{Ghost, IsRep, Located, Item, ghost}
use rr_python.Recorder.ReadProc.{WakeUp, Read, asleep, returned, erestartsys, slept}
use rr_python.Recorder.State.{State, Ptr}
use rr_python.Common.{[], ◌∷◌, true, false, Bool, ℕ, ◌≡◌, List, length, Option, ◌<◌, ◌^◌, ◌≤◌}

-- The state stands for some records, and their dumps have a length that a `ssize_t` can hold.
pub record IsSane (s : State) : Type 0 where
  pub g : Ghost
  pub extra : List Ptr
  pub rep : IsRep s g extra
  pub small : length (images g.queue) < 2 ^ 63

abbrev pub IsUnlocked : State → Type 0
IsUnlocked s = s.mutex_locked ≡ false

-- The other tasks leave a state of this kind, and the mutex unlocked.
abbrev pub Leaves : (State → State) → Type 0
Leaves f = (s : State) → IsSane s → IsUnlocked s → IsSane (f s) × IsUnlocked (f s)

abbrev pub Keeps : WakeUp → Type 0
Keeps w = Leaves w.before × Leaves w.others

-- A state with the mutex held, and with the mutex free.
abbrev pub held : State → State
held s = record s { mutex_locked = true }

abbrev pub free : State → State
free s = record s { mutex_locked = false }

-- From the state `s`, the reader comes to look at the fifo in the state `t`, with `rest` still before
-- it: at once, or after rounds in which it found no record and was woken with no signal pending.
pub data Looks (s : State) : List WakeUp → State → List WakeUp → Type 0 where
  at_once : (wakes : List WakeUp) → Looks s wakes s wakes
  woken :
      (w : WakeUp) (wakes : List WakeUp) (t : State) (rest : List WakeUp)
      → Looks s wakes t (w ∷ rest)
      → t.recorded_syscalls.bytes ≡ []
      → w.signal_pending ≡ false
      → (w.before (free t)).wake_ups < (slept w (free t)).wake_ups
      → Looks s wakes (slept w (free t)) rest

-- In the state `t` the fifo held records, and they were dumped under the mutex.
pub record HasDumped (k : Kernel) (buf size : ℕ) (t : State) (r : Read) (s' : State) : Type 0 where
  pub u : State
  pub pending : Option Located
  pub current : Option Item
  pub it : Item
  pub queue : List Item
  pub extra : List Ptr
  pub ret : ℤ
  pub rep : IsRep (held t) (ghost pending current (it ∷ queue)) extra
  pub answer : r ≡ returned false ret
  pub dumps : Dumps k (held t) buf size 0 false pending current (it ∷ queue) extra ret u
  pub unlocks : s' ≡ free u

-- The ways a read from the state `s` ends. A reader that has returned is in the wait queue no more.
pub data Outcome (k : Kernel) (nonblock : Bool) (buf size : ℕ) (s : State) (wakes : List WakeUp)
    (r : Read) (s' : State) : Type 0 where
  -- No record was there, and the reader sleeps: there is no more to tell of,
  sleeps :
      (t : State)
      → Looks s wakes t []
      → t.recorded_syscalls.bytes ≡ []
      → nonblock ≡ false
      → r ≡ asleep true
      → s' ≡ free t
      → Outcome k nonblock buf size s wakes r s'
  -- or nothing has woken it since `prepare_to_wait`, though records may have come before.
  sleeps_on :
      (t : State) (w : WakeUp) (rest : List WakeUp)
      → Looks s wakes t (w ∷ rest)
      → t.recorded_syscalls.bytes ≡ []
      → nonblock ≡ false
      → w.signal_pending ≡ false
      → (slept w (free t)).wake_ups ≤ (w.before (free t)).wake_ups
      → r ≡ asleep true
      → s' ≡ slept w (free t)
      → Outcome k nonblock buf size s wakes r s'
  -- No record was there, and the reader does not want to wait.
  nothing :
      s.recorded_syscalls.bytes ≡ []
      → nonblock ≡ true
      → r ≡ returned false (pos 0)
      → s' ≡ free s
      → Outcome k nonblock buf size s wakes r s'
  -- A signal has ended the sleep.
  interrupted :
      (t : State) (w : WakeUp) (rest : List WakeUp)
      → Looks s wakes t (w ∷ rest)
      → t.recorded_syscalls.bytes ≡ []
      → nonblock ≡ false
      → w.signal_pending ≡ true
      → r ≡ returned false erestartsys
      → s' ≡ slept w (free t)
      → Outcome k nonblock buf size s wakes r s'
  -- The records that were there when it looked were dumped.
  dumped :
      (t : State) (rest : List WakeUp)
      → Looks s wakes t rest
      → HasDumped k buf size t r s'
      → Outcome k nonblock buf size s wakes r s'

abbrev pub Ended : Kernel → Bool → ℕ → ℕ → State → List WakeUp → Read → State → Type 0
Ended k nonblock buf size s wakes r s' =
    IsUnlocked s' × IsSane s' × Outcome k nonblock buf size s wakes r s'

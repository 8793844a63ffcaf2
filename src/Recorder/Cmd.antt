-- ===== src/Recorder/Cmd.antt =====
-- Commands: what a function of the module does to the state. A use of a block that is not allocated
-- or holds something else, a second lock and a stray unlock are faults.
pub mod Alloc
use rr_python.Common.{
  ℕ, ◌+◌, ◌≡◌, Bool, true, false, Option, none, some, List, [], ◌∷◌, ◌||◌, not, ◌==◌, leb, ltb,
  if◌then◌else◌,
}
use rr_python.Common.Signed.{ℤ, pos, ◌==ℤ◌}
use rr_python.Recorder.State.{
  Ptr, null, CopyRecord, SyscallRecord, SyscallRecordedMem, Object, syscall, copy, recorded_mem,
  buffer, write, State, Task,
}
use rr_python.Recorder.Kernel.{Kernel, zero_size_ptr}

pub data Run (A : Type 0) : Type 0 where
  ok : A → State → Run A
  fault : Run A
  out_of_fuel : Run A

abbrev pub Cmd : Type 0 → Type 0
Cmd A = State → Run A

abbrev pub pure : {A : Type 0} → A → Cmd A
pure = ok

module _ {A B : Type 0} where
  abbrev pub and_then : Run A → (A → Cmd B) → Run B
  and_then (ok a s) k = k a s
  and_then fault k = fault
  and_then out_of_fuel k = out_of_fuel

  infixl 5 ◌>>=◌ ◌>>◌
  abbrev pub ◌>>=◌ : Cmd A → (A → Cmd B) → Cmd B
  m >>= k = λ s. and_then (m s) k

  abbrev pub ◌>>◌ : Cmd A → Cmd B → Cmd B
  m >> n = m >>= λ _. n

abbrev pub get : Cmd State
get s = ok s s

abbrev pub put : State → Cmd (Unit {0})
put s _ = ok tt s

-- `p = kmalloc(n, GFP_KERNEL)`, and the object of `size` bytes that is then stored in the block. A
-- failure is NULL, and a block too small for what is stored in it is a fault.
unfoldable pub kmalloc : Kernel → ℕ → ℕ → Object → Cmd Ptr
kmalloc k n size o s =
    if n == 0
    then (if size == 0 then ok zero_size_ptr s else fault)
    else let p = k.kmalloc s.calls s.heap n in
      if p == null
      then ok null (record s { calls = s.calls + 1 })
      else if ltb n size
      then fault
      else ok p (record s { heap = write s.heap p (some o); calls = s.calls + 1 })

-- `kfree(p)`: nothing at NULL and at the block of size 0.
unfoldable pub kfree : Ptr → Cmd (Unit {0})
kfree p s =
    if leb p zero_size_ptr
    then ok tt s
    else elim (s.heap p) [ none ↦ fault | some o ↦ ok tt (record s { heap = write s.heap p none }) ]

abbrev pub as_syscall : Option Object → Option SyscallRecord
as_syscall (some (syscall r)) = some r
as_syscall _ = none

abbrev pub as_copy : Option Object → Option CopyRecord
as_copy (some (copy c)) = some c
as_copy _ = none

abbrev pub as_recorded_mem : Option Object → Option SyscallRecordedMem
as_recorded_mem (some (recorded_mem m)) = some m
as_recorded_mem _ = none

abbrev pub or_fault : {A : Type 0} → Option A → Cmd A
or_fault none s = fault
or_fault (some a) s = ok a s

-- `*p` for each kind of block.
unfoldable pub load_syscall : Ptr → Cmd SyscallRecord
load_syscall p s = or_fault (as_syscall (s.heap p)) s

unfoldable pub load_copy : Ptr → Cmd CopyRecord
load_copy p s = or_fault (as_copy (s.heap p)) s

unfoldable pub load_recorded_mem : Ptr → Cmd SyscallRecordedMem
load_recorded_mem p s = or_fault (as_recorded_mem (s.heap p)) s

-- `*p = o`
unfoldable pub store : Ptr → Object → Cmd (Unit {0})
store p o s = elim (s.heap p) [
  | none ↦ fault
  | some _ ↦ ok tt (record s { heap = write s.heap p (some o) })
]

unfoldable pub mutex_lock : Cmd (Unit {0})
mutex_lock s = if s.mutex_locked then fault else ok tt (record s { mutex_locked = true })

unfoldable pub mutex_unlock : Cmd (Unit {0})
mutex_unlock s = if s.mutex_locked then ok tt (record s { mutex_locked = false }) else fault

-- Not `current->pid != recorded_process_pid || recorded_process_pid == 0`.
unfoldable pub is_recorded : Task → State → Bool
is_recorded current s =
    not (not (current.pid ==ℤ s.recorded_process_pid) || (s.recorded_process_pid ==ℤ pos 0))

-- The run ends without a fault and with fuel to spare, and its result and state are as described.
abbrev pub Returns : {A : Type 0} → (A → State → Type 0) → Run A → Type 0
Returns P (ok a s) = P a s
Returns P fault = ⊥
Returns P out_of_fuel = ⊥

pub Returns-bind :
    {A B : Type 0} (P : A → State → Type 0) (Q : B → State → Type 0) (r : Run A) (f : A → Cmd B)
    → Returns P r
    → ((a : A) (s : State) → P a s → Returns Q (f a s))
    → Returns Q (and_then r f)
Returns-bind P Q (ok a s) f h next = next a s h
Returns-bind P Q fault f h next = h
Returns-bind P Q out_of_fuel f h next = h

pub Returns-mono :
    {A : Type 0} (P Q : A → State → Type 0) (r : Run A)
    → Returns P r
    → ((a : A) (s : State) → P a s → Q a s)
    → Returns Q r
Returns-mono P Q (ok a s) h weaken = weaken a s h
Returns-mono P Q fault h weaken = h
Returns-mono P Q out_of_fuel h weaken = h

-- ===== src/Recorder/Cmd/Alloc.antt =====
-- What `kmalloc` and `kfree` do, from what Linux documents of them.
use rr_python.Common.{
  refl, ◌<◌, ◌≤◌, ◌⊎◌, lt→leb_false, ◌^◌, ◌==◌, false, arith, ltb, Bool-cases, inl, inr, true,
}
use rr_python.Recorder.Cmd.{
  kfree, kmalloc, Kernel, Ptr, null, ℕ, ◌+◌, Object, write, zero_size_ptr, ◌≡◌, none, ok, some,
  Returns, load_copy, load_recorded_mem, load_syscall, store, mutex_lock, mutex_unlock,
}
use rr_python.Recorder.State.{
  State, CopyRecord, SyscallRecord, SyscallRecordedMem, copy, recorded_mem, syscall,
}
use rr_python.Recorder.Kernel.{IsKernel, kmalloc_max}

-- The state after a block was handed out at `p`, and after a failure.
abbrev pub allocated : State → Ptr → Object → State
allocated s p o = record s { heap = write s.heap p (some o); calls = s.calls + 1 }

abbrev pub refused : State → State
refused s = record s { calls = s.calls + 1 }

abbrev pub freed : State → Ptr → State
freed s p = record s { heap = write s.heap p none }

-- A new block is at an address that held none, and has at most the largest size.
pub record IsNew (s : State) (n : ℕ) (p : Ptr) : Type 0 where
  pub above : zero_size_ptr < p
  pub word : p < 2 ^ 64
  pub unused : s.heap p ≡ none
  pub small : n ≤ kmalloc_max

-- The two outcomes of an allocation.
abbrev pub Alloc : Kernel → State → ℕ → Object → Ptr → State → Type 0
Alloc k s n o p s' =
    ((p ≡ null) × (k.kmalloc s.calls s.heap n ≡ null) × (s' ≡ refused s))
    ⊎ (IsNew s n p × (s' ≡ allocated s p o))

pub kmalloc-Alloc :
    (k : Kernel) (n size : ℕ) (o : Object) (s : State)
    → IsKernel k
    → size ≤ n
    → 0 < n
    → Returns (Alloc k s n o) (kmalloc k n size o s)
unfolding kmalloc
kmalloc-Alloc k n size o s is fits some_size =
    elim (Bool-cases (k.kmalloc s.calls s.heap n == null)) [
      | inl failed ↦ rw (n_pos, failed) (inl (refl, ground arith, refl))
      | inr got ↦ rw (n_pos, got, enough) (inr (new got, refl))
    ]
  where
    n_pos : (n == 0) ≡ false
    n_pos = ground arith

    enough : ltb n size ≡ false
    enough = ground arith

    new : (k.kmalloc s.calls s.heap n == null) ≡ false → IsNew s n (k.kmalloc s.calls s.heap n)
    new got =
        let f = is.kmalloc_fresh s.calls s.heap n (ground arith) in
        record { above = f.0; word = f.1; unused = f.2; small = f.3 }

pub kfree-freed :
    (p : Ptr) {o : Object} (s : State)
    → zero_size_ptr < p
    → s.heap p ≡ some o
    → kfree p s ≡ ok tt (freed s p)
unfolding kfree
kfree-freed p s h e = rw (lt→leb_false p zero_size_ptr h, e)

pub kfree-null : (s : State) → kfree null s ≡ ok tt s
unfolding kfree
kfree-null s = refl

module _ (p : Ptr) (s : State) where
  pub load_syscall-ok :
      {r : SyscallRecord} → s.heap p ≡ some (syscall r) → load_syscall p s ≡ ok r s
  unfolding load_syscall
  load_syscall-ok e = rw e

  pub load_copy-ok : {c : CopyRecord} → s.heap p ≡ some (copy c) → load_copy p s ≡ ok c s
  unfolding load_copy
  load_copy-ok e = rw e

  pub load_recorded_mem-ok :
      {m : SyscallRecordedMem} → s.heap p ≡ some (recorded_mem m) → load_recorded_mem p s ≡ ok m s
  unfolding load_recorded_mem
  load_recorded_mem-ok e = rw e

  pub store-ok :
      {o : Object} (o' : Object)
      → s.heap p ≡ some o
      → store p o' s ≡ ok tt (record s { heap = write s.heap p (some o') })
  unfolding store
  store-ok o' e = rw (e, store)

pub mutex_lock-ok :
    (s : State) → s.mutex_locked ≡ false → mutex_lock s ≡ ok tt (record s { mutex_locked = true })
unfolding mutex_lock
mutex_lock-ok s e = rw e

pub mutex_unlock-ok :
    (s : State) → s.mutex_locked ≡ true → mutex_unlock s ≡ ok tt (record s { mutex_locked = false })
unfolding mutex_unlock
mutex_unlock-ok s e = rw e

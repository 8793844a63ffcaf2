-- ===== src/Recorder/SyscallWrapper/Record.antt =====
-- The loop of post_wrap_syscall of recorder/src/syscall_wrapper.c.
use rr_python.Recorder.Invariant.Blocks.{IsRep-take_block, IsRep-attach_block}
use rr_python.Recorder.Cmd.Alloc.{Alloc, kmalloc-Alloc, load_syscall-ok, store-ok}
use rr_python.Recorder.SyscallWrapper.Changes.{byte_copy, changes}
use rr_python.Recorder.Cmd.{Returns, ok, Returns-bind, Returns-mono}
use rr_python.Recorder.CopyToUser.{add_to_current}
use rr_python.Recorder.SyscallWrapper.{record_byte, record_changes}
use rr_python.Recorder.Invariant.{
  Item, Located, IsRep, ghost, attached, block, block-attached, IsRep-touch, write_self,
}
use rr_python.Recorder.Kernel.{Kernel, IsKernel, kmalloc_max}
use rr_python.Recorder.State.{State, CopyRecord, Ptr, null, write, syscall, copy}
use rr_python.Common.{
  [], ◌∷◌, ◌++◌, true, false, some, List, Option, ℕ, ◌∙◌, ◌≡◌, arith, ◌≤◌, Bool, ◌<◌, ◌⊎◌, ◌≢◌, inl,
  ap₂, inr, ◌==◌, ap, refl, subst, append-nil, append_assoc, ◌+◌, length, ◌^◌, ◌%◌, Bool-cases,
  length-append,
}

abbrev pub contents : List Located → List CopyRecord
contents [] = []
contents ((p, c) ∷ cs) = c ∷ contents cs

-- The item with more copies at the end.
abbrev pub extended : Item → List Located → Item
extended it cs = record it { copies = it.copies ++ cs }

-- What a wrapper's functions leave alone.
pub record SameProbe (s s' : State) : Type 0 where
  pub memory : s'.memory ≡ s.memory
  pub frames : s'.frames ≡ s.frames
  pub pid : s'.recorded_process_pid ≡ s.recorded_process_pid
  pub record_ptr : s'.current_syscall_record ≡ s.current_syscall_record
  pub copy_ptr : s'.current_copy ≡ s.current_copy
  pub fifo : s'.recorded_syscalls ≡ s.recorded_syscalls
  pub mutex : s'.mutex_locked ≡ s.mutex_locked
  pub wake_ups : s'.wake_ups ≡ s.wake_ups
  pub calls : s.calls ≤ s'.calls

pub SameProbe-trans : {s t u : State} → SameProbe s t → SameProbe t u → SameProbe s u
SameProbe-trans p q = record {
  memory = q.memory ∙ p.memory;
  frames = q.frames ∙ p.frames;
  pid = q.pid ∙ p.pid;
  record_ptr = q.record_ptr ∙ p.record_ptr;
  copy_ptr = q.copy_ptr ∙ p.copy_ptr;
  fifo = q.fifo ∙ p.fifo;
  mutex = q.mutex ∙ p.mutex;
  wake_ups = q.wake_ups ∙ p.wake_ups;
  calls = omega (arith, p.calls, q.calls);
}

-- The memory that is compared, and how many blocks of others and how many copies of the current
-- record there can be meanwhile.
pub record Limits : Type 0 where
  pub ptr : Ptr
  pub len : ℕ
  pub extras : ℕ
  pub copies : ℕ

-- Why the recording of the bytes ended early in the run from `s` to `s'`: there was no memory for a
-- block of at most the largest size, in a state in which the heap holds what the recorder holds,
-- with some copies more in the current record and the module's buffers; or the bytes could not be
-- read.
pub data Failed (k : Kernel) (lim : Limits) (pending : Option Located) (it : Item)
    (queue : List Item) (s s' : State) : Type 0 where
  no_memory :
      (u : State) (cs : List Located) (extra : List Ptr) (size : ℕ)
      → IsRep u (ghost pending (some (extended it cs)) queue) extra
      → s.calls ≤ u.calls
      → u.calls < s'.calls
      → length extra ≤ lim.extras
      → length (extended it cs).copies ≤ lim.copies
      → size ≤ kmalloc_max
      → k.kmalloc u.calls u.heap size ≡ null
      → Failed k lim pending it queue s s'
  unreadable :
      (c : ℕ)
      → s.calls ≤ c
      → c < s'.calls
      → (k.copy_from_user c s.memory lim.ptr lim.len).1 ≢ 0
      → Failed k lim pending it queue s s'

-- The first of the copies `cs` have joined the current record: all of them, unless a call failed.
pub record Changed (k : Kernel) (lim : Limits) (s : State) (pending : Option Located) (it : Item)
    (queue : List Item) (extra : List Ptr) (cs : List CopyRecord) (s' : State) : Type 0 where
  pub added : List Located
  pub left : List CopyRecord
  pub all : contents added ++ left ≡ cs
  pub reason : (left ≡ []) ⊎ Failed k lim pending it queue s s'
  pub rep : IsRep s' (ghost pending (some (extended it added)) queue) extra
  pub same : SameProbe s s'

pub extended-none : (it : Item) → extended it [] ≡ it
extended-none it = ap (λ cs. record it { copies = cs }) (append-nil it.copies)

extended-more :
    (it : Item) (c : Located) (cs : List Located)
    → extended (attached it c) cs ≡ extended it (c ∷ cs)
extended-more it c cs = ap (λ l. record it { copies = l }) (append_assoc it.copies (c ∷ []) cs)

-- What becomes of one byte.
pub data Byte (k : Kernel) (lim : Limits) (s : State) (pending : Option Located) (it : Item)
    (queue : List Item) (extra : List Ptr) (to byte : ℕ) (b : Bool) (s' : State) : Type 0 where
  joined :
      (p : Ptr)
      → b ≡ true
      → IsRep s' (ghost pending (some (attached it (p, byte_copy to byte))) queue) extra
      → SameProbe s s'
      → Byte k lim s pending it queue extra to byte b s'
  no_room :
      b ≡ false
      → Failed k lim pending it queue s s'
      → IsRep s' (ghost pending (some it) queue) extra
      → SameProbe s s'
      → Byte k lim s pending it queue extra to byte b s'

module _ {s : State} {pending : Option Located} {it : Item} {queue : List Item}
    {extra : List Ptr} where
  add_to_current-joined :
      (p : Ptr) (c : CopyRecord)
      → IsRep s (ghost pending (some it) queue) extra
      → add_to_current p s
        ≡ ok tt
            (record s { heap = write s.heap it.ptr (some (syscall (block (attached it (p, c))))) })
  unfolding add_to_current
  add_to_current-joined p c rep =
      let held = rw (← rep.current_at.0) at rep.current_at.1.1 in
      rw (load_syscall-ok s.current_syscall_record s held) (
        store-ok s.current_syscall_record s _ held
        ∙ ap₂ (λ q r. ok tt (record s { heap = write s.heap q (some (syscall r)) }))
            rep.current_at.0 (block-attached it p c))

module _ {s : State} {pending : Option Located} {it : Item} {queue : List Item}
    {extra : List Ptr} where
  record_byte-Byte :
      {k : Kernel} (lim : Limits) (to byte : ℕ)
      → IsKernel k
      → IsRep s (ghost pending (some it) queue) extra
      → length extra ≤ lim.extras
      → length it.copies ≤ lim.copies
      → Returns (Byte k lim s pending it queue extra to byte) (record_byte k to byte s)
  unfolding record_byte
  record_byte-Byte {k} lim to byte is rep few room =
      Returns-bind (Alloc k s _ (copy (byte_copy to byte))) _ _ _
        (kmalloc-Alloc k _ _ _ s is (omega arith) (omega arith))
        λ p s' al. elim al [
          | inl (e, failed, e') ↦
              rw (e, e')
                (no_room refl
                  (no_memory s [] extra _ (rw (extended-none it) rep) (omega arith) (omega arith)
                    few (omega (arith, ap length (append-nil it.copies), room)) (omega arith)
                    failed)
                  (IsRep-touch s.memory s.frames s.recorded_process_pid s.mutex_locked s.wake_ups
                    (s.calls + 1) rep)
                  (ground arith))
          | inr (new, e') ↦
              let some_block : (p == null) ≡ false = ground (arith, new.above) in
              let taken = IsRep-take_block (copy (byte_copy to byte)) rep new in
              rw (e', some_block, add_to_current-joined p (byte_copy to byte) taken)
                (joined p refl
                  (IsRep-attach_block taken (write_self s.heap p _) (refl, omega arith))
                  (ground arith))
        ]

pub Failed-before :
    {k : Kernel} {lim : Limits} {pending : Option Located} {it : Item} {queue : List Item}
    {s t u : State}
    → SameProbe s t
    → Failed k lim pending it queue t u
    → Failed k lim pending it queue s u
Failed-before same (no_memory v cs extra size rep from to few room small e) =
    no_memory v cs extra size rep (omega (arith, same.calls)) to few room small e
Failed-before {k} {lim} same (unreadable c from to e) =
    unreadable c (omega (arith, same.calls)) to
      (subst (λ m. (k.copy_from_user c m lim.ptr lim.len).1 ≢ 0) same.memory e)

-- A failure after one more copy has joined.
Failed-attached :
    {k : Kernel} {lim : Limits} {pending : Option Located} {it : Item} (c : Located)
    {queue : List Item} {s t : State}
    → Failed k lim pending (attached it c) queue s t
    → Failed k lim pending it queue s t
Failed-attached {pending = pending} {it = it} c {queue}
      (no_memory v cs extra size rep from to few room small e) =
    no_memory v (c ∷ cs) extra size
      (subst (λ i. IsRep v (ghost pending (some i) queue) extra) (extended-more it c cs) rep) from
      to few (omega (arith, ap length (ap (λ (i : Item). i.copies) (extended-more it c cs)), room))
      small e
Failed-attached c (unreadable m from to e) = unreadable m from to e

module _ {k : Kernel} {lim : Limits} {s : State} {pending : Option Located} {it : Item}
    {queue : List Item} {extra : List Ptr} where
  pub Changed-nothing :
      IsRep s (ghost pending (some it) queue) extra → Changed k lim s pending it queue extra [] s
  Changed-nothing rep = record {
    added = [];
    left = [];
    all = refl;
    reason = inl refl;
    rep = rw (extended-none it) rep;
    same = ground arith;
  }

  pub Changed-stop :
      {s' : State} (cs : List CopyRecord)
      → Failed k lim pending it queue s s'
      → IsRep s' (ghost pending (some it) queue) extra
      → SameProbe s s'
      → Changed k lim s pending it queue extra cs s'
  Changed-stop cs why rep same = record {
    added = [];
    left = cs;
    all = refl;
    reason = inr why;
    rep = rw (extended-none it) rep;
    same = same;
  }

  Changed-more :
      {s₁ s' : State} {cs : List CopyRecord} (p : Ptr) (c : CopyRecord)
      → SameProbe s s₁
      → Changed k lim s₁ pending (attached it (p, c)) queue extra cs s'
      → Changed k lim s pending it queue extra (c ∷ cs) s'
  Changed-more {s' = s'} p c same more = record {
    added = (p, c) ∷ more.added;
    left = more.left;
    all = ap (λ l. c ∷ l) more.all;
    reason = elim more.reason [
      | inl e ↦ inl e
      | inr f ↦ inr (Failed-before same (Failed-attached (p, c) f))
    ];
    rep =
        subst (λ i. IsRep s' (ghost pending (some i) queue) extra)
          (extended-more it (p, c) more.added) more.rep;
    same = SameProbe-trans same more.same;
  }

module _ {k : Kernel} (is : IsKernel k) (lim : Limits) {pending : Option Located}
    {queue : List Item} {extra : List Ptr} where
  pub record_changes-Changed :
      (to : Ptr) (old new : List ℕ) {s : State} {it : Item}
      → IsRep s (ghost pending (some it) queue) extra
      → length extra ≤ lim.extras
      → length it.copies + length old ≤ lim.copies
      → length old ≡ length new
      → to + length old < 2 ^ 64
      → Returns
          (λ r s'. Changed k lim s pending it queue extra (changes to old new) s')
          (record_changes k to old new s)
  unfolding record_changes changes
  record_changes-Changed to [] new rep few room_for e room = Changed-nothing rep
  record_changes-Changed to (x ∷ old) [] rep few room_for e room = absurd (omega arith)
  record_changes-Changed to (x ∷ old) (y ∷ new) {s} {it} rep few room_for e room =
      let next : (to + 1) % 2 ^ 64 ≡ to + 1 = omega arith in
      elim (Bool-cases (x == y)) [
        | inl same ↦
            rw (same, next)
              (record_changes-Changed (to + 1) old new rep few (omega (arith, room_for))
                (omega arith) (omega arith))
        | inr changed ↦
            rw (changed, next)
              (Returns-bind (Byte k lim s pending it queue extra to y) _ _ _
                (record_byte-Byte lim to y is rep few (omega (arith, room_for)))
                λ b s₁ one. elim one [
                  | no_room e' why rep' same ↦ rw e' (Changed-stop _ why rep' same)
                  | joined p e' rep' same ↦ rw e' (
                      Returns-mono _ _ _
                        (record_changes-Changed (to + 1) old new rep' few
                          (omega
                            (arith, room_for, length-append it.copies ((p, byte_copy to y) ∷ [])))
                          (omega arith) (omega arith))
                        (λ r s'. Changed-more p (byte_copy to y) same))
                ])
      ]

-- ===== src/Recorder/SyscallWrapper/Compare.antt =====
-- post_wrap_syscall of recorder/src/syscall_wrapper.c.
use rr_python.Recorder.Invariant.Blocks.{
  IsRep-free_block, owned_above, IsRep-write_block, IsRep-take_block,
}
use rr_python.Recorder.Cmd.Alloc.{
  freed, Alloc, kfree-freed, kmalloc-Alloc, IsNew, store-ok, allocated, load_recorded_mem-ok,
}
use rr_python.Common.Bytes.{read_bytes, length-read_bytes}
use rr_python.Recorder.Cmd.{kfree, Returns, ok, and_then, Returns-bind, Returns-mono, kmalloc}
use rr_python.Recorder.SyscallWrapper.{
  copy_from_user, compare_mem, fill_new_mem, record_changes, compare_new_mem, post_wrap_syscall,
}
use rr_python.Recorder.SyscallWrapper.Changes.{changes}
use rr_python.Recorder.SyscallWrapper.Record.{
  Failed, no_memory, Changed, SameProbe, unreadable, Failed-before, SameProbe-trans,
  record_changes-Changed, Changed-stop, Changed-nothing, extended-none, Limits,
}
use rr_python.Recorder.Invariant.{
  Ghost, Located, IsRep, Item, ghost, count_ghost, IsRep-touch, write_self,
}
use rr_python.Recorder.Kernel.{Kernel, IsKernel, kmalloc_max, zero_size_ptr}
use rr_python.Recorder.State.{
  State, SyscallRecordedMem, CopyRecord, Ptr, live, buffer, write, null, recorded_mem,
}
use rr_python.Common.{
  [], ◌∷◌, true, false, some, List, Option, length, ◌≤◌, ◌≡◌, arith, ◌+◌, inl, ◌<◌, inr, ◌^◌, count,
  Option-cases, ◌∙◌, sym, ℕ, ◌==◌, Bool-cases, eq→==, refl, ap, append-nil,
}

Failed-after :
    {k : Kernel} {lim : Limits} {pending : Option Located} {it : Item} {queue : List Item}
    {s t u : State}
    → t.calls ≤ u.calls
    → Failed k lim pending it queue s t
    → Failed k lim pending it queue s u
Failed-after later (no_memory v cs extra size rep from to few room small e) =
    no_memory v cs extra size rep from (omega (arith, later)) few room small e
Failed-after later (unreadable c from to e) = unreadable c from (omega (arith, later)) e

-- A block that other code owns can be freed.
pub kfree-owned :
    {s : State} {g : Ghost} {extra : List Ptr} (p : Ptr)
    → IsRep s g (p ∷ extra)
    → kfree p s ≡ ok tt (freed s p)
kfree-owned {s} {g} {extra} p rep =
    let one : live (s.heap p) ≡ count_ghost p g + count p (p ∷ extra) = rep.exact p in
    elim (Option-cases (s.heap p)) [
      | inl e ↦ let z : live (s.heap p) ≡ 0 = rw e in absurd (ground (arith, one, z))
      | inr (o, e) ↦ kfree-freed p s (owned_above p rep (ground arith)) e
    ]

module _ {k : Kernel} {lim : Limits} {s : State} {pending : Option Located} {it : Item}
    {queue : List Item} {extra : List Ptr} {cs : List CopyRecord} where
  Changed-freed :
      {s' : State} (p : Ptr)
      → Changed k lim s pending it queue (p ∷ extra) cs s'
      → Changed k lim s pending it queue extra cs (freed s' p)
  Changed-freed {s'} p ch = record {
    added = ch.added;
    left = ch.left;
    all = ch.all;
    reason = elim ch.reason [ inl e ↦ inl e | inr f ↦ inr (Failed-after (omega arith) f) ];
    rep = IsRep-free_block ch.rep;
    same = SameProbe-trans ch.same (ground arith);
  }

  Changed-before :
      {s₁ s' : State}
      → SameProbe s s₁
      → Changed k lim s₁ pending it queue extra cs s'
      → Changed k lim s pending it queue extra cs s'
  Changed-before same ch = record {
    added = ch.added;
    left = ch.left;
    all = ch.all;
    reason = elim ch.reason [ inl e ↦ inl e | inr f ↦ inr (Failed-before same f) ];
    rep = ch.rep;
    same = SameProbe-trans same ch.same;
  }

length-zero : (l : List ℕ) → length l ≡ 0 → l ≡ []
length-zero [] e = refl
length-zero (x ∷ l) e = absurd (omega arith)

-- The bytes that were saved, and where.
pub record IsSaved (m : SyscallRecordedMem) : Type 0 where
  pub whole : length m.mem ≡ m.len
  pub small : m.len ≤ kmalloc_max
  pub in_memory : m.ptr + m.len < 2 ^ 64

-- What has changed in memory since.
abbrev pub changed_since : State → SyscallRecordedMem → List CopyRecord
changed_since s m = changes m.ptr m.mem (read_bytes s.memory m.ptr m.len)

-- While the memory `m` is compared there are at most two blocks more, the saved bytes and the new
-- ones, and for each byte a copy.
abbrev pub limits_of : SyscallRecordedMem → Item → ℕ → Limits
limits_of m it extras = record {
  ptr = m.ptr;
  len = m.len;
  extras = extras;
  copies = length it.copies + m.len;
}

abbrev pub limits : SyscallRecordedMem → Item → List Ptr → Limits
limits m it extra = limits_of m it (length extra + 2)

-- What `copy_from_user` answers after `kmalloc`, and the state with its bytes in the new block.
module _ (k : Kernel) (m : SyscallRecordedMem) where
  abbrev read : State → List ℕ × ℕ
  read s = k.copy_from_user (s.calls + 1) s.memory m.ptr m.len

  abbrev read_state : State → Ptr → State
  read_state s p = record s {
    heap = write (write s.heap p (some (buffer []))) p (some (buffer (read s).0));
    calls = s.calls + 1 + 1;
  }

module _ {k : Kernel} (is : IsKernel k) (m : SyscallRecordedMem) (saved : IsSaved m)
    {pending : Option Located} {it : Item} {queue : List Item} {extra : List Ptr} (most : ℕ)
    (few : length extra + 1 ≤ most) where
  -- With the new bytes read, the loop and `kfree(new_mem)`.
  finish_block :
      (p : Ptr) {s : State}
      → IsRep s (ghost pending (some it) queue) (p ∷ extra)
      → Returns
          (λ r s'. Changed k (limits_of m it most) s pending it queue extra (changed_since s m) s')
          (and_then
            (record_changes k m.ptr m.mem (read_bytes s.memory m.ptr m.len) s)
            (λ _. kfree p))
  finish_block p {s} rep =
      Returns-bind
        (λ r s'.
          Changed k (limits_of m it most) s pending it queue (p ∷ extra) (changed_since s m) s')
        _ _ _
        (record_changes-Changed is (limits_of m it most) m.ptr m.mem
          (read_bytes s.memory m.ptr m.len) rep (omega (arith, few)) (omega (arith, saved.whole))
          (saved.whole ∙ sym (length-read_bytes s.memory m.ptr m.len))
          (omega (arith, saved.whole, saved.in_memory)))
        λ r s' ch. rw (kfree-owned p ch.rep) (Changed-freed p ch)

  compare_mem-empty :
      {s : State}
      → m.len ≡ 0
      → m.mem ≡ []
      → IsRep s (ghost pending (some it) queue) extra
      → Returns
          (λ r s'. Changed k (limits_of m it most) s pending it queue extra (changed_since s m) s')
          (compare_mem k m s)
  unfolding compare_mem compare_new_mem kmalloc fill_new_mem kfree copy_from_user record_changes
      changes
  compare_mem-empty {s} none_saved no_bytes rep =
      let rep' =
        IsRep-touch s.memory s.frames s.recorded_process_pid s.mutex_locked s.wake_ups (s.calls + 1)
          rep in
      elim (Bool-cases ((k.copy_from_user s.calls s.memory m.ptr 0).1 == 0)) [
        | inl whole ↦
            rw (none_saved, no_bytes, whole) (Changed-before (ground arith) (Changed-nothing rep'))
        | inr partial ↦
            rw (none_saved, no_bytes, partial)
              (Changed-before (ground arith) (Changed-nothing rep'))
      ]

  read_state-IsRep :
      {s : State} {p : Ptr}
      → IsRep s (ghost pending (some it) queue) extra
      → IsNew s m.len p
      → IsRep (read_state k m s p) (ghost pending (some it) queue) (p ∷ extra)
  read_state-IsRep {s} {p} rep new =
      IsRep-touch s.memory s.frames s.recorded_process_pid s.mutex_locked s.wake_ups
        (s.calls + 1 + 1)
        (IsRep-write_block p (buffer (read k m s).0) (IsRep-take_block (buffer []) rep new)
          (ground arith))

  compare_new_mem-Changed :
      {s : State} {p : Ptr}
      → IsRep s (ghost pending (some it) queue) extra
      → IsNew s m.len p
      → Returns
          (λ r s'. Changed k (limits_of m it most) s pending it queue extra (changed_since s m) s')
          (compare_new_mem k m p (allocated s p (buffer [])))
  unfolding compare_new_mem fill_new_mem copy_from_user
  compare_new_mem-Changed {s} {p} rep new =
      let rep' = read_state-IsRep rep new in
      let no_zero : (p == zero_size_ptr) ≡ false = ground (arith, new.above) in
      let stored =
        store-ok p (record (allocated s p (buffer [])) { calls = s.calls + 1 + 1 })
          (buffer (read k m s).0) (write_self s.heap p _) in
      elim (Bool-cases ((read k m s).1 == 0)) [
        | inl whole ↦
            let bytes : (read k m s).0 ≡ read_bytes s.memory m.ptr m.len =
              is.copy_from_user_whole (s.calls + 1) s.memory m.ptr m.len (ground (arith, whole)) in
            let same_len : (length m.mem == m.len) ≡ true =
              eq→== (length m.mem) m.len saved.whole in
            rw (no_zero, stored, whole, same_len, bytes)
              (Returns-mono _ _ _ (finish_block p (rw bytes at rep'))
                (λ r s'. Changed-before (ground arith)))
        | inr partial ↦
            rw (no_zero, stored, partial, kfree-owned p rep')
              (Changed-stop (changed_since s m)
                (unreadable (s.calls + 1) (omega arith) (omega arith) (ground (arith, partial)))
                (IsRep-free_block rep') (ground arith))
      ]

  compare_mem-Changed :
      {s : State}
      → IsRep s (ghost pending (some it) queue) extra
      → Returns
          (λ r s'. Changed k (limits_of m it most) s pending it queue extra (changed_since s m) s')
          (compare_mem k m s)
  unfolding compare_mem
  compare_mem-Changed {s} rep = elim (Bool-cases (m.len == 0)) [
    | inl none_saved ↦
        compare_mem-empty (ground arith) (length-zero m.mem (ground (arith, saved.whole))) rep
    | inr some_saved ↦
        Returns-bind (Alloc k s m.len (buffer [])) _ _ _
          (kmalloc-Alloc k _ _ _ s is (omega arith) (ground arith))
          λ p s' a. elim a [
            | inl (e, failed, e') ↦
                rw (e, e')
                  (Changed-stop (changed_since s m)
                    (no_memory s [] extra m.len (rw (extended-none it) rep) (omega arith)
                      (omega arith) (omega (arith, few))
                      (omega (arith, ap length (append-nil it.copies))) saved.small failed)
                    (IsRep-touch s.memory s.frames s.recorded_process_pid s.mutex_locked s.wake_ups
                      (s.calls + 1) rep)
                    (ground arith))
            | inr (new, e') ↦
                let above : (p == null) ≡ false = ground (arith, new.above) in
                rw (e', above) (compare_new_mem-Changed rep new)
          ]
  ]

module _ {k : Kernel} (is : IsKernel k) (m : SyscallRecordedMem) (saved : IsSaved m)
    {pending : Option Located} {it : Item} {queue : List Item} {extra : List Ptr} where
  -- With a system call under way and the saved bytes in the block of the probe's slot,
  -- post_wrap_syscall never faults. The bytes that differ from the saved ones join the current
  -- record in order, each as a copy of length 1; all of them, unless the range could not be read or
  -- there was no memory for a block in a heap that holds what the recorder holds, with at most two
  -- buffers and a copy for each byte more. Both buffers are freed, and every block still has one
  -- owner.
  pub post_wrap_syscall-Changed :
      {s : State} {slot : Ptr}
      → IsRep s (ghost pending (some it) queue) (slot ∷ extra)
      → s.heap slot ≡ some (recorded_mem m)
      → Returns
          (λ r s'.
            (r ≡ 0) × Changed k (limits m it extra) s pending it queue extra (changed_since s m) s')
          (post_wrap_syscall k slot s)
  unfolding post_wrap_syscall
  post_wrap_syscall-Changed {s} {slot} rep held = rw (load_recorded_mem-ok slot s held) (
      Returns-bind
        (λ r s'.
          Changed k (limits m it extra) s pending it queue (slot ∷ extra) (changed_since s m) s')
        _ _ _ (compare_mem-Changed is m saved (length extra + 2) (omega arith) rep)
        λ r s' ch. rw (kfree-owned slot ch.rep) (refl, Changed-freed slot ch))

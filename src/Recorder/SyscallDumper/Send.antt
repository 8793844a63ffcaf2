-- ===== src/Recorder/SyscallDumper/Send.antt =====
-- dump_copy_records and dump_syscall_record of recorder/src/syscall_dumper.c.
use rr_python.Recorder.Cmd.Alloc.{load_copy-ok, load_syscall-ok}
use rr_python.Common.Bytes.{
  write_bytes, Memory, write_bytes-append, IsWithin, IsWithin-mono, IsWithin-trans,
  write_bytes-IsWithin,
}
use rr_python.Common.Signed.{ℤ, pos, negsuc}
use rr_python.Recorder.Cmd.{Returns, Returns-bind, Returns-mono}
use rr_python.Recorder.Invariant.{IsFilled, Located, CopiesAt, addresses, Item, RecordAt, block}
use rr_python.Recorder.Image.{copies_bytes, copy_bytes, length-copy_bytes, dump_bytes}
use rr_python.Recorder.SyscallDumper.{
  copy_to_user, dump_copies, dump_copy_record, dump_copy_records, dump_syscall_record,
}
use rr_python.Recorder.Kernel.{Kernel, IsKernel}
use rr_python.Recorder.State.{State, Ptr, CopyRecord}
use rr_python.Common.{
  [], ◌∷◌, ◌++◌, List, ℕ, ◌≡◌, Bool-cases, ◌+◌, length, ◌==◌, arith, inl, ◌<◌, ◌≢◌, ==_iff, ◌^◌, ap,
  le→ltb_false, inr, take_of_le, ◌%◌, eq→==, refl, ne→==_false, length-append, ◌∙◌, sym, ◌≤◌,
}

-- In the run from `s` to `s'` a call of `copy_to_user` into the `size` bytes at `buf` has failed.
pub record Unwritable (k : Kernel) (buf size : ℕ) (s s' : State) : Type 0 where
  pub call : ℕ
  pub memory : Memory
  pub to : Ptr
  pub bytes : List ℕ
  pub from_call : s.calls ≤ call
  pub to_call : call < s'.calls
  pub above : buf ≤ to
  pub below : to + length bytes ≤ buf + size
  pub refuses : (k.copy_to_user call memory to bytes).1 ≢ 0

pub Unwritable-mono :
    {k : Kernel} {buf size buf' size' : ℕ} {s s' t t' : State}
    → buf' ≤ buf
    → buf + size ≤ buf' + size'
    → t.calls ≤ s.calls
    → s'.calls ≤ t'.calls
    → Unwritable k buf size s s'
    → Unwritable k buf' size' t t'
Unwritable-mono from to first last why = record {
  call = why.call;
  memory = why.memory;
  to = why.to;
  bytes = why.bytes;
  from_call = omega (arith, first, why.from_call);
  to_call = omega (arith, last, why.to_call);
  above = omega (arith, from, why.above);
  below = omega (arith, to, why.below);
  refuses = why.refuses;
}

-- What a call of `copy_to_user` leaves.
data Sent (k : Kernel) (s : State) (buf : Ptr) (bytes : List ℕ) (left : ℕ) (s' : State)
    : Type 0 where
  sent :
      left ≡ 0
      → s' ≡ record s { memory = write_bytes s.memory buf bytes; calls = s.calls + 1 }
      → Sent k s buf bytes left s'
  short :
      (m : Memory)
      → left ≢ 0
      → Unwritable k buf (length bytes) s s'
      → IsWithin buf (length bytes) s.memory m
      → s' ≡ record s { memory = m; calls = s.calls + 1 }
      → Sent k s buf bytes left s'

-- What a dump leaves: all its bytes at `buf` and the answer 0, or -1. It changes no block.
pub data Wrote (k : Kernel) (s : State) (buf : Ptr) (bytes : List ℕ) (r : ℤ) (s' : State)
    : Type 0 where
  whole :
      (c : ℕ)
      → r ≡ pos 0
      → s.calls ≤ s'.calls
      → s' ≡ record s { memory = write_bytes s.memory buf bytes; calls = c }
      → Wrote k s buf bytes r s'
  failed :
      (m : Memory) (c : ℕ)
      → r ≡ negsuc 0
      → Unwritable k buf (length bytes) s s'
      → IsWithin buf (length bytes) s.memory m
      → s' ≡ record s { memory = m; calls = c }
      → Wrote k s buf bytes r s'

module _ {k : Kernel} (is : IsKernel k) where
  copy_to_user-Sent :
      (buf : Ptr) (bytes : List ℕ) (s : State)
      → Returns (Sent k s buf bytes) (copy_to_user k buf bytes s)
  unfolding copy_to_user
  copy_to_user-Sent buf bytes s =
      elim (Bool-cases ((k.copy_to_user s.calls s.memory buf bytes).1 == 0)) [
        | inl done ↦
            let zero_left = (==_iff _ 0).0 done in
            sent zero_left (
              ap (λ m. record s { memory = m; calls = s.calls + 1 })
                (is.copy_to_user_whole s.calls s.memory buf bytes zero_left))
        | inr more ↦
            short _ (λ e. cc (more, eq→== _ 0 e))
              (record {
                call = s.calls;
                memory = s.memory;
                to = buf;
                bytes = bytes;
                from_call = omega arith;
                to_call = omega arith;
                above = omega arith;
                below = omega arith;
                refuses = λ e. cc (more, eq→== _ 0 e);
              })
              (is.copy_to_user_within s.calls s.memory buf bytes) refl
      ]

  dump_copy_record-Sent :
      (c : CopyRecord) (buf : Ptr) (s : State)
      → IsFilled c
      → Returns (Sent k s buf (copy_bytes c)) (dump_copy_record k c (24 + c.len) buf s)
  unfolding dump_copy_record
  dump_copy_record-Sent c buf s full =
      let n : length (copy_bytes c) ≡ 24 + c.len = omega (arith, length-copy_bytes c, full.0) in
      rw
        (
          le→ltb_false (length (copy_bytes c)) (24 + c.len) (omega (arith, n)),
          take_of_le (24 + c.len) (copy_bytes c) (omega (arith, n)),
        )
        (copy_to_user-Sent buf (copy_bytes c) s)

  -- A dump that goes on behind bytes already written.
  Wrote-append :
      (s : State) (buf : Ptr) (xs ys : List ℕ) (c : ℕ) (r : ℤ) (s' : State)
      → Wrote k
          (record s { memory = write_bytes s.memory buf xs; calls = c })
          (buf + length xs)
          ys
          r
          s'
      → s.calls ≤ c
      → Wrote k s buf (xs ++ ys) r s'
  Wrote-append s buf xs ys c r s' (whole n e later e') more =
      whole n e (omega (arith, later, more)) (
        e'
        ∙ ap (λ m. record s { memory = m; calls = n })
            (sym (write_bytes-append s.memory buf xs ys)))
  Wrote-append s buf xs ys c r s' (failed m n e why within e') more =
      failed m n e
        (Unwritable-mono (omega arith) (omega (arith, length-append xs ys)) more (omega arith) why)
        (IsWithin-trans buf (length xs) (buf + length xs) (length ys) buf (length (xs ++ ys))
          s.memory (write_bytes s.memory buf xs) m (omega arith)
          (omega (arith, length-append xs ys)) (omega arith) (omega (arith, length-append xs ys))
          (write_bytes-IsWithin s.memory buf xs) within)
        e'

  dump_copies-Wrote :
      (cs : List Located) (buf : Ptr) (s : State)
      → CopiesAt s.heap cs
      → buf + length (copies_bytes cs) < 2 ^ 64
      → Returns (Wrote k s buf (copies_bytes cs)) (dump_copies k (addresses cs) buf s)
  unfolding dump_copies copies_bytes write_bytes
  dump_copies-Wrote [] buf s at small = whole s.calls refl (omega arith) refl
  dump_copies-Wrote ((p, c) ∷ cs) buf s at small =
      let size : (24 + c.len) % 2 ^ 32 ≡ 24 + c.len = omega (arith, at.1) in
      rw (load_copy-ok p s at.0, size)
        (Returns-bind (Sent k s buf (copy_bytes c)) _ _ _ (dump_copy_record-Sent c buf s at.1)
          λ left s' d. elim d [
            | sent e e' ↦
                rw (e, e', next)
                  (Returns-mono _ _ _
                    (dump_copies-Wrote cs (buf + length (copy_bytes c)) _ at.2
                      (omega (arith, total)))
                    (λ r t w.
                      Wrote-append s buf (copy_bytes c) (copies_bytes cs) (s.calls + 1) r t w
                        (omega arith)))
            | short m ne why within e' ↦
                rw (ne→==_false left 0 ne, e')
                  (failed m (s.calls + 1) refl
                    (Unwritable-mono (omega arith) (omega (arith, total)) (omega arith)
                      (omega (arith, ap (λ (u : State). u.calls) e')) why)
                    (IsWithin-mono buf (length (copy_bytes c)) buf
                      (length (copies_bytes ((p, c) ∷ cs))) s.memory m (omega arith)
                      (omega (arith, total)) within)
                    refl)
          ])
    where
      total : length (copies_bytes ((p, c) ∷ cs)) ≡ length (copy_bytes c) + length (copies_bytes cs)
      total = length-append (copy_bytes c) (copies_bytes cs)

      next : (buf + (24 + c.len)) % 2 ^ 64 ≡ buf + length (copy_bytes c)
      next = omega (arith, total, length-copy_bytes c, at.1)

  -- On a record that is whole.
  pub dump_copy_records-Wrote :
      (it : Item) (buf : Ptr) (s : State)
      → RecordAt s.heap it
      → buf + length (copies_bytes it.copies) < 2 ^ 64
      → Returns (Wrote k s buf (copies_bytes it.copies)) (dump_copy_records k it.ptr buf s)
  unfolding dump_copy_records
  dump_copy_records-Wrote it buf s at small =
      rw (load_syscall-ok it.ptr s at.1) (dump_copies-Wrote it.copies buf s at.2 small)

  pub dump_syscall_record-Wrote :
      (it : Item) (buf : Ptr) (s : State)
      → RecordAt s.heap it
      → Returns (Wrote k s buf (dump_bytes (block it))) (dump_syscall_record k it.ptr buf s)
  unfolding dump_syscall_record
  dump_syscall_record-Wrote it buf s at = rw (load_syscall-ok it.ptr s at.1) (
      Returns-bind (Sent k s buf (dump_bytes (block it))) _ _ _
        (copy_to_user-Sent buf (dump_bytes (block it)) s)
        λ left s' d. elim d [
          | sent e e' ↦
              whole (s.calls + 1) (rw e) (omega (arith, ap (λ (u : State). u.calls) e')) e'
          | short m ne why within e' ↦
              failed m (s.calls + 1) (rw (ne→==_false left 0 ne)) why within e'
        ])

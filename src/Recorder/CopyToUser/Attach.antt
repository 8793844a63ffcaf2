-- ===== src/Recorder/CopyToUser/Attach.antt =====
-- The return handlers of recorder/src/copy_to_user_wrapper.c: post_put and post_copy.
use rr_python.Recorder.Invariant.Copies.{IsRep-attach_copy, IsRep-drop_copy, IsRep-fill_copy}
use rr_python.Recorder.CopyToUser.Ownership.{SameElse}
use rr_python.Recorder.Cmd.Alloc.{load_syscall-ok, store-ok, freed, load_copy-ok, kfree-freed}
use rr_python.Common.Bytes.{read_bytes, length-read_bytes}
use rr_python.Recorder.Invariant.{
  Item, IsRep, ghost, block, attached, block-attached, IsFilled, named_above,
}
use rr_python.Common.{
  ℕ, ◌≡◌, List, arith, if◌then◌else◌, ltb, some, Bool, none, ◌∙◌, ap₂, ◌==◌, Bool-cases, inl, inr,
  ap, refl, [], true, false,
}
use rr_python.Recorder.CopyToUser.{add_to_current, post_put, fill_copy, post_copy}
use rr_python.Recorder.State.{State, CopyRecord, Ptr, write, syscall, PtRegs, copy}
use rr_python.Recorder.Cmd.{ok, Returns, kfree, load_copy}

-- The copy as it is after a `memcpy` from its source.
abbrev pub filled : State → CopyRecord → CopyRecord
filled s c = if ltb 0 c.len then record c { bytes = read_bytes s.memory c.from c.len } else c

module _ {s : State} {it : Item} {queue : List Item} {extra : List Ptr} {p : Ptr}
    {c : CopyRecord} where
  add_to_current-attached :
      IsRep s (ghost (some (p, c)) (some it) queue) extra
      → add_to_current p s
        ≡ ok tt
            (record s { heap = write s.heap it.ptr (some (syscall (block (attached it (p, c))))) })
  unfolding add_to_current
  add_to_current-attached rep =
      let held = rw (← rep.current_at.0) at rep.current_at.1.1 in
      rw (load_syscall-ok s.current_syscall_record s held) (
        store-ok s.current_syscall_record s _ held
        ∙ ap₂ (λ q b. ok tt (record s { heap = write s.heap q (some (syscall b)) }))
            rep.current_at.0 (block-attached it p c))

  -- The same with the address read from `current_copy`.
  add_current_copy :
      IsRep s (ghost (some (p, c)) (some it) queue) extra
      → add_to_current s.current_copy s
        ≡ ok tt
            (record s { heap = write s.heap it.ptr (some (syscall (block (attached it (p, c))))) })
  add_current_copy rep = ap (λ q. add_to_current q s) rep.pending_at.0 ∙ add_to_current-attached rep

  load_current_copy :
      IsRep s (ghost (some (p, c)) (some it) queue) extra → load_copy s.current_copy s ≡ ok c s
  load_current_copy rep =
      load_copy-ok s.current_copy s (rw (← rep.pending_at.0) at rep.pending_at.1)

  free_current_copy :
      IsRep s (ghost (some (p, c)) (some it) queue) extra
      → kfree s.current_copy s ≡ ok tt (freed s p)
  free_current_copy rep =
      ap (λ q. kfree q s) rep.pending_at.0
      ∙ kfree-freed p s (named_above rep p (ground arith)) rep.pending_at.1

-- What a return handler answers and leaves behind: the copy `c` has joined the current record, or
-- it has been freed and the record is as it was.
abbrev pub Left : State → Item → List Item → List Ptr → Ptr → Bool → CopyRecord → ℕ → State → Type 0
Left s it queue extra p kept c r s' =
    (r ≡ 0)
    × SameElse s s'
    × IsRep s' (ghost none (some (if kept then attached it (p, c) else it)) queue) extra

module _ {s : State} {it : Item} {queue : List Item} {extra : List Ptr} {p : Ptr} {c : CopyRecord}
    (rep : IsRep s (ghost (some (p, c)) (some it) queue) extra) (regs : PtRegs) where
  -- With a system call and a filled copy under way, `post_put` never faults and leaves no copy
  -- under way: the copy is attached to the system call under way if the put succeeded, and freed
  -- otherwise.
  pub post_put-Left :
      IsFilled c → Returns (Left s it queue extra p (regs.ax == 0) c) (post_put regs s)
  unfolding post_put
  post_put-Left full = elim (Bool-cases (regs.ax == 0)) [
    | inl done ↦
        rw (done, load_current_copy rep, add_current_copy rep)
          (refl, ground arith, IsRep-attach_copy rep full)
    | inr failed ↦ rw (failed, free_current_copy rep) (refl, ground arith, IsRep-drop_copy rep)
  ]

  fill_current_copy :
      (ltb 0 c.len) ≡ true
      → fill_copy s.current_copy s
        ≡ ok tt (record s { heap = write s.heap p (some (copy (filled s c))) })
  unfolding fill_copy
  fill_current_copy some_bytes =
      let held = rw (← rep.pending_at.0) at rep.pending_at.1 in
      rw (load_current_copy rep, some_bytes)
        (store-ok s.current_copy s _ held
          ∙ ap
              (λ q. ok tt (record s {
                heap =
                    write s.heap q
                      (some (copy (record c { bytes = read_bytes s.memory c.from c.len })));
              }))
              rep.pending_at.0)

  skip_current_copy : (ltb 0 c.len) ≡ false → fill_copy s.current_copy s ≡ ok tt s
  unfolding fill_copy
  skip_current_copy no_bytes = rw (load_current_copy rep, no_bytes)

  filled-IsFilled : c.bytes ≡ [] → IsFilled (filled s c)
  filled-IsFilled unfilled =
      ground (arith, length-read_bytes s.memory c.from c.len, rep.pending_at.2)

  -- With a system call under way and a copy that is not filled yet, `post_copy` never faults and
  -- leaves no copy under way: if the copy succeeded it is attached to the system call under way,
  -- behind its other copies, with the bytes that then stand at its source; otherwise its block is
  -- freed and the system call is as it was. Every block still has one owner.
  pub post_copy-Left :
      c.bytes ≡ []
      → Returns (Left s it queue extra p (regs.ax == 0) (filled s c)) (post_copy regs s)
  unfolding post_copy
  post_copy-Left unfilled = elim (Bool-cases (regs.ax == 0)) [
    | inl done ↦ rw done (elim (Bool-cases (ltb 0 c.len)) [
      | inl some_bytes ↦
          let rep' = IsRep-fill_copy (filled s c) rep (filled-IsFilled unfilled).1 in
          rw (fill_current_copy some_bytes, add_current_copy rep')
            (refl, ground arith, IsRep-attach_copy rep' (filled-IsFilled unfilled))
      | inr no_bytes ↦
          rw (skip_current_copy no_bytes, add_current_copy rep, no_bytes)
            (refl, ground arith, IsRep-attach_copy rep (rw no_bytes at (filled-IsFilled unfilled)))
    ])
    | inr failed ↦ rw (failed, free_current_copy rep) (refl, ground arith, IsRep-drop_copy rep)
  ]

-- ===== src/Replayer/Tracee/Access.antt =====
-- write_buffer_to_tracee and read_from_tracee of replayer/src/creplayer/creplayer.c.
use rr_python.Replayer.Tracee.Outcomes.{
  Fetch, Write, complete, raised, no_peek, no_poke, Fetch-cons, Write-cons, tail_word,
}
use rr_python.Replayer.Tracee.Words.{
  AreBytes, IsByte, le8-of_le, read_bytes-IsByte, length-drop, All-take, write_bytes-AreBytes,
  All-drop,
}
use rr_python.Recorder.State.{Ptr}
use rr_python.Common.Bytes.{Memory, write_bytes, le, of_le, read_bytes, length-read_bytes}
use rr_python.Replayer.Tracee.{
  Ptrace, IsPtrace, write_tail, poke_or_raise, read_from_tracee, read_words, write_buffer_to_tracee,
  write_words,
}
use rr_python.Common.{
  [], ◌∷◌, ◌++◌, zero, suc, true, some, List, ℕ, All, ◌≡◌, length, ◌≤◌, take, ◌<◌, drop, ◌+◌, ◌-◌,
  arith, ◌∙◌, sym, ap, Option-cases, inl, inr, refl, length-take, ◌*◌, ◌/◌, subst, ◌%◌, ◌^◌,
}

module _ {p : Ptrace} (is : IsPtrace p) where
  poke_or_raise-Write :
      (addr : Ptr) (bs : List ℕ) (m : Memory) (w : ℕ)
      → 0 < length bs
      → write_bytes m addr (le 8 w) ≡ write_bytes m addr bs
      → Write p m addr bs (poke_or_raise p m addr w)
  unfolding write_bytes
  poke_or_raise-Write addr bs m w some_bytes same = elim (Option-cases (p.poke m addr w)) [
    | inl e ↦
        rw (e, poke_or_raise)
          (raised 0 (omega arith) refl (no_poke m addr w (omega arith) (omega arith) e))
    | inr (m', e) ↦
        rw (e, poke_or_raise)
          (complete (ap (λ (t : Memory). (t, true)) (is.poke_word m m' addr w e ∙ same)))
  ]

  write_tail-Write :
      (addr : Ptr) (bs : List ℕ) (m : Memory)
      → AreBytes m
      → All IsByte bs
      → length bs < 8
      → Write p m addr bs (write_tail p addr bs m)
  unfolding write_tail write_bytes
  write_tail-Write addr [] m bytes small short = complete refl
  write_tail-Write addr (b ∷ bs) m bytes small short = elim (Option-cases (p.peek m addr)) [
    | inl e ↦
        rw (e, write_tail)
          (raised 0 (omega arith) refl (no_peek m addr (omega arith) (omega arith) e))
    | inr (w, e) ↦
        rw (e, write_tail)
          (poke_or_raise-Write addr (b ∷ bs) m (of_le ((b ∷ bs) ++ drop (length (b ∷ bs)) (le 8 w)))
            (omega arith)
            (ap
                (λ v.
                  write_bytes m addr (le 8 (of_le ((b ∷ bs) ++ drop (length (b ∷ bs)) (le 8 v)))))
                (is.peek_word m addr w e)
              ∙ tail_word m addr (b ∷ bs) bytes small short))
  ]

module _ {p : Ptrace} (is : IsPtrace p) where
  write_words-Write :
      (n : ℕ) (addr : Ptr) (buffer : List ℕ) (m : Memory)
      → AreBytes m
      → All IsByte buffer
      → 8 * n ≤ length buffer
      → length buffer < 8 * n + 8
      → Write p m addr buffer (write_words p n addr buffer m)
  unfolding write_words write_bytes
  write_words-Write zero addr buffer m bytes small enough short =
      write_tail-Write is addr buffer m bytes small (omega arith)
  write_words-Write (suc n) addr buffer m bytes small enough short =
      elim (Option-cases (p.poke m addr (of_le (take 8 buffer)))) [
        | inl e ↦
            rw (e, write_words)
              (raised 0 (omega arith) refl (no_poke m addr _ (omega arith) (omega arith) e))
        | inr (m', e) ↦
            let first : m' ≡ write_bytes m addr (take 8 buffer) =
              is.poke_word m m' addr (of_le (take 8 buffer)) e
              ∙ ap (write_bytes m addr) (
                  le8-of_le (take 8 buffer) (omega (arith, length-take 8 buffer))
                    (All-take 8 buffer small)) in
            let bytes' : AreBytes m' =
              subst AreBytes (sym first)
                (write_bytes-AreBytes m addr (take 8 buffer) bytes (All-take 8 buffer small)) in
            let next : (addr + 8) % 2 ^ 64 ≡ addr + 8 =
              omega (arith, is.poke_user m m' addr (of_le (take 8 buffer)) e) in
            rw (e, write_words, next)
              (Write-cons p m m' addr buffer _ first (omega arith) (
                write_words-Write n (addr + 8) (drop 8 buffer) m' bytes' (All-drop 8 buffer small)
                  (omega (arith, length-drop 8 buffer)) (omega (arith, length-drop 8 buffer))))
      ]

  -- `write_buffer_to_tracee` writes the whole buffer into the tracee's memory and changes no
  -- other byte, not even in the last word, which it writes only in part. When ptrace fails at an
  -- address in the buffer's range an exception is raised, and what is written is a beginning of
  -- the buffer.
  pub write_buffer_to_tracee-Write :
      (addr : Ptr) (buffer : List ℕ) (m : Memory)
      → AreBytes m
      → All IsByte buffer
      → Write p m addr buffer (write_buffer_to_tracee p addr buffer m)
  unfolding write_buffer_to_tracee
  write_buffer_to_tracee-Write addr buffer m bytes small =
      write_words-Write (length buffer / 8) addr buffer m bytes small (omega arith) (omega arith)

  le-peek :
      (m : Memory) (addr : Ptr) (w : ℕ)
      → AreBytes m
      → p.peek m addr ≡ some w
      → le 8 w ≡ read_bytes m addr 8
  le-peek m addr w bytes e =
      ap (le 8) (is.peek_word m addr w e)
      ∙ le8-of_le (read_bytes m addr 8) (length-read_bytes m addr 8)
          (read_bytes-IsByte m addr 8 bytes)

  read_words-Fetch :
      (n : ℕ) (addr to : Ptr) (len : ℕ) (m : Memory)
      → AreBytes m
      → len ≤ 8 * n
      → 8 * n < len + 8
      → addr + 8 * n ≤ to
      → Fetch p m addr to len (read_words p n addr len m)
  unfolding read_words read_bytes
  read_words-Fetch zero addr to len m bytes enough short room =
      let nothing : 0 ≡ len = omega arith in complete (ap (λ k. some (read_bytes m addr k)) nothing)
  read_words-Fetch (suc n) addr to len m bytes enough short room =
      elim (Option-cases (p.peek m addr)) [
        | inl e ↦ rw (e, read_words) (raised refl (no_peek m addr (omega arith) (omega arith) e))
        | inr (w, e) ↦
            let next : (addr + 8) % 2 ^ 64 ≡ addr + 8 = omega (arith, is.peek_user m addr w e) in
            rw (e, read_words, next)
              (Fetch-cons m addr to len w _ (le-peek m addr w bytes e) (
                read_words-Fetch n (addr + 8) to (len - 8) m bytes (omega arith) (omega arith)
                  (omega arith)))
      ]

  -- `read_from_tracee` stores the bytes of the tracee's memory in the buffer, as many as it is
  -- asked for, unless ptrace fails at the address of one of their words; then an exception is
  -- raised.
  pub read_from_tracee-Fetch :
      (addr : Ptr) (len : ℕ) (m : Memory)
      → AreBytes m
      → Fetch p m addr (addr + len + 7) len (read_from_tracee p addr len m)
  unfolding read_from_tracee
  read_from_tracee-Fetch addr len m bytes =
      read_words-Fetch ((len + 7) / 8) addr (addr + len + 7) len m bytes (omega arith) (omega arith)
        (omega arith)

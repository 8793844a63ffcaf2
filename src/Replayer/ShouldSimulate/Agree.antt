-- ===== src/Replayer/ShouldSimulate/Agree.antt =====
-- The opening and the closing of a file in replayer/src/replayer/should_simulate.
use rr_python.Replayer.ShouldSimulate.Maps.{
  IsBetween, has_mmap, find_first-maps, get_elem?-append, reversed-split, All-reversed,
  close-SeesMaps, All-map, open-SeesMaps, has_mmap-reversed,
}
use rr_python.Replayer.Loader.{SystemCall}
use rr_python.Replayer.ShouldSimulate.{
  find_first_syscall_matching, is_mmap_system_call_for_fd, reversed, is_open_system_call_for_fd,
  is_close_system_call_for_fd, num, mmap_sys_call, is_mmap_found, close_sys_call, handle,
  open_sys_call, should_simulate_system_call, openat_sys_call, should_simulate_close_system_call,
  should_simulate_open_system_call, fd_appears_in_mmap_before_close, mmap_appears_after_open_for_fd,
}
use rr_python.Common.{
  ◌∷◌, ◌++◌, true, false, some, List, All, ◌||◌, ◌≡◌, refl, ◌∙◌, sym, ◌==◌, inl, inr, append_assoc,
  length, ℕ, ◌⊎◌, not, drop-append, take-append,
}
use rr_python.Common.Signed.{ℤ, pos, ==ℤ-refl}

-- A call that opens a file by its name.
abbrev pub IsOpen : SystemCall → Type 0
IsOpen s = (num s ≡ open_sys_call) ⊎ (num s ≡ openat_sys_call)

module _ (o : SystemCall) (opens : IsOpen o) where
  no_close : (fd : ℤ) → is_close_system_call_for_fd fd o ≡ false
  unfolding is_close_system_call_for_fd
  no_close fd = elim opens [ inl e ↦ rw e refl | inr e ↦ rw e refl ]

  no_mmap : (fd : ℤ) → is_mmap_system_call_for_fd fd o ≡ false
  unfolding is_mmap_system_call_for_fd
  no_mmap fd = elim opens [ inl e ↦ rw e refl | inr e ↦ rw e refl ]

  no_mmap_number : (num o == mmap_sys_call) ≡ false
  no_mmap_number = elim opens [ inl e ↦ rw e refl | inr e ↦ rw e refl ]

  opens_own : is_open_system_call_for_fd (o.return_value) o ≡ true
  unfolding is_open_system_call_for_fd
  opens_own = elim opens [
    | inl e ↦ rw (e, ==ℤ-refl (o.return_value)) refl
    | inr e ↦ rw (e, ==ℤ-refl (o.return_value)) refl
  ]

  handle-open :
      (calls : List SystemCall) (i : ℕ)
      → handle calls o i ≡ should_simulate_open_system_call calls o i
  unfolding handle
  handle-open calls i = elim opens [ inl e ↦ rw e refl | inr e ↦ rw e refl ]

  module _ (c : SystemCall) (closes : num c ≡ close_sys_call)
      (file : pos (c.registers.rdi) ≡ o.return_value) (middle : List SystemCall)
      (between : All (IsBetween (o.return_value)) middle) where
    closes_file : is_close_system_call_for_fd (o.return_value) c ≡ true
    unfolding is_close_system_call_for_fd
    closes_file = rw (closes, file) (==ℤ-refl (o.return_value))

    handle-close :
        (calls : List SystemCall) (i : ℕ)
        → handle calls c i ≡ should_simulate_close_system_call calls c i
    unfolding handle
    handle-close calls i = rw closes refl

    open-maps :
        (rest : List SystemCall)
        → is_mmap_found (
            find_first_syscall_matching (o ∷ (middle ++ (c ∷ rest))) (λ s.
              is_close_system_call_for_fd (o.return_value) s
              || is_mmap_system_call_for_fd (o.return_value) s))
          ≡ has_mmap (o.return_value) middle
    open-maps rest =
        find_first-maps _ (o.return_value) (o ∷ middle) c rest
          (
            close-SeesMaps (o.return_value) o (no_close (o.return_value)),
            All-map middle (λ s b. close-SeesMaps (o.return_value) s b.no_close) between,
          )
          (rw closes_file refl) (rw closes refl)
        ∙ rw (no_mmap (o.return_value)) refl

    close-maps :
        (before : List SystemCall)
        → is_mmap_found (
            find_first_syscall_matching (reversed (before ++ (o ∷ middle))) (λ s.
              is_open_system_call_for_fd (o.return_value) s
              || is_mmap_system_call_for_fd (o.return_value) s))
          ≡ has_mmap (o.return_value) middle
    close-maps before =
        rw (reversed-split before o middle) (
          find_first-maps _ (o.return_value) (reversed middle) o (reversed before)
            (All-reversed _ middle
              (All-map middle (λ s b. open-SeesMaps (o.return_value) s b.no_open) between))
            (rw opens_own refl) no_mmap_number)
        ∙ has_mmap-reversed (o.return_value) middle

    -- A call that opens a file by its name and the call that closes it are treated alike: if no
    -- call between them opens or closes that file descriptor, both are simulated when none of those
    -- maps it, and both are really made when one does.
    pub should_simulate_system_call-agree :
        (before rest : List SystemCall)
        → (should_simulate_system_call (before ++ (o ∷ (middle ++ (c ∷ rest)))) (length before)
            ≡ some (not (has_mmap (o.return_value) middle)))
          × (should_simulate_system_call
                (before ++ (o ∷ (middle ++ (c ∷ rest))))
                (length (before ++ (o ∷ middle)))
              ≡ some (not (has_mmap (o.return_value) middle)))
    unfolding should_simulate_system_call should_simulate_open_system_call
        should_simulate_close_system_call fd_appears_in_mmap_before_close
        mmap_appears_after_open_for_fd
    should_simulate_system_call-agree before rest = (
      rw
          (
            get_elem?-append before o (middle ++ (c ∷ rest)),
            handle-open,
            drop-append (length before) before (o ∷ (middle ++ (c ∷ rest))) refl,
            open-maps rest,
          )
          refl,
      rw
          (
            sym (append_assoc before (o ∷ middle) (c ∷ rest)),
            get_elem?-append (before ++ (o ∷ middle)) c rest,
            handle-close,
            take-append (length (before ++ (o ∷ middle))) (before ++ (o ∷ middle)) (c ∷ rest) refl,
            file,
            close-maps before,
          )
          refl,
    )

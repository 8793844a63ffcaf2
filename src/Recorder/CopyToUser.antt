-- ===== src/Recorder/CopyToUser.antt =====
-- recorder/src/copy_to_user_wrapper.c: the probes of put_user, _copy_to_user and copyout.
pub mod Ownership
pub mod Attach
use rr_python.Common.{
  ℕ, ◌+◌, ◌%◌, ◌^◌, Bool, true, false, List, [], ◌∷◌, ◌++◌, not, ◌==◌, ltb, if◌then◌else◌,
}
use rr_python.Common.Bytes.{le, read_bytes}
use rr_python.Recorder.State.{Ptr, null, PtRegs, CopyRecord, syscall, copy, State, Task}
use rr_python.Recorder.Kernel.{Kernel}
use rr_python.Recorder.Cmd.{
  ok, Cmd, pure, ◌>>=◌, ◌>>◌, get, put, kmalloc, kfree, load_syscall, load_copy, store, is_recorded,
}

-- sizeof(struct copy_record) and sizeof(struct copy_record_element)
abbrev pub sizeof_copy_record : ℕ
sizeof_copy_record = 24

abbrev pub sizeof_copy_record_element : ℕ
sizeof_copy_record_element = 40

unfoldable pub free_copy_record : Ptr → Cmd (Unit {0})
free_copy_record p = kfree p

-- The `switch (copy_len)` of `pre_put`: the low bytes of `regs->ax`, by the union's member.
unfoldable pub put_bytes : ℕ → ℕ → List ℕ
put_bytes copy_len ax =
    if copy_len == 1
    then le 1 (ax % 2 ^ 8)
    else if copy_len == 2
    then le 2 (ax % 2 ^ 16)
    else if copy_len == 4
    then le 4 (ax % 2 ^ 32)
    else if copy_len == 8
    then le 8 (ax % 2 ^ 64)
    else []

-- `current_copy = kmalloc(...)` and the stores that follow, if there is a block to store in.
unfoldable pub new_current_copy : Kernel → ℕ → CopyRecord → Cmd ℕ
new_current_copy k copy_len c = do
  p ←
      kmalloc k ((sizeof_copy_record_element + copy_len) % 2 ^ 64) sizeof_copy_record_element
        (copy c)
  s ← get
  put (record s { current_copy = p })
  pure (if p == null then 1 else 0)

-- `data_size` is that of the probe: 1, 2, 4 or 8.
unfoldable pub pre_put : Kernel → Task → ℕ → PtRegs → Cmd ℕ
unfolding new_current_copy put_bytes
pre_put k current data_size regs s =
    if not (is_recorded current s)
    then ok 1 s
    else if s.current_syscall_record == null
    then ok 1 s
    else if not (s.current_copy == null)
    then ok 1 s
    else new_current_copy k data_size
        (record { from = null; to = regs.cx; len = data_size; bytes = put_bytes data_size regs.ax })
        s

unfoldable pub pre_copy : Kernel → Task → PtRegs → Cmd ℕ
unfolding new_current_copy
pre_copy k current regs s =
    if not (is_recorded current s)
    then ok 1 s
    else if s.current_syscall_record == null
    then ok 1 s
    else if not (s.current_copy == null)
    then ok 1 s
    else new_current_copy k regs.dx
        (record { from = regs.si; to = regs.di; len = regs.dx; bytes = [] }) s

-- `list_add_tail(&c->list, &current_syscall_record->copies_to_user)` and `amount_of_copies++`.
unfoldable pub add_to_current : Ptr → Cmd (Unit {0})
add_to_current c = do
  s ← get
  r ← load_syscall s.current_syscall_record
  store s.current_syscall_record (
      syscall (record r {
        amount_of_copies = (r.amount_of_copies + 1) % 2 ^ 64;
        copies_to_user = r.copies_to_user ++ (c ∷ []);
      }))

abbrev pub clear_current_copy : Cmd (Unit {0})
clear_current_copy s = ok tt (record s { current_copy = null })

unfoldable pub post_put : PtRegs → Cmd ℕ
unfolding add_to_current
post_put regs = do
  s ← get
  if regs.ax == 0
      then (do load_copy s.current_copy; add_to_current s.current_copy)
      else kfree s.current_copy
  clear_current_copy
  pure 0

-- `memcpy(bytes, from, len)` into the element at `p`, if `len > 0`.
unfoldable pub fill_copy : Ptr → Cmd (Unit {0})
fill_copy p = do
  c ← load_copy p
  s ← get
  if ltb 0 c.len
      then store p (copy (record c { bytes = read_bytes s.memory c.from c.len }))
      else pure tt

unfoldable pub post_copy : PtRegs → Cmd ℕ
unfolding add_to_current fill_copy
post_copy regs = do
  s ← get
  if regs.ax == 0
      then (do fill_copy s.current_copy; add_to_current s.current_copy)
      else kfree s.current_copy
  clear_current_copy
  pure 0

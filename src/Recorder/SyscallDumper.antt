-- ===== src/Recorder/SyscallDumper.antt =====
-- recorder/src/syscall_dumper.c: records leave the fifo and are written to the reader's buffer.
pub mod Length
pub mod Send
pub mod Single
pub mod Dumps
pub mod Loop
pub mod Bounds
use rr_python.Common.Bytes.{of_le}
use rr_python.Recorder.CopyToUser.{sizeof_copy_record}
use rr_python.Recorder.SyscallRecorder.{free_syscall_record}
use rr_python.Recorder.Image.{copy_bytes, dump_bytes, sizeof_syscall_dump}
use rr_python.Recorder.Cmd.{◌>>=◌, ◌>>◌, Cmd, ok, out_of_fuel, pure, fault, load_copy, load_syscall}
use rr_python.Common.Signed.{ℤ, negsuc, pos, ◌==ℤ◌, to_signed, to_unsigned}
use rr_python.Recorder.Kernel.{Kernel}
use rr_python.Recorder.State.{Ptr, CopyRecord}
use rr_python.Common.{
  zero, suc, [], ◌∷◌, ◌++◌, ℕ, Bool, List, if◌then◌else◌, length, ltb, suc, ◌+◌, false, take, not,
  ◌==◌, ◌%◌, ◌^◌, ◌-◌, true,
}

-- `copy_to_user(to, from, n)`: how many bytes could not be copied.
unfoldable pub copy_to_user : Kernel → Ptr → List ℕ → Cmd ℕ
copy_to_user k to bytes s =
    let r = k.copy_to_user s.calls s.memory to bytes in
    ok r.1 (record s { memory = r.0; calls = s.calls + 1 })

-- `kfifo_out(&recorded_syscalls, p, n)`: the bytes that were stored at `p`.
unfoldable pub kfifo_out : Kernel → ℕ → Cmd (List ℕ)
kfifo_out k n s =
    let r = k.kfifo_out s.recorded_syscalls n in ok r.1 (record s { recorded_syscalls = r.0 })

-- The loop of `get_record_len`. Sums of `unsigned long` wrap.
unfoldable pub sum_record_len : ℕ → List Ptr → Cmd ℕ
sum_record_len size [] = pure size
sum_record_len size (p ∷ ps) = do
  c ← load_copy p
  sum_record_len ((size + (sizeof_copy_record + c.len)) % 2 ^ 64) ps

unfoldable pub get_record_len : Ptr → Cmd ℕ
get_record_len p = do r ← load_syscall p; sum_record_len sizeof_syscall_dump r.copies_to_user

-- `copy_to_user(buf, &element->record, record_size)`: bytes past what is stored in the block are
-- not initialised, and reading them is a fault.
unfoldable pub dump_copy_record : Kernel → CopyRecord → ℕ → Ptr → Cmd ℕ
dump_copy_record k c record_size buf s =
    if ltb (length (copy_bytes c)) record_size
    then fault
    else copy_to_user k buf (take record_size (copy_bytes c)) s

-- The loop of `dump_copy_records`; `record_size` is an `unsigned int`.
unfoldable pub dump_copies : Kernel → List Ptr → Ptr → Cmd ℤ
dump_copies k [] buf = pure (pos 0)
dump_copies k (p ∷ ps) buf = do
  c ← load_copy p
  let record_size = (sizeof_copy_record + c.len) % 2 ^ 32
  left ← dump_copy_record k c record_size buf
  if left == 0 then dump_copies k ps ((buf + record_size) % 2 ^ 64) else pure (negsuc 0)

unfoldable pub dump_copy_records : Kernel → Ptr → Ptr → Cmd ℤ
dump_copy_records k p buf = do r ← load_syscall p; dump_copies k r.copies_to_user buf

unfoldable pub dump_syscall_record : Kernel → Ptr → Ptr → Cmd ℤ
dump_syscall_record k p buf = do
  r ← load_syscall p
  left ← copy_to_user k buf (dump_bytes r)
  pure (if left == 0 then pos 0 else negsuc 0)

abbrev pub general_dump_error : ℤ
general_dump_error = negsuc 0

abbrev pub short_write_error : ℤ
short_write_error = negsuc 1

-- -EFAULT and -EINVAL
abbrev pub efault : ℤ
efault = negsuc 13

abbrev pub einval : ℤ
einval = negsuc 21

-- The label `cleanup`.
unfoldable pub give_up : Ptr → Cmd ℤ
give_up p = do free_syscall_record p; pure general_dump_error

-- Both dumps of a record that fits.
unfoldable pub dump_fitting : Kernel → Ptr → Ptr → ℕ → Cmd ℤ
dump_fitting k p buf len = do
  r ← dump_syscall_record k p buf
  if not (r ==ℤ pos 0) then give_up p else do
    r' ← dump_copy_records k p ((buf + sizeof_syscall_dump) % 2 ^ 64)
    if not (r' ==ℤ pos 0) then give_up p else do free_syscall_record p; pure (to_signed len)

-- With fewer than eight bytes in the fifo the pointer is not initialised, and freeing what it points
-- at is a fault.
unfoldable pub dump_single_record : Kernel → Ptr → ℕ → Cmd ℤ
dump_single_record k buf size = do
  bytes ← kfifo_out k 8
  if not (length bytes == 8) then (λ s. fault) else do
    len ← get_record_len (of_le bytes)
    if ltb size len then pure short_write_error else dump_fitting k (of_le bytes) buf len

unfoldable pub kfifo_is_empty : Kernel → Cmd Bool
kfifo_is_empty k s = ok (k.kfifo_is_empty s.recorded_syscalls) s

-- The loop of `dump_records`. `size` and `size_written` are words; `size_written` is read as signed
-- when it is returned.
unfoldable pub dump_loop : ℕ → Kernel → Ptr → ℕ → ℕ → Bool → Cmd ℤ
dump_loop zero k buf size size_written did_do_first_write = λ s. out_of_fuel
dump_loop (suc fuel) k buf size size_written did_do_first_write = do
  dump_ret ← dump_single_record k buf size
  if dump_ret ==ℤ short_write_error
      then pure (if did_do_first_write then to_signed size_written else einval)
      else if dump_ret ==ℤ general_dump_error
      then pure efault
      else do
        let n = to_unsigned dump_ret
        empty ← kfifo_is_empty k
        if empty
            then pure (to_signed ((size_written + n) % 2 ^ 64))
            else dump_loop fuel k ((buf + n) % 2 ^ 64) ((size + 2 ^ 64 - n) % 2 ^ 64)
                ((size_written + n) % 2 ^ 64) true

-- Every round takes eight bytes from the fifo, so it has fewer rounds than bytes.
unfoldable pub dump_records : Kernel → Ptr → ℕ → Cmd ℤ
dump_records k buf size s = dump_loop (length s.recorded_syscalls.bytes + 1) k buf size 0 false s

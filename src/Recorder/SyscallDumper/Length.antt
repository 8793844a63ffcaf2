-- ===== src/Recorder/SyscallDumper/Length.antt =====
-- get_record_len of recorder/src/syscall_dumper.c.
use rr_python.Recorder.Cmd.Alloc.{load_syscall-ok, load_copy-ok}
use rr_python.Recorder.Cmd.{ok}
use rr_python.Recorder.Invariant.{Item, RecordAt, Located, CopiesAt, addresses, block}
use rr_python.Recorder.State.{State}
use rr_python.Recorder.Image.{
  image, copies_bytes, dump_bytes, copy_bytes, length-copy_bytes, length-dump_bytes,
}
use rr_python.Recorder.SyscallDumper.{get_record_len, sum_record_len}
use rr_python.Common.{
  [], ◌∷◌, ◌++◌, length, ℕ, List, ◌<◌, ◌≡◌, ◌+◌, ◌^◌, arith, length-append, ap, ◌∙◌, sym, ◌%◌,
}

sum_record_len-lem :
    (n : ℕ) (cs : List Located) (s : State)
    → CopiesAt s.heap cs
    → n + length (copies_bytes cs) < 2 ^ 64
    → sum_record_len n (addresses cs) s ≡ ok (n + length (copies_bytes cs)) s
unfolding sum_record_len copies_bytes
sum_record_len-lem n [] s at small = ap (λ m. ok m s) (omega arith)
sum_record_len-lem n ((p, c) ∷ cs) s at small = rw (load_copy-ok p s at.0) (
    ap (λ m. sum_record_len m (addresses cs) s) step
    ∙ sum_record_len-lem (n + (24 + c.len)) cs s at.2 (omega (arith, total, at.1))
    ∙ ap (λ m. ok m s) (omega (arith, total, at.1)))
  where
    total :
        length (copy_bytes c ++ copies_bytes cs) ≡ 24 + length c.bytes + length (copies_bytes cs)
    total = omega (arith, length-append {0} (copy_bytes c) (copies_bytes cs), length-copy_bytes c)

    step : (n + (24 + c.len)) % 2 ^ 64 ≡ n + (24 + c.len)
    step = omega (arith, total, at.1)

pub length-image : (it : Item) → length (image it) ≡ 184 + length (copies_bytes it.copies)
unfolding image
length-image it = omega (
  arith,
  length-append {0} (dump_bytes (block it)) (copies_bytes it.copies),
  length-dump_bytes (block it),
)

-- On a record that is whole, `get_record_len` is the length of its dump, and changes nothing.
pub get_record_len-length :
    (s : State) (it : Item)
    → RecordAt s.heap it
    → length (image it) < 2 ^ 64
    → get_record_len it.ptr s ≡ ok (length (image it)) s
unfolding get_record_len
get_record_len-length s it at small = rw (load_syscall-ok it.ptr s at.1) (
    sum_record_len-lem 184 it.copies s at.2 (omega (arith, length-image it))
    ∙ ap (λ m. ok m s) (sym (length-image it)))

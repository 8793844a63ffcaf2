-- ===== src/Tests/Tracees.antt =====
-- The tracee's memory at concrete inputs.

use rr_python.Common.Bytes.{Memory, of_le, read_bytes, write_bytes, le}
use rr_python.Replayer.Tracee.{
  IsPtrace, Ptrace, read_from_tracee, write_buffer_to_tracee, task_size,
}
use rr_python.Replayer.Tracee.Access.{read_from_tracee-Fetch, write_buffer_to_tracee-Write}
use rr_python.Replayer.Tracee.Outcomes.{Write, Fetch}
use rr_python.Replayer.Tracee.Words.{AreBytes}
use rr_python.Common.{
  true, false, none, [], ◌∷◌, some, arith, ◌%◌, Bool, if◌then◌else◌, leb, ◌+◌, ◌≡◌, refl,
}

-- A tracee all of whose memory can be read and written.
abbrev pub open_ptrace : Ptrace
open_ptrace = record {
  peek = λ m a. if leb (a + 8) task_size then some (of_le (read_bytes m a 8)) else none;
  poke = λ m a w. if leb (a + 8) task_size then some (write_bytes m a (le 8 w)) else none;
}

some_if :
    {A : Type 0} (b : Bool) (x y : A) → (if b then some x else none) ≡ some y → (b ≡ true) × (y ≡ x)
some_if true x y e = (refl, cc e)
some_if false x y e = absurd (cc e)

pub open_ptrace-IsPtrace : IsPtrace open_ptrace
open_ptrace-IsPtrace = record {
  peek_word = λ m a w e. (some_if (leb (a + 8) task_size) _ _ e).1;
  poke_word = λ m m' a w e. (some_if (leb (a + 8) task_size) _ _ e).1;
  peek_user = λ m a w e. let in_memory = (some_if (leb (a + 8) task_size) _ _ e).0 in ground arith;
  poke_user =
      λ m m' a w e. let in_memory = (some_if (leb (a + 8) task_size) _ _ e).0 in ground arith;
}

abbrev pub memory : Memory
memory a = a % 256

pub memory-AreBytes : AreBytes memory
memory-AreBytes x = omega arith

write_buffer_to_tracee-Write_example :
    Write open_ptrace memory 1000
      (1 ∷ 2 ∷ 3 ∷ 4 ∷ 5 ∷ 6 ∷ 7 ∷ 8 ∷ 9 ∷ 10 ∷ [])
      (write_buffer_to_tracee open_ptrace 1000 (1 ∷ 2 ∷ 3 ∷ 4 ∷ 5 ∷ 6 ∷ 7 ∷ 8 ∷ 9 ∷ 10 ∷ []) memory)
write_buffer_to_tracee-Write_example =
    write_buffer_to_tracee-Write open_ptrace-IsPtrace 1000
      (1 ∷ 2 ∷ 3 ∷ 4 ∷ 5 ∷ 6 ∷ 7 ∷ 8 ∷ 9 ∷ 10 ∷ []) memory memory-AreBytes (omega arith)

read_from_tracee-Fetch_example :
    Fetch open_ptrace memory 1000 1017 10 (read_from_tracee open_ptrace 1000 10 memory)
read_from_tracee-Fetch_example =
    read_from_tracee-Fetch open_ptrace-IsPtrace 1000 10 memory memory-AreBytes

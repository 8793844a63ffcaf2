-- ===== src/Replayer/Loader/Recorded.antt =====
-- A whole session of the kernel module, from the probes of recorder/src to the parser of
-- replayer/src/replayer/loader.
use rr_python.Common.Bytes.{Memory}
use rr_python.Common.Signed.{to_signed}
use rr_python.Recorder.Image.{words}
use rr_python.Recorder.State.{State, Ptr}
use rr_python.Recorder.Kernel.{Kernel}
use rr_python.Replayer.Loader.{SystemCall}
use rr_python.Replayer.Loader.RoundTrip.{
  memory_copies, IsWord, registers_of, IsCopyOfWords, memory_copy,
}
use rr_python.Common.{All, List, length, ℕ, map, ◌≡◌}
use rr_python.Recorder.Session.Spec.{Call}

-- The system call of the replayer that a recorded call is.
abbrev pub loaded_call : Call → SystemCall
loaded_call call = record {
  registers = registers_of call.regs;
  return_value = to_signed call.ret;
  memory_copies = map memory_copy call.copies;
}

-- The numbers of a call fit in their fields.
abbrev pub IsCallOfWords : Call → Type 0
IsCallOfWords call =
    All IsWord (words call.regs)
    × IsWord call.ret
    × IsWord (length call.copies)
    × All IsCopyOfWords call.copies

-- Every copy to the reader succeeds.
abbrev pub WritesAll : Kernel → Type 0
WritesAll k = (c : ℕ) (m : Memory) (a : Ptr) (bs : List ℕ) → (k.copy_to_user c m a bs).1 ≡ 0

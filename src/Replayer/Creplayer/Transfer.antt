-- ===== src/Replayer/Creplayer/Transfer.antt =====
-- The memory of the tracee in replayer/src/creplayer/creplayer.c, as Python reads and writes it.
use rr_python.Replayer.Tracee.Words.{AreBytes, IsByte}
use rr_python.Common.Signed.{ℤ}
use rr_python.Replayer.Tracee.{write_buffer_to_tracee, write_words, write_tail}
use rr_python.Common.Bytes.{Memory, read_bytes, write_bytes}
use rr_python.Replayer.Creplayer.Registers.{IsTracing, Fails, memory_fails}
use rr_python.Recorder.State.{Ptr}
use rr_python.Replayer.Creplayer.{py_write_to_tracee}
use rr_python.Replayer.Tracing.{Tracing, World, Arguments}
use rr_python.Common.{
  true, false, some, List, ℕ, Option, ◌≡◌, ◌+◌, ◌≤◌, length, take, ◌<◌, ◌^◌, All, ◌%◌, ltb, arith,
  take_of_le, refl,
}
use rr_python.Python.{object, null, already_set, Result, Object}
use rr_python.Replayer.Tracee.Access.{write_buffer_to_tracee-Write}
use rr_python.Replayer.Tracee.Outcomes.{complete, raised}

-- The world with another memory of the tracee.
abbrev pub with_memory : World → Memory → World
with_memory w m = record w { tracee = record (w.tracee) { memory = m } }

-- How a write ends: all is written, or ptrace has failed and a beginning of it is.
pub data Written (t : Tracing) (pid : ℤ) (bs : List ℕ) (addr : Ptr) (w : World)
    (r : World × Result (Unit {0})) : Type 0 where
  written :
      r ≡ (with_memory w (write_bytes (w.tracee.memory) addr bs), object tt)
      → Written t pid bs addr w r
  partly :
      (n : ℕ)
      → n ≤ length bs
      → Fails t pid
      → r ≡ (with_memory w (write_bytes (w.tracee.memory) addr (take n bs)), null already_set)
      → Written t pid bs addr w r

-- How a read ends: with the bytes, or with an exception and a buffer that nobody frees.
pub data ReadBack (t : Tracing) (pid : ℤ) (addr : Ptr) (n : ℕ) (w : World)
    (r : World × Result (Option (List ℕ))) : Type 0 where
  read_back :
      r ≡ (w, object (some (read_bytes (w.tracee.memory) addr n))) → ReadBack t pid addr n w r
  leaked :
      Fails t pid
      → r ≡ (record w { buffers = 1 + w.buffers }, null already_set)
      → ReadBack t pid addr n w r

-- With arguments that parse to bytes whose number modulo 2^32 is 2^31 or more, py_write_to_tracee
-- writes nothing and raises nothing: it returns as if all were written.
pub py_write_to_tracee-lost :
    (t : Tracing) (a : Arguments) (args : List Object) (pid : ℤ) (addr : Ptr) (bs : List ℕ)
    (w : World)
    → a.parse_write args ≡ some (pid, addr, bs)
    → 2 ^ 31 ≤ length bs % 2 ^ 32
    → py_write_to_tracee t a args w ≡ (w, object tt)
unfolding py_write_to_tracee write_buffer_to_tracee write_words write_tail
py_write_to_tracee-lost t a args pid addr bs w e large =
    let n : ltb (length bs % 2 ^ 32) (2 ^ 31) ≡ false = ground arith in rw (e, n) refl

module _ {t : Tracing} (is : IsTracing t) (a : Arguments) where
  -- With arguments that parse to an address and less than 2^31 bytes, and a tracee whose memory
  -- holds bytes, py_write_to_tracee writes them all and changes no other byte; or ptrace fails, an
  -- exception is raised, and a beginning of them is written.
  pub py_write_to_tracee-Written :
      (args : List Object) (pid : ℤ) (addr : Ptr) (bs : List ℕ) (w : World)
      → a.parse_write args ≡ some (pid, addr, bs)
      → length bs < 2 ^ 31
      → AreBytes (w.tracee.memory)
      → All IsByte bs
      → Written t pid bs addr w (py_write_to_tracee t a args w)
  unfolding py_write_to_tracee
  py_write_to_tracee-Written args pid addr bs w e small bytes byte =
      let n : ltb (length bs % 2 ^ 32) (2 ^ 31) ≡ true = ground arith in
      let m : length bs % 2 ^ 32 ≡ length bs = omega arith in
      elim (write_buffer_to_tracee-Write (is.memory_words pid) addr bs (w.tracee.memory) bytes
        byte) [
          | complete done ↦
              rw (e, n, m, take_of_le (length bs) bs (omega arith), done) (written refl)
          | raised k few done why ↦
              rw (e, n, m, take_of_le (length bs) bs (omega arith), done)
                (partly k few (memory_fails addr (addr + length bs) why) refl)
        ]

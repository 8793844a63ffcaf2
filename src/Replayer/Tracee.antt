-- ===== src/Replayer/Tracee.antt =====
-- replayer/src/creplayer/creplayer.c: the memory of the traced process, word by word over ptrace.
pub mod Words
pub mod Outcomes
pub mod Access
use rr_python.Common.Bytes.{Memory, of_le, read_bytes, le, write_bytes}
use rr_python.Recorder.State.{Ptr}
use mathlib.Core.Option
use rr_python.Common.{
  [], ◌∷◌, ◌++◌, zero, suc, true, false, none, some, ℕ, Bool, List, Option, ◌≡◌, length, ◌+◌, drop,
  ◌-◌, ◌/◌, take, ◌%◌, ◌^◌, ◌≤◌,
}

-- ptrace's PTRACE_PEEKTEXT and PTRACE_POKEDATA, which are Linux's: a word of the tracee's memory, and
-- its memory with a word written; `none` is a failure with `errno` set.
pub record Ptrace : Type 0 where
  pub peek : Memory → Ptr → Option ℕ
  pub poke : Memory → Ptr → ℕ → Option Memory

-- The memory of a process ends here.
abbrev pub task_size : Ptr
task_size = 2 ^ 47

pub record IsPtrace (p : Ptrace) : Type 0 where
  pub peek_word :
      (m : Memory) (a : Ptr) (w : ℕ) → p.peek m a ≡ some w → w ≡ of_le (read_bytes m a 8)
  pub poke_word :
      (m m' : Memory) (a : Ptr) (w : ℕ) → p.poke m a w ≡ some m' → m' ≡ write_bytes m a (le 8 w)
  pub peek_user : (m : Memory) (a : Ptr) (w : ℕ) → p.peek m a ≡ some w → a + 8 ≤ task_size
  pub poke_user : (m m' : Memory) (a : Ptr) (w : ℕ) → p.poke m a w ≡ some m' → a + 8 ≤ task_size

-- The tracee's memory afterwards, and whether all went well: an exception leaves what is written.
abbrev pub Poked : Type 0
Poked = Memory × Bool

abbrev poke_or_raise : Ptrace → Memory → Ptr → ℕ → Poked
poke_or_raise p m a w = elim (p.poke m a w) [ none ↦ (m, false) | some m' ↦ (m', true) ]

-- `if (length > 0)`: the bytes that are left are put into the word that is there.
unfoldable pub write_tail : Ptrace → Ptr → List ℕ → Memory → Poked
write_tail p addr [] m = (m, true)
write_tail p addr (b ∷ bs) m = elim (p.peek m addr) [
  | none ↦ (m, false)
  | some w ↦ poke_or_raise p m addr (of_le ((b ∷ bs) ++ drop (length (b ∷ bs)) (le 8 w)))
]

-- `while (length >= WORD_SIZE)`, with the number of its rounds. Addresses are words.
unfoldable pub write_words : Ptrace → ℕ → Ptr → List ℕ → Memory → Poked
write_words p zero addr buffer m = write_tail p addr buffer m
write_words p (suc n) addr buffer m =
    let rest = λ (m' : Memory). write_words p n ((addr + 8) % 2 ^ 64) (drop 8 buffer) m' in
    elim (p.poke m addr (of_le (take 8 buffer))) [ none ↦ (m, false) | some m' ↦ rest m' ]

unfoldable pub write_buffer_to_tracee : Ptrace → Ptr → List ℕ → Memory → Poked
write_buffer_to_tracee p addr buffer m = write_words p (length buffer / 8) addr buffer m

-- `while (length > 0)`, with the number of its rounds: the bytes that are stored in the buffer.
unfoldable pub read_words : Ptrace → ℕ → Ptr → ℕ → Memory → Option (List ℕ)
read_words p zero addr len m = some []
read_words p (suc n) addr len m =
    let rest = read_words p n ((addr + 8) % 2 ^ 64) (len - 8) m in
    elim (p.peek m addr) [ none ↦ none | some w ↦ Option.map (λ bs. take len (le 8 w) ++ bs) rest ]

unfoldable pub read_from_tracee : Ptrace → Ptr → ℕ → Memory → Option (List ℕ)
read_from_tracee p addr len m = read_words p ((len + 7) / 8) addr len m

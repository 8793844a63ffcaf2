-- ===== src/Replayer/Loader.antt =====
-- replayer/src/replayer/loader: the parser of a recording. `none` is a Python exception.
pub mod Dumped
pub mod Recorded
pub mod Fuel
pub mod RoundTrip
use mathlib.Core.Option
use rr_python.Common.{[], ◌∷◌, ◌++◌, zero, suc, true, false, none, some, Bool, not}
use rr_python.Common.{ℕ, List, Option, length, take, drop, ltb, ◌==◌, if◌then◌else◌, ◌+◌}
use rr_python.Common.Bytes.{of_le}
use rr_python.Common.Signed.{ℤ, to_signed}

-- The class `Registers`.
pub record Registers : Type 0 where
  pub r15 : ℕ
  pub r14 : ℕ
  pub r13 : ℕ
  pub r12 : ℕ
  pub rbp : ℕ
  pub rbx : ℕ
  pub r11 : ℕ
  pub r10 : ℕ
  pub r9 : ℕ
  pub r8 : ℕ
  pub rax : ℕ
  pub rcx : ℕ
  pub rdx : ℕ
  pub rsi : ℕ
  pub rdi : ℕ
  pub orig_rax : ℕ
  pub rip : ℕ
  pub cs : ℕ
  pub eflags : ℕ
  pub rsp : ℕ
  pub ss : ℕ

pub record MemoryCopy : Type 0 where
  pub from_address : ℕ
  pub to_address : ℕ
  pub buffer : List ℕ

pub record SystemCall : Type 0 where
  pub registers : Registers
  pub return_value : ℤ
  pub memory_copies : List MemoryCopy

-- What reads from the buffer: a value and the rest of the buffer, or an exception.
abbrev pub Load : Type 0 → Type 0
Load A = List ℕ → Option (A × List ℕ)

abbrev pub pure : {A : Type 0} → A → Load A
pure a b = some (a, b)

infixl 5 ◌>>=◌
abbrev pub ◌>>=◌ : {A B : Type 0} → Load A → (A → Load B) → Load B
◌>>=◌ m f b = elim (m b) [ none ↦ none | some (a, b') ↦ f a b' ]

-- `struct.unpack` wants eight bytes.
unfoldable pub unpack_unsigned_long : Load ℕ
unpack_unsigned_long b = if ltb (length b) 8 then none else some (of_le (take 8 b), drop 8 b)

unfoldable pub unpack_signed_long : Load ℤ
unpack_signed_long b =
    if ltb (length b) 8 then none else some (to_signed (of_le (take 8 b)), drop 8 b)

-- A slice past the end is shorter, and no exception.
unfoldable pub unpack_str : ℕ → Load (List ℕ)
unpack_str n b = some (take n b, drop n b)

unfoldable pub has_more_bytes : List ℕ → Bool
has_more_bytes b = not (0 == length b)

unfoldable pub load_memory_copy : Load MemoryCopy
load_memory_copy = do
  from ← unpack_unsigned_long
  to ← unpack_unsigned_long
  copy_len ← unpack_unsigned_long
  copy_str ← unpack_str copy_len
  pure (record { from_address = from; to_address = to; buffer = copy_str })

unfoldable pub load_copies : ℕ → Load (List MemoryCopy)
load_copies zero = pure []
load_copies (suc n) = do c ← load_memory_copy; cs ← load_copies n; pure (c ∷ cs)

unfoldable pub load_memory_copies : Load (List MemoryCopy)
load_memory_copies = do number_of_copies ← unpack_unsigned_long; load_copies number_of_copies

unfoldable pub load_words : ℕ → Load (List ℕ)
load_words zero = pure []
load_words (suc n) = do w ← unpack_unsigned_long; ws ← load_words n; pure (w ∷ ws)

-- `Registers(*words)`: another number of arguments is an exception.
unfoldable pub to_registers : List ℕ → Option Registers
to_registers
      (r15 ∷ r14 ∷ r13 ∷ r12 ∷ rbp ∷ rbx ∷ r11 ∷ r10 ∷ r9 ∷ r8 ∷ rax ∷ rcx ∷ rdx ∷ rsi ∷ rdi
        ∷ orig_rax ∷ rip ∷ cs ∷ eflags ∷ rsp ∷ ss ∷ []) =
    some (record {
      r15 = r15;
      r14 = r14;
      r13 = r13;
      r12 = r12;
      rbp = rbp;
      rbx = rbx;
      r11 = r11;
      r10 = r10;
      r9 = r9;
      r8 = r8;
      rax = rax;
      rcx = rcx;
      rdx = rdx;
      rsi = rsi;
      rdi = rdi;
      orig_rax = orig_rax;
      rip = rip;
      cs = cs;
      eflags = eflags;
      rsp = rsp;
      ss = ss;
    })
to_registers _ = none

unfoldable pub load_register_values : Load Registers
load_register_values = do ws ← load_words 21; λ b. Option.map (λ r. (r, b)) (to_registers ws)

unfoldable pub load_system_call : Load SystemCall
load_system_call = do
  registers ← load_register_values
  return_value ← unpack_signed_long
  memory_copies ← load_memory_copies
  pure
      (record { registers = registers; return_value = return_value; memory_copies = memory_copies })

-- `load_system_calls_generator`, which calls until the buffer is empty. A call takes at least one
-- byte, so a round for each byte is enough.
unfoldable pub load_calls : ℕ → List ℕ → Option (List SystemCall)
load_calls zero b = if has_more_bytes b then none else some []
load_calls (suc fuel) b =
    let rest = λ (b' : List ℕ). load_calls fuel b' in
    if has_more_bytes b
    then elim (load_system_call b) [
      | none ↦ none
      | some (c, b') ↦ Option.map (λ cs. c ∷ cs) (rest b')
    ]
    else some []

unfoldable pub load_system_calls : List ℕ → Option (List SystemCall)
load_system_calls b = load_calls (length b) b

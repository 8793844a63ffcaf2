-- ===== src/Replayer/Loader/Fuel.antt =====
-- The rounds of the parser of replayer/src/replayer/loader: each takes bytes from the buffer.
use rr_python.Replayer.Tracee.Words.{length-drop}
use mathlib.Core.Option
use rr_python.Common.{
  [], ◌∷◌, zero, suc, true, false, none, some, ℕ, ◌≡◌, arith, List, ap, ◌+◌, Option-cases, length,
  inl, ◌≤◌, sym, ◌∙◌, inr, Option, Bool-cases, drop, ltb, if◌then◌else◌, refl,
}
use rr_python.Replayer.Loader.{
  ◌>>=◌, pure, Load, load_words, unpack_signed_long, unpack_str, unpack_unsigned_long, Registers,
  SystemCall, load_calls, load_copies, load_memory_copies, load_memory_copy, load_register_values,
  load_system_call, load_system_calls, has_more_bytes, to_registers,
}

-- What a reader leaves is no longer than what it was given, by `n` bytes at least.
abbrev Takes : {A : Type 0} → ℕ → Load A → Type 0
Takes {A} n m = (b b' : List ℕ) (a : A) → m b ≡ some (a, b') → length b' + n ≤ length b

abbrev rest_of : {A : Type 0} → Option (A × List ℕ) → List ℕ
rest_of none = []
rest_of (some (a, b)) = b

Takes-pure : {A : Type 0} (a : A) → Takes 0 (pure a)
Takes-pure a b b' x e = let same : b ≡ b' = ap rest_of e in omega (arith, ap length same)

Takes-bind :
    {A B : Type 0} (n k t : ℕ) (m : Load A) (f : A → Load B)
    → n + k ≡ t
    → Takes n m
    → ((a : A) → Takes k (f a))
    → Takes t (m >>= f)
Takes-bind n k t m f sum first later b b' y e = elim (Option-cases (m b)) [
  | inl failed ↦
      absurd (cc (sym (ap (λ o. elim o [ none ↦ none | some (a, c) ↦ f a c ]) failed) ∙ e))
  | inr ((a, c), held) ↦
      let rest = sym (ap (λ o. elim o [ none ↦ none | some (a, c) ↦ f a c ]) held) ∙ e in
      omega (arith, sum, first b c a held, later a c b' y rest)
]

weaker : {A : Type 0} (n t : ℕ) (m : Load A) → n ≤ t → Takes t m → Takes n m
weaker n t m h takes b b' a e = omega (arith, h, takes b b' a e)

unpack_unsigned_long-Takes : Takes 8 unpack_unsigned_long
unfolding unpack_unsigned_long
unpack_unsigned_long-Takes b b' w e = elim (Bool-cases (ltb (length b) 8)) [
  | inl short ↦ absurd (cc (rw short at e))
  | inr long ↦
      let left : drop 8 b ≡ b' = ap rest_of (rw long at e) in
      ground (arith, ap length left, length-drop 8 b)
]

unpack_signed_long-Takes : Takes 8 unpack_signed_long
unfolding unpack_signed_long
unpack_signed_long-Takes b b' w e = elim (Bool-cases (ltb (length b) 8)) [
  | inl short ↦ absurd (cc (rw short at e))
  | inr long ↦
      let left : drop 8 b ≡ b' = ap rest_of (rw long at e) in
      ground (arith, ap length left, length-drop 8 b)
]

unpack_str-Takes : (n : ℕ) → Takes 0 (unpack_str n)
unfolding unpack_str
unpack_str-Takes n b b' w e =
    let left : drop n b ≡ b' = ap rest_of e in omega (arith, ap length left, length-drop n b)

load_words-Takes : (n : ℕ) → Takes n (load_words n)
unfolding load_words
load_words-Takes zero = Takes-pure []
load_words-Takes (suc n) =
    Takes-bind 1 n (suc n) unpack_unsigned_long (λ w. load_words n >>= λ ws. pure (w ∷ ws))
      (omega arith) (λ b b' w e. omega (arith, unpack_unsigned_long-Takes b b' w e))
      λ w.
        Takes-bind n 0 n (load_words n) (λ ws. pure (w ∷ ws)) (omega arith) (load_words-Takes n)
          λ ws. Takes-pure (w ∷ ws)

load_memory_copy-Takes : Takes 0 load_memory_copy
unfolding load_memory_copy
load_memory_copy-Takes =
    Takes-bind 0 0 0 unpack_unsigned_long _ refl
      (weaker 0 8 unpack_unsigned_long (omega arith) unpack_unsigned_long-Takes)
      λ from.
        Takes-bind 0 0 0 unpack_unsigned_long _ refl
          (weaker 0 8 unpack_unsigned_long (omega arith) unpack_unsigned_long-Takes)
          λ to.
            Takes-bind 0 0 0 unpack_unsigned_long _ refl
              (weaker 0 8 unpack_unsigned_long (omega arith) unpack_unsigned_long-Takes)
              λ len.
                Takes-bind 0 0 0 (unpack_str len) _ refl (unpack_str-Takes len) λ str. Takes-pure _

load_copies-Takes : (n : ℕ) → Takes 0 (load_copies n)
unfolding load_copies
load_copies-Takes zero = Takes-pure []
load_copies-Takes (suc n) =
    Takes-bind 0 0 0 load_memory_copy _ refl load_memory_copy-Takes
      λ c. Takes-bind 0 0 0 (load_copies n) _ refl (load_copies-Takes n) λ cs. Takes-pure (c ∷ cs)

load_memory_copies-Takes : Takes 0 load_memory_copies
unfolding load_memory_copies
load_memory_copies-Takes =
    Takes-bind 0 0 0 unpack_unsigned_long _ refl
      (weaker 0 8 unpack_unsigned_long (omega arith) unpack_unsigned_long-Takes)
      λ n. load_copies-Takes n

to_registers-Takes :
    (ws : List ℕ) → Takes 0 (λ b. Option.map (λ (r : Registers). (r, b)) (to_registers ws))
to_registers-Takes ws b b' r e = elim (Option-cases (to_registers ws)) [
  | inl failed ↦ absurd (cc (rw failed at e))
  | inr (regs, held) ↦
      let same : b ≡ b' = ap rest_of (rw held at e) in omega (arith, ap length same)
]

load_register_values-Takes : Takes 1 load_register_values
unfolding load_register_values
load_register_values-Takes =
    Takes-bind 1 0 1 (load_words 21) _ refl
      (weaker 1 21 (load_words 21) (omega arith) (load_words-Takes 21)) to_registers-Takes

load_system_call-Takes : Takes 1 load_system_call
unfolding load_system_call
load_system_call-Takes =
    Takes-bind 1 0 1 load_register_values _ refl load_register_values-Takes λ regs.
      Takes-bind 0 0 0 unpack_signed_long _ refl
        (weaker 0 8 unpack_signed_long (omega arith) unpack_signed_long-Takes)
        λ ret.
          Takes-bind 0 0 0 load_memory_copies _ refl load_memory_copies-Takes λ cs. Takes-pure _

more : (x : ℕ) (b : List ℕ) → has_more_bytes (x ∷ b) ≡ true
unfolding has_more_bytes
more x b = ground arith

no_more : has_more_bytes [] ≡ false
unfolding has_more_bytes
no_more = refl

-- Any number of rounds that is at least the buffer's length gives the same.
pub load_calls-enough :
    (fuel fuel' : ℕ) (b : List ℕ)
    → length b ≤ fuel
    → length b ≤ fuel'
    → load_calls fuel b ≡ load_calls fuel' b
unfolding load_calls
load_calls-enough zero zero [] h h' = rw no_more refl
load_calls-enough zero (suc m) [] h h' = rw no_more refl
load_calls-enough (suc n) zero [] h h' = rw no_more refl
load_calls-enough (suc n) (suc m) [] h h' = rw no_more refl
load_calls-enough zero m (x ∷ b) h h' = absurd (omega arith)
load_calls-enough (suc n) zero (x ∷ b) h h' = absurd (omega arith)
load_calls-enough (suc n) (suc m) (x ∷ b) h h' = elim (Option-cases (load_system_call (x ∷ b))) [
  | inl e ↦ rw (more x b, e) refl
  | inr ((c, rest), e) ↦
      let less = load_system_call-Takes (x ∷ b) rest c e in
      rw (more x b, e)
        (ap (Option.map (λ cs. c ∷ cs))
          (load_calls-enough n m rest (omega (arith, less)) (omega (arith, less))))
]

-- One round of the loop of `load_system_calls_generator`, and all that follow.
abbrev pub loop_round : List ℕ → Option (List SystemCall)
loop_round b =
    if has_more_bytes b
    then elim (load_system_call b) [
      | none ↦ none
      | some (c, rest) ↦ Option.map (λ cs. c ∷ cs) (load_system_calls rest)
    ]
    else some []

-- load_system_calls satisfies the equation of the loop that it models, on every buffer: while there
-- are bytes it loads one system call, fails if that fails, and goes on with the bytes that are
-- left. Its bound on the rounds never ends it.
pub load_system_calls-loop_round : (b : List ℕ) → load_system_calls b ≡ loop_round b
unfolding load_system_calls load_calls
load_system_calls-loop_round [] = rw no_more refl
load_system_calls-loop_round (x ∷ b) = elim (Option-cases (load_system_call (x ∷ b))) [
  | inl e ↦ rw (more x b, e) refl
  | inr ((c, rest), e) ↦
      let less = load_system_call-Takes (x ∷ b) rest c e in
      rw (more x b, e)
        (ap (Option.map (λ cs. c ∷ cs))
          (load_calls-enough (length b) (length rest) rest (omega (arith, less)) (omega arith)))
]

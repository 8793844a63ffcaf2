-- ===== src/Replayer/Loader/RoundTrip.antt =====
-- The parser of replayer/src/replayer/loader on the dumps of the kernel module.
use rr_python.Common.Bytes.{le, of_le-le8}
use rr_python.Common.Signed.{to_signed}
use rr_python.Recorder.Image.{
  copies_bytes, copy_bytes, image, word_bytes, dump_bytes, words, images, length-dump_bytes,
}
use rr_python.Recorder.Invariant.{Item, Located, block}
use rr_python.Recorder.State.{CopyRecord, PtRegs}
use rr_python.Replayer.Loader.{
  ◌>>=◌, load_copies, load_memory_copies, load_memory_copy, load_register_values, load_system_call,
  load_words, unpack_signed_long, unpack_unsigned_long, MemoryCopy, Registers, SystemCall,
  to_registers, unpack_str, Load, load_calls, load_system_calls, has_more_bytes,
}
use rr_python.Common.{
  [], ◌∷◌, ◌++◌, zero, suc, some, List, ℕ, All, length, ◌<◌, ◌^◌, ◌≡◌, append_assoc, refl, ap,
  le→ltb_false, take-append, arith, sym, ◌∙◌, drop-append, Option, ◌+◌, length-append, ◌≤◌,
  ne→==_false,
}

-- What the parser makes of a dumped record.
unfoldable pub memory_copy : CopyRecord → MemoryCopy
memory_copy c = record { from_address = c.from; to_address = c.to; buffer = c.bytes }

unfoldable pub registers_of : PtRegs → Registers
registers_of r = record {
  r15 = r.r15;
  r14 = r.r14;
  r13 = r.r13;
  r12 = r.r12;
  rbp = r.bp;
  rbx = r.bx;
  r11 = r.r11;
  r10 = r.r10;
  r9 = r.r9;
  r8 = r.r8;
  rax = r.ax;
  rcx = r.cx;
  rdx = r.dx;
  rsi = r.si;
  rdi = r.di;
  orig_rax = r.orig_ax;
  rip = r.ip;
  cs = r.cs;
  eflags = r.flags;
  rsp = r.sp;
  ss = r.ss;
}

unfoldable pub memory_copies : List Located → List MemoryCopy
memory_copies [] = []
memory_copies ((p, c) ∷ cs) = memory_copy c ∷ memory_copies cs

unfoldable pub system_call : Item → SystemCall
system_call it = record {
  registers = registers_of it.regs;
  return_value = to_signed it.ret;
  memory_copies = memory_copies it.copies;
}

unfoldable pub system_calls : List Item → List SystemCall
system_calls [] = []
system_calls (it ∷ q) = system_call it ∷ system_calls q

abbrev pub IsWord : ℕ → Type 0
IsWord w = w < 2 ^ 64

abbrev pub IsCopyOfWords : CopyRecord → Type 0
IsCopyOfWords c = IsWord c.from × IsWord c.to × IsWord c.len × (length c.bytes ≡ c.len)

abbrev pub AreCopiesOfWords : List Located → Type 0
AreCopiesOfWords [] = Unit {0}
AreCopiesOfWords ((p, c) ∷ cs) = IsCopyOfWords c × AreCopiesOfWords cs

-- Every number of the record fits in its field.
abbrev pub IsOfWords : Item → Type 0
IsOfWords it =
    All IsWord (words it.regs)
    × IsWord it.ret
    × IsWord (length it.copies)
    × AreCopiesOfWords it.copies

-- A step that succeeds, and the steps behind it.
then_load :
    {A B : Type 0} (m : Load A) (f : A → Load B) (b : List ℕ) {a : A} {b' : List ℕ}
    {r : Option (B × List ℕ)}
    → m b ≡ some (a, b')
    → f a b' ≡ r
    → (m >>= f) b ≡ r
then_load m f b e e' = rw (e, ◌>>=◌) e'

unpack-le8 :
    (w : ℕ) (rest : List ℕ) → w < 2 ^ 64 → unpack_unsigned_long (le 8 w ++ rest) ≡ some (w, rest)
unfolding unpack_unsigned_long
unpack-le8 w rest h =
    rw (le→ltb_false (length (le 8 w ++ rest)) 8 (omega arith))
      (ap (λ v. some (v, rest)) (of_le-le8 w h))

unpack_signed-le8 :
    (w : ℕ) (rest : List ℕ)
    → w < 2 ^ 64
    → unpack_signed_long (le 8 w ++ rest) ≡ some (to_signed w, rest)
unfolding unpack_signed_long
unpack_signed-le8 w rest h =
    rw (le→ltb_false (length (le 8 w ++ rest)) 8 (omega arith))
      (ap (λ v. some (to_signed v, rest)) (of_le-le8 w h))

load_words-word_bytes :
    (ws rest : List ℕ)
    → All IsWord ws
    → load_words (length ws) (word_bytes ws ++ rest) ≡ some (ws, rest)
unfolding load_words word_bytes
load_words-word_bytes [] rest h = refl
load_words-word_bytes (w ∷ ws) rest h =
    then_load unpack_unsigned_long _ _ (unpack-le8 w (word_bytes ws ++ rest) h.0)
      (then_load (load_words (length ws)) _ _ (load_words-word_bytes ws rest h.1) refl)

load_memory_copy-copy_bytes :
    (c : CopyRecord) (rest : List ℕ)
    → IsCopyOfWords c
    → load_memory_copy (copy_bytes c ++ rest) ≡ some (memory_copy c, rest)
unfolding load_memory_copy copy_bytes unpack_str memory_copy
load_memory_copy-copy_bytes c rest h =
    then_load unpack_unsigned_long _ _
      (unpack-le8 c.from (le 8 c.to ++ (le 8 c.len ++ (c.bytes ++ rest))) h.0)
      (then_load unpack_unsigned_long _ _ (unpack-le8 c.to (le 8 c.len ++ (c.bytes ++ rest)) h.1) (
        then_load unpack_unsigned_long _ _ (unpack-le8 c.len (c.bytes ++ rest) h.2) (
          rw (take-append c.len c.bytes rest (sym h.3), drop-append c.len c.bytes rest (sym h.3))
            refl)))

load_copies-copies_bytes :
    (cs : List Located) (rest : List ℕ)
    → AreCopiesOfWords cs
    → load_copies (length cs) (copies_bytes cs ++ rest) ≡ some (memory_copies cs, rest)
unfolding load_copies copies_bytes memory_copies
load_copies-copies_bytes [] rest h = refl
load_copies-copies_bytes ((p, c) ∷ cs) rest h =
    rw (append_assoc (copy_bytes c) (copies_bytes cs) rest) (
      then_load load_memory_copy _ _ (load_memory_copy-copy_bytes c (copies_bytes cs ++ rest) h.0)
        (then_load (load_copies (length cs)) _ _ (load_copies-copies_bytes cs rest h.1) refl))

load_memory_copies-lem :
    (n : ℕ) (cs : List Located) (rest : List ℕ)
    → n ≡ length cs
    → IsWord n
    → AreCopiesOfWords cs
    → load_memory_copies (le 8 n ++ (copies_bytes cs ++ rest)) ≡ some (memory_copies cs, rest)
unfolding load_memory_copies
load_memory_copies-lem n cs rest e small h =
    then_load unpack_unsigned_long _ _ (unpack-le8 n (copies_bytes cs ++ rest) small)
      (ap (λ m. load_copies m (copies_bytes cs ++ rest)) e ∙ load_copies-copies_bytes cs rest h)

load_register_values-words :
    (r : PtRegs) (rest : List ℕ)
    → All IsWord (words r)
    → load_register_values (word_bytes (words r) ++ rest) ≡ some (registers_of r, rest)
unfolding load_register_values to_registers registers_of
load_register_values-words r rest h =
    then_load (load_words 21) _ _ (load_words-word_bytes (words r) rest h) refl

-- The parts of a record's dump, bracketed the way they are read.
image_parts :
    (it : Item) (rest : List ℕ)
    → image it ++ rest
      ≡ word_bytes (words it.regs)
        ++ (le 8 it.ret ++ (le 8 (block it).amount_of_copies ++ (copies_bytes it.copies ++ rest)))
unfolding image dump_bytes
image_parts it rest =
    append_assoc (dump_bytes (block it)) (copies_bytes it.copies) rest
    ∙ append_assoc (word_bytes (words it.regs)) (le 8 it.ret ++ le 8 (block it).amount_of_copies)
        (copies_bytes it.copies ++ rest)

-- Parsing the dump of a record whose numbers fit in their fields gives its registers, its return
-- value as a signed number and its copies in order, and stops where the dump ends.
pub load_system_call-image :
    (it : Item) (rest : List ℕ)
    → IsOfWords it
    → load_system_call (image it ++ rest) ≡ some (system_call it, rest)
unfolding load_system_call system_call
load_system_call-image it rest h = rw (image_parts it rest) (
    then_load load_register_values _ _ (load_register_values-words it.regs _ h.0) (
      then_load unpack_signed_long _ _ (unpack_signed-le8 it.ret _ h.1) (
        then_load load_memory_copies _ _
          (load_memory_copies-lem (block it).amount_of_copies it.copies rest (omega arith)
            (omega arith) h.3)
          refl)))

abbrev pub AreOfWords : List Item → Type 0
AreOfWords [] = Unit {0}
AreOfWords (it ∷ q) = IsOfWords it × AreOfWords q

length-image : (it : Item) → length (image it) ≡ 184 + length (copies_bytes it.copies)
unfolding image
length-image it =
    length-append (dump_bytes (block it)) (copies_bytes it.copies)
    ∙ ap (λ n. n + length (copies_bytes it.copies)) (length-dump_bytes (block it))

load_calls-images :
    (fuel : ℕ) (q : List Item)
    → AreOfWords q
    → length (images q) ≤ fuel
    → load_calls fuel (images q) ≡ some (system_calls q)
unfolding load_calls images system_calls has_more_bytes
load_calls-images zero [] h enough = refl
load_calls-images (suc fuel) [] h enough = refl
load_calls-images zero (it ∷ q) h enough =
    absurd (omega (arith, length-append (image it) (images q), length-image it))
load_calls-images (suc fuel) (it ∷ q) h enough =
    let total = length-append (image it) (images q) in
    rw
      (
        ne→==_false 0 (length (image it ++ images q)) (omega (arith, total, length-image it)),
        load_system_call-image it (images q) h.0,
        load_calls-images fuel q h.1 (omega (arith, total, length-image it)),
      )
      refl

-- The dumps of a sequence of records whose numbers fit in their fields, one behind the other,
-- parse to those records in their order.
pub load_system_calls-images :
    (q : List Item) → AreOfWords q → load_system_calls (images q) ≡ some (system_calls q)
unfolding load_system_calls
load_system_calls-images q h = load_calls-images (length (images q)) q h (omega arith)

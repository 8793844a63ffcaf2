-- ===== src/Replayer/Tracee/Outcomes.antt =====
-- The ways that an access to the memory of the tracee ends, in replayer/src/creplayer/creplayer.c.
use rr_python.Replayer.Tracee.Words.{
  AreBytes, IsByte, drop-read_bytes, read_bytes-apart, write_bytes-same, le8-of_le,
  read_bytes-IsByte, take-drop, length-drop, take_split, read_first,
}
use rr_python.Recorder.State.{Ptr}
use rr_python.Common.Bytes.{
  Memory, write_bytes, le, of_le, read_bytes, write_bytes-append, length-read_bytes,
}
use rr_python.Replayer.Tracee.{Ptrace, Poked}
use mathlib.Core.Option
use rr_python.Common.{
  ◌++◌, true, false, none, some, List, ℕ, All, ◌≡◌, length, ◌≤◌, take, ◌<◌, drop, ◌+◌, ◌-◌, arith,
  ◌∙◌, sym, ap, length-append, All-append, length-take, Option,
}

-- A call of ptrace fails, at an address between two.
pub data Refuses (p : Ptrace) (from to : Ptr) : Type 0 where
  no_peek : (m : Memory) (a : Ptr) → from ≤ a → a < to → p.peek m a ≡ none → Refuses p from to
  no_poke :
      (m : Memory) (a : Ptr) (w : ℕ) → from ≤ a → a < to → p.poke m a w ≡ none → Refuses p from to

pub Refuses-in :
    {p : Ptrace} {from to from' to' : Ptr}
    → from' ≤ from
    → to ≤ to'
    → Refuses p from to
    → Refuses p from' to'
Refuses-in below above (no_peek m a h h' e) = no_peek m a (omega arith) (omega arith) e
Refuses-in below above (no_poke m a w h h' e) = no_poke m a w (omega arith) (omega arith) e

-- All of the buffer is written and nothing else; or ptrace failed, and the first words of it are.
pub data Write (p : Ptrace) (m : Memory) (addr : Ptr) (buffer : List ℕ) (r : Poked) : Type 0 where
  complete : r ≡ (write_bytes m addr buffer, true) → Write p m addr buffer r
  raised :
      (n : ℕ)
      → n ≤ length buffer
      → r ≡ (write_bytes m addr (take n buffer), false)
      → Refuses p addr (addr + length buffer)
      → Write p m addr buffer r

-- All bytes are read, or ptrace failed at an address below `to`.
pub data Fetch (p : Ptrace) (m : Memory) (addr to : Ptr) (len : ℕ) (r : Option (List ℕ))
    : Type 0 where
  complete : r ≡ some (read_bytes m addr len) → Fetch p m addr to len r
  raised : r ≡ none → Refuses p addr to → Fetch p m addr to len r

-- The word that the last bytes of the buffer are put into.
pub tail_word :
    (m : Memory) (addr : Ptr) (bs : List ℕ)
    → AreBytes m
    → All IsByte bs
    → length bs < 8
    → write_bytes m addr
        (le 8 (of_le (bs ++ drop (length bs) (le 8 (of_le (read_bytes m addr 8))))))
      ≡ write_bytes m addr bs
tail_word m addr bs bytes small short =
    ap (λ w. write_bytes m addr (le 8 (of_le (bs ++ drop (length bs) w)))) old
    ∙ ap (λ w. write_bytes m addr (le 8 (of_le (bs ++ w)))) rest
    ∙ ap (write_bytes m addr) new
    ∙ write_bytes-append m addr bs (read_bytes m (addr + length bs) (8 - length bs))
    ∙ ap (write_bytes (write_bytes m addr bs) (addr + length bs))
        (sym (read_bytes-apart m addr bs (addr + length bs) (8 - length bs) (omega arith)))
    ∙ write_bytes-same (write_bytes m addr bs) (addr + length bs) (8 - length bs)
  where
    old : le 8 (of_le (read_bytes m addr 8)) ≡ read_bytes m addr 8
    old =
        le8-of_le (read_bytes m addr 8) (length-read_bytes m addr 8)
          (read_bytes-IsByte m addr 8 bytes)

    rest : drop (length bs) (read_bytes m addr 8) ≡ read_bytes m (addr + length bs) (8 - length bs)
    rest = drop-read_bytes m addr (length bs) 8 (omega arith)

    new :
        le 8 (of_le (bs ++ read_bytes m (addr + length bs) (8 - length bs)))
        ≡ bs ++ read_bytes m (addr + length bs) (8 - length bs)
    new =
        le8-of_le (bs ++ read_bytes m (addr + length bs) (8 - length bs))
          (omega (
            arith,
            length-append bs (read_bytes m (addr + length bs) (8 - length bs)),
            length-read_bytes m (addr + length bs) (8 - length bs),
          ))
          (All-append IsByte bs _ small
            (read_bytes-IsByte m (addr + length bs) (8 - length bs) bytes))

pub write_first :
    (m m' : Memory) (addr : Ptr) (buffer rest : List ℕ)
    → m' ≡ write_bytes m addr (take 8 buffer)
    → 8 ≤ length buffer
    → write_bytes m' (addr + 8) rest ≡ write_bytes m addr (take 8 buffer ++ rest)
write_first m m' addr buffer rest e long =
    ap (λ t. write_bytes t (addr + 8) rest) e
    ∙ ap (λ n. write_bytes (write_bytes m addr (take 8 buffer)) (addr + n) rest)
        (omega (arith, length-take 8 buffer))
    ∙ sym (write_bytes-append m addr (take 8 buffer) rest)

-- A first word and what is written behind it.
pub Write-cons :
    (p : Ptrace) (m m' : Memory) (addr : Ptr) (buffer : List ℕ) (r : Poked)
    → m' ≡ write_bytes m addr (take 8 buffer)
    → 8 ≤ length buffer
    → Write p m' (addr + 8) (drop 8 buffer) r
    → Write p m addr buffer r
Write-cons p m m' addr buffer r e long (complete e') = complete (
    e'
    ∙ ap (λ (t : Memory). (t, true))
        (write_first m m' addr buffer (drop 8 buffer) e long
          ∙ ap (write_bytes m addr) (take-drop 8 buffer)))
Write-cons p m m' addr buffer r e long (raised n few e' why) =
    raised (8 + n) (omega (arith, few, length-drop 8 buffer))
      (e'
        ∙ ap (λ (t : Memory). (t, false))
            (write_first m m' addr buffer (take n (drop 8 buffer)) e long
              ∙ ap (write_bytes m addr) (
                  ap (λ k. take 8 buffer ++ take k (drop 8 buffer)) (omega arith)
                  ∙ sym (take_split 8 (8 + n) buffer (omega arith)))))
      (Refuses-in (omega arith) (omega (arith, length-drop 8 buffer)) why)

pub Fetch-cons :
    {p : Ptrace} (m : Memory) (addr to : Ptr) (len w : ℕ) (r : Option (List ℕ))
    → le 8 w ≡ read_bytes m addr 8
    → Fetch p m (addr + 8) to (len - 8) r
    → Fetch p m addr to len (Option.map (λ bs. take len (le 8 w) ++ bs) r)
Fetch-cons m addr to len w r word (complete e) = complete (
    ap (Option.map (λ bs. take len (le 8 w) ++ bs)) e
    ∙ ap some
        (ap (λ l. take len l ++ read_bytes m (addr + 8) (len - 8)) word ∙ read_first m addr len))
Fetch-cons m addr to len w r word (raised e why) =
    raised (ap (Option.map (λ bs. take len (le 8 w) ++ bs)) e)
      (Refuses-in (omega arith) (omega arith) why)

-- ===== src/Replayer/Tracee/Words.antt =====
-- Words and the bytes of memory around them.
use rr_python.Common.Bytes.{
  Memory, read_bytes, write_bytes, write_byte, le, of_le, write_bytes-above, write_byte-same,
  length-read_bytes,
}
use rr_python.Common.{
  [], ◌∷◌, ◌++◌, zero, suc, List, ℕ, All, drop, take, ◌+◌, ◌<◌, ◌≤◌, length, ◌≡◌, ap, ap₂, arith,
  refl, ◌∙◌, ◌-◌, sym, Bool-cases, leb, inl, append-nil, inr, take_of_le,
}

abbrev pub IsByte : ℕ → Type 0
IsByte b = b < 256

abbrev pub AreBytes : Memory → Type 0
AreBytes m = (x : ℕ) → m x < 256

pub le-of_le : (bs : List ℕ) → All IsByte bs → le (length bs) (of_le bs) ≡ bs
le-of_le [] h = refl
le-of_le (b ∷ bs) h =
    ap₂ (λ x r. x ∷ r) (omega (arith, h.0))
      (ap (le (length bs)) (omega (arith, h.0)) ∙ le-of_le bs h.1)

pub le8-of_le : (bs : List ℕ) → length bs ≡ 8 → All IsByte bs → le 8 (of_le bs) ≡ bs
le8-of_le bs e h = ap (λ n. le n (of_le bs)) (sym e) ∙ le-of_le bs h

pub read_bytes-IsByte : (m : Memory) (a n : ℕ) → AreBytes m → All IsByte (read_bytes m a n)
unfolding read_bytes
read_bytes-IsByte m a zero h = tt
read_bytes-IsByte m a (suc n) h = (h a, read_bytes-IsByte m (a + 1) n h)

pub take-drop : {A : Type 0} (n : ℕ) (l : List A) → take n l ++ drop n l ≡ l
take-drop zero l = refl
take-drop (suc n) [] = refl
take-drop (suc n) (x ∷ l) = ap (λ r. x ∷ r) (take-drop n l)

pub drop-read_bytes :
    (m : Memory) (a n t : ℕ) → n ≤ t → drop n (read_bytes m a t) ≡ read_bytes m (a + n) (t - n)
unfolding read_bytes
drop-read_bytes m a zero t h = ap₂ (λ b k. read_bytes m b k) (omega arith) (omega arith)
drop-read_bytes m a (suc n) zero h = absurd (omega arith)
drop-read_bytes m a (suc n) (suc t) h =
    drop-read_bytes m (a + 1) n t (omega arith)
    ∙ ap₂ (λ b k. read_bytes m b k) (omega arith) (omega arith)

pub take-read_bytes :
    (m : Memory) (a n k : ℕ) → n ≤ k → take n (read_bytes m a k) ≡ read_bytes m a n
unfolding read_bytes
take-read_bytes m a zero k h = refl
take-read_bytes m a (suc n) zero h = absurd (omega arith)
take-read_bytes m a (suc n) (suc k) h =
    ap (λ r. m a ∷ r) (take-read_bytes m (a + 1) n k (omega arith))

-- Writing what is there changes nothing.
pub write_bytes-same : (m : Memory) (a n : ℕ) → write_bytes m a (read_bytes m a n) ≡ m
unfolding write_bytes read_bytes write_byte
write_bytes-same m a zero = refl
write_bytes-same m a (suc n) =
    ap (λ t. write_bytes t (a + 1) (read_bytes m (a + 1) n)) (write_byte-same m a)
    ∙ write_bytes-same m (a + 1) n

pub read_bytes-apart :
    (m : Memory) (a : ℕ) (bs : List ℕ) (b n : ℕ)
    → a + length bs ≤ b
    → read_bytes (write_bytes m a bs) b n ≡ read_bytes m b n
unfolding read_bytes
read_bytes-apart m a bs b zero h = refl
read_bytes-apart m a bs b (suc n) h =
    ap₂ (λ x r. x ∷ r) (write_bytes-above m a bs b h)
      (read_bytes-apart m a bs (b + 1) n (omega arith))

pub length-drop : {A : Type 0} (n : ℕ) (l : List A) → length (drop n l) ≡ length l - n
length-drop zero l = omega arith
length-drop (suc n) [] = omega arith
length-drop (suc n) (x ∷ l) = length-drop n l ∙ omega arith

take_none : {A : Type 0} (k : ℕ) → take {A = A} k [] ≡ []
take_none zero = refl
take_none (suc k) = refl

pub take_split :
    {A : Type 0} (n t : ℕ) (l : List A) → n ≤ t → take t l ≡ take n l ++ take (t - n) (drop n l)
take_split zero t l h = ap (λ k. take k l) (omega arith)
take_split (suc n) zero l h = absurd (omega arith)
take_split (suc n) (suc t) [] h = sym (take_none (suc t - suc n))
take_split (suc n) (suc t) (x ∷ l) h =
    ap (λ r. x ∷ r)
      (take_split n t l (omega arith) ∙ ap (λ k. take n l ++ take k (drop n l)) (omega arith))

pub All-take : (n : ℕ) (l : List ℕ) → All IsByte l → All IsByte (take n l)
All-take zero l h = tt
All-take (suc n) [] h = tt
All-take (suc n) (x ∷ l) h = (h.0, All-take n l h.1)

pub All-drop : (n : ℕ) (l : List ℕ) → All IsByte l → All IsByte (drop n l)
All-drop zero l h = h
All-drop (suc n) [] h = tt
All-drop (suc n) (x ∷ l) h = All-drop n l h.1

pub write_bytes-AreBytes :
    (m : Memory) (a : ℕ) (bs : List ℕ) → AreBytes m → All IsByte bs → AreBytes (write_bytes m a bs)
unfolding write_bytes write_byte
write_bytes-AreBytes m a [] bytes h = bytes
write_bytes-AreBytes m a (b ∷ bs) bytes h =
    write_bytes-AreBytes (write_byte m a b) (a + 1) bs (λ x. ground (arith, bytes x, h.0)) h.1

-- A word and the bytes behind it.
pub read_first :
    (m : Memory) (a len : ℕ)
    → take len (read_bytes m a 8) ++ read_bytes m (a + 8) (len - 8) ≡ read_bytes m a len
unfolding read_bytes
read_first m a len = elim (Bool-cases (leb len 8)) [
  | inl few ↦
      ap (λ k. take len (read_bytes m a 8) ++ read_bytes m (a + 8) k) (none_left (ground arith))
      ∙ append-nil (take len (read_bytes m a 8))
      ∙ take-read_bytes m a len 8 (ground arith)
  | inr many ↦
      ap (λ l. l ++ read_bytes m (a + 8) (len - 8))
        (take_of_le len (read_bytes m a 8) (ground (arith, length-read_bytes m a 8))
          ∙ sym (take-read_bytes m a 8 len (ground arith)))
      ∙ ap (λ l. take 8 (read_bytes m a len) ++ l) (sym (drop-read_bytes m a 8 len (ground arith)))
      ∙ take-drop 8 (read_bytes m a len)
]
  where
    none_left : len ≤ 8 → len - 8 ≡ 0
    none_left h = omega arith

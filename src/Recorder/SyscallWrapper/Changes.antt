-- ===== src/Recorder/SyscallWrapper/Changes.antt =====
-- The bytes that a system call changed, as copies of length 1, and their playback.
use rr_python.Common.Bytes.{Memory, read_bytes, write_byte, write_bytes, write_byte-same}
use rr_python.Recorder.State.{Ptr, CopyRecord, null}
use rr_python.Common.{
  [], ◌∷◌, zero, suc, true, List, ℕ, ◌≡◌, length, arith, ◌+◌, if◌then◌else◌, ◌==◌, refl, Bool-cases,
  ◌<◌, inl, ◌∙◌, ap, sym, inr,
}

abbrev pub byte_copy : Ptr → ℕ → CopyRecord
byte_copy to byte = record { from = null; to = to; len = 1; bytes = byte ∷ [] }

unfoldable pub changes : Ptr → List ℕ → List ℕ → List CopyRecord
changes a (x ∷ old) (y ∷ new) =
    let rest = changes (a + 1) old new in if x == y then rest else byte_copy a y ∷ rest
changes a _ _ = []

-- The bytes of each copy are written where they belong.
unfoldable pub replay : Memory → List CopyRecord → Memory
replay m [] = m
replay m (c ∷ cs) = replay (write_bytes m c.to c.bytes) cs

read_bytes-write_byte :
    (m : Memory) (a y b n : ℕ) → a < b → read_bytes (write_byte m a y) b n ≡ read_bytes m b n
unfolding read_bytes write_byte
read_bytes-write_byte m a y b zero h = refl
read_bytes-write_byte m a y b (suc n) h =
    ground (arith, read_bytes-write_byte m a y (b + 1) n (omega arith))

same_eq : {x y : ℕ} → (x == y) ≡ true → x ≡ y
same_eq e = ground arith

-- Played back on memory that holds the old bytes, the changes make it hold the new ones, and touch
-- nothing else.
pub replay-changes :
    (m : Memory) (a : Ptr) (old new : List ℕ)
    → length old ≡ length new
    → read_bytes m a (length old) ≡ old
    → replay m (changes a old new) ≡ write_bytes m a new
unfolding replay changes read_bytes write_bytes
replay-changes m a [] [] e held = refl
replay-changes m a (x ∷ old) (y ∷ new) e held =
    let head : m a ≡ x = cc held in
    let tail : read_bytes m (a + 1) (length old) ≡ old = cc held in
    elim (Bool-cases (x == y)) [
      | inl same ↦ rw same (
          replay-changes m (a + 1) old new (omega arith) tail
          ∙ ap (λ t. write_bytes t (a + 1) new)
              (sym (ap (write_byte m a) (sym (same_eq same) ∙ sym head) ∙ write_byte-same m a)))
      | inr changed ↦ rw changed (
          replay-changes (write_byte m a y) (a + 1) old new (omega arith)
            (read_bytes-write_byte m a y (a + 1) (length old) (omega arith) ∙ tail))
    ]
replay-changes m a [] (y ∷ new) e held = absurd (omega arith)
replay-changes m a (x ∷ old) [] e held = absurd (omega arith)

-- ===== src/Common/Bytes.antt =====
-- Little-endian words as lists of bytes, and byte-addressed memory.

use rr_python.Common.{◌⊎◌, inl, inr}
use rr_python.Common.Tests.{◌==◌, if◌then◌else◌}
use rr_python.Common.Lists.{length}
use Prim.Native.Nat.{ℕ, zero, suc, ◌+◌, ◌*◌, ◌/◌, ◌%◌, ◌^◌, ◌≤◌, ◌<◌}
use mathlib.Core.Path.{◌≡◌, refl, ap, ◌∙◌, fun_ext}
use mathlib.Core.List.{List, [], ◌∷◌, ◌++◌}
use native.Mathlib.Omega.{arith}

-- The `k` low bytes of `x`, the lowest first.
abbrev pub le : ℕ → ℕ → List ℕ
le zero x = []
le (suc k) x = (x % 256) ∷ le k (x / 256)

abbrev pub of_le : List ℕ → ℕ
of_le [] = 0
of_le (b ∷ bs) = b + 256 * of_le bs

pub length-le : (k x : ℕ) → length (le k x) ≡ k
length-le zero x = refl
length-le (suc k) x = ap suc (length-le k (x / 256))

pub of_le-le8 : (x : ℕ) → x < 2 ^ 64 → of_le (le 8 x) ≡ x
of_le-le8 x h = omega arith

abbrev pub Memory : Type 0
Memory = ℕ → ℕ

unfoldable pub write_byte : Memory → ℕ → ℕ → Memory
write_byte m a b x = if x == a then b else m x

-- Writing what is there changes nothing.
pub write_byte-same : (m : Memory) (a : ℕ) → write_byte m a (m a) ≡ m
unfolding write_byte
write_byte-same m a = fun_ext λ x. ground arith

unfoldable pub write_bytes : Memory → ℕ → List ℕ → Memory
write_bytes m a [] = m
write_bytes m a (b ∷ bs) = write_bytes (write_byte m a b) (a + 1) bs

unfoldable pub read_bytes : Memory → ℕ → ℕ → List ℕ
read_bytes m a zero = []
read_bytes m a (suc n) = m a ∷ read_bytes m (a + 1) n

pub length-read_bytes : (m : Memory) (a n : ℕ) → length (read_bytes m a n) ≡ n
unfolding read_bytes
length-read_bytes m a zero = refl
length-read_bytes m a (suc n) = ap suc (length-read_bytes m (a + 1) n)

pub write_bytes-below :
    (m : Memory) (a : ℕ) (bs : List ℕ) (x : ℕ) → x < a → write_bytes m a bs x ≡ m x
unfolding write_bytes write_byte
write_bytes-below m a [] x h = refl
write_bytes-below m a (b ∷ bs) x h =
    ground (arith, write_bytes-below (write_byte m a b) (a + 1) bs x)

pub write_bytes-above :
    (m : Memory) (a : ℕ) (bs : List ℕ) (x : ℕ) → a + length bs ≤ x → write_bytes m a bs x ≡ m x
unfolding write_bytes write_byte
write_bytes-above m a [] x h = refl
write_bytes-above m a (b ∷ bs) x h =
    ground (arith, write_bytes-above (write_byte m a b) (a + 1) bs x)

-- Only bytes in the `n` bytes from `a` differ.
abbrev pub IsWithin : ℕ → ℕ → Memory → Memory → Type 0
IsWithin a n m m' = (x : ℕ) → (x < a) ⊎ (a + n ≤ x) → m' x ≡ m x

pub write_bytes-IsWithin :
    (m : Memory) (a : ℕ) (bs : List ℕ) → IsWithin a (length bs) m (write_bytes m a bs)
write_bytes-IsWithin m a bs x (inl below) = write_bytes-below m a bs x below
write_bytes-IsWithin m a bs x (inr above) = write_bytes-above m a bs x above

-- Two changes, each in a part of a range.
pub IsWithin-trans :
    (a n b k c t : ℕ) (m m₁ m₂ : Memory)
    → c ≤ a
    → a + n ≤ c + t
    → c ≤ b
    → b + k ≤ c + t
    → IsWithin a n m m₁
    → IsWithin b k m₁ m₂
    → IsWithin c t m m₂
IsWithin-trans a n b k c t m m₁ m₂ h h₁ h₂ h₃ p q x outside =
    q x (ground arith) ∙ p x (ground arith)

pub IsWithin-mono :
    (a n c t : ℕ) (m m' : Memory) → c ≤ a → a + n ≤ c + t → IsWithin a n m m' → IsWithin c t m m'
IsWithin-mono a n c t m m' h h' p x outside = p x (ground arith)

-- What was written is read back.
pub read_bytes-write_bytes :
    (m : Memory) (a : ℕ) (bs : List ℕ) → read_bytes (write_bytes m a bs) a (length bs) ≡ bs
unfolding read_bytes write_bytes write_byte
read_bytes-write_bytes m a [] = refl
read_bytes-write_bytes m a (b ∷ bs) = ground (
  arith,
  write_bytes-below (write_byte m a b) (a + 1) bs a,
  read_bytes-write_bytes (write_byte m a b) (a + 1) bs,
)

pub write_bytes-append :
    (m : Memory) (a : ℕ) (xs ys : List ℕ)
    → write_bytes m a (xs ++ ys) ≡ write_bytes (write_bytes m a xs) (a + length xs) ys
unfolding write_bytes
write_bytes-append m a [] ys = ap (λ b. write_bytes m b ys) (omega arith)
write_bytes-append m a (x ∷ xs) ys =
    write_bytes-append (write_byte m a x) (a + 1) xs ys
    ∙ ap (λ b. write_bytes (write_bytes (write_byte m a x) (a + 1) xs) b ys) (omega arith)

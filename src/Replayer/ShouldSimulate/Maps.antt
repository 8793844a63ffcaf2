-- ===== src/Replayer/ShouldSimulate/Maps.antt =====
-- The first match among calls of which a matcher sees the maps of a file only.
use rr_python.Replayer.Loader.{SystemCall}
use rr_python.Replayer.ShouldSimulate.{
  find_first_syscall_matching, is_mmap_system_call_for_fd, reversed, get_elem?,
  is_close_system_call_for_fd, is_open_system_call_for_fd, num, mmap_sys_call, is_mmap_found,
}
use rr_python.Common.{
  [], ◌∷◌, ◌++◌, true, false, some, inl, inr, Bool, List, All, ◌||◌, ◌≡◌, All-append, ap, length,
  refl, ◌∙◌, append_assoc, sym, ◌==◌, Bool-cases,
}
use rr_python.Common.Signed.{ℤ}

-- A call between the two: it neither opens nor closes the file, nor a socket with its number.
pub record IsBetween (fd : ℤ) (s : SystemCall) : Type 0 where
  pub no_open : is_open_system_call_for_fd fd s ≡ false
  pub no_close : is_close_system_call_for_fd fd s ≡ false

abbrev pub has_mmap : ℤ → List SystemCall → Bool
has_mmap fd [] = false
has_mmap fd (s ∷ ss) = is_mmap_system_call_for_fd fd s || has_mmap fd ss

or_swap : (a b : Bool) → (a || (b || false)) ≡ (b || a)
or_swap true true = refl
or_swap true false = refl
or_swap false true = refl
or_swap false false = refl

or_assoc : (a b c : Bool) → ((a || b) || c) ≡ (a || (b || c))
or_assoc true b c = refl
or_assoc false b c = refl

pub has_mmap-append :
    (fd : ℤ) (xs ys : List SystemCall) → has_mmap fd (xs ++ ys) ≡ (has_mmap fd xs || has_mmap fd ys)
has_mmap-append fd [] ys = refl
has_mmap-append fd (s ∷ xs) ys =
    ap (λ b. is_mmap_system_call_for_fd fd s || b) (has_mmap-append fd xs ys)
    ∙ sym (or_assoc (is_mmap_system_call_for_fd fd s) (has_mmap fd xs) (has_mmap fd ys))

pub has_mmap-reversed : (fd : ℤ) (xs : List SystemCall) → has_mmap fd (reversed xs) ≡ has_mmap fd xs
unfolding reversed
has_mmap-reversed fd [] = refl
has_mmap-reversed fd (s ∷ xs) =
    has_mmap-append fd (reversed xs) (s ∷ [])
    ∙ or_swap (has_mmap fd (reversed xs)) (is_mmap_system_call_for_fd fd s)
    ∙ ap (λ b. is_mmap_system_call_for_fd fd s || b) (has_mmap-reversed fd xs)

-- What a matcher sees of the calls between: maps of the file only.
abbrev pub SeesMaps : (SystemCall → Bool) → ℤ → SystemCall → Type 0
SeesMaps matcher fd s = matcher s ≡ is_mmap_system_call_for_fd fd s

pub mmap-num :
    (fd : ℤ) (s : SystemCall)
    → is_mmap_system_call_for_fd fd s ≡ true
    → (num s == mmap_sys_call) ≡ true
unfolding is_mmap_system_call_for_fd
mmap-num fd s e = elim (Bool-cases (num s == mmap_sys_call)) [
  | inl same ↦ same
  | inr other ↦ absurd (cc (rw other at e))
]

-- The first match among those calls and one behind them that matches and is no map.
pub find_first-maps :
    (matcher : SystemCall → Bool) (fd : ℤ) (xs : List SystemCall) (s : SystemCall)
    (ys : List SystemCall)
    → All (SeesMaps matcher fd) xs
    → matcher s ≡ true
    → (num s == mmap_sys_call) ≡ false
    → is_mmap_found (find_first_syscall_matching (xs ++ (s ∷ ys)) matcher) ≡ has_mmap fd xs
unfolding find_first_syscall_matching
find_first-maps matcher fd [] s ys sees matches no_map = rw matches no_map
find_first-maps matcher fd (x ∷ xs) s ys sees matches no_map =
    elim (Bool-cases (is_mmap_system_call_for_fd fd x)) [
      | inl map ↦ rw (sees.0, map) (mmap-num fd x map)
      | inr other ↦ rw (sees.0, other) (find_first-maps matcher fd xs s ys sees.1 matches no_map)
    ]

pub All-reversed : (P : SystemCall → Type 0) (xs : List SystemCall) → All P xs → All P (reversed xs)
unfolding reversed
All-reversed P [] h = tt
All-reversed P (s ∷ xs) h = All-append P (reversed xs) (s ∷ []) (All-reversed P xs h.1) (h.0, tt)

pub reversed-split :
    (xs : List SystemCall) (s : SystemCall) (ys : List SystemCall)
    → reversed (xs ++ (s ∷ ys)) ≡ reversed ys ++ (s ∷ reversed xs)
unfolding reversed
reversed-split [] s ys = refl
reversed-split (x ∷ xs) s ys =
    ap (λ l. l ++ (x ∷ [])) (reversed-split xs s ys)
    ∙ append_assoc (reversed ys) (s ∷ reversed xs) (x ∷ [])

pub get_elem?-append :
    (xs : List SystemCall) (s : SystemCall) (ys : List SystemCall)
    → get_elem? (xs ++ (s ∷ ys)) (length xs) ≡ some s
get_elem?-append [] s ys = refl
get_elem?-append (x ∷ xs) s ys = get_elem?-append xs s ys

pub close-SeesMaps :
    (fd : ℤ) (s : SystemCall)
    → is_close_system_call_for_fd fd s ≡ false
    → SeesMaps (λ x. is_close_system_call_for_fd fd x || is_mmap_system_call_for_fd fd x) fd s
close-SeesMaps fd s e = rw e refl

pub open-SeesMaps :
    (fd : ℤ) (s : SystemCall)
    → is_open_system_call_for_fd fd s ≡ false
    → SeesMaps (λ x. is_open_system_call_for_fd fd x || is_mmap_system_call_for_fd fd x) fd s
open-SeesMaps fd s e = rw e refl

pub All-map :
    {P Q : SystemCall → Type 0} (xs : List SystemCall)
    → ((s : SystemCall) → P s → Q s)
    → All P xs
    → All Q xs
All-map [] f h = tt
All-map (s ∷ xs) f h = (f s h.0, All-map xs f h.1)

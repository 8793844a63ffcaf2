-- ===== src/Recorder/Session/Safe.antt =====
-- What the recorder holds in each phase, and its probes in that phase.

use rr_python.Recorder.CopyToUser.Ownership.{IsPutSize}
use rr_python.Recorder.Session.{Phase, outside, inside, putting, copying, Event}
use rr_python.Recorder.Session.Spec.{Recording, Move, recording}
use rr_python.Recorder.Invariant.{Ghost, IsRep, Item, Located, IsFilled, ghost}
use rr_python.Recorder.State.{State, Ptr}
use rr_python.Recorder.Kernel.{kmalloc_max, Kernel}
use rr_python.Common.{[], false, none, some, List, ◌≡◌, Option, ℕ, subst, ◌^◌, ◌<◌, arith, ◌≤◌}

abbrev pub IsUnderWay : Ghost → Type 0
IsUnderWay g = (it : Item) × (g.current ≡ some it)

-- What the recorder holds in each phase.
abbrev pub Agrees : Phase → Ghost → Type 0
Agrees outside g = (g.current ≡ none) × (g.pending ≡ none)
Agrees inside g = IsUnderWay g × (g.pending ≡ none)
Agrees putting g = IsUnderWay g × ((l : Located) × ((g.pending ≡ some l) × IsFilled l.1))
Agrees copying g = IsUnderWay g × ((l : Located) × ((g.pending ≡ some l) × (l.1.bytes ≡ [])))

-- Every block has one owner, what is under way fits the phase, and the mutex is free.
pub record IsSafe (ph : Phase) (s : State) : Type 0 where
  pub g : Ghost
  pub extra : List Ptr
  pub rep : IsRep s g extra
  pub agrees : Agrees ph g
  pub unlocked : s.mutex_locked ≡ false

pub IsRep-as :
    {s : State} {g : Ghost} {extra : List Ptr} {pending : Option Located} {current : Option Item}
    → g.pending ≡ pending
    → g.current ≡ current
    → IsRep s g extra
    → IsRep s (ghost pending current g.queue) extra
IsRep-as {s} {g} {extra} {pending} {current} e e' rep =
    subst (λ c. IsRep s (ghost pending c g.queue) extra) e'
      (subst (λ p. IsRep s (ghost p g.current g.queue) extra) e rep)

none_under_way : {A : Type 0} {B : Type 0} {o : Option A} {a : A} → o ≡ none → o ≡ some a → B
none_under_way e e' = absurd (cc (e, e'))

pub put_small : (n : ℕ) → IsPutSize n → n < 2 ^ 63
put_small n h = ground arith

pub put_fits : (n : ℕ) → IsPutSize n → n ≤ kmalloc_max
put_fits n h = ground arith

-- No event but the entry of a system call finds the recorder idle and starts something.
pub idle_phase : (ph : Phase) (g : Ghost) → Agrees ph g → g.current ≡ none → g.pending ≡ none
idle_phase outside g a e = a.1
idle_phase inside g a e = none_under_way e a.0.1
idle_phase putting g a e = none_under_way e a.0.1
idle_phase copying g a e = none_under_way e a.0.1

-- The state after an event is safe, and what it stands for has moved as the specification allows.
pub record Moved (k : Kernel) (ph : Phase) (a : Recording) (s : State) (e : Event) (r : ℕ)
    (s' : State) : Type 0 where
  pub safe : IsSafe ph s'
  pub move : Move k s s' a e r (recording safe.g)

-- ===== src/Recorder/Session/History.antt =====
-- The calls that the kernel module has kept and those that readers have taken, over a whole session.
use rr_python.Recorder.Session.Reachable.{
  Represents, IsInitial-Represents, Returns-ok, Refined, perform-Refined, Represents-bounds,
}
use rr_python.Recorder.Kernel.{Kernel, IsKernel}
use rr_python.Recorder.State.{State}
use rr_python.Recorder.Cmd.{ok}
use rr_python.Common.{
  [], ◌∷◌, ◌++◌, none, inl, inr, List, ℕ, ◌≡◌, Bool-cases, append-nil, if◌then◌else◌, sym, leb, ◌∙◌,
  append_assoc, length, ◌+◌, ap, refl, ◌≤◌, ◌*◌,
}
use rr_python.Recorder.Session.{
  outside, start, step, Event, Phase, IsInitial, Reach, perform, after, Enabled,
}
use rr_python.Recorder.Session.Spec.{
  Recording, Call, Move, Taken, begins, ignores_call, ends, puts, ignores_put, has_put, copies,
  ignores_copy, has_copied, takes, stays, drains, loses, fails, queue_max,
}

-- The calls that a read takes from the queue.
abbrev taken_by :
    {k : Kernel} {buf size : ℕ} {s s' : State} {queue rest : List Call}
    → Taken k buf size s s' queue rest
    → List Call
taken_by {queue = queue} (drains e f w) = queue
taken_by (loses given call e f g w) = given ++ (call ∷ [])
taken_by (fails given call e f why within) = given ++ (call ∷ [])

-- What an event adds to the calls that have been kept: a call that returns while there is room.
abbrev kept_by :
    {k : Kernel} {s s' : State} {a b : Recording} {e : Event} {r : ℕ}
    → Move k s s' a e r b
    → List Call
kept_by {s} {a = a} (ends regs call busy) =
    if leb (length a.queue + 1) queue_max
    then record call { ret = (s.frames call.frame).ax } ∷ []
    else []
kept_by (begins task regs mine returns idle) = []
kept_by (ignores_call task regs why) = []
kept_by (puts task n regs call mine busy idle) = []
kept_by (ignores_put task n regs why) = []
kept_by (has_put regs call c busy e) = []
kept_by (copies task regs call mine busy idle) = []
kept_by (ignores_copy task regs why) = []
kept_by (has_copied regs call c busy e) = []
kept_by (takes nonblock buf size r rest t) = []
kept_by (stays m f pid r) = []

-- What an event adds to the calls that readers have taken.
abbrev read_by :
    {k : Kernel} {s s' : State} {a b : Recording} {e : Event} {r : ℕ}
    → Move k s s' a e r b
    → List Call
read_by (takes nonblock buf size r rest t) = taken_by t
read_by (ends regs call busy) = []
read_by (begins task regs mine returns idle) = []
read_by (ignores_call task regs why) = []
read_by (puts task n regs call mine busy idle) = []
read_by (ignores_put task n regs why) = []
read_by (has_put regs call c busy e) = []
read_by (copies task regs call mine busy idle) = []
read_by (ignores_copy task regs why) = []
read_by (has_copied regs call c busy e) = []
read_by (stays m f pid r) = []

-- What a session from the start of the module has done: the recording that its state stands for, the
-- calls that were kept and the calls that readers took, each list in the order of the events.
pub data History {k : Kernel}
    : (ph : Phase) (s : State) → Reach k ph s → Recording → List Call → List Call → Type 0 where
  started :
      (s : State) (init : IsInitial s)
      → History outside s
          (start s init)
          (record { pending = none; current = none; queue = [] })
          []
          []
  went_on :
      {ph : Phase} {s s' : State} {reach : Reach k ph s} {a b : Recording} {kept given : List Call}
      (e : Event) (r : ℕ) (on : Enabled ph s e) (runs : perform k e s ≡ ok r s')
      → History ph s reach a kept given
      → (move : Move k s s' a e r b)
      → History
          (after ph e r)
          s'
          (step e r reach on runs)
          b
          (kept ++ kept_by move)
          (given ++ read_by move)

taken_by-split :
    {k : Kernel} {buf size : ℕ} {s s' : State} {queue rest : List Call}
    (t : Taken k buf size s s' queue rest)
    → queue ≡ taken_by t ++ rest
taken_by-split {queue = queue} (drains e f w) = rw e (sym (append-nil queue))
taken_by-split {rest = rest} (loses given call e f g w) =
    e ∙ sym (append_assoc given (call ∷ []) rest)
taken_by-split {rest = rest} (fails given call e f why within) =
    e ∙ sym (append_assoc given (call ∷ []) rest)

-- An event that touches no queue leaves the account as it was.
same_account :
    (kept given queue : List Call) → kept ≡ given ++ queue → kept ++ [] ≡ (given ++ []) ++ queue
same_account kept given queue e = rw (append-nil kept, append-nil given) e

-- An event adds to the kept calls what it adds to the queue and to the calls that were taken.
Move-account :
    {k : Kernel} {s s' : State} {a b : Recording} {e : Event} {r : ℕ} (kept given : List Call)
    (move : Move k s s' a e r b)
    → kept ≡ given ++ a.queue
    → kept ++ kept_by move ≡ (given ++ read_by move) ++ b.queue
Move-account {s} {a = a} kept given (ends regs call busy) same =
    elim (Bool-cases (leb (length a.queue + 1) queue_max)) [
      | inl room ↦ rw (room, append-nil given, same) (append_assoc given a.queue _)
      | inr full ↦ rw (full, append-nil given, append-nil kept) same
    ]
Move-account {a = a} kept given (takes nonblock buf size r rest t) same =
    append-nil kept
    ∙ same
    ∙ ap (λ q. given ++ q) (taken_by-split t)
    ∙ sym (append_assoc given (taken_by t) rest)
Move-account {a = a} kept given (begins task regs mine returns idle) same =
    same_account kept given a.queue same
Move-account {a = a} kept given (ignores_call task regs why) same =
    same_account kept given a.queue same
Move-account {a = a} kept given (puts task n regs call mine busy idle) same =
    same_account kept given a.queue same
Move-account {a = a} kept given (ignores_put task n regs why) same =
    same_account kept given a.queue same
Move-account {a = a} kept given (has_put regs call c busy e) same =
    same_account kept given a.queue same
Move-account {a = a} kept given (copies task regs call mine busy idle) same =
    same_account kept given a.queue same
Move-account {a = a} kept given (ignores_copy task regs why) same =
    same_account kept given a.queue same
Move-account {a = a} kept given (has_copied regs call c busy e) same =
    same_account kept given a.queue same
Move-account {a = a} kept given (stays m f pid r) same = same_account kept given a.queue same

-- In a session, the kept calls are those that readers have taken and then those that wait.
pub History-account :
    {k : Kernel} {ph : Phase} {s : State} {reach : Reach k ph s} {a : Recording}
    {kept given : List Call}
    → History ph s reach a kept given
    → kept ≡ given ++ a.queue
History-account (started s init) = refl
History-account (went_on {kept = kept} {given = given} e r on runs history move) =
    Move-account kept given move (History-account history)

-- The history of a session, which fits the state that the session has come to.
pub record Told {k : Kernel} {ph : Phase} {s : State} (reach : Reach k ph s) : Type 0 where
  pub recorded : Recording
  pub kept : List Call
  pub given : List Call
  pub history : History ph s reach recorded kept given
  pub represents : Represents ph s recorded

module _ {k : Kernel} (is : IsKernel k) where
  pub Reach-Told : {ph : Phase} {s : State} (reach : Reach k ph s) → Told reach
  Reach-Told (start s init) = record {
    recorded = record { pending = none; current = none; queue = [] };
    kept = [];
    given = [];
    history = started s init;
    represents = IsInitial-Represents s init;
  }
  Reach-Told (step {ph} {s} {s'} e r reach on e') =
      let told = Reach-Told reach in
      let refined =
        Returns-ok (Refined k ph s told.recorded e) e'
          (perform-Refined is told.recorded e told.represents on) in
      record {
        recorded = refined.next;
        kept = told.kept ++ kept_by refined.move;
        given = told.given ++ read_by refined.move;
        history = went_on e r on e' told.history refined.move;
        represents = refined.represents;
      }

  -- Every session of the module from its start, of events that Enabled allows, is a history of
  -- moves that the specification allows, and its state stands for the recording in which that
  -- history ends: each allocated block is owned once, what is under way fits the phase, the mutex
  -- is free. In the history, the calls that returned while there was room are, in the order of
  -- their returns, the calls that readers have taken followed by those that wait in the queue (the
  -- last call that a read takes is one that it does not dump, when that call does not fit or a
  -- write fails). The queue holds at most 4096 calls, and the fifo eight bytes for each.
  pub Reach-History :
      {ph : Phase} {s : State} (reach : Reach k ph s)
      → (told : Told reach) × (told.kept ≡ told.given ++ told.recorded.queue)
        × (length told.recorded.queue ≤ queue_max)
        × (length s.recorded_syscalls.bytes ≡ 8 * length told.recorded.queue)
  Reach-History reach =
      let told = Reach-Told reach in
      let bounds = Represents-bounds told.represents in
      (told, History-account told.history, bounds.0, bounds.1)

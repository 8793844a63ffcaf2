-- ===== src/Pyrecorder/Frames.antt =====
-- Where the trace function of pyrecorder/src/cpyrecorder/cpyrecorder.c stops.
use rr_python.Recorder.State.{Ptr}
use rr_python.Pyrecorder.{Frames, should_stop, is_back_of, stop_next, stop_step, stop_ret}
use rr_python.Common.{
  true, some, inl, inr, Bool, ◌≡◌, Bool-cases, ap, eq→==, ◌↔◌, ==_iff, Option-cases, ◌⊎◌, ◌==◌, ◌∙◌,
  refl,
}
use rr_python.Python.{object}
use rr_python.Common.Signed.{pos, negsuc, ℤ, ◌==ℤ◌}

-- `f` was called by `g`.
abbrev pub IsCalledBy : Frames → Ptr → Ptr → Type 0
IsCalledBy frames f g = frames f ≡ some g

-- What the debugger's commands ask for, by the stack of frames: `next` stops in the frame where it
-- was given, `step` in a frame that this one has called, `return` in the frame that has called it.
abbrev pub StopsAt : Frames → ℤ → Ptr → Ptr → Type 0
StopsAt frames stop_type from frame =
    ((stop_type ≡ stop_next) × (from ≡ frame))
    ⊎ ((stop_type ≡ stop_step) × IsCalledBy frames frame from)
    ⊎ ((stop_type ≡ stop_ret) × IsCalledBy frames from frame)

object-eq : {b b' : Bool} → object b ≡ object b' → b ≡ b'
object-eq e = cc e

==ℤ-eq : (a b : ℤ) → (a ==ℤ b) ≡ true → a ≡ b
==ℤ-eq (pos a) (pos b) e = ap pos ((==_iff a b).0 e)
==ℤ-eq (pos a) (negsuc b) e = absurd (cc e)
==ℤ-eq (negsuc a) (pos b) e = absurd (cc e)
==ℤ-eq (negsuc a) (negsuc b) e = ap negsuc ((==_iff a b).0 e)

is_back_of-called :
    (frames : Frames) (f g : Ptr) → is_back_of frames f g ≡ object true → frames f ≡ some g
unfolding is_back_of
is_back_of-called frames f g e = elim (Option-cases (frames f)) [
  | inl nowhere ↦ absurd (cc (rw (nowhere, is_back_of) at e))
  | inr (b, held) ↦
      let same : (b == g) ≡ true = object-eq (rw (held, is_back_of) at e) in
      held ∙ ap some ((==_iff b g).0 same)
]

called-is_back_of :
    (frames : Frames) (f g : Ptr) → frames f ≡ some g → is_back_of frames f g ≡ object true
unfolding is_back_of
called-is_back_of frames f g e = rw (e, is_back_of) (ap object (eq→== g g refl))

should_stop-StopsAt :
    (frames : Frames) (stop_type : ℤ) (from frame : Ptr)
    → should_stop frames stop_type from frame ≡ object true
    → StopsAt frames stop_type from frame
unfolding should_stop
should_stop-StopsAt frames stop_type from frame e = elim (Bool-cases (stop_type ==ℤ stop_next)) [
  | inl next ↦
      inl (==ℤ-eq stop_type stop_next next, (==_iff from frame).0 (object-eq (rw next at e)))
  | inr no_next ↦ elim (Bool-cases (stop_type ==ℤ stop_step)) [
    | inl step ↦ inr (
        inl (
          ==ℤ-eq stop_type stop_step step,
          is_back_of-called frames frame from (rw (no_next, step) at e),
        ))
    | inr no_step ↦ elim (Bool-cases (stop_type ==ℤ stop_ret)) [
      | inl ret ↦ inr (
          inr (
            ==ℤ-eq stop_type stop_ret ret,
            is_back_of-called frames from frame (rw (no_next, no_step, ret) at e),
          ))
      | inr no_ret ↦ absurd (cc (rw (no_next, no_step, no_ret) at e))
    ]
  ]
]

StopsAt-should_stop :
    (frames : Frames) (stop_type : ℤ) (from frame : Ptr)
    → StopsAt frames stop_type from frame
    → should_stop frames stop_type from frame ≡ object true
unfolding should_stop
StopsAt-should_stop frames stop_type from frame (inl (e, same)) = rw (e, eq→== from frame same) refl
StopsAt-should_stop frames stop_type from frame (inr (inl (e, called))) =
    rw e (called-is_back_of frames frame from called)
StopsAt-should_stop frames stop_type from frame (inr (inr (e, called))) =
    rw e (called-is_back_of frames from frame called)

-- should_stop says to stop exactly at the frames that the last command asks for by the stack of
-- frames: next in the frame where it was given, step in a frame that this one has called, return in
-- the frame that has called it. Any other stop type stops nowhere.
pub should_stop_iff :
    (frames : Frames) (stop_type : ℤ) (from frame : Ptr)
    → (should_stop frames stop_type from frame ≡ object true) ↔ StopsAt frames stop_type from frame
should_stop_iff frames stop_type from frame = (
  should_stop-StopsAt frames stop_type from frame,
  StopsAt-should_stop frames stop_type from frame,
)

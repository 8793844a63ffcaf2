-- ===== src/Pyrecorder/Sequence.antt =====
-- Calls of pyrecorder/src/cpyrecorder/cpyrecorder.c one after the other.
use rr_python.Pyrecorder.{
  Host, Frames, TracerWorld, record_or_replay, tracer, in_replay_environment, should_stop,
  replay_environment_file_path, py_trace_line,
}
use rr_python.Recorder.State.{Ptr}
use rr_python.Common.{[], ◌∷◌, false, inl, inr, List, ◌≡◌, Bool-cases, ◌∙◌, ap, ◌==◌, refl, ℕ}
use rr_python.Python.{object, Result}
use rr_python.Common.Signed.{negsuc, ℤ, ◌==ℤ◌}

-- What calls the extension: the program, and Python at each event of a frame.
pub data TraceCall : Type 0 where
  records : TraceCall
  traces : (frame : Ptr) (what : ℤ) → TraceCall

no_stop :
    (frames : Frames) (stop_type : ℤ) (from frame : Ptr)
    → stop_type ≡ negsuc 0
    → should_stop frames stop_type from frame ≡ object false
unfolding should_stop
no_stop frames stop_type from frame e = rw e refl

module _ {W : Type 0} (h : Host W) (frames : Frames) where
  abbrev pub after_call : TraceCall → TracerWorld W → TracerWorld W
  after_call records w = (record_or_replay h w).0
  after_call (traces frame what) w = (tracer h frames frame what w).0

  -- Each call of the trace function answers 0 and does nothing.
  abbrev pub IsIdle : List TraceCall → TracerWorld W → Type 0
  IsIdle [] w = Unit {0}
  IsIdle (records ∷ cs) w = IsIdle cs (after_call records w)
  IsIdle (traces frame what ∷ cs) w =
      (tracer h frames frame what w ≡ (w, object 0)) × IsIdle cs (after_call (traces frame what) w)

  record_or_replay-stop_type :
      (w : TracerWorld W) → (record_or_replay h w).0.stop_type ≡ w.stop_type
  unfolding record_or_replay in_replay_environment
  record_or_replay-stop_type w =
      let r = h.fopen replay_environment_file_path (w.outside) in
      elim (Bool-cases (r.1)) [
        | inr no_file ↦ rw no_file refl
        | inl file ↦ elim (Bool-cases (h.c_traceobj (h.fclose (r.0)) == 0)) [
          | inl no_object ↦ rw (file, no_object) refl
          | inr an_object ↦ rw (file, an_object) refl
        ]
      ]

  tracer-idle :
      (frame : Ptr) (what : ℤ) (w : TracerWorld W)
      → w.stop_type ≡ negsuc 0
      → tracer h frames frame what w ≡ (w, object 0)
  unfolding tracer
  tracer-idle frame what w e = elim (Bool-cases (what ==ℤ py_trace_line)) [
    | inl line ↦ rw (line, no_stop frames (w.stop_type) (w.stop_frame) frame e) refl
    | inr no_line ↦ rw no_line refl
  ]

  -- With the stop type that the extension starts with, -1, no sequence of calls of record_or_replay
  -- and of the trace function ever stops the program: each call of the trace function, at whatever
  -- frame and event, answers 0 and changes nothing. In particular it never forks a debugger.
  pub tracer-IsIdle :
      (calls : List TraceCall) (w : TracerWorld W) → w.stop_type ≡ negsuc 0 → IsIdle calls w
  tracer-IsIdle [] w e = tt
  tracer-IsIdle (records ∷ cs) w e =
      tracer-IsIdle cs (after_call records w) (record_or_replay-stop_type w ∙ e)
  tracer-IsIdle (traces frame what ∷ cs) w e =
      let idle = tracer-idle frame what w e in
      (
        idle,
        tracer-IsIdle cs (after_call (traces frame what) w)
            (ap (λ (r : TracerWorld W × Result ℕ). r.0.stop_type) idle ∙ e),
      )

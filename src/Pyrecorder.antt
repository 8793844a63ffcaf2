-- ===== src/Pyrecorder.antt =====
-- pyrecorder/src/cpyrecorder/cpyrecorder.c: the trace function that lets a replay stop at a frame.
pub mod Frames
pub mod Sequence
use rr_python.Common.Signed.{ℤ, pos, ◌==ℤ◌, negsuc}
use rr_python.Recorder.State.{Ptr}
use rr_python.Common.{
  [], ◌∷◌, true, false, none, some, Bool, List, if◌then◌else◌, ℕ, Option, not, ◌==◌,
}
use rr_python.Python.{
  Result, object, null, fault, value_error, trace_object_set, Py, ◌>>=◌, ◌>>◌, pure, raise, Message,
}

-- STOP_STEP, STOP_NEXT and STOP_RET
abbrev pub stop_step : ℤ
stop_step = pos 0

abbrev pub stop_next : ℤ
stop_next = pos 1

abbrev pub stop_ret : ℤ
stop_ret = pos 2

-- PyTrace_LINE of Python's headers.
abbrev pub py_trace_line : ℤ
py_trace_line = pos 2

-- `f_back` of a frame: its caller's frame or NULL; `none` where no frame is.
abbrev pub Frames : Type 0
Frames = Ptr → Option Ptr

-- What the file calls of Linux and Python, on a state `W` of their own.
pub record Host (W : Type 0) : Type 0 where
  -- `fork()`, what it returns.
  pub fork : W → W × ℤ
  -- `PyRun_SimpleString` of "import ipdb; ipdb.set_trace();".
  pub run_ipdb : W → W × ℤ
  -- `kill(getpid(), SIGSTOP)`, once the process goes on.
  pub stop_self : W → W
  -- `fopen(path, "r")`, whether it is no NULL, and `fclose`.
  pub fopen : List ℕ → W → W × Bool
  pub fclose : W → W
  -- `PyEval_SetTrace(tracer, NULL)`.
  pub set_trace : W → W
  -- `PyGILState_GetThisThreadState()->c_traceobj`
  pub c_traceobj : W → Ptr

-- The global variables, and all else.
pub record TracerWorld (W : Type 0) : Type 0 where
  pub stop_frame : Ptr
  pub stop_type : ℤ
  pub outside : W

-- REPLAY_ENVIRONMENT_FILE_PATH, "/tmp/replay".
abbrev pub replay_environment_file_path : List ℕ
replay_environment_file_path = 47 ∷ 116 ∷ 109 ∷ 112 ∷ 47 ∷ 114 ∷ 101 ∷ 112 ∷ 108 ∷ 97 ∷ 121 ∷ []

-- `f->f_back == g`; with no frame at `f` it is a fault.
unfoldable pub is_back_of : Frames → Ptr → Ptr → Result Bool
is_back_of frames f g = elim (frames f) [ none ↦ fault | some b ↦ object (b == g) ]

-- `should_stop`, as 0 or 1.
unfoldable pub should_stop : Frames → ℤ → Ptr → Ptr → Result Bool
should_stop frames stop_type stop_frame frame =
    if stop_type ==ℤ stop_next
    then object (stop_frame == frame)
    else if stop_type ==ℤ stop_step
    then is_back_of frames frame stop_frame
    else if stop_type ==ℤ stop_ret
    then is_back_of frames stop_frame frame
    else object false

module _ {W : Type 0} (h : Host W) where
  -- The child debugs, and answers whether `PyRun_SimpleString` returned 0. The parent, and a process
  -- whose fork failed, stops itself and answers 0.
  unfoldable pub fork_and_debug : Py (TracerWorld W) ℕ
  fork_and_debug w =
      let r = h.fork (w.outside) in
      let d = h.run_ipdb (r.0) in
      if r.1 ==ℤ pos 0
      then (record w { outside = d.0 }, object (if d.1 ==ℤ pos 0 then 1 else 0))
      else (record w { outside = h.stop_self (r.0) }, object 0)

  -- `what` is what has happened in the frame.
  unfoldable pub tracer : Frames → Ptr → ℤ → Py (TracerWorld W) ℕ
  tracer frames frame what w =
      let debug = fork_and_debug w in
      if what ==ℤ py_trace_line
      then elim (should_stop frames (w.stop_type) (w.stop_frame) frame) [
        | object stop ↦ if stop then debug else (w, object 0)
        | null e ↦ (w, null e)
        | fault ↦ (w, fault)
      ]
      else (w, object 0)

  unfoldable pub in_replay_environment : Py (TracerWorld W) Bool
  in_replay_environment w =
      let r = h.fopen replay_environment_file_path (w.outside) in
      if r.1
      then (record w { outside = h.fclose (r.0) }, object true)
      else (record w { outside = r.0 }, object false)

  -- The macro RAISE_EXCEPTION_ON_TRUE.
  abbrev raise_exception_on_true : Bool → Message → Py (TracerWorld W) (Unit {0})
  raise_exception_on_true arg message = if arg then raise (value_error message) else pure tt

  abbrev raise_on_trace_object : Py (TracerWorld W) (Unit {0})
  raise_on_trace_object w =
      raise_exception_on_true (not (h.c_traceobj (w.outside) == 0)) trace_object_set w

  unfoldable pub record_or_replay : Py (TracerWorld W) (Unit {0})
  record_or_replay = do
    replaying ← in_replay_environment
    if replaying
        then (do
          raise_on_trace_object
          λ w. (record w { outside = h.set_trace (w.outside) }, object tt))
        else pure tt

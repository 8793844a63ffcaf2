-- ===== src/Replayer/Simulation/Replay.antt =====
-- The loop of start_replaying in replayer/src/replayer/replayer.py, over a whole recording.
use rr_python.Replayer.Simulation.Followed.{Followed, ends}
use rr_python.Recorder.Session.Spec.{ends}
use rr_python.Replayer.Tracing.{Tracing, Tracee}

-- ===== src/Tests/Snapshots.antt =====
-- The extensions cpager and cpyrecorder at concrete inputs.
use rr_python.Pyrecorder.Frames.{StopsAt, should_stop_iff}
use rr_python.Pager.{Criu, restore_from_snapshot, take_snapshot}
use rr_python.Pager.Outcome.{
  IsCriu, Restored, Snapshot, Options, restore_from_snapshot-Restored, take_snapshot-Snapshot,
}
use rr_python.Pyrecorder.{Frames, Host, should_stop}
use rr_python.Pyrecorder.Sequence.{IsIdle, records, traces, tracer-IsIdle}
use rr_python.Common.{
  [], ◌∷◌, true, false, none, some, List, Option, if◌then◌else◌, ℕ, ◌≡◌, ◌+◌, ◌==◌, ◌↔◌, refl,
}
use rr_python.Common.Signed.{pos, negsuc, ℤ}
use rr_python.Python.{int, bytes, object, done, Object}

-- A criu that keeps its options in a record, and whose dumps and restores succeed.
abbrev parse_pid_path : List Object → Option (ℤ × List ℕ)
parse_pid_path (int pid ∷ bytes path ∷ []) = some (pid, path)
parse_pid_path _ = none

abbrev parse_path : List Object → Option (List ℕ)
parse_path (bytes path ∷ []) = some path
parse_path _ = none

abbrev criu : Criu Options ℕ
criu = record {
  open_directory = λ path files. (files + 1, done files);
  init_opts = λ o. record {
    tcp_established = false;
    log = [];
    shell_job = false;
    work_dir_fd = 0;
    images_dir_fd = 0;
    pid = pos 0;
    leave_running = false;
  };
  set_tcp_established = λ b o. record o { tcp_established = b };
  set_log_file = λ f o. record o { log = f };
  set_shell_job = λ b o. record o { shell_job = b };
  set_work_dir_fd = λ fd o. record o { work_dir_fd = fd };
  set_images_dir_fd = λ fd o. record o { images_dir_fd = fd };
  set_pid = λ pid o. record o { pid = pid };
  set_leave_running = λ b o. record o { leave_running = b };
  dump = λ o files. (files, pos 0);
  restore = λ o files. (files, pos 5);
  errno = λ files. 0;
  parse_pid_path = parse_pid_path;
  parse_path = parse_path;
}

abbrev old_options : Options
old_options = record {
  tcp_established = true;
  log = [];
  shell_job = false;
  work_dir_fd = 8;
  images_dir_fd = 9;
  pid = pos 77;
  leave_running = true;
}

criu-IsCriu : IsCriu criu
criu-IsCriu = record {
  options = λ o. o;
  default = record {
    tcp_established = false;
    log = [];
    shell_job = false;
    work_dir_fd = 0;
    images_dir_fd = 0;
    pid = pos 0;
    leave_running = false;
  };
  init = λ o. refl;
  tcp = λ b o. refl;
  log_file_set = λ f o. refl;
  shell = λ b o. refl;
  work = λ fd o. refl;
  images = λ fd o. refl;
  pid_set = λ p o. refl;
  running = λ b o. refl;
}

take_snapshot-Snapshot_example :
    Snapshot criu-IsCriu
      (int (pos 5) ∷ bytes (47 ∷ []) ∷ [])
      (record { opts = old_options; outside = 3 })
      (take_snapshot criu
        (int (pos 5) ∷ bytes (47 ∷ []) ∷ [])
        (record { opts = old_options; outside = 3 }))
take_snapshot-Snapshot_example =
    take_snapshot-Snapshot criu-IsCriu (int (pos 5) ∷ bytes (47 ∷ []) ∷ [])
      (record { opts = old_options; outside = 3 })

restore_from_snapshot-Restored_example :
    Restored criu-IsCriu
      (bytes (47 ∷ []) ∷ [])
      (record { opts = old_options; outside = 3 })
      (restore_from_snapshot criu
        (bytes (47 ∷ []) ∷ [])
        (record { opts = old_options; outside = 3 }))
restore_from_snapshot-Restored_example =
    restore_from_snapshot-Restored criu-IsCriu (bytes (47 ∷ []) ∷ [])
      (record { opts = old_options; outside = 3 })

-- Frame 300 was called by 200, and that one by 100.
abbrev three_frames : Frames
three_frames f = if f == 300 then some 200 else if f == 200 then some 100 else some 0

should_stop_iff_example :
    (should_stop three_frames (pos 0) 200 300 ≡ object true) ↔ StopsAt three_frames (pos 0) 200 300
should_stop_iff_example = should_stop_iff three_frames (pos 0) 200 300

abbrev host : Host ℕ
host = record {
  fork = λ w. (w, pos 6);
  run_ipdb = λ w. (w, pos 0);
  stop_self = λ w. w;
  fopen = λ path w. (w, true);
  fclose = λ w. w;
  set_trace = λ w. w + 1;
  c_traceobj = λ w. 0;
}

tracer-IsIdle_example :
    IsIdle host three_frames
      (records ∷ traces 300 (pos 2) ∷ traces 200 (pos 2) ∷ [])
      (record { stop_frame = 300; stop_type = negsuc 0; outside = 0 })
tracer-IsIdle_example =
    tracer-IsIdle host three_frames (records ∷ traces 300 (pos 2) ∷ traces 200 (pos 2) ∷ [])
      (record { stop_frame = 300; stop_type = negsuc 0; outside = 0 }) refl

-- ===== src/Tests/Setup.antt =====
-- The module's entry and exit, and the recorded process, at concrete inputs.
use rr_python.Common.Signed.{pos}
use rr_python.Tests.Linux.{linux}
use rr_python.Recorder.ProcessesLoader.{Written, write_proc, write_proc-Written}
use rr_python.Tests.Stores.{under_way, finished_call, call_state, call_state-IsRep}
use rr_python.Recorder.Invariant.{IsRep, ghost}
use rr_python.Recorder.Cmd.{Returns}
use rr_python.Recorder.Main.Unwind.{
  Leaves, nothing_held, recorder_init-Leaves, Agree, recorder_exit-releases,
}
use rr_python.Common.{[], ◌∷◌, false, none, some, Bool, ◌≡◌, refl}
use rr_python.Recorder.Main.{put_probes, Resource, recorder_exit, recorder_init, ◌==ᵣ◌}

-- A kernel that refuses the probes of put_user only.
abbrev refuses_puts : Resource → Bool
refuses_puts r = r ==ᵣ put_probes

recorder_init-Leaves_example : Leaves refuses_puts (recorder_init refuses_puts nothing_held)
recorder_init-Leaves_example = recorder_init-Leaves refuses_puts

abbrev refuses_nothing : Resource → Bool
refuses_nothing r = false

recorder_exit-releases_example :
    ((recorder_exit (recorder_init refuses_nothing nothing_held).1).stray ≡ 0)
    × Agree (recorder_exit (recorder_init refuses_nothing nothing_held).1).has (λ q. false)
recorder_exit-releases_example = recorder_exit-releases refuses_nothing refl

write_proc-Written_example :
    Returns
      (λ r s.
        IsRep s (ghost none (some under_way) (finished_call ∷ [])) []
        × Written linux 33 2 (pos 0) call_state r s)
      (write_proc linux 33 2 (pos 0) call_state)
write_proc-Written_example = write_proc-Written linux 33 2 (pos 0) call_state-IsRep

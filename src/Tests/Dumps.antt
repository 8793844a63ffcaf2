-- ===== src/Tests/Dumps.antt =====
-- The reader and the parser at concrete states.
use rr_python.Recorder.SyscallDumper.Length.{get_record_len-length}
use rr_python.Tests.Linux.{linux, linux-IsKernel}
use rr_python.Replayer.Loader.Dumped.{Loaded, dump_records-Loaded}
use rr_python.Recorder.Image.{
  image, images, dump_bytes, word_bytes, copies_bytes, words, copy_bytes,
}
use rr_python.Recorder.SyscallDumper.Loop.{dump_records-Dumps}
use rr_python.Recorder.SyscallDumper.Dumps.{Dumps}
use rr_python.Recorder.SyscallDumper.Single.{Single, dump_single_record-Single}
use rr_python.Tests.Stores.{
  call_state, finished_call, idle_state, under_way, call_state-IsRep, idle_state-IsRep, frame,
}
use rr_python.Recorder.Cmd.{Returns, ok}
use rr_python.Recorder.SyscallDumper.{get_record_len, dump_records, dump_single_record}
use rr_python.Replayer.Loader.{load_system_calls}
use rr_python.Replayer.Loader.RoundTrip.{AreOfWords, system_calls, load_system_calls-images, IsWord}
use rr_python.Common.{[], ◌∷◌, false, none, some, ◌≡◌, length, arith, All, ◌<◌, ◌^◌, refl}

image_small : length (image under_way) < 2 ^ 63
unfolding image dump_bytes word_bytes copies_bytes copy_bytes
image_small = omega arith

first_small : length (image finished_call) < 2 ^ 63
unfolding image dump_bytes word_bytes copies_bytes
first_small = omega arith

pub images_small : length (images (finished_call ∷ under_way ∷ [])) < 2 ^ 63
unfolding images image dump_bytes word_bytes copies_bytes copy_bytes
images_small = omega arith

get_record_len-length_example :
    get_record_len 200 call_state ≡ ok (length (image under_way)) call_state
get_record_len-length_example =
    get_record_len-length call_state under_way call_state-IsRep.current_at.1
      (omega (arith, image_small))

dump_single_record-Single_example :
    Returns
      (Single linux idle_state 5000 4096 none none finished_call (under_way ∷ []) [])
      (dump_single_record linux 5000 4096 idle_state)
dump_single_record-Single_example =
    dump_single_record-Single linux-IsKernel idle_state-IsRep 5000 4096 (omega arith) first_small

dump_records-Dumps_example :
    Returns
      (Dumps linux idle_state 5000 300 0 false none none (finished_call ∷ under_way ∷ []) [])
      (dump_records linux 5000 300 idle_state)
dump_records-Dumps_example =
    dump_records-Dumps linux-IsKernel 5000 300 idle_state-IsRep (omega arith) images_small

frame_fits : All IsWord (words frame)
frame_fits = omega arith

two_calls : AreOfWords (finished_call ∷ under_way ∷ [])
two_calls = (
  (frame_fits, omega arith, omega arith, tt),
  ((frame_fits, omega arith, omega arith, ((omega arith, omega arith, omega arith, refl), tt)), tt),
)

load_system_calls-images_example :
    load_system_calls (images (finished_call ∷ under_way ∷ []))
    ≡ some (system_calls (finished_call ∷ under_way ∷ []))
load_system_calls-images_example =
    load_system_calls-images (finished_call ∷ under_way ∷ []) two_calls

dump_records-Loaded_example :
    Returns
      (λ r s. Loaded s 5000 (finished_call ∷ under_way ∷ []) r)
      (dump_records linux 5000 4096 idle_state)
dump_records-Loaded_example =
    dump_records-Loaded linux-IsKernel 5000 4096 idle_state-IsRep (omega arith) images_small
      two_calls

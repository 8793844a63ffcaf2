-- ===== src/Tests/Stores.antt =====
-- States of the recorder to run its code in.
use rr_python.Common.Signed.{pos}
use rr_python.Recorder.Invariant.{IsRep, Item, ghost, pointer_bytes, block}
use rr_python.Recorder.State.{CopyRecord, Heap, PtRegs, State, Task, null, copy, syscall}
use rr_python.Common.{[], ◌∷◌, false, none, some, if◌then◌else◌, ◌%◌, ◌≤◌, arith, ◌==◌, ◌^◌, refl}

abbrev pub frame : PtRegs
frame = record {
  r15 = 0;
  r14 = 0;
  r13 = 0;
  r12 = 0;
  bp = 0;
  bx = 0;
  r11 = 0;
  r10 = 0;
  r9 = 0;
  r8 = 0;
  ax = 7;
  cx = 90;
  dx = 2;
  si = 80;
  di = 1;
  orig_ax = 0;
  ip = 0;
  cs = 0;
  flags = 0;
  sp = 0;
  ss = 0;
}

abbrev pub recorded_task : Task
recorded_task = record { pid = pos 5; pt_regs = 0 }

abbrev pub attached_copy : CopyRecord
attached_copy = record { from = 0; to = 70; len = 2; bytes = 10 ∷ 20 ∷ [] }

abbrev pub pending_copy : CopyRecord
pending_copy = record { from = 80; to = 90; len = 3; bytes = [] }

abbrev pub put_pending : CopyRecord
put_pending = record { from = 0; to = 90; len = 1; bytes = 9 ∷ [] }

abbrev pub under_way : Item
under_way = record {
  ptr = 200;
  regs = frame;
  ret = 0;
  regs_ptr = 1000;
  copies = (300, attached_copy) ∷ [];
}

abbrev pub finished_call : Item
finished_call = record { ptr = 100; regs = frame; ret = 4; regs_ptr = 1000; copies = [] }

-- A system call under way and a finished one in the fifo.
abbrev pub call_heap : Heap
call_heap p =
    if p == 200
    then some (syscall (block under_way))
    else if p == 300
    then some (copy attached_copy)
    else if p == 100
    then some (syscall (block finished_call))
    else none

abbrev pub call_state : State
call_state = record {
  heap = call_heap;
  memory = λ a. a % 256;
  frames = λ p. frame;
  recorded_process_pid = pos 5;
  current_syscall_record = 200;
  current_copy = null;
  recorded_syscalls = record { size = 2 ^ 15; bytes = pointer_bytes (finished_call ∷ []) };
  mutex_locked = false;
  wake_ups = 0;
  calls = 1000;
}

pub call_state-IsRep : IsRep call_state (ghost none (some under_way) (finished_call ∷ [])) []
call_state-IsRep = record {
  pending_at = refl;
  current_at = (refl, (omega arith, refl, (refl, (refl, omega arith), tt)));
  queue_at = ((omega arith, refl, tt), tt);
  fifo = refl;
  fifo_size = refl;
  fits = omega arith;
  low = λ p h. ground arith;
  exact = λ p. ground arith;
}

-- The same with a copy under way.
module _ (c : CopyRecord) where
  abbrev pub copy_state : State
  copy_state = record call_state {
    heap = λ p. if p == 400 then some (copy c) else call_heap p;
    current_copy = 400;
  }

  pub copy_state-IsRep :
      c.len ≤ 2 ^ 22
      → IsRep copy_state (ghost (some (400, c)) (some under_way) (finished_call ∷ [])) []
  copy_state-IsRep small = record {
    pending_at = (refl, refl, small);
    current_at = (refl, (omega arith, refl, (refl, (refl, omega arith), tt)));
    queue_at = ((omega arith, refl, tt), tt);
    fifo = refl;
    fifo_size = refl;
    fits = omega arith;
    low = λ p h. ground arith;
    exact = λ p. ground arith;
  }

-- No system call under way, and two finished ones.
abbrev pub idle_state : State
idle_state = record call_state {
  current_syscall_record = null;
  recorded_syscalls = record {
    size = 2 ^ 15;
    bytes = pointer_bytes (finished_call ∷ under_way ∷ []);
  };
}

pub idle_state-IsRep : IsRep idle_state (ghost none none (finished_call ∷ under_way ∷ [])) []
idle_state-IsRep = record {
  pending_at = refl;
  current_at = refl;
  queue_at = ((omega arith, refl, tt), ((omega arith, refl, (refl, (refl, omega arith), tt)), tt));
  fifo = refl;
  fifo_size = refl;
  fits = omega arith;
  low = λ p h. ground arith;
  exact = λ p. ground arith;
}

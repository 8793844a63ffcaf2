-- ===== src/Replayer/ShouldSimulate.antt =====
-- replayer/src/replayer/should_simulate/should_simulate.py: which system calls of a recording are
-- simulated, and which the tracee really makes.
pub mod Maps
pub mod Agree
use mathlib.Core.Option
use rr_python.Replayer.Loader.{SystemCall}
use rr_python.Common.{
  [], ◌∷◌, ◌++◌, zero, suc, true, false, none, some, List, Option, ℕ, Bool, drop, if◌then◌else◌,
  not, take, ◌==◌, ◌&&◌, ◌||◌,
}
use rr_python.Common.Signed.{ℤ, pos, negsuc, ◌==ℤ◌}

-- The numbers of replayer/src/replayer/system_consts.py.
abbrev pub open_sys_call : ℕ
open_sys_call = 2

abbrev pub close_sys_call : ℕ
close_sys_call = 3

abbrev pub mmap_sys_call : ℕ
mmap_sys_call = 9

abbrev pub mprotect_sys_call : ℕ
mprotect_sys_call = 10

abbrev pub munmap_sys_call : ℕ
munmap_sys_call = 11

abbrev pub brk_sys_call : ℕ
brk_sys_call = 12

abbrev pub socket_sys_call : ℕ
socket_sys_call = 41

abbrev pub openat_sys_call : ℕ
openat_sys_call = 257

-- `system_call.num`
abbrev pub num : SystemCall → ℕ
num s = s.registers.orig_rax

-- `next(... , None)` over the calls that match.
unfoldable pub find_first_syscall_matching :
    List SystemCall → (SystemCall → Bool) → Option SystemCall
find_first_syscall_matching [] matcher = none
find_first_syscall_matching (s ∷ ss) matcher =
    let rest = find_first_syscall_matching ss matcher in if matcher s then some s else rest

-- `reversed`
unfoldable pub reversed : List SystemCall → List SystemCall
reversed [] = []
reversed (s ∷ ss) = reversed ss ++ (s ∷ [])

unfoldable pub is_open_system_call_for_fd : ℤ → SystemCall → Bool
is_open_system_call_for_fd fd s =
    (num s == open_sys_call || num s == openat_sys_call || num s == socket_sys_call)
    && (s.return_value ==ℤ fd)

unfoldable pub is_close_system_call_for_fd : ℤ → SystemCall → Bool
is_close_system_call_for_fd fd s = (num s == close_sys_call) && (pos (s.registers.rdi) ==ℤ fd)

unfoldable pub is_mmap_system_call_for_fd : ℤ → SystemCall → Bool
is_mmap_system_call_for_fd fd s = (num s == mmap_sys_call) && (pos (s.registers.r8) ==ℤ fd)

-- `system_call is not None and system_call.num == MMAP_SYS_CALL`
abbrev pub is_mmap_found : Option SystemCall → Bool
is_mmap_found none = false
is_mmap_found (some s) = num s == mmap_sys_call

unfoldable pub fd_appears_in_mmap_before_close : ℤ → List SystemCall → ℕ → Bool
fd_appears_in_mmap_before_close fd system_calls system_call_index = is_mmap_found (
    find_first_syscall_matching (drop system_call_index system_calls)
      (λ s. is_close_system_call_for_fd fd s || is_mmap_system_call_for_fd fd s))

unfoldable pub mmap_appears_after_open_for_fd : ℤ → List SystemCall → ℕ → Bool
mmap_appears_after_open_for_fd fd system_calls system_call_index = is_mmap_found (
    find_first_syscall_matching (reversed (take system_call_index system_calls))
      (λ s. is_open_system_call_for_fd fd s || is_mmap_system_call_for_fd fd s))

unfoldable pub should_simulate_open_system_call : List SystemCall → SystemCall → ℕ → Bool
should_simulate_open_system_call system_calls s index =
    not (fd_appears_in_mmap_before_close (s.return_value) system_calls index)

unfoldable pub should_simulate_close_system_call : List SystemCall → SystemCall → ℕ → Bool
should_simulate_close_system_call system_calls s index =
    not (mmap_appears_after_open_for_fd (pos (s.registers.rdi)) system_calls index)

-- HANDLERS, by the number of the call; any other call is simulated.
unfoldable pub handle : List SystemCall → SystemCall → ℕ → Bool
handle system_calls s index =
    if num s == openat_sys_call || num s == open_sys_call
    then should_simulate_open_system_call system_calls s index
    else if num s == close_sys_call
    then should_simulate_close_system_call system_calls s index
    else not (
        num s == mmap_sys_call
        || num s == mprotect_sys_call
        || num s == brk_sys_call
        || num s == munmap_sys_call)

-- `l[i]`, where `none` is an IndexError.
abbrev pub get_elem? : {A : Type 0} → List A → ℕ → Option A
get_elem? [] i = none
get_elem? (x ∷ xs) zero = some x
get_elem? (x ∷ xs) (suc i) = get_elem? xs i

unfoldable pub should_simulate_system_call : List SystemCall → ℕ → Option Bool
should_simulate_system_call system_calls system_call_index =
    Option.map (λ s. handle system_calls s system_call_index)
      (get_elem? system_calls system_call_index)

-- ===== src/Tests/Linux.antt =====
-- A kernel that keeps its promises, to run the module's code on: memory is handed out at ascending
-- addresses, the reader's and the writer's memory never fail.
use rr_python.Common.Signed.{pos}
use Prim.Native.Nat.{min}
use rr_python.Common.Bytes.{write_bytes, read_bytes, write_bytes-IsWithin}
use rr_python.Recorder.State.{Heap, Object, null}
use rr_python.Recorder.Kernel.{IsKernel, Kernel, kmalloc_max, zero_size_ptr}
use rr_python.Common.{
  ◌++◌, true, false, none, some, Option, ℕ, if◌then◌else◌, Bool, ◌+◌, ◌≡◌, arith, leb, refl, ◌≢◌,
  ◌&&◌, ltb, take, ◌<◌, ◌-◌, ◌^◌, length, ◌≤◌, Bool-cases, inl, inr, drop, ◌==◌,
}

abbrev is_free : Option Object → Bool
is_free none = true
is_free (some o) = false

abbrev can_take : ℕ → Heap → ℕ → Bool
can_take c h n = leb n kmalloc_max && ltb c (2 ^ 32) && is_free (h (c + 17))

is_free-none : (o : Option Object) → is_free o ≡ true → o ≡ none
is_free-none none e = refl
is_free-none (some o) e = absurd (ground arith)

abbrev pub linux : Kernel
linux = record {
  kmalloc = λ c h n. if can_take c h n then c + 17 else null;
  copy_to_user = λ c m a bs. (write_bytes m a bs, 0);
  copy_from_user = λ c m a n. (read_bytes m a n, 0);
  kfifo_in = λ f bs. (
    record f { bytes = f.bytes ++ take (f.size - length f.bytes) bs },
    min (f.size - length f.bytes) (length bs),
  );
  kfifo_out = λ f n. (record f { bytes = drop n f.bytes }, take n f.bytes);
  kfifo_is_empty = λ f. length f.bytes == 0;
  kstrtoint_from_user = λ c m a n. some (pos (m a));
}

kmalloc_fresh :
    (c : ℕ) (h : Heap) (n : ℕ)
    → (if can_take c h n then c + 17 else null) ≢ null
    → (zero_size_ptr < (if can_take c h n then c + 17 else null))
      × ((if can_take c h n then c + 17 else null) < 2 ^ 64)
      × (h (if can_take c h n then c + 17 else null) ≡ none)
      × (n ≤ kmalloc_max)
kmalloc_fresh c h n ne = elim (Bool-cases (can_take c h n)) [
  | inl e ↦ rw e (omega arith, ground arith, is_free-none (h (c + 17)) (ground arith), ground arith)
  | inr e ↦ absurd (ne (rw e refl))
]

pub linux-IsKernel : IsKernel linux
linux-IsKernel = record {
  kmalloc_fresh = kmalloc_fresh;
  copy_to_user_whole = λ c m a bs e. refl;
  copy_to_user_within = λ c m a bs. write_bytes-IsWithin m a bs;
  copy_from_user_whole = λ c m a n e. refl;
  kfifo_in_lem = λ f bs. refl;
  kfifo_out_lem = λ f n. refl;
  kfifo_is_empty_lem = λ f. refl;
}

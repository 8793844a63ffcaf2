-- ===== src/Recorder/Kernel.antt =====
-- The Linux functions that the module calls. They are not code of the repository: the model takes
-- them as a parameter, and `IsKernel` states what their documentation promises.
pub mod Fifo
use Prim.Native.Nat.{min}
use rr_python.Common.{
  ℕ, ◌+◌, ◌-◌, ◌≤◌, ◌<◌, ◌^◌, ◌≡◌, ◌≢◌, Bool, Option, none, List, ◌++◌, take, drop, length, ◌==◌,
}
use rr_python.Common.Bytes.{Memory, IsWithin, write_bytes, read_bytes}
use rr_python.Common.Signed.{ℤ}
use rr_python.Recorder.State.{Ptr, null, Heap, Kfifo}

-- The first argument of a function that may fail is the number of the call: two calls may differ
-- though all else is equal.
pub record Kernel : Type 0 where
  -- `kmalloc(size, GFP_KERNEL)` at a size other than 0: an address, or NULL.
  pub kmalloc : ℕ → Heap → ℕ → Ptr
  -- `copy_to_user(to, from, n)`: memory afterwards, and how many bytes could not be copied.
  pub copy_to_user : ℕ → Memory → Ptr → List ℕ → Memory × ℕ
  -- `copy_from_user(to, from, n)`: the bytes, and how many could not be copied.
  pub copy_from_user : ℕ → Memory → Ptr → ℕ → List ℕ × ℕ
  -- `kfifo_in`: the fifo afterwards, and how many bytes went in.
  pub kfifo_in : Kfifo → List ℕ → Kfifo × ℕ
  -- `kfifo_out`: the fifo afterwards, and the bytes that came out.
  pub kfifo_out : Kfifo → ℕ → Kfifo × List ℕ
  pub kfifo_is_empty : Kfifo → Bool
  -- `kstrtoint_from_user(s, count, 10, res)`: what it stores in `res`, or `none` for an error.
  pub kstrtoint_from_user : ℕ → Memory → Ptr → ℕ → Option ℤ

-- Addresses up to this one are no blocks: NULL, and what `kmalloc(0)` returns.
abbrev pub zero_size_ptr : Ptr
zero_size_ptr = 16

-- The largest block that `kmalloc` hands out (KMALLOC_MAX_SIZE).
abbrev pub kmalloc_max : ℕ
kmalloc_max = 2 ^ 22

pub record IsKernel (k : Kernel) : Type 0 where
  pub kmalloc_fresh :
      (c : ℕ) (h : Heap) (n : ℕ)
      → k.kmalloc c h n ≢ null
      → (zero_size_ptr < k.kmalloc c h n)
        × (k.kmalloc c h n < 2 ^ 64)
        × (h (k.kmalloc c h n) ≡ none)
        × (n ≤ kmalloc_max)
  pub copy_to_user_whole :
      (c : ℕ) (m : Memory) (a : Ptr) (bs : List ℕ)
      → (k.copy_to_user c m a bs).1 ≡ 0
      → (k.copy_to_user c m a bs).0 ≡ write_bytes m a bs
  pub copy_to_user_within :
      (c : ℕ) (m : Memory) (a : Ptr) (bs : List ℕ)
      → IsWithin a (length bs) m (k.copy_to_user c m a bs).0
  pub copy_from_user_whole :
      (c : ℕ) (m : Memory) (a : Ptr) (n : ℕ)
      → (k.copy_from_user c m a n).1 ≡ 0
      → (k.copy_from_user c m a n).0 ≡ read_bytes m a n
  pub kfifo_in_lem :
      (f : Kfifo) (bs : List ℕ)
      → k.kfifo_in f bs ≡ (
        record f { bytes = f.bytes ++ take (f.size - length f.bytes) bs },
        min (f.size - length f.bytes) (length bs),
      )
  pub kfifo_out_lem :
      (f : Kfifo) (n : ℕ) → k.kfifo_out f n ≡ (record f { bytes = drop n f.bytes }, take n f.bytes)
  pub kfifo_is_empty_lem : (f : Kfifo) → k.kfifo_is_empty f ≡ (length f.bytes == 0)

-- ===== src/Recorder/Kernel/Fifo.antt =====
-- The fifo: what goes in whole, what does not go in, and what comes out.

use rr_python.Recorder.State.{Kfifo}
use rr_python.Recorder.Kernel.{Kernel, IsKernel}
use rr_python.Common.{
  ◌++◌, List, ℕ, length, ◌-◌, ◌≡◌, ◌∙◌, ◌≤◌, append-nil, ap₂, ap, take_of_le, arith, drop,
  drop-append, take, take-append,
}

module _ {k : Kernel} (is : IsKernel k) (f : Kfifo) where
  pub kfifo_in-whole :
      (bs : List ℕ)
      → length bs ≤ f.size - length f.bytes
      → k.kfifo_in f bs ≡ (record f { bytes = f.bytes ++ bs }, length bs)
  kfifo_in-whole bs room =
      is.kfifo_in_lem f bs
      ∙ ap₂ (λ t n. (record f { bytes = f.bytes ++ t }, n))
          (take_of_le (f.size - length f.bytes) bs room) (omega arith)

  pub kfifo_in-full : (bs : List ℕ) → f.size - length f.bytes ≡ 0 → k.kfifo_in f bs ≡ (f, 0)
  kfifo_in-full bs full =
      is.kfifo_in_lem f bs ∙ rw (full, append-nil) (ap (λ n. (f, n)) (omega arith))

  pub kfifo_out-append :
      (n : ℕ) (xs ys : List ℕ)
      → f.bytes ≡ xs ++ ys
      → n ≡ length xs
      → k.kfifo_out f n ≡ (record f { bytes = ys }, xs)
  kfifo_out-append n xs ys e e' =
      is.kfifo_out_lem f n
      ∙ ap₂ (λ r t. (record f { bytes = r }, t)) (ap (drop n) e ∙ drop-append n xs ys e')
          (ap (take n) e ∙ take-append n xs ys e')

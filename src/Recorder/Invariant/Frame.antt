-- ===== src/Recorder/Invariant/Frame.antt =====
-- Records in memory, and writes to blocks outside them.
use rr_python.Common.{
  ap₂, ℕ, ◌+◌, ◌%◌, ◌^◌, ◌≤◌, ◌<◌, ◌≡◌, refl, Option, none, some, List, [], ◌∷◌, ◌++◌, length,
  count, All, arith, ◌==◌, if◌then◌else◌, false, count-append, length-append, sym, append-nil, ◌*◌,
  ap, ◌∙◌, append_assoc,
}
use rr_python.Common.Bytes.{le}
use rr_python.Recorder.State.{
  Ptr, null, PtRegs, CopyRecord, SyscallRecord, syscall, copy, Object, Heap, write, live,
}
use rr_python.Recorder.Kernel.{kmalloc_max}

-- A copy record and its block's address.
abbrev pub Located : Type 0
Located = Ptr × CopyRecord

-- A system call's record: its address, its contents and its copies, each at an address.
pub record Item : Type 0 where
  pub ptr : Ptr
  pub regs : PtRegs
  pub ret : ℕ
  pub regs_ptr : Ptr
  pub copies : List Located

abbrev pub addresses : List Located → List Ptr
addresses [] = []
addresses ((p, c) ∷ cs) = p ∷ addresses cs

-- The block of an item.
abbrev pub block : Item → SyscallRecord
block it = record {
  userspace_regs = it.regs;
  ret = it.ret;
  userspace_regs_ptr = it.regs_ptr;
  amount_of_copies = length it.copies % 2 ^ 64;
  copies_to_user = addresses it.copies;
}

-- Its bytes are all there, and a block can hold them.
abbrev pub IsFilled : CopyRecord → Type 0
IsFilled c = (length c.bytes ≡ c.len) × (c.len ≤ kmalloc_max)

abbrev pub CopiesAt : Heap → List Located → Type 0
CopiesAt h [] = Unit {0}
CopiesAt h ((p, c) ∷ cs) = (h p ≡ some (copy c)) × IsFilled c × CopiesAt h cs

abbrev pub RecordAt : Heap → Item → Type 0
RecordAt h it = (it.ptr < 2 ^ 64) × (h it.ptr ≡ some (syscall (block it))) × CopiesAt h it.copies

abbrev pub PendingAt : Heap → Ptr → Option Located → Type 0
PendingAt h p none = p ≡ null
PendingAt h p (some c) = (p ≡ c.0) × (h c.0 ≡ some (copy c.1)) × (c.1.len ≤ kmalloc_max)

abbrev pub CurrentAt : Heap → Ptr → Option Item → Type 0
CurrentAt h p none = p ≡ null
CurrentAt h p (some it) = (p ≡ it.ptr) × RecordAt h it

abbrev pub pointer_bytes : List Item → List ℕ
pointer_bytes [] = []
pointer_bytes (it ∷ q) = le 8 it.ptr ++ pointer_bytes q

-- What the recorder holds: a copy under way, a system call under way, the finished records.
pub record Ghost : Type 0 where
  pub pending : Option Located
  pub current : Option Item
  pub queue : List Item

abbrev pub ghost : Option Located → Option Item → List Item → Ghost
ghost pending current queue = record { pending = pending; current = current; queue = queue }

-- How often an address is named.
abbrev pub count_item : Ptr → Item → ℕ
count_item p it = (if p == it.ptr then 1 else 0) + count p (addresses it.copies)

abbrev pub count_pending : Ptr → Option Located → ℕ
count_pending p none = 0
count_pending p (some c) = if p == c.0 then 1 else 0

abbrev pub count_current : Ptr → Option Item → ℕ
count_current p none = 0
count_current p (some it) = count_item p it

abbrev pub count_queue : Ptr → List Item → ℕ
count_queue p [] = 0
count_queue p (it ∷ q) = count_item p it + count_queue p q

abbrev pub count_ghost : Ptr → Ghost → ℕ
count_ghost p g = count_pending p g.pending + count_current p g.current + count_queue p g.queue

pub count_queue-append :
    (p : Ptr) (q r : List Item) → count_queue p (q ++ r) ≡ count_queue p q + count_queue p r
count_queue-append p [] r = omega arith
count_queue-append p (it ∷ q) r = omega (arith, count_queue-append p q r)

pub addresses-append : (xs ys : List Located) → addresses (xs ++ ys) ≡ addresses xs ++ addresses ys
addresses-append [] ys = refl
addresses-append ((p, c) ∷ xs) ys = rw (addresses-append xs ys)

pub write_self : (h : Heap) (p : Ptr) (o : Option Object) → write h p o p ≡ o
unfolding write
write_self h p o = ground arith

pub live-write :
    (h : Heap) (p : Ptr) (o : Option Object) (q : Ptr)
    → live (write h p o q) ≡ (if q == p then live o else live (h q))
unfolding write
live-write h p o q = ground arith

module _ (h : Heap) (p : Ptr) (o : Option Object) where
  pub write_ne : (q : Ptr) → (q == p) ≡ false → write h p o q ≡ h q
  unfolding write
  write_ne q e = rw e

  pub CopiesAt-write :
      (cs : List Located) → CopiesAt h cs → count p (addresses cs) ≡ 0 → CopiesAt (write h p o) cs
  unfolding write
  CopiesAt-write [] at out = tt
  CopiesAt-write ((q, c) ∷ cs) at out = (ground arith, at.1, CopiesAt-write cs at.2 (omega arith))

  pub RecordAt-write : (it : Item) → RecordAt h it → count_item p it ≡ 0 → RecordAt (write h p o) it
  unfolding write
  RecordAt-write it at out = (at.0, ground arith, CopiesAt-write it.copies at.2 (omega arith))

  pub QueueAt-write :
      (q : List Item) → All (RecordAt h) q → count_queue p q ≡ 0 → All (RecordAt (write h p o)) q
  QueueAt-write [] at out = tt
  QueueAt-write (it ∷ q) at out =
      (RecordAt-write it at.0 (omega arith), QueueAt-write q at.1 (omega arith))

  pub PendingAt-write :
      (r : Ptr) (c : Option Located)
      → PendingAt h r c
      → count_pending p c ≡ 0
      → PendingAt (write h p o) r c
  unfolding write
  PendingAt-write r none at out = at
  PendingAt-write r (some c) at out = (at.0, ground arith, at.2)

  pub CurrentAt-write :
      (r : Ptr) (it : Option Item)
      → CurrentAt h r it
      → count_current p it ≡ 0
      → CurrentAt (write h p o) r it
  CurrentAt-write r none at out = at
  CurrentAt-write r (some it) at out = (at.0, RecordAt-write it at.1 out)

pub CopiesAt-append :
    (h : Heap) (xs ys : List Located) → CopiesAt h xs → CopiesAt h ys → CopiesAt h (xs ++ ys)
CopiesAt-append h [] ys hx hy = hy
CopiesAt-append h ((p, c) ∷ xs) ys hx hy = (hx.0, hx.1, CopiesAt-append h xs ys hx.2 hy)

-- The item with one more copy at the end.
abbrev pub attached : Item → Located → Item
attached it c = record it { copies = it.copies ++ (c ∷ []) }

-- Its block differs by the count and the list.
pub block-attached :
    (it : Item) (p : Ptr) (c : CopyRecord)
    → record (block it) {
      amount_of_copies = (length it.copies % 2 ^ 64 + 1) % 2 ^ 64;
      copies_to_user = addresses it.copies ++ (p ∷ []);
    }
      ≡ block (attached it (p, c))
block-attached it p c =
    ap₂ (λ n l. record (block it) { amount_of_copies = n; copies_to_user = l })
      (omega (arith, length-append {0} it.copies ((p, c) ∷ [])))
      (sym (addresses-append it.copies ((p, c) ∷ [])))

pub count-attached :
    (q : Ptr) (it : Item) (p : Ptr) (c : CopyRecord)
    → count_item q (attached it (p, c)) ≡ count_item q it + (if q == p then 1 else 0)
count-attached q it p c =
    rw (addresses-append it.copies ((p, c) ∷ []), count-append q (addresses it.copies) (p ∷ []))
      (omega arith)

pub pointer_bytes-append :
    (q : List Item) (it : Item) → pointer_bytes (q ++ (it ∷ [])) ≡ pointer_bytes q ++ le 8 it.ptr
pointer_bytes-append [] it = append-nil (le 8 it.ptr)
pointer_bytes-append (i ∷ q) it =
    ap (λ b. le 8 i.ptr ++ b) (pointer_bytes-append q it)
    ∙ sym (append_assoc (le 8 i.ptr) (pointer_bytes q) (le 8 it.ptr))

pub length-pointer_bytes : (q : List Item) → length (pointer_bytes q) ≡ 8 * length q
length-pointer_bytes [] = refl
length-pointer_bytes (it ∷ q) = omega (arith, length-pointer_bytes q)

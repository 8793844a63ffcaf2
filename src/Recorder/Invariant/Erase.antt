-- ===== src/Recorder/Invariant/Erase.antt =====
-- Freeing a whole record: its copies, then its own block.
use rr_python.Common.{[], none, ==_iff, if◌then◌else◌}
use rr_python.Common.{
  List, count, All, Option, ◌<◌, ◌∷◌, ◌≡◌, none, ◌+◌, Bool-cases, arith, refl, ◌≤◌, some, ◌==◌, ◌∙◌,
  inl, true, ap, inr,
}
use rr_python.Recorder.Invariant.Frame.{
  Item, Located, RecordAt, addresses, CopiesAt, CurrentAt, PendingAt, count_item, count_current,
  count_pending, count_queue, write_ne, write_self, live-write,
}
use rr_python.Recorder.State.{Heap, Ptr, write, live}

unfoldable pub erase : Heap → List Ptr → Heap
erase h [] = h
erase h (p ∷ ps) = erase (write h p none) ps

abbrev pub pointers : Item → List Ptr
pointers it = it.ptr ∷ addresses it.copies

abbrev pub erase_item : Heap → Item → Heap
erase_item h it = write (erase h (addresses it.copies)) it.ptr none

pub count-pointers : (q : Ptr) (it : Item) → count q (pointers it) ≡ count_item q it
count-pointers q it = refl

pub erase_out : (h : Heap) (ps : List Ptr) (q : Ptr) → count q ps ≡ 0 → erase h ps q ≡ h q
unfolding erase
erase_out h [] q out = refl
erase_out h (p ∷ ps) q out =
    erase_out (write h p none) ps q (omega arith) ∙ write_ne h p none q (ground arith)

pub write-none_self : (h : Heap) (p q : Ptr) → (q == p) ≡ true → write h p none q ≡ none
write-none_self h p q same = ap (write h p none) ((==_iff q p).0 same) ∙ write_self h p none

pub write-none : (h : Heap) (p q : Ptr) → h q ≡ none → write h p none q ≡ none
write-none h p q e = elim (Bool-cases (q == p)) [
  | inl same ↦ write-none_self h p q same
  | inr other ↦ write_ne h p none q other ∙ e
]

pub erase-none : (h : Heap) (ps : List Ptr) (q : Ptr) → h q ≡ none → erase h ps q ≡ none
unfolding erase
erase-none h [] q e = e
erase-none h (p ∷ ps) q e = erase-none (write h p none) ps q (write-none h p q e)

pub erase_in : (h : Heap) (ps : List Ptr) (q : Ptr) → 0 < count q ps → erase h ps q ≡ none
unfolding erase
erase_in h [] q named = absurd (omega arith)
erase_in h (p ∷ ps) q named = elim (Bool-cases (q == p)) [
  | inl same ↦ erase-none (write h p none) ps q (write-none_self h p q same)
  | inr other ↦ erase_in (write h p none) ps q (ground arith)
]

-- What is named outside the erased addresses stays.
module _ (h : Heap) where
  pub CopiesAt-erase :
      (ps : List Ptr) (cs : List Located)
      → CopiesAt h cs
      → ((q : Ptr) → count q ps + count q (addresses cs) ≤ 1)
      → CopiesAt (erase h ps) cs
  CopiesAt-erase ps [] at apart = tt
  CopiesAt-erase ps ((p, c) ∷ cs) at apart = (
    erase_out h ps p (ground (arith, apart p)) ∙ at.0,
    at.1,
    CopiesAt-erase ps cs at.2 (λ q. ground (arith, apart q)),
  )

  pub RecordAt-erase :
      (ps : List Ptr) (it : Item)
      → RecordAt h it
      → ((q : Ptr) → count q ps + count_item q it ≤ 1)
      → RecordAt (erase h ps) it
  RecordAt-erase ps it at apart = (
    at.0,
    erase_out h ps it.ptr (ground (arith, apart it.ptr)) ∙ at.1,
    CopiesAt-erase ps it.copies at.2 (λ q. omega (arith, apart q)),
  )

  pub QueueAt-erase :
      (ps : List Ptr) (queue : List Item)
      → All (RecordAt h) queue
      → ((q : Ptr) → count q ps + count_queue q queue ≤ 1)
      → All (RecordAt (erase h ps)) queue
  QueueAt-erase ps [] at apart = tt
  QueueAt-erase ps (it ∷ queue) at apart = (
    RecordAt-erase ps it at.0 (λ q. omega (arith, apart q)),
    QueueAt-erase ps queue at.1 (λ q. omega (arith, apart q)),
  )

  pub PendingAt-erase :
      (ps : List Ptr) (p : Ptr) (c : Option Located)
      → PendingAt h p c
      → ((q : Ptr) → count q ps + count_pending q c ≤ 1)
      → PendingAt (erase h ps) p c
  PendingAt-erase ps p none at apart = at
  PendingAt-erase ps p (some c) at apart =
      (at.0, erase_out h ps c.0 (ground (arith, apart c.0)) ∙ at.1, at.2)

  pub CurrentAt-erase :
      (ps : List Ptr) (p : Ptr) (it : Option Item)
      → CurrentAt h p it
      → ((q : Ptr) → count q ps + count_current q it ≤ 1)
      → CurrentAt (erase h ps) p it
  CurrentAt-erase ps p none at apart = at
  CurrentAt-erase ps p (some it) at apart = (at.0, RecordAt-erase ps it at.1 apart)

pub erase_item-none : (h : Heap) (it : Item) (q : Ptr) → h q ≡ none → erase_item h it q ≡ none
erase_item-none h it q e =
    write-none (erase h (addresses it.copies)) it.ptr q (erase-none h (addresses it.copies) q e)

-- Exactly the blocks of the item are gone.
pub live-erase_item :
    (h : Heap) (it : Item) (q : Ptr)
    → live (erase_item h it q) ≡ (if count_item q it == 0 then live (h q) else 0)
live-erase_item h it q =
    let ps = addresses it.copies in
    ground (arith, live-write (erase h ps) it.ptr none q, erase_out h ps q, erase_in h ps q)

-- ===== src/Recorder/Session/Recordings.antt =====
-- What the recorder's data stand for after the return handlers.
use rr_python.Recorder.Image.{copies_bytes, image, images, dump_bytes, copy_bytes}
use rr_python.Recorder.Session.Spec.{
  concluded, recording, call_of, enqueued, queue_max, call_bytes, call_image, call_images,
}
use rr_python.Recorder.State.{CopyRecord, Ptr, PtRegs}
use rr_python.Recorder.Invariant.{Ghost, Item, Located, ghost, attached, block}
use mathlib.Core.Option
use rr_python.Common.{
  [], ◌∷◌, ◌++◌, true, false, none, some, inl, inr, map, Option, ◌≡◌, ◌*◌, ◌^◌, length, ◌<◌, ◌+◌,
  ◌≤◌, if◌then◌else◌, leb, ◌==◌, arith, Bool-cases, length-map, ap, ap₂, sym, map-append, refl,
  List,
}

-- The copy and the call of a recording.
abbrev pub copy_of : Option Located → Option CopyRecord
copy_of o = Option.map (λ (l : Located). l.1) o

-- A return handler's recording.
pub concluded-recording :
    (g : Ghost) (it : Item) (p : Ptr) (c : CopyRecord) (regs : PtRegs)
    → concluded (recording g) (call_of it) c regs
      ≡ recording (ghost none (some (if regs.ax == 0 then attached it (p, c) else it)) g.queue)
concluded-recording g it p c regs = elim (Bool-cases (regs.ax == 0)) [
  | inl done ↦ rw done (
      ap
        (λ cs. record {
          pending = none;
          current = some (record (call_of it) { copies = cs });
          queue = map call_of g.queue;
        })
        (sym (map-append (λ (l : Located). l.1) it.copies ((p, c) ∷ []))))
  | inr failed ↦ rw failed refl
]

pub queued-recording :
    (g : Ghost) (it : Item) (pending : Option Located)
    → g.pending ≡ pending
    → 8 * length g.queue + 8 ≤ 2 ^ 15
    → enqueued (recording g) (call_of it) ≡ recording (ghost pending none (g.queue ++ (it ∷ [])))
queued-recording g it pending e room =
    let few : leb (length (map call_of g.queue) + 1) queue_max ≡ true =
      ground (arith, length-map call_of g.queue) in
    rw few (
      ap₂ (λ o q. record { pending = o; current = none; queue = q }) (ap copy_of e)
        (sym (map-append call_of g.queue (it ∷ []))))

pub dropped-recording :
    (g : Ghost) (it : Item) (pending : Option Located)
    → g.pending ≡ pending
    → 2 ^ 15 < 8 * length g.queue + 8
    → enqueued (recording g) (call_of it) ≡ recording (ghost pending none g.queue)
dropped-recording g it pending e full =
    let many : leb (length (map call_of g.queue) + 1) queue_max ≡ false =
      ground (arith, length-map call_of g.queue) in
    rw many
      (ap (λ o. record { pending = o; current = none; queue = map call_of g.queue }) (ap copy_of e))

-- The dumps of a record of the recorder and of the call that it stands for.
copies_bytes-call_bytes :
    (cs : List Located) → copies_bytes cs ≡ call_bytes (map (λ (l : Located). l.1) cs)
unfolding copies_bytes call_bytes
copies_bytes-call_bytes [] = refl
copies_bytes-call_bytes ((p, c) ∷ cs) = ap (λ t. copy_bytes c ++ t) (copies_bytes-call_bytes cs)

pub image-call_image : (it : Item) → image it ≡ call_image (call_of it)
unfolding image call_image dump_bytes
image-call_image it =
    rw (length-map (λ (l : Located). l.1) it.copies)
      (ap (λ t. dump_bytes (block it) ++ t) (copies_bytes-call_bytes it.copies))

pub images-call_images : (q : List Item) → images q ≡ call_images (map call_of q)
unfolding images call_images
images-call_images [] = refl
images-call_images (it ∷ q) = ap₂ (λ t u. t ++ u) (image-call_image it) (images-call_images q)

-- ===== src/Recorder/Image.antt =====
-- The layout of a dumped record: struct syscall_dump of recorder/include/syscall_dumper.h, followed
-- by its copies, each a struct copy_record with its bytes.
use rr_python.Recorder.Invariant.{Item, Located, block}
use rr_python.Common.{ℕ, List, [], ◌∷◌, ◌++◌, ◌+◌, ◌≡◌, length, arith, ◌≤◌, length-append}
use rr_python.Common.Bytes.{le}
use rr_python.Recorder.State.{PtRegs, CopyRecord, SyscallRecord}

-- The registers in memory order.
abbrev pub words : PtRegs → List ℕ
words r =
    r.r15 ∷ r.r14 ∷ r.r13 ∷ r.r12 ∷ r.bp ∷ r.bx ∷ r.r11 ∷ r.r10 ∷ r.r9 ∷ r.r8 ∷ r.ax ∷ r.cx ∷ r.dx
    ∷ r.si ∷ r.di ∷ r.orig_ax ∷ r.ip ∷ r.cs ∷ r.flags ∷ r.sp ∷ r.ss ∷ []

unfoldable pub word_bytes : List ℕ → List ℕ
word_bytes [] = []
word_bytes (w ∷ ws) = le 8 w ++ word_bytes ws

-- sizeof(struct syscall_dump): 21 registers, the return value and the count.
abbrev pub sizeof_syscall_dump : ℕ
sizeof_syscall_dump = 184

-- `struct copy_record` with its flexible array.
unfoldable pub copy_bytes : CopyRecord → List ℕ
copy_bytes c = le 8 c.from ++ (le 8 c.to ++ (le 8 c.len ++ c.bytes))

-- `struct syscall_dump` without its flexible array.
unfoldable pub dump_bytes : SyscallRecord → List ℕ
dump_bytes r = word_bytes (words r.userspace_regs) ++ (le 8 r.ret ++ le 8 r.amount_of_copies)

pub length-copy_bytes : (c : CopyRecord) → length (copy_bytes c) ≡ 24 + length c.bytes
unfolding copy_bytes
length-copy_bytes c = omega arith

pub length-dump_bytes : (r : SyscallRecord) → length (dump_bytes r) ≡ sizeof_syscall_dump
unfolding dump_bytes word_bytes
length-dump_bytes r = omega arith

-- The dump of a whole record.
unfoldable pub copies_bytes : List Located → List ℕ
copies_bytes [] = []
copies_bytes ((p, c) ∷ cs) = copy_bytes c ++ copies_bytes cs

unfoldable pub image : Item → List ℕ
image it = dump_bytes (block it) ++ copies_bytes it.copies

unfoldable pub images : List Item → List ℕ
images [] = []
images (it ∷ q) = image it ++ images q

pub length-images-front : (q p : List Item) → length (images q) ≤ length (images (q ++ p))
unfolding images
length-images-front [] p = omega arith
length-images-front (it ∷ q) p = omega (
  arith,
  length-images-front q p,
  length-append (image it) (images q),
  length-append (image it) (images (q ++ p)),
)

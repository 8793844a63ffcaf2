-- ===== src/Python.antt =====
-- What the Python extensions in C share: how a function that Python calls ends, what its arguments
-- are, and the system calls that fail with an errno. Python and Linux are not code of the
-- repository; what the extensions use of them is a parameter where it is used.
use rr_python.Common.{ℕ, List, Option, none, some, ◌≡◌, ◌⊎◌, inl, inr, refl}
use rr_python.Common.Signed.{ℤ}

-- An argument that Python passes.
pub data Object : Type 0 where
  int : ℤ → Object
  bytes : List ℕ → Object
  other : Object

-- The text of an exception: `strerror(n)`, or what the code writes out.
pub data Message : Type 0 where
  strerror : ℤ → Message
  stopped_by_signal : Message
  trace_object_set : Message

-- The exception that is set when a function returns NULL: the one that a function of Python has
-- set, or one that the extension makes. The last three are raised by Python code of the replayer.
pub data Exception : Type 0 where
  already_set : Exception
  system_error : Message → Exception
  value_error : Message → Exception
  index_error : Exception
  unexpected_sys_call : (expected received : ℤ) → Exception
  unexpected_return_value : (expected received : ℤ) → Exception

-- How a function ends that returns a `PyObject *`. A fault is a use of memory that is not there.
pub data Result (A : Type 0) : Type 0 where
  object : A → Result A
  null : Exception → Result A
  fault : Result A

-- A system call that fails returns -1 and leaves its errno.
pub data Reply (A : Type 0) : Type 0 where
  done : A → Reply A
  failed : (errno : ℕ) → Reply A

-- A function of an extension: it changes a state `W` and returns.
abbrev pub Py : Type 0 → Type 0 → Type 0
Py W A = W → W × Result A

module _ {W A B : Type 0} where
  abbrev pub and_then : W × Result A → (A → Py W B) → W × Result B
  and_then (w, object a) k = k a w
  and_then (w, null e) k = (w, null e)
  and_then (w, fault) k = (w, fault)

  infixl 5 ◌>>=◌ ◌>>◌
  abbrev pub ◌>>=◌ : Py W A → (A → Py W B) → Py W B
  m >>= k = λ w. and_then (m w) k

  abbrev pub ◌>>◌ : Py W A → Py W B → Py W B
  m >> n = m >>= λ _. n

module _ {W A : Type 0} where
  abbrev pub pure : A → Py W A
  pure a w = (w, object a)

  abbrev pub raise : Exception → Py W A
  raise e w = (w, null e)

  -- `PyArg_ParseTuple` leaves its values, or sets an exception and returns 0.
  abbrev pub parsed : Option A → Py W A
  parsed none = raise already_set
  parsed (some a) = pure a

-- `Py_BuildValue("")`, which is None.
abbrev pub py_none : {W : Type 0} → Py W (Unit {0})
py_none = pure tt

pub Reply-cases : {A : Type 0} (r : Reply A) → ((a : A) × (r ≡ done a)) ⊎ ((n : ℕ) × (r ≡ failed n))
Reply-cases (done a) = inl (a, refl)
Reply-cases (failed n) = inr (n, refl)

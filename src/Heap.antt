-- ===== src/Heap.antt =====
-- The heap that move/gc.c hands out, and the reads and writes of move/object.h.
pub mod Laws
pub mod Writes
use move.Base.{
  ℕ, zero, suc, ◌+◌, ◌-◌, ◌*◌, ◌<◌, ◌≡◌, Bool, true, false, Option, none, some, List, [], ◌∷◌, ◌++◌,
  ltb, ◌==◌, if◌then◌else◌, length, get_elem?, set, ℤ,
}
use move.Value.{Value, null, num, singleton, ref, ObjectRec, Body, object, bvector, ovector, vector}

-- `fresh` is the next address that malloc returns, `all_objects` the chain of gc.c, newest first,
-- and `symtab` the global symbol table.
pub record Heap : Type 0 where
  pub cell : ℕ → Option Body
  pub fresh : ℕ
  pub all_objects : List ℕ
  pub curr_heapsize : ℕ
  pub symtab : Value

-- `fault` is a memory fault or other undefined behaviour; `exit` ends the process.
pub data Run (A : Type 0) : Type 0 where
  ok : A → Heap → Run A
  fault : Run A
  exit : ℕ → Run A
  out_of_fuel : Run A

abbrev pub Cmd : Type 0 → Type 0
Cmd A = Heap → Run A

abbrev pub pure : {A : Type 0} → A → Cmd A
pure a h = ok a h

abbrev pub stop : {A : Type 0} → Cmd A
stop h = fault

abbrev pub terminate : {A : Type 0} → ℕ → Cmd A
terminate n h = exit n

abbrev pub no_fuel : {A : Type 0} → Cmd A
no_fuel h = out_of_fuel

abbrev pub get_heap : Cmd Heap
get_heap h = ok h h

module _ {A B : Type 0} where
  abbrev pub and_then : Run A → (A → Cmd B) → Run B
  and_then (ok a h) k = k a h
  and_then fault k = fault
  and_then (exit n) k = exit n
  and_then out_of_fuel k = out_of_fuel

  infixl 5 ◌>>=◌ ◌>>◌
  abbrev pub ◌>>=◌ : Cmd A → (A → Cmd B) → Cmd B
  ◌>>=◌ m k h = and_then (m h) k

  abbrev pub ◌>>◌ : Cmd A → Cmd B → Cmd B
  ◌>>◌ m k h = and_then (m h) λ _. k

abbrev pub of_option : {A : Type 0} → Option A → Cmd A
of_option none h = fault
of_option (some a) h = ok a h

abbrev pub update : (ℕ → Option Body) → ℕ → Option Body → ℕ → Option Body
update f p b q = if p == q then b else f q

-- The body behind a pointer; NULL, a tagged value and a dangling pointer fault.
unfoldable pub body_of : Value → Cmd Body
body_of (ref p) h = of_option (h.cell p) h
body_of _ h = fault

unfoldable pub put_body : ℕ → Body → Cmd (Unit {0})
put_body p b h = ok tt (record h { cell = update h.cell p (some b) })

abbrev pub elements : Body → Option (List Value)
elements (vector xs) = some xs
elements (ovector f t xs) = some xs
elements _ = none

abbrev pub with_elements : Body → List Value → Body
with_elements (ovector f t xs) ys = ovector f t ys
with_elements (vector xs) ys = vector ys
with_elements b ys = b

-- AT(x, i) on a vector or an opaque vector; out of bounds it faults.
unfoldable pub at : Value → ℕ → Cmd Value
unfolding body_of
at x i = do b ← body_of x; xs ← of_option (elements b); of_option (get_elem? xs i)

-- ATPUT(x, i, v).
unfoldable pub atput : Value → ℕ → Value → Cmd (Unit {0})
unfolding body_of put_body
atput (ref p) i v = do
  b ← body_of (ref p)
  xs ← of_option (elements b)
  if ltb i (length xs) then put_body p (with_elements b (set xs i v)) else stop
atput _ i v = stop

-- The `length` field of the header.
abbrev pub body_length : Body → ℕ
body_length (object o) = 0
body_length (bvector bs) = length bs
body_length (ovector f t xs) = length xs
body_length (vector xs) = length xs

unfoldable pub length_of : Value → Cmd ℕ
unfolding body_of
length_of x = do b ← body_of x; pure (body_length b)

-- NUM(x); on anything but a number the bits have no meaning that the code relies on.
unfoldable pub num_of : Value → Cmd ℤ
num_of (num a) h = ok a h
num_of _ h = fault

-- `(OBJECT) x` followed by a field access.
unfoldable pub object_of : Value → Cmd ObjectRec
unfolding body_of
object_of x = do b ← body_of x; elim b [ object o ↦ pure o | _ ↦ stop ]

unfoldable pub put_object : Value → ObjectRec → Cmd (Unit {0})
unfolding put_body
put_object (ref p) o = put_body p (object o)
put_object _ o = stop

abbrev pub is_object : Value → Heap → Bool
is_object (ref p) h = elim (h.cell p) [
  | some b ↦ elim b [ object o ↦ true | _ ↦ false ]
  | none ↦ false
]
is_object _ h = false

abbrev pub is_bvector : Value → Heap → Bool
is_bvector (ref p) h = elim (h.cell p) [
  | some b ↦ elim b [ bvector o ↦ true | _ ↦ false ]
  | none ↦ false
]
is_bvector _ h = false

abbrev pub is_vector : Value → Heap → Bool
is_vector (ref p) h = elim (h.cell p) [
  | some b ↦ elim b [ vector o ↦ true | _ ↦ false ]
  | none ↦ false
]
is_vector _ h = false

abbrev pub is_ovector : Value → Heap → Bool
is_ovector (ref p) h = elim (h.cell p) [
  | some b ↦ elim b [ ovector f t xs ↦ true | _ ↦ false ]
  | none ↦ false
]
is_ovector _ h = false

-- OBJECTP, BVECTORP, VECTORP and OVECTORP read the header behind the pointer.
abbrev pub test : (Heap → Bool) → Cmd Bool
test f h = ok (f h) h

-- TAGGEDP.
abbrev pub tagged : Value → Bool
tagged (num a) = true
tagged (singleton n) = true
tagged _ = false

abbrev pub is_null : Value → Bool
is_null null = true
is_null _ = false

abbrev pub is_num : Value → Bool
is_num (num a) = true
is_num _ = false

-- Sizes in bytes on a 64-bit machine: `sizeof(Object)`, and the headers of the vectors.
abbrev pub object_length_bytes : Body → ℕ
object_length_bytes (object o) = 88
object_length_bytes (bvector bs) = 16 + length bs
object_length_bytes (ovector f t xs) = 24 + length xs * 8
object_length_bytes (vector xs) = 16 + length xs * 8

-- getmem, with the fields that its caller fills in. The size is an `int` and the length in the header
-- has 29 bits; the bodies that are made here are taken to be shorter (see max_cells of Alloc for the
-- lengths that are tested).
unfoldable pub getmem : Body → Cmd Value
getmem b h = ok (ref h.fresh) (record h {
  cell = update h.cell h.fresh (some b);
  fresh = suc h.fresh;
  all_objects = h.fresh ∷ h.all_objects;
  curr_heapsize = h.curr_heapsize + object_length_bytes b;
})
